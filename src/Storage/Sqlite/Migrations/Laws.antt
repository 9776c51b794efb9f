-- ===== src/Storage/Sqlite/Migrations/Laws.antt =====
-- What `migrate` has done when it returns, with an error or without.
use mathlib.Core.List.{Perm, append_assoc, append-nil}
use domainturva.Prelude.{
  ◌&&◌, false, String, ◌==◌, ◌≡◌, refl, sym, ◌∙◌, ap, not, Option, none, some, List, [], ◌∷◌, ◌++◌,
  map, filter, any-append, Result, ok, ◌>>=◌, Result-cases, arith, Bool-cases, inl, inr, All,
  All-map,
}
use domainturva.Storage.Sqlite.Migrations.Order.{
  IsOrdered, sort_by_name-perm, sort_by_name-IsOrdered,
}
use domainturva.Storage.Sqlite.Migrations.{
  is_sql, sort_by_name, read_versions, Entry, Schema, Opening, Round, is_applied, or_return,
  apply_script, apply_migration, apply_migrations, migration_files, migrate,
}

-- What longer versions do not list, those at their front do not.
earlier_version :
    (versions more : List String) (f : Entry)
    → is_applied (versions ++ more) f ≡ false
    → is_applied versions f ≡ false
earlier_version versions more f h = ground (arith, any-append (λ v. v == f.name) versions more)

module _ {D : Type 0} (exec_script : String → D → Result D) (round : String → Round) where
  -- The scripts of some files, one after the other.
  abbrev pub run_scripts : List Entry → D → Result D
  run_scripts [] tables = ok tables
  run_scripts (e ∷ es) tables =
      apply_script exec_script round e tables >>= λ tables'. run_scripts es tables'

  -- Some of the pending files have been applied, in their order, and each is listed as a version, which
  -- it was not before. Where there is no error, none is left.
  pub record IsMigrated (pending : List Entry) (db : Schema D) (out : Schema D × Option String)
      : Type 0 where
    pub done : List Entry
    pub left : List Entry
    pub split : pending ≡ done ++ left
    pub scripts : run_scripts done db.tables ≡ ok out.0.tables
    pub versions : out.0.versions ≡ db.versions ++ map (λ e. e.name) done
    pub were_new : All (λ e. is_applied db.versions e ≡ false) done
    pub complete : out.1 ≡ none → left ≡ []

  apply_migration-eq-ok :
      (e : Entry) (db db' : Schema D)
      → apply_migration exec_script round e db ≡ ok db'
      → (apply_script exec_script round e db.tables ≡ ok db'.tables)
        × (db'.versions ≡ db.versions ++ e.name ∷ [])
        × (is_applied db.versions e ≡ false)
  unfolding apply_migration
  apply_migration-eq-ok e db db' h = ground arith

  stopped :
      (pending : List Entry) (db : Schema D) (message : String)
      → IsMigrated pending db (db, some message)
  stopped pending db message = record {
    done = [];
    left = pending;
    split = refl;
    scripts = refl;
    versions = sym (append-nil db.versions);
    were_new = tt;
    complete = λ e. cc;
  }

  -- One file, before those that the rest of the loop applies.
  one_more :
      (e : Entry) (db db' : Schema D) (pending : List Entry) (out : Schema D × Option String)
      → (apply_script exec_script round e db.tables ≡ ok db'.tables)
        × (db'.versions ≡ db.versions ++ e.name ∷ [])
        × (is_applied db.versions e ≡ false)
      → IsMigrated pending db' out
      → IsMigrated (e ∷ pending) db out
  one_more e db db' pending out (script, version, new) m = record {
    done = e ∷ m.done;
    left = m.left;
    split = ap (λ es. e ∷ es) m.split;
    scripts = rw script m.scripts;
    versions =
        m.versions ∙ rw version (append_assoc db.versions (e.name ∷ []) (map (λ f. f.name) m.done));
    were_new = (
      new,
      All-map _ _ (λ f k. earlier_version db.versions (e.name ∷ []) f (rw version at k)) m.done
          m.were_new,
    );
    complete = m.complete;
  }

  apply_migrations-IsMigrated :
      (applied : List String) (es : List Entry) (db : Schema D)
      → IsMigrated
          (filter (λ e. not (is_applied applied e)) es)
          db
          (apply_migrations exec_script round applied es db)
  unfolding apply_migrations
  apply_migrations-IsMigrated applied [] db = record {
    done = [];
    left = [];
    split = refl;
    scripts = refl;
    versions = sym (append-nil db.versions);
    were_new = tt;
    complete = λ e. refl;
  }
  apply_migrations-IsMigrated applied (e ∷ es) db = elim (Bool-cases (is_applied applied e)) [
    | inl old ↦ rw old (apply_migrations-IsMigrated applied es db)
    | inr new ↦ elim (Result-cases (apply_migration exec_script round e db)) [
      | inl (message, failed) ↦ rw (new, failed) (stopped _ db message)
      | inr (db', done) ↦
          rw (new, done)
            (one_more e db db' _ _ (apply_migration-eq-ok e db db' done)
              (apply_migrations-IsMigrated applied es db'))
    ]
  ]

  or_return-IsMigrated :
      (context : String) (fault : Option String) (pending : List Entry) (db : Schema D)
      (next : Schema D × Option String)
      → IsMigrated pending db next
      → IsMigrated pending db (or_return context fault db next)
  or_return-IsMigrated context (some message) pending db next h = stopped pending db _
  or_return-IsMigrated context none pending db next h = h

  pub migrate_pending :
      (opening : Opening) (entries : List Entry) (db : Schema D)
      → IsMigrated
          (filter
            (λ e. not (is_applied (read_versions opening.rows_read db.versions) e))
            (migration_files entries))
          db
          (migrate exec_script round opening entries db)
  unfolding migrate
  migrate_pending opening entries db =
      let files = migration_files entries in
      or_return-IsMigrated _ opening.create _ db _ (
        or_return-IsMigrated _ opening.read_dir _ db _ (
          or_return-IsMigrated _ opening.query _ db _
            (apply_migrations-IsMigrated (read_versions opening.rows_read db.versions) files db)))

  -- Whatever fails and wherever, migrate works on a list of the files that are no directories and
  -- end in .sql, each as often as it is there, in which no file comes before one whose name is
  -- less. Of the files of that list that are not among the versions it has read, it has applied
  -- the first ones, all of them where it reports no error: the tables are what the scripts of
  -- those files, one after the other, make of the tables before, their names are added to the
  -- versions in the same order, and none of them was a version before.
  pub migrate-IsMigrated :
      (opening : Opening) (entries : List Entry) (db : Schema D)
      → (files : List Entry) × Perm files (filter (λ e. not e.is_dir && is_sql e.name) entries)
        × IsOrdered files
        × IsMigrated
            (filter (λ e. not (is_applied (read_versions opening.rows_read db.versions) e)) files)
            db
            (migrate exec_script round opening entries db)
  unfolding migration_files
  migrate-IsMigrated opening entries db =
      let sql = filter (λ e. not e.is_dir && is_sql e.name) entries in
      (
        sort_by_name sql,
        sort_by_name-perm sql,
        sort_by_name-IsOrdered sql,
        migrate_pending opening entries db,
      )
