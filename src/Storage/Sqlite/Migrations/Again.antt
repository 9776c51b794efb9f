-- ===== src/Storage/Sqlite/Migrations/Again.antt =====
-- `migrate` on a database that it has migrated.
use mathlib.Core.List.{append-nil}
use domainturva.Prelude.{
  ℕ, zero, suc, String, ◌==◌, eq_refl, ◌≡◌, refl, sym, ◌∙◌, ap, subst, true, not, Option, none,
  some, List, [], ◌∷◌, ◌++◌, map, filter, any-append, Result, arith, Bool-cases, inl, inr, All,
  All-map,
}
use domainturva.Storage.Sqlite.Migrations.{
  read_versions, Entry, Schema, Opening, Round, is_applied, apply_migrations, migration_files,
  migrate,
}
use domainturva.Storage.Sqlite.Migrations.Laws.{migrate_pending}

module _ {D : Type 0} (exec_script : String → D → Result D) (round : String → Round) where
  migrate_opened :
      (opening : Opening) (entries : List Entry) (db : Schema D)
      → (opening.create ≡ none)
        × (opening.read_dir ≡ none)
        × (opening.query ≡ none)
        × (opening.rows_read ≡ none)
      → migrate exec_script round opening entries db
        ≡ apply_migrations exec_script round db.versions (migration_files entries) db
  unfolding migrate read_versions
  migrate_opened opening entries db (a, b, c, d) = rw (a, b, c, d)

  -- What is applied already is skipped.
  apply_migrations_applied :
      (applied : List String) (es : List Entry) (db : Schema D)
      → All (λ e. is_applied applied e ≡ true) es
      → apply_migrations exec_script round applied es db ≡ (db, none)
  unfolding apply_migrations
  apply_migrations_applied applied [] db h = refl
  apply_migrations_applied applied (e ∷ es) db (t, h) =
      rw t (apply_migrations_applied applied es db h)

one_more_version :
    (name : String) (new : List String) (f : Entry)
    → is_applied new f ≡ true
    → is_applied (name ∷ new) f ≡ true
one_more_version name new f h = ground arith

own_names : (es : List Entry) → All (λ e. is_applied (map (λ f. f.name) es) e ≡ true) es
own_names [] = tt
own_names (e ∷ es) =
    (rw (eq_refl e.name), All-map _ _ (one_more_version e.name _) es (own_names es))

read_versions_sound :
    (rows : Option ℕ) (versions : List String) (e : Entry)
    → is_applied (read_versions rows versions) e ≡ true
    → is_applied versions e ≡ true
unfolding read_versions
read_versions_sound none versions e h = h
read_versions_sound (some zero) versions e h = cc
read_versions_sound (some (suc n)) [] e h = h
read_versions_sound (some (suc n)) (v ∷ versions) e h =
    ground (arith, read_versions_sound (some n) versions e)

-- What the versions that were read do not list, the new ones do.
All-applied :
    (versions read new : List String) (es : List Entry)
    → ((e : Entry) → is_applied read e ≡ true → is_applied versions e ≡ true)
    → All (λ e. is_applied new e ≡ true) (filter (λ e. not (is_applied read e)) es)
    → All (λ e. is_applied (versions ++ new) e ≡ true) es
All-applied versions read new [] sound h = tt
All-applied versions read new (e ∷ es) sound h = elim (Bool-cases (is_applied read e)) [
  | inl old ↦ (
    any-append (λ v. v == e.name) versions new ∙ rw (sound e old),
    All-applied versions read new es sound (rw old at h),
  )
  | inr added ↦
      let (first, rest) = rw added at h in
      (
        ground (arith, any-append (λ v. v == e.name) versions new, first),
        All-applied versions read new es sound rest,
      )
]

-- After migrate has returned without an error, running it again on the same files, where its first
-- statements succeed and it reads all the versions, changes nothing and reports no error: no
-- script is run a second time.
pub migrate_again :
    {D : Type 0} (exec_script exec_script' : String → D → Result D) (round round' : String → Round)
    (opening opening' : Opening) (entries : List Entry) (db : Schema D)
    → (migrate exec_script round opening entries db).1 ≡ none
    → (opening'.create ≡ none)
      × (opening'.read_dir ≡ none)
      × (opening'.query ≡ none)
      × (opening'.rows_read ≡ none)
    → let db' = (migrate exec_script round opening entries db).0 in
      migrate exec_script' round' opening' entries db' ≡ (db', none)
migrate_again exec_script exec_script' round round' opening opening' entries db succeeded all_fine =
    let db' = (migrate exec_script round opening entries db).0 in
    let m = migrate_pending exec_script round opening entries db in
    let nothing_left = m.complete succeeded in
    let all_done = m.split ∙ ap (λ es. m.done ++ es) nothing_left ∙ append-nil m.done in
    let names =
      subst (λ es. All (λ e. is_applied (map (λ f. f.name) m.done) e ≡ true) es) (sym all_done)
        (own_names m.done) in
    let files = migration_files entries in
    let applied =
      All-applied db.versions (read_versions opening.rows_read db.versions) _ files
        (read_versions_sound opening.rows_read db.versions) names in
    migrate_opened exec_script' round' opening' entries db' all_fine
    ∙ apply_migrations_applied exec_script' round' db'.versions files db'
        (rw (← m.versions) at applied)
