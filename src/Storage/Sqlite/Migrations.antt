-- ===== src/Storage/Sqlite/Migrations.antt =====
-- `migrate` and `OpenSQLite` of internal/storage/sqlite.go. What a migration's script does to the tables is the
-- SQL engine's business, the parameter `exec_script`; the errors of the driver are arguments.
pub mod Order
pub mod Laws
pub mod Again
use Prim.Native.String
use domainturva.Prelude.{
  zero, suc, text_below, ℕ, ◌-◌, String, ◌==◌, ◌<>◌, ◌≡◌, refl, ap, Bool, true, false, ◌&&◌, not,
  Option, none, some, List, [], ◌∷◌, ◌++◌, map, filter, any, leb, if◌then◌else◌, Result, ok, err,
  ◌>>=◌, arith, Bool-cases, Option-cases, inl, inr,
}
use mathlib.Core.List.{append_assoc, append-nil}

-- A file of the embedded directory.
pub record Entry : Type 0 where
  pub name : String
  pub is_dir : Bool
  pub body : String

-- The tables, and the versions that `schema_migrations` lists; it is empty where it is missing.
pub record Schema (D : Type 0) : Type 0 where
  pub tables : D
  pub versions : List String

-- The errors of the statements before the loop. An iteration over the rows that ends early, after so
-- many of them, is no error to the code, which does not ask for `rows.Err()`.
pub record Opening : Type 0 where
  pub create : Option String
  pub read_dir : Option String
  pub query : Option String
  pub rows_read : Option ℕ

-- The errors of the statements around one script.
pub record Round : Type 0 where
  pub read : Option String
  pub begin : Option String
  pub insert : Option String
  pub commit : Option String

-- `strings.HasSuffix(s, ".sql")`
unfoldable pub is_sql : String → Bool
is_sql s = leb 4 (String.len s) && String.slice s (String.len s - 4) (String.len s) == ".sql"

-- `sort.Strings`, on the files by their names.
unfoldable pub insert_by_name : Entry → List Entry → List Entry
unfolding text_below
insert_by_name e [] = e ∷ []
insert_by_name e (f ∷ fs) =
    let rest = insert_by_name e fs in if text_below f.name e.name then f ∷ rest else e ∷ f ∷ fs

unfoldable pub sort_by_name : List Entry → List Entry
unfolding insert_by_name
sort_by_name [] = []
sort_by_name (e ∷ es) = insert_by_name e (sort_by_name es)

unfoldable pub migration_files : List Entry → List Entry
unfolding sort_by_name is_sql
migration_files entries = sort_by_name (filter (λ e. not e.is_dir && is_sql e.name) entries)

-- `applied[name]`
abbrev pub is_applied : List String → Entry → Bool
is_applied versions e = any (λ v. v == e.name) versions

abbrev first_rows : ℕ → List String → List String
first_rows zero versions = []
first_rows (suc n) [] = []
first_rows (suc n) (v ∷ versions) = v ∷ first_rows n versions

-- The versions that the loop over the rows has collected.
unfoldable pub read_versions : Option ℕ → List String → List String
read_versions none versions = versions
read_versions (some n) versions = first_rows n versions

-- `version` is the primary key.
abbrev key_error : List String → Entry → Option String
key_error versions e =
    if is_applied versions e
    then some "UNIQUE constraint failed: schema_migrations.version"
    else none

-- A statement that fails ends the round with its error.
abbrev or_fail {ℓ} : {A : Type ℓ} → Option String → Result A → Result A
or_fail (some message) next = err message
or_fail none next = next

module _ {D : Type 0} where
  -- An error ends the loop; what was committed before it stays.
  abbrev pub go_on :
      Schema D
      → Result (Schema D)
      → (Schema D → Schema D × Option String)
      → Schema D × Option String
  go_on db (err message) loop = (db, some message)
  go_on db (ok db') loop = loop db'

  -- `if err != nil { return err }`, with what is put before the error's text.
  abbrev pub or_return :
      String → Option String → Schema D → Schema D × Option String → Schema D × Option String
  or_return context (some message) db next = (db, some (context <> message))
  or_return context none db next = next

module _ {D : Type 0} (exec_script : String → D → Result D) (round : String → Round) where
  abbrev apply_script : Entry → D → Result D
  apply_script e tables = elim (exec_script e.body tables) [
    | err message ↦ err ("apply " <> e.name <> ": " <> message)
    | ok tables' ↦ ok tables'
  ]

  -- One transaction: an error before the end of `Commit` rolls it back.
  unfoldable pub apply_migration : Entry → Schema D → Result (Schema D)
  apply_migration e db =
      let r = round e.name in
      or_fail r.read (
        or_fail r.begin (
          apply_script e db.tables >>= λ tables. or_fail r.insert (
            or_fail (key_error db.versions e) (
              or_fail r.commit
                (ok (record { tables = tables; versions = db.versions ++ e.name ∷ [] }))))))

  -- The loop over the names, with the versions that were read before it.
  unfoldable pub apply_migrations : List String → List Entry → Schema D → Schema D × Option String
  apply_migrations applied [] db = (db, none)
  apply_migrations applied (e ∷ es) db =
      go_on db (if is_applied applied e then ok db else apply_migration e db)
        (apply_migrations applied es)

  unfoldable pub migrate : Opening → List Entry → Schema D → Schema D × Option String
  unfolding read_versions
  migrate opening entries db = or_return "create schema_migrations: " opening.create db (
      or_return "read migrations: " opening.read_dir db (
        or_return "" opening.query db (
          apply_migrations (read_versions opening.rows_read db.versions) (migration_files entries)
            db)))

  -- `OpenSQLite`: the parent's directory (`dir`, as `filepath.Dir` gives it) is made first, where it
  -- is not the current one. The store is there only where the migrations have succeeded.
  unfoldable pub open_sqlite :
      (mkdir_all : String → Option String) (open_db : String → Option String)
      → String
      → String
      → Opening
      → List Entry
      → Schema D
      → Result (Schema D)
  unfolding migrate
  open_sqlite mkdir_all open_db dir path opening entries db =
      let parent = if dir == "" then none else if dir == "." then none else mkdir_all dir in
      elim parent [
        | some message ↦ err ("create db parent dir " <> dir <> ": " <> message)
        | none ↦
            elim (open_db (
              path
              <> "?_pragma=journal_mode(WAL)&_pragma=busy_timeout(5000)&_pragma=foreign_keys(on)")) [
                | some message ↦ err ("open sqlite: " <> message)
                | none ↦
                    let (db', e) = migrate opening entries db in
                    elim e [ some message ↦ err message | none ↦ ok db' ]
              ]
      ]
