-- ===== src/Storage/Sqlite/Runs.antt =====
-- Runs of writes: the tables stand for what the in-memory store holds after the same writes.
use mathlib.Core.List.{Perm}
use domainturva.Prelude.{
  ℕ, suc, ◌+◌, ◌^◌, ◌<◌, ◌≡◌, ◌≢◌, refl, ◌∙◌, ap, false, String, Option, none, some, List, [], ◌∷◌,
  length, arith, All, All-append, All-and_iff, subst, ok, pos, pos_part, ◌+ℤ◌, ◌≤ℤ◌, max_int64,
  leb_ℤ,
}
use domainturva.Time.{Time}
use domainturva.Storage.{SiteState, AlertRecord, DomainCache}
use domainturva.Storage.Memory as Memory
use domainturva.Storage.Memory.{Memory, new_memory}
use domainturva.Storage.Sqlite.{
  Database, empty_database, upsert_site_state, record_alert, upsert_domain_cache, get_site_state,
  get_domain_cache, find_recent_alerts, alert_row,
}
use domainturva.Storage.Sqlite.Order.{IsStorable, second_of}
use domainturva.Storage.Sqlite.View.{
  view, IsStorableState, IsStorableCache, upsert_site_state-view, upsert_domain_cache-view,
  record_alert-view, get_site_state-view, get_domain_cache-view,
}
use domainturva.Storage.Sqlite.Search.{IsWritten, second_at, find_recent_alerts-view}

pub data Write : Type 0 where
  put_state : SiteState → Write
  put_alert : AlertRecord → Write
  put_cache : DomainCache → Write

-- A write, and the error that the driver reports for it, if any.
abbrev pub Statement : Type 0
Statement = Option String × Write

write : Option String → Write → Database → Database
write fault (put_state st) db = (upsert_site_state fault st db).0
write fault (put_alert a) db = (record_alert fault a db).0
write fault (put_cache d) db = (upsert_domain_cache fault d db).0

unfoldable pub run : List Statement → Database → Database
unfolding write
run [] db = db
run ((fault, w) ∷ statements) db = run statements (write fault w db)

write_memory : Write → Memory → Memory
write_memory (put_state st) m = (Memory.upsert_site_state st m).0
write_memory (put_alert a) m = (Memory.record_alert a m).0
write_memory (put_cache d) m = (Memory.upsert_domain_cache d m).0

-- The in-memory store does only what succeeds.
unfoldable pub run_memory : List Statement → Memory → Memory
unfolding write_memory
run_memory [] m = m
run_memory ((some message, w) ∷ statements) m = run_memory statements m
run_memory ((none, w) ∷ statements) m = run_memory statements (write_memory w m)

abbrev pub IsStorableWrite : Write → Type 0
IsStorableWrite (put_state st) = IsStorableState st
IsStorableWrite (put_alert a) = IsStorable a.sent_at
IsStorableWrite (put_cache d) = IsStorableCache d

abbrev pub IsStorableStatement : Statement → Type 0
IsStorableStatement (fault, w) = IsStorableWrite w

-- The log has been written by the program, and `n` more records can be numbered.
record HasRoom (n : ℕ) (db : Database) : Type 0 where
  low : pos 0 ≤ℤ db.last_id
  room : pos_part db.last_id + n < 2 ^ 63
  written : All IsWritten db.alert_log

record_alert-HasRoom :
    (n : ℕ) (a : AlertRecord) (db : Database)
    → IsStorable a.sent_at
    → HasRoom (suc n) db
    → HasRoom n (record_alert none a db).0
unfolding record_alert ◌+ℤ◌
record_alert-HasRoom n a db s h =
    let not_full : leb_ℤ max_int64 db.last_id ≡ false = ground arith in
    let row = alert_row (db.last_id +ℤ pos 1) a in
    let sent : All IsWritten (row ∷ []) = ((a.sent_at, s, unfold alert_row in refl), tt) in
    rw not_full (record {
      low = ground arith;
      room = ground arith;
      written = All-append IsWritten db.alert_log (row ∷ []) h.written sent;
    })

write-HasRoom :
    (n : ℕ) (fault : Option String) (w : Write) (db : Database)
    → IsStorableWrite w
    → HasRoom (suc n) db
    → HasRoom n (write fault w db)
unfolding write upsert_site_state upsert_domain_cache
write-HasRoom n (some message) (put_state st) db s h = ground arith
write-HasRoom n none (put_state st) db s h = ground arith
write-HasRoom n (some message) (put_cache d) db s h = ground arith
write-HasRoom n none (put_cache d) db s h = ground arith
write-HasRoom n (some message) (put_alert a) db s h = unfold record_alert in ground arith
write-HasRoom n none (put_alert a) db s h = record_alert-HasRoom n a db s h

write_fault-view : (message : String) (w : Write) (db : Database) → write (some message) w db ≡ db
unfolding write upsert_site_state upsert_domain_cache record_alert
write_fault-view message (put_state st) db = refl
write_fault-view message (put_cache d) db = refl
write_fault-view message (put_alert a) db = ground arith

write-view :
    (n : ℕ) (w : Write) (db : Database)
    → IsStorableWrite w
    → HasRoom (suc n) db
    → view (write none w db) ≡ write_memory w (view db)
unfolding write write_memory
write-view n (put_state st) db s h = upsert_site_state-view st db s
write-view n (put_cache d) db s h = upsert_domain_cache-view d db s
write-view n (put_alert a) db s h = record_alert-view a db s h.low (ground arith)

run-view :
    (statements : List Statement) (db : Database)
    → All IsStorableStatement statements
    → HasRoom (length statements) db
    → (view (run statements db) ≡ run_memory statements (view db)) × HasRoom 0 (run statements db)
unfolding run run_memory
run-view [] db s h = (refl, h)
run-view ((some message, w) ∷ statements) db (s, rest) h =
    let h' = write-HasRoom (length statements) (some message) w db s h in
    let (same, room) = run-view statements (write (some message) w db) rest h' in
    (same ∙ ap (λ d. run_memory statements (view d)) (write_fault-view message w db), room)
run-view ((none, w) ∷ statements) db (s, rest) h =
    let h' = write-HasRoom (length statements) none w db s h in
    let (same, room) = run-view statements (write none w db) rest h' in
    (same ∙ ap (run_memory statements) (write-view (length statements) w db s h), room)

empty_view : view empty_database ≡ new_memory
unfolding new_memory
empty_view = refl

-- What a client sees of the tables is what it sees of the in-memory store.
pub record Refines (db : Database) (m : Memory) : Type 0 where
  pub same : view db ≡ m
  pub states : (name : String) → get_site_state none name db ≡ Memory.get_site_state name m
  pub caches : (name : String) → get_domain_cache none name db ≡ Memory.get_domain_cache name m
  pub searches :
      (name type : String) (since : Time)
      → IsStorable since
      → All (λ row. second_at row ≢ second_of since) db.alert_log
      → (found : List AlertRecord) × (found' : List AlertRecord) × (find_recent_alerts none name
            type since db
          ≡ ok found)
        × (Memory.find_recent_alerts name type since m ≡ ok found')
        × Perm found found'

-- From empty tables on, for every sequence of fewer than 2^63 writes whose times are storable (the
-- zero time, or one of the years 1 to 9999), each with an error of the driver or none: the SQLite
-- store then stands for the in-memory store after the writes that succeeded. The rows read back as
-- its contents, a read of a site state or of a domain cache gives what the in-memory store gives,
-- and a search from a storable time that shares its second with no record of the log finds the
-- same records, each as often.
pub run-Refines :
    (statements : List Statement)
    → All IsStorableStatement statements
    → length statements < 2 ^ 63
    → Refines (run statements empty_database) (run_memory statements new_memory)
run-Refines statements s short =
    let start : HasRoom (length statements) empty_database = record {
      low = omega arith;
      room = omega arith;
      written = tt;
    } in
    let (same, room) = run-view statements empty_database s start in
    let m = same ∙ ap (run_memory statements) empty_view in
    let db = run statements empty_database in
    subst (Refines db) m (record {
      same = refl;
      states = λ name. get_site_state-view name db;
      caches = λ name. get_domain_cache-view name db;
      searches = λ name type since storable others.
          find_recent_alerts-view name type since db storable
            ((All-and_iff IsWritten _ db.alert_log).1 (room.written, others));
    })
