-- ===== src/Storage/Memory/Laws.antt =====
-- The in-memory store is lawful, and its searches are in order of time.
use mathlib.Core.List.{Perm, Mem}
use mathlib.Core.List.Perm
use domainturva.Prelude.{
  mem-filter, ◌≤ℤ◌, pos, ◌+ℤ◌, wrap64, String, ◌≡◌, refl, ◌∙◌, Bool, true, ◌&&◌, ◌||◌, List, [],
  ◌∷◌, filter, any, any-filter, eq_iff, ◌↔◌, All, All-map, arith, Bool-cases, inl, inr, ok, lookup,
  lookup-insert,
}
use domainturva.Time.{Time, after}
use domainturva.Storage.{AlertRecord}
use domainturva.Storage.Lawful.{Lawful}
use domainturva.Storage.Memory.{
  Memory, memory, is_recent, insert_desc, sort_desc, get_site_state, upsert_site_state,
  record_alert, find_recent_alerts, get_domain_cache, upsert_domain_cache,
}

any-insert_desc :
    (p : AlertRecord → Bool) (a : AlertRecord) (bs : List AlertRecord)
    → any p (insert_desc a bs) ≡ (p a || any p bs)
unfolding insert_desc
any-insert_desc p a [] = refl
any-insert_desc p a (b ∷ bs) = ground (arith, any-insert_desc p a bs)

any-sort_desc : (p : AlertRecord → Bool) (bs : List AlertRecord) → any p (sort_desc bs) ≡ any p bs
unfolding sort_desc
any-sort_desc p [] = refl
any-sort_desc p (b ∷ bs) = ground (arith, any-insert_desc p b (sort_desc bs), any-sort_desc p bs)

-- The latest comes first.
abbrev pub IsDescending : List AlertRecord → Type 0
IsDescending [] = Unit
IsDescending (a ∷ rest) = All (λ b. b.sent_at ≤ℤ a.sent_at) rest × IsDescending rest

All-insert_desc :
    (P : AlertRecord → Type 0) (a : AlertRecord) (bs : List AlertRecord)
    → P a
    → All P bs
    → All P (insert_desc a bs)
unfolding insert_desc
All-insert_desc P a [] p h = (p, tt)
All-insert_desc P a (b ∷ bs) p (q, h) = elim (Bool-cases (after b.sent_at a.sent_at)) [
  | inl later ↦ rw later (q, All-insert_desc P a bs p h)
  | inr same ↦ rw same (p, (q, h))
]

insert_desc-IsDescending :
    (a : AlertRecord) (bs : List AlertRecord) → IsDescending bs → IsDescending (insert_desc a bs)
unfolding insert_desc
insert_desc-IsDescending a [] h = (tt, tt)
insert_desc-IsDescending a (b ∷ bs) (latest, h) = elim (Bool-cases (after b.sent_at a.sent_at)) [
  | inl later ↦
      let a≤b : a.sent_at ≤ℤ b.sent_at = ground arith in
      rw later (
        All-insert_desc (λ x. x.sent_at ≤ℤ b.sent_at) a bs a≤b latest,
        insert_desc-IsDescending a bs h,
      )
  | inr same ↦
      let b≤a : b.sent_at ≤ℤ a.sent_at = ground arith in
      rw same (
        (
          b≤a,
          All-map (λ x. x.sent_at ≤ℤ b.sent_at) (λ x. x.sent_at ≤ℤ a.sent_at) (λ x k. omega arith)
              bs latest,
        ),
        (latest, h),
      )
]

sort_desc-IsDescending : (bs : List AlertRecord) → IsDescending (sort_desc bs)
unfolding sort_desc
sort_desc-IsDescending [] = tt
sort_desc-IsDescending (b ∷ bs) =
    insert_desc-IsDescending b (sort_desc bs) (sort_desc-IsDescending bs)

insert_desc-perm : (a : AlertRecord) (bs : List AlertRecord) → Perm (insert_desc a bs) (a ∷ bs)
unfolding insert_desc
insert_desc-perm a [] = Perm.refl _
insert_desc-perm a (b ∷ bs) = elim (Bool-cases (after b.sent_at a.sent_at)) [
  | inl later ↦ rw later (Perm.trans (Perm.cons b (insert_desc-perm a bs)) (Perm.swap a b bs))
  | inr same ↦ rw same (Perm.refl _)
]

pub sort_desc-perm : (bs : List AlertRecord) → Perm (sort_desc bs) bs
unfolding sort_desc
sort_desc-perm [] = Perm.refl _
sort_desc-perm (b ∷ bs) =
    Perm.trans (insert_desc-perm b (sort_desc bs)) (Perm.cons b (sort_desc-perm bs))

pub memory_find :
    (n type : String) (since : Time) (m : Memory) (p : AlertRecord → Bool)
    → any p (sort_desc (filter (is_recent n type since) m.alerts))
      ≡ any (λ a. is_recent n type since a && p a) m.alerts
memory_find n type since m p = any-sort_desc p _ ∙ any-filter p (is_recent n type since) m.alerts

-- What a search is asked for.
abbrev pub IsWanted : String → String → Time → AlertRecord → Type 0
IsWanted n type since a = (a.site_name ≡ n) × (a.alert_type ≡ type) × (since ≤ℤ a.sent_at)

is_recent_iff :
    (n type : String) (since : Time) (a : AlertRecord)
    → (is_recent n type since a ≡ true) ↔ IsWanted n type since a
is_recent_iff n type since a = ground (arith, eq_iff a.site_name n, eq_iff a.alert_type type)

-- A search of the in-memory store succeeds; it finds exactly the records of the log that are of
-- the site and the type and not older than the given time, each as often as the log has it, and
-- the latest first.
pub find_recent_alerts_lem :
    (n type : String) (since : Time) (m : Memory)
    → (found : List AlertRecord) × (find_recent_alerts n type since m ≡ ok found)
      × ((a : AlertRecord) → Mem a found ↔ (Mem a m.alerts × IsWanted n type since a))
      × Perm found (filter (is_recent n type since) m.alerts)
      × IsDescending found
unfolding find_recent_alerts
find_recent_alerts_lem n type since m =
    let kept = filter (is_recent n type since) m.alerts in
    (
      sort_desc kept,
      refl,
      (λ a. (
        (λ h.
            let (mem, t) = (mem-filter _ m.alerts).0 (Perm.subset (sort_desc-perm kept) a h) in
            (mem, (is_recent_iff n type since a).0 t)),
        (λ h.
            Perm.subset (Perm.symm (sort_desc-perm kept)) a
              ((mem-filter _ m.alerts).1 (h.0, (is_recent_iff n type since a).1 h.1))),
      )),
      sort_desc-perm kept,
      sort_desc-IsDescending kept,
    )

-- `*Memory` meets the interface's laws.
unfoldable pub memory-Lawful : Lawful memory
unfolding get_site_state upsert_site_state record_alert find_recent_alerts get_domain_cache
    upsert_domain_cache
memory-Lawful = record {
  state_of = λ m n. lookup n m.states;
  log = λ m. m.alerts;
  cache_of = λ m n. lookup n m.domains;
  get_state = λ n s. refl;
  put_state = λ x s n. lookup-insert x.site_name n x s.states;
  put_state_log = λ x s. refl;
  put_state_cache = λ x s n. refl;
  find = λ n type since s. (
    sort_desc (filter (is_recent n type since) s.alerts),
    refl,
    λ p. memory_find n type since s p,
  );
  append = λ a s. (wrap64 (s.next_id +ℤ pos 1), refl);
  append_state = λ a s n. refl;
  append_cache = λ a s n. refl;
  get_cache = λ n s. refl;
  put_cache = λ x s n. lookup-insert x.site_name n x s.domains;
  put_cache_state = λ x s n. refl;
  put_cache_log = λ x s. refl;
}
