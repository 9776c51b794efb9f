-- ===== src/Storage/Sqlite/Migrations/Order.antt =====
-- The files of the migrations in the order of their names.
use mathlib.Core.List.{Perm}
use mathlib.Core.List.Perm
use domainturva.Prelude.{
  ◌≡◌, false, List, [], ◌∷◌, All, All-map, Bool-cases, inl, inr, text_below, text_below_asymm,
  text_le_trans,
}
use domainturva.Storage.Sqlite.Migrations.{Entry, insert_by_name, sort_by_name}

-- No file comes before one whose name is less.
abbrev pub IsOrdered : List Entry → Type 0
IsOrdered [] = Unit
IsOrdered (e ∷ es) = All (λ f. text_below f.name e.name ≡ false) es × IsOrdered es

insert_by_name-perm : (e : Entry) (fs : List Entry) → Perm (insert_by_name e fs) (e ∷ fs)
unfolding insert_by_name
insert_by_name-perm e [] = Perm.refl _
insert_by_name-perm e (f ∷ fs) = elim (Bool-cases (text_below f.name e.name)) [
  | inl less ↦ rw less (Perm.trans (Perm.cons f (insert_by_name-perm e fs)) (Perm.swap e f fs))
  | inr more ↦ rw more (Perm.refl _)
]

pub sort_by_name-perm : (es : List Entry) → Perm (sort_by_name es) es
unfolding sort_by_name
sort_by_name-perm [] = Perm.refl _
sort_by_name-perm (e ∷ es) =
    Perm.trans (insert_by_name-perm e (sort_by_name es)) (Perm.cons e (sort_by_name-perm es))

All-insert_by_name :
    (P : Entry → Type 0) (e : Entry) (fs : List Entry)
    → P e
    → All P fs
    → All P (insert_by_name e fs)
unfolding insert_by_name
All-insert_by_name P e [] p h = (p, tt)
All-insert_by_name P e (f ∷ fs) p (q, h) = elim (Bool-cases (text_below f.name e.name)) [
  | inl less ↦ rw less (q, All-insert_by_name P e fs p h)
  | inr more ↦ rw more (p, (q, h))
]

insert_by_name-IsOrdered :
    (e : Entry) (fs : List Entry) → IsOrdered fs → IsOrdered (insert_by_name e fs)
unfolding insert_by_name
insert_by_name-IsOrdered e [] h = (tt, tt)
insert_by_name-IsOrdered e (f ∷ fs) (least, h) = elim (Bool-cases (text_below f.name e.name)) [
  | inl less ↦ rw less (
    All-insert_by_name (λ g. text_below g.name f.name ≡ false) e fs
        (text_below_asymm f.name e.name less) least,
    insert_by_name-IsOrdered e fs h,
  )
  | inr more ↦
      rw more (
        (more, All-map _ _ (λ g k. text_le_trans e.name f.name g.name more k) fs least),
        (least, h),
      )
]

pub sort_by_name-IsOrdered : (es : List Entry) → IsOrdered (sort_by_name es)
unfolding sort_by_name
sort_by_name-IsOrdered [] = tt
sort_by_name-IsOrdered (e ∷ es) =
    insert_by_name-IsOrdered e (sort_by_name es) (sort_by_name-IsOrdered es)
