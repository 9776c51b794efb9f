-- ===== src/Prelude/Members.antt =====
-- Members of a list that a filter keeps.
use mathlib.Core.Bool.{Bool, Bool-set, true, false≢true}
use mathlib.Core.HLevel.{×_prop}
use mathlib.Core.Logic.Or
use mathlib.Core.Logic.{◌↔◌, inl, inr}
use mathlib.Core.Path.{◌≡◌, sym, ◌∙◌}
use mathlib.Core.List.{List, [], ◌∷◌, Mem, mem-cons, mem-cons_of_mem, not-mem-nil, Mem-prop}
use domainturva.Prelude.Tests.{Bool-cases}
use domainturva.Prelude.Lists.{filter}

pub mem-filter {ℓ} :
    {A : Type ℓ} (p : A → Bool) {a : A} (xs : List A)
    → Mem a (filter p xs) ↔ (Mem a xs × (p a ≡ true))
mem-filter p [] = ((λ h. absurd (not-mem-nil h)), (λ h. h.0))
mem-filter p {a} (x ∷ xs) = elim (Bool-cases (p x)) [
  | inl kept ↦ rw kept (
    (λ h.
        Or.elim (×_prop Mem-prop (Bool-set _ _)) (mem-cons.0 h)
          (λ e. (mem-cons.1 (Or.inl e), rw e kept))
          (λ k. let (mem, t) = (mem-filter p xs).0 k in (mem-cons_of_mem x mem, t))),
    (λ h.
        Or.elim Mem-prop (mem-cons.0 h.0) (λ e. mem-cons.1 (Or.inl e))
          (λ k. mem-cons_of_mem x ((mem-filter p xs).1 (k, h.1)))),
  )
  | inr dropped ↦ rw dropped (
    (λ h. let (mem, t) = (mem-filter p xs).0 h in (mem-cons_of_mem x mem, t)),
    (λ h.
        Or.elim Mem-prop (mem-cons.0 h.0)
          (λ e. absurd (false≢true (sym (rw (← e) at dropped) ∙ h.1)))
          (λ k. (mem-filter p xs).1 (k, h.1))),
  )
]
