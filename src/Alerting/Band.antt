-- ===== src/Alerting/Band.antt =====
-- `currentThresholdBand` of internal/alerting/alerting.go.
pub mod Laws
use domainturva.Prelude.{ℤ, pos, leb_ℤ, List, [], ◌∷◌, if◌then◌else◌}

-- `sort.Ints` on a copy of the slice: the ascending order of integers is unique.
insert_asc : ℤ → List ℤ → List ℤ
insert_asc t [] = t ∷ []
insert_asc t (u ∷ us) = if leb_ℤ t u then t ∷ u ∷ us else u ∷ insert_asc t us

unfoldable pub sort_ints : List ℤ → List ℤ
unfolding insert_asc
sort_ints [] = []
sort_ints (t ∷ ts) = insert_asc t (sort_ints ts)

-- The loop over the sorted thresholds.
first_at_least : ℤ → List ℤ → ℤ
first_at_least days_left [] = pos 0
first_at_least days_left (t ∷ ts) = if leb_ℤ days_left t then t else first_at_least days_left ts

unfoldable pub current_threshold_band : ℤ → List ℤ → ℤ
unfolding first_at_least sort_ints
current_threshold_band days_left [] = pos 0
current_threshold_band days_left (t ∷ ts) = first_at_least days_left (sort_ints (t ∷ ts))
