-- ===== src/Detector.antt =====
-- detect.go: the verdict on the loss of a round.
pub mod Median
pub mod Verdict
pub mod Tests
use fogping.Prelude.{
  ℕ, ◌+◌, ◌-◌, ◌*◌, ◌/◌, ◌%◌, Bool, true, false, not, ◌||◌, none, some, List, [], ◌∷◌, map, Text,
  if◌then◌else◌, ◌==◌, nat_eq, length, get_elem?, ltb,
}
use fogping.Prelude.Int.{ℤ, pos, negsuc, ltb_ℤ, sub_ℕ}
use fogping.Float.{Float, sort_floats}
use fogping.Store.{Round, Memory}
use fogping.Store.Recent.{recent}

-- Hours, in seconds
abbrev pub hours : ℕ → ℕ
hours n = n * 3600

module _ (float : Float) where
  open float use {F, lt, eq, of_int, sub, mul, div, add, trunc}

  abbrev pub ratio : ℕ → ℕ → F
  ratio a b = div (of_int (pos a)) (of_int (pos b))

  -- 3.5
  abbrev pub burst_z : F
  burst_z = ratio 7 2

  abbrev pub at_least : F → F → Bool
  at_least a b = lt b a || eq a b

  -- `c[i]`, in range where the list is not empty
  abbrev pub nth : List F → ℕ → F
  nth xs i = elim (get_elem? xs i) [ none ↦ of_int (pos 0) | some x ↦ x ]

  unfoldable pub median : List F → F
  median [] = of_int (pos 0)
  median (x ∷ xs) =
      let c = sort_floats float (x ∷ xs) in
      let n = length c in
      if n % 2 == 1
      then nth c (n / 2)
      else div (add (nth c (n / 2 - 1)) (nth c (n / 2))) (of_int (pos 2))

  unfoldable pub deviation : F → F → F
  deviation med v = if lt med v then sub v med else sub med v

  unfoldable pub robust_z : F → List F → F
  unfolding median deviation
  robust_z x series =
      let med = median series in
      let mad = median (map (deviation med) series) in
      if eq mad (of_int (pos 0))
      then of_int (negsuc 0)
      else div (mul (ratio 6745 10000) (sub x med)) mad

  -- `r.S - r.R`
  abbrev pub loss_of : Round F → ℤ
  loss_of r = sub_ℕ r.s r.r

  -- The part of the packets of a round that was lost, against a hundredth of `percent`.
  unfoldable pub loses : Round F → F → Bool
  loses r share = at_least (div (of_int (loss_of r)) (of_int (pos r.s))) share

  unfoldable pub judge : Round F → F → Bool × F
  unfolding loses
  judge r z =
      if lt z (of_int (pos 0))
      then (loses r (ratio 10 100), of_int (pos 0))
      else (at_least z burst_z, div (of_int (trunc (mul z (of_int (pos 100))))) (of_int (pos 100)))

  -- `hist` is what the ring has of the last four hours.
  unfoldable pub verdict : Round F → List (Round F) → Bool × F
  unfolding robust_z judge
  verdict r hist =
      if ltb_ℤ (loss_of r) (pos 2)
      then (false, of_int (pos 0))
      else if ltb (length hist) 30
      then (loses r (ratio 25 100), of_int (pos 0))
      else judge r (robust_z (of_int (loss_of r)) (map (λ h. of_int (loss_of h)) hist))

  unfoldable pub check_burst : Text → Round F → ℕ → Memory F → Bool × F
  unfolding verdict
  check_burst name r now s = verdict r (recent name (now - hours 4) s)
