-- ===== src/Detector/Median.antt =====
-- `median` and `robustZ` of detect.go on a series of which most is zero.
use fogping.Prelude.{
  ℕ, zero, suc, ◌+◌, ◌-◌, ◌*◌, ◌/◌, ◌%◌, ◌<◌, ◌≡◌, refl, sym, ◌∙◌, subst, inl, inr, Bool, true,
  false, List, [], ◌∷◌, map, length, length-map, All, arith, Bool-cases, nat_eq, ◌==◌,
}
use mathlib.Core.Path.{ap₂}
use fogping.Prelude.Int.{pos, negsuc}
use fogping.Float.{Float, sort_floats, insert_float, length-sort_floats}
use fogping.Float.Rank.{count}
use fogping.Detector.{nth, median, deviation, robust_z}

module _ (float : Float) where
  open float use {F, leb, lt, eq, add, sub, div, of_int}

  -- What the arithmetic of floats does to whole numbers near zero.
  pub record ExactNearZero : Type 0 where
    pub zero_least : (n : ℕ) → leb (of_int (pos 0)) (of_int (pos n)) ≡ true
    pub above_zero : (n : ℕ) → leb (of_int (pos (suc n))) (of_int (pos 0)) ≡ false
    pub zero_lt : (n : ℕ) → lt (of_int (pos 0)) (of_int (pos (suc n))) ≡ true
    pub zero_lt_zero : lt (of_int (pos 0)) (of_int (pos 0)) ≡ false
    pub zero_eq_zero : eq (of_int (pos 0)) (of_int (pos 0)) ≡ true
    pub minus_lt_zero : lt (of_int (negsuc 0)) (of_int (pos 0)) ≡ true
    pub sub_zero : (n : ℕ) → sub (of_int (pos n)) (of_int (pos 0)) ≡ of_int (pos n)
    pub half_of_zero : div (add (of_int (pos 0)) (of_int (pos 0))) (of_int (pos 2)) ≡ of_int (pos 0)

abbrev pub is_zero : ℕ → Bool
is_zero zero = true
is_zero (suc n) = false

module _ (float : Float) (exact : ExactNearZero float) where
  open float use {F, leb, of_int}

  abbrev origin : F
  origin = of_int (pos 0)

  abbrev pub whole : ℕ → F
  whole n = of_int (pos n)

  -- `k` zeros, and then what is above zero.
  abbrev Zeros : ℕ → List F → Type 0
  Zeros zero xs = All (λ x. (leb x origin ≡ false) × (leb origin x ≡ true)) xs
  Zeros (suc k) [] = ⊥
  Zeros (suc k) (x ∷ xs) = (x ≡ origin) × Zeros k xs

  zero_below : (k : ℕ) (b : F) (bs : List F) → Zeros k (b ∷ bs) → leb origin b ≡ true
  zero_below zero b bs z = z.0.1
  zero_below (suc k) b bs z = subst (λ x. leb origin x ≡ true) (sym z.0) (exact.zero_least 0)

  insert-zero : (k : ℕ) (xs : List F) → Zeros k xs → Zeros (suc k) (insert_float float origin xs)
  unfolding insert_float
  insert-zero zero [] z = (refl, tt)
  insert-zero (suc k) [] z = absurd z
  insert-zero k (b ∷ bs) z = rw (zero_below k b bs z) (refl, z)

  insert-above :
      (k n : ℕ) (xs : List F) → Zeros k xs → Zeros k (insert_float float (whole (suc n)) xs)
  unfolding insert_float
  insert-above zero n [] z = ((exact.above_zero n, exact.zero_least (suc n)), tt)
  insert-above zero n (b ∷ bs) z = elim (Bool-cases (leb (whole (suc n)) b)) [
    | inl le ↦ rw le ((exact.above_zero n, exact.zero_least (suc n)), z)
    | inr gt ↦ rw gt (z.0, insert-above zero n bs z.1)
  ]
  insert-above (suc k) n [] z = absurd z
  insert-above (suc k) n (b ∷ bs) z =
      let above : leb (whole (suc n)) b ≡ false =
        subst (λ x. leb (whole (suc n)) x ≡ false) (sym z.0) (exact.above_zero n) in
      rw above (z.0, insert-above k n bs z.1)

  sort-Zeros : (ns : List ℕ) → Zeros (count is_zero ns) (sort_floats float (map whole ns))
  unfolding count sort_floats
  sort-Zeros [] = tt
  sort-Zeros (zero ∷ ns) =
      let one_more : suc (count is_zero ns) ≡ 1 + count is_zero ns = omega arith in
      subst (λ k. Zeros k (insert_float float origin (sort_floats float (map whole ns)))) one_more
        (insert-zero (count is_zero ns) (sort_floats float (map whole ns)) (sort-Zeros ns))
  sort-Zeros (suc n ∷ ns) =
      let no_more : count is_zero ns ≡ 0 + count is_zero ns = omega arith in
      subst (λ k. Zeros k (insert_float float (whole (suc n)) (sort_floats float (map whole ns))))
        no_more
        (insert-above (count is_zero ns) n (sort_floats float (map whole ns)) (sort-Zeros ns))

  nth-Zeros : (k i : ℕ) (xs : List F) → Zeros k xs → i < k → nth float xs i ≡ origin
  nth-Zeros zero i xs z h = absurd (omega arith)
  nth-Zeros (suc k) i [] z h = absurd z
  nth-Zeros (suc k) zero (x ∷ xs) z h = z.0
  nth-Zeros (suc k) (suc i) (x ∷ xs) z h = nth-Zeros k i xs z.1 (omega arith)

  -- A series of which more than half is zero has the median zero.
  median-zero :
      (ns : List ℕ) → length ns < 2 * count is_zero ns → median float (map whole ns) ≡ origin
  unfolding median
  median-zero [] h = absurd (unfold count in omega arith)
  median-zero (n ∷ ns) h =
      let c = sort_floats float (map whole (n ∷ ns)) in
      let size : length c ≡ length (n ∷ ns) =
        length-sort_floats float (map whole (n ∷ ns)) ∙ length-map whole (n ∷ ns) in
      let z = sort-Zeros (n ∷ ns) in
      let middle : nth float c (length c / 2) ≡ origin =
        nth-Zeros (count is_zero (n ∷ ns)) (length c / 2) c z (omega (arith, size)) in
      let before : nth float c (length c / 2 - 1) ≡ origin =
        nth-Zeros (count is_zero (n ∷ ns)) (length c / 2 - 1) c z (omega (arith, size)) in
      elim (Bool-cases (length c % 2 == 1)) [
        | inl odd ↦ rw odd middle
        | inr even ↦ rw (even, middle, before) exact.half_of_zero
      ]

  deviation-zero : (n : ℕ) → deviation float origin (whole n) ≡ whole n
  unfolding deviation
  deviation-zero zero = rw exact.zero_lt_zero (exact.sub_zero 0)
  deviation-zero (suc n) = rw exact.zero_lt (exact.sub_zero (suc n))

  deviations-zero : (ns : List ℕ) → map (deviation float origin) (map whole ns) ≡ map whole ns
  deviations-zero [] = refl
  deviations-zero (n ∷ ns) =
      ap₂ (λ (x : F) (xs : List F). x ∷ xs) (deviation-zero n) (deviations-zero ns)

  -- `robustZ` then says that there is no spread.
  pub robust_z-zero :
      (x : F) (ns : List ℕ)
      → length ns < 2 * count is_zero ns
      → robust_z float x (map whole ns) ≡ of_int (negsuc 0)
  unfolding robust_z
  robust_z-zero x ns h =
      let flat = median-zero ns h in rw (flat, deviations-zero ns, flat, exact.zero_eq_zero) refl
