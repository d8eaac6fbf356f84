-- ===== src/Detector/Verdict.antt =====
-- The verdict of `CheckBurst` of detect.go where the link is healthy.
use fogping.Prelude.{
  ℕ, ◌+◌, ◌-◌, ◌*◌, ◌^◌, ◌≤◌, ◌<◌, ◌≡◌, refl, ap, ◌∙◌, inl, inr, Bool, true, false, ◌&&◌, List, [],
  ◌∷◌, map, Text, if◌then◌else◌, length, length-map, ltb, leb, All, le→leb, arith, Bool-cases,
  nat_eq,
}
use mathlib.Core.Path.{ap₂}
use fogping.Prelude.Int.{ℤ, pos, negsuc, sub_ℕ, ltb_ℤ}
use fogping.Float.{Float}
use fogping.Float.Rank.{count}
use fogping.Store.{Round, Memory}
use fogping.Store.Recent.{recent}
use fogping.Detector.{at_least, loss_of, loses, ratio, judge, robust_z, verdict, check_burst, hours}
use fogping.Detector.Median.{ExactNearZero, is_zero, whole, robust_z-zero}

module _ {F : Type 0} where
  -- The packets that a round lost.
  abbrev pub lost : Round F → ℕ
  lost r = r.s - r.r

  abbrev pub IsSound : Round F → Type 0
  IsSound r = r.r ≤ r.s

  abbrev pub is_lossless : Round F → Bool
  is_lossless r = is_zero (lost r)

  loss_of_lem : (r : Round F) → IsSound r → sub_ℕ r.s r.r ≡ pos (lost r)
  loss_of_lem r h = rw (le→leb r.r r.s h) refl

  count-lossless : (hist : List (Round F)) → count is_zero (map lost hist) ≡ count is_lossless hist
  unfolding count
  count-lossless [] = refl
  count-lossless (r ∷ hist) = ap (λ n. (if is_lossless r then 1 else 0) + n) (count-lossless hist)

module _ (float : Float) where
  open float use {F, div, of_int}

  -- A quotient of numbers below 2^31 compares with a hundredth as the fractions compare: two such
  -- fractions that differ are further apart than a rounding.
  pub record ExactPercent : Type 0 where
    pub percent :
        (a b c : ℕ)
        → a ≤ b
        → 0 < b
        → b < 2 ^ 31
        → c ≤ 100
        → at_least float (ratio float a b) (ratio float c 100) ≡ leb (c * b) (a * 100)

  abbrev ratio_of : ℤ → ℕ → F
  ratio_of a b = div (of_int a) (of_int (pos b))

module _ (float : Float) (exact : ExactNearZero float) where
  open float use {F, of_int}

  series_lem :
      (hist : List (Round F))
      → All IsSound hist
      → map (λ (h : Round F). of_int (loss_of float h)) hist
        ≡ map (whole float exact) (map lost hist)
  series_lem [] h = refl
  series_lem (r ∷ hist) h =
      ap₂ (λ (x : F) (xs : List F). x ∷ xs) (ap of_int (loss_of_lem r h.0)) (series_lem hist h.1)

  judge-flat :
      (r : Round F)
      → judge float r (of_int (negsuc 0)) ≡ (loses float r (ratio float 10 100), of_int (pos 0))
  unfolding judge
  judge-flat r = rw exact.minus_lt_zero refl

  robust_z-healthy :
      (x : F) (hist : List (Round F))
      → All IsSound hist
      → length hist < 2 * count is_lossless hist
      → robust_z float x (map (λ (h : Round F). of_int (loss_of float h)) hist) ≡ of_int (negsuc 0)
  robust_z-healthy x hist sounds healthy =
      ap (robust_z float x) (series_lem hist sounds)
      ∙ robust_z-zero float exact x (map lost hist)
          (omega (arith, count-lossless hist, length-map lost hist))

  verdict-healthy :
      (r : Round F) (hist : List (Round F))
      → IsSound r
      → All IsSound hist
      → length hist < 2 * count is_lossless hist
      → verdict float r hist ≡ (
        leb 2 (lost r)
            && loses float r
                (if ltb (length hist) 30 then ratio float 25 100 else ratio float 10 100),
        of_int (pos 0),
      )
  unfolding verdict
  verdict-healthy r hist sound sounds healthy =
      let flat = robust_z-healthy (of_int (loss_of float r)) hist sounds healthy in
      elim (Bool-cases (ltb (lost r) 2)) [
        | inl few ↦
            let not_two : leb 2 (lost r) ≡ false = ground arith in
            let little : ltb_ℤ (loss_of float r) (pos 2) ≡ true =
              rw (loss_of_lem r sound) (ground arith) in
            rw (little, not_two) refl
        | inr many ↦
            let two : leb 2 (lost r) ≡ true = ground arith in
            let much : ltb_ℤ (loss_of float r) (pos 2) ≡ false =
              rw (loss_of_lem r sound) (ground arith) in
            rw (much, two)
              (elim (Bool-cases (ltb (length hist) 30)) [
                | inl short ↦ rw short refl
                | inr long ↦ rw (long, flat) (judge-flat r)
              ])
      ]

  loses-percent :
      (fine : ExactPercent float) (r : Round F) (c : ℕ)
      → IsSound r
      → 2 ≤ lost r
      → r.s < 2 ^ 31
      → c ≤ 100
      → loses float r (ratio float c 100) ≡ leb (c * r.s) (lost r * 100)
  unfolding loses
  loses-percent fine r c sound many short few =
      let some_sent : 0 < r.s = omega arith in
      ap (λ x. at_least float (ratio_of float x r.s) (ratio float c 100)) (loss_of_lem r sound)
      ∙ fine.percent (lost r) r.s c (omega arith) some_sent short few

  -- Where more than half of the recent rounds lost nothing, a round is flagged exactly if it lost
  -- at least two packets and a tenth of what it sent, or a quarter while there are fewer than 30
  -- recent rounds; the score that is shown is then 0. The round and the recent rounds received no
  -- more than they sent, the round sent fewer than 2^31, and the floats compare a quotient of such
  -- numbers with a hundredth as the fractions compare, and are exact near zero.
  pub check_burst-healthy :
      (fine : ExactPercent float) (name : Text) (r : Round F) (now : ℕ) (s : Memory F)
      → IsSound r
      → r.s < 2 ^ 31
      → All IsSound (recent name (now - hours 4) s)
      → length (recent name (now - hours 4) s)
        < 2 * count is_lossless (recent name (now - hours 4) s)
      → check_burst float name r now s ≡ (
        leb 2 (lost r)
            && (if ltb (length (recent name (now - hours 4) s)) 30
                then leb r.s (4 * lost r)
                else leb r.s (10 * lost r)),
        of_int (pos 0),
      )
  unfolding check_burst
  check_burst-healthy fine name r now s sound short sounds healthy =
      let hist = recent name (now - hours 4) s in
      verdict-healthy r hist sound sounds healthy ∙ (elim (Bool-cases (leb 2 (lost r))) [
        | inr few ↦ rw few refl
        | inl many ↦
            let two : 2 ≤ lost r = ground arith in
            let quarter = loses-percent fine r 25 sound two short (omega arith) in
            let tenth = loses-percent fine r 10 sound two short (omega arith) in
            let quarter' : loses float r (ratio float 25 100) ≡ leb r.s (4 * lost r) =
              quarter ∙ ground arith in
            let tenth' : loses float r (ratio float 10 100) ≡ leb r.s (10 * lost r) =
              tenth ∙ ground arith in
            rw many (elim (Bool-cases (ltb (length hist) 30)) [
              | inl cold ↦ rw (cold, quarter') refl
              | inr warm ↦ rw (warm, tenth') refl
            ])
      ])
