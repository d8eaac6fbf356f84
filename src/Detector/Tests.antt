-- ===== src/Detector/Tests.antt =====
-- A verdict of detect.go, with whole numbers of both signs for floats and hundredths for quotients.
use mathlib.Core.Path.{ap₂}
use native.Mathlib.Nat.{div-lt_iff_lt-mul, zero-div}
use fogping.Prelude.{
  ℕ, ◌+◌, ◌-◌, ◌*◌, ◌/◌, ◌%◌, ◌^◌, ◌<◌, ◌≡◌, ◌⊎◌, refl, ◌∙◌, Bool, true, false, ◌&&◌, ◌||◌, [], ◌∷◌,
  if◌then◌else◌, length, leb, ltb, All, Text, codes, arith,
}
use fogping.Prelude.Int.{ℤ, pos, pos_part, neg_part, sub_ℕ, ltb_ℤ, int_beq}
use fogping.Prelude.Map.{lookup}
use fogping.Float.{Float}
use fogping.Float.Rank.{count}
use fogping.Store.{Round, Memory}
use fogping.Store.Recent.{recent, sort_search, is_recent}
use fogping.Detector.{at_least, check_burst, hours}
use fogping.Detector.Median.{ExactNearZero}
use fogping.Detector.Verdict.{lost, IsSound, is_lossless, ExactPercent, check_burst-healthy}

abbrev pub leb_ℤ : ℤ → ℤ → Bool
leb_ℤ a b = leb (pos_part a + neg_part b) (pos_part b + neg_part a)

pub leb_ℤ_total : (a b : ℤ) → (leb_ℤ a b ≡ true) ⊎ (leb_ℤ b a ≡ true)
leb_ℤ_total a b = ground arith

pub leb_ℤ_trans : (a b c : ℤ) → leb_ℤ a b ≡ true → leb_ℤ b c ≡ true → leb_ℤ a c ≡ true
leb_ℤ_trans a b c h k = ground arith

pub ltb_ℤ_leb : (a b : ℤ) → ltb_ℤ a b ≡ true → leb_ℤ a b ≡ true
ltb_ℤ_leb a b h = ground arith

pub word_lt : (a : ℤ) → pos_part a % 2 ^ 32 < 2 ^ 32
word_lt a = omega arith

abbrev pub integers : Float
integers = record {
  F = ℤ;
  leb = leb_ℤ;
  leb_total = leb_ℤ_total;
  leb_trans = leb_ℤ_trans;
  lt = ltb_ℤ;
  eq = int_beq;
  lt_leb = ltb_ℤ_leb;
  of_int = λ n. n;
  add = λ a b. sub_ℕ (pos_part a + pos_part b) (neg_part a + neg_part b);
  sub = λ a b. sub_ℕ (pos_part a + neg_part b) (neg_part a + pos_part b);
  mul = λ a b.
      sub_ℕ (pos_part a * pos_part b + neg_part a * neg_part b)
        (pos_part a * neg_part b + neg_part a * pos_part b);
  div = λ a b. sub_ℕ (100 * pos_part a / pos_part b) (100 * neg_part a / pos_part b);
  trunc = λ n. n;
  bits32 = λ a. pos_part a % 2 ^ 32;
  of_bits32 = pos;
  bits32_lt = word_lt;
}

exact : ExactNearZero integers
exact = record {
  zero_least = λ n. ground arith;
  above_zero = λ n. ground arith;
  zero_lt = λ n. ground arith;
  zero_lt_zero = refl;
  zero_eq_zero = refl;
  minus_lt_zero = refl;
  sub_zero = λ n. ground arith;
  half_of_zero = refl;
}

whole_sub : (x b : ℕ) → sub_ℕ x (0 / b) ≡ pos x
whole_sub x b = ground (arith, zero-div b)

hundredths :
    (a b c : ℕ)
    → 0 < b
    → (ltb_ℤ (pos (100 * c / 100)) (pos (100 * a / b))
        || int_beq (pos (100 * a / b)) (pos (100 * c / 100)))
      ≡ leb (c * b) (a * 100)
hundredths a b c h =
    let whole : 100 * c / 100 ≡ c = omega arith in
    ground (arith, whole, div-lt_iff_lt-mul {k = b} {x = 100 * a} {y = c} h)

fine : ExactPercent integers
fine = record {
  percent = λ a b c le some_sent short few.
      ap₂ (at_least integers) (whole_sub (100 * a / b) b) (whole_sub (100 * c / 100) 100)
      ∙ hundredths a b c some_sent;
}

abbrev site_name : Text
site_name = codes "site"

abbrev round_with : ℕ → ℕ → Round ℤ
round_with t r = record { t = t; s = 10; r = r; ms = []; b = false; z = pos 0 }

abbrev memory : Memory ℤ
memory = record {
  ids = (site_name, 1) ∷ [];
  rings =
      (
        site_name,
        round_with 10 10 ∷ round_with 15000 10 ∷ round_with 15060 8 ∷ round_with 15120 10 ∷ [],
      )
      ∷ [];
  names = site_name ∷ [];
  total = 4;
  pending = [];
}

heard :
    recent site_name (15180 - hours 4) memory
    ≡ round_with 15000 10 ∷ round_with 15060 8 ∷ round_with 15120 10 ∷ []
unfolding recent sort_search lookup is_recent
heard = refl

sounds : All IsSound (recent site_name (15180 - hours 4) memory)
sounds = rw heard (omega arith, (omega arith, (omega arith, tt)))

healthy :
    length (recent site_name (15180 - hours 4) memory)
    < 2 * count is_lossless (recent site_name (15180 - hours 4) memory)
unfolding count
healthy = rw heard (omega arith)

check_burst-healthy_example : check_burst integers site_name (round_with 15180 6) 15180 memory ≡ (
  leb 2 (lost (round_with 15180 6))
      && (if ltb (length (recent site_name (15180 - hours 4) memory)) 30
          then leb 10 (4 * lost (round_with 15180 6))
          else leb 10 (10 * lost (round_with 15180 6))),
  pos 0,
)
check_burst-healthy_example =
    check_burst-healthy integers exact fine site_name (round_with 15180 6) 15180 memory
      (omega arith) (omega arith) sounds healthy
