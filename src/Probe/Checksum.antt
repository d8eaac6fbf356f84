-- ===== src/Probe/Checksum.antt =====
-- `icmpChecksum` of probe.go. A byte is below 2 ^ 8, so `hi<<8 | lo` is a sum.
use fogping.Prelude.{
  ℕ, zero, suc, ◌+◌, ◌-◌, ◌*◌, ◌/◌, ◌%◌, ◌^◌, ◌≤◌, ◌<◌, ◌≡◌, refl, sym, ap, ◌∙◌, inl, inr,
  Bool-cases, ltb→lt, true, false, List, [], ◌∷◌, All, arith, if◌then◌else◌, ltb, length,
}

unfoldable pub sum_words : ℕ → List ℕ → ℕ
sum_words sum [] = sum
sum_words sum (b ∷ []) = (sum + b * 2 ^ 8) % 2 ^ 32
sum_words sum (b ∷ c ∷ bytes) = sum_words ((sum + (b * 2 ^ 8 + c)) % 2 ^ 32) bytes

-- The loop that folds the carries, on fuel.
unfoldable pub fold_carry : ℕ → ℕ → ℕ
fold_carry zero sum = sum
fold_carry (suc n) sum =
    let rest = fold_carry n ((sum % 2 ^ 16 + sum / 2 ^ 16) % 2 ^ 32) in
    if ltb 0 (sum / 2 ^ 16) then rest else sum

unfoldable pub icmp_checksum : List ℕ → ℕ
icmp_checksum bytes = 2 ^ 16 - 1 - fold_carry 2 (sum_words 0 bytes) % 2 ^ 16

pub icmp_checksum_lt : (bytes : List ℕ) → icmp_checksum bytes < 65536
unfolding icmp_checksum
icmp_checksum_lt bytes = omega arith

-- The sum of the words without a wrap.
abbrev pub total : List ℕ → ℕ
total [] = 0
total (b ∷ []) = b * 256
total (b ∷ c ∷ bytes) = b * 256 + c + total bytes

abbrev pub IsByte : ℕ → Type 0
IsByte b = b < 256

total_bound : (bytes : List ℕ) → All IsByte bytes → total bytes ≤ 32768 * (length bytes + 1)
total_bound [] h = omega arith
total_bound (b ∷ []) h = omega (arith, h.0)
total_bound (b ∷ c ∷ bytes) h = omega (arith, h.0, h.1.0, total_bound bytes h.1.1)

sum_words_lem :
    (sum : ℕ) (bytes : List ℕ)
    → sum + total bytes < 4294967296
    → sum_words sum bytes ≡ sum + total bytes
unfolding sum_words
sum_words_lem sum [] h = omega arith
sum_words_lem sum (b ∷ []) h = omega arith
sum_words_lem sum (b ∷ c ∷ bytes) h =
    let small : (sum + (b * 256 + c)) % 4294967296 ≡ sum + (b * 256 + c) = omega arith in
    rw small (omega (arith, sum_words_lem (sum + (b * 256 + c)) bytes (omega arith)))

-- The sum in ones' complement arithmetic.
abbrev pub ones_sum : ℕ → ℕ
ones_sum sum = if ltb 0 sum then 1 + (sum - 1) % 65535 else 0

-- One turn of the loop.
abbrev next_sum : ℕ → ℕ
next_sum sum = sum % 65536 + sum / 65536

fold_carry-done : (n sum : ℕ) → sum < 65536 → fold_carry n sum ≡ sum
unfolding fold_carry
fold_carry-done zero sum h = refl
fold_carry-done (suc n) sum h =
    let none_left : ltb 0 (sum / 65536) ≡ false = ground arith in rw none_left refl

fold_carry-next :
    (n sum : ℕ)
    → 65536 ≤ sum
    → sum < 4294967296
    → fold_carry (suc n) sum ≡ fold_carry n (next_sum sum)
unfolding fold_carry
fold_carry-next n sum h k =
    let some_left : ltb 0 (sum / 65536) ≡ true = ground arith in
    let small : next_sum sum % 4294967296 ≡ next_sum sum = omega arith in rw (some_left, small) refl

ones_sum-small : (sum : ℕ) → sum < 65536 → ones_sum sum ≡ sum
ones_sum-small sum h = ground arith

ones_sum-next : (sum : ℕ) → 65536 ≤ sum → ones_sum (next_sum sum) ≡ ones_sum sum
ones_sum-next sum h = ground arith

fold_twice :
    (k sum : ℕ) → 65536 ≤ sum → sum < 4294967296 → fold_carry (suc (suc k)) sum ≡ ones_sum sum
fold_twice k sum large h =
    let next = next_sum sum in
    fold_carry-next (suc k) sum large h ∙ (elim (Bool-cases (ltb next 65536)) [
      | inl small ↦
          fold_carry-done (suc k) next (ltb→lt next 65536 small)
          ∙ sym (ones_sum-small next (ltb→lt next 65536 small))
          ∙ ones_sum-next sum large
      | inr big ↦
          fold_carry-next k next (ground arith) (omega arith)
          ∙ fold_carry-done k (next_sum next) (omega arith)
          ∙ sym (ones_sum-small (next_sum next) (omega arith))
          ∙ ones_sum-next next (ground arith)
          ∙ ones_sum-next sum large
    ])

-- Two turns fold every sum of 32 bits, so further turns change nothing.
fold_carry_lem : (k sum : ℕ) → sum < 4294967296 → fold_carry (suc (suc k)) sum ≡ ones_sum sum
fold_carry_lem k sum h = elim (Bool-cases (ltb sum 65536)) [
  | inl small ↦
      fold_carry-done (suc (suc k)) sum (ltb→lt sum 65536 small)
      ∙ sym (ones_sum-small sum (ltb→lt sum 65536 small))
  | inr large ↦ fold_twice k sum (ground arith) h
]

complement :
    (sum cs whole : ℕ) → cs ≡ 65535 - ones_sum sum → whole ≡ sum + cs → 65535 - ones_sum whole ≡ 0
complement sum cs whole e f = ground arith

short_total : (bytes : List ℕ) → All IsByte bytes → length bytes ≤ 65536 → total bytes < 4294967296
short_total bytes h short = omega (arith, total_bound bytes h)

fold_message :
    (k : ℕ) (bytes : List ℕ)
    → All IsByte bytes
    → length bytes ≤ 65536
    → fold_carry (suc (suc k)) (sum_words 0 bytes) ≡ ones_sum (total bytes)
fold_message k bytes h short =
    let small = short_total bytes h short in
    let sum : sum_words 0 bytes ≡ total bytes =
      omega (arith, sum_words_lem 0 bytes (omega (arith, small))) in
    ap (fold_carry (suc (suc k))) sum ∙ fold_carry_lem k (total bytes) small

pub icmp_checksum_lem :
    (bytes : List ℕ)
    → All IsByte bytes
    → length bytes ≤ 65536
    → icmp_checksum bytes ≡ 65535 - ones_sum (total bytes)
unfolding icmp_checksum
icmp_checksum_lem bytes h short = ground (arith, fold_message 0 bytes h short)

-- The checksum of a message is what makes the message pass the check of its receiver: with it in
-- bytes 2 and 3 of a message of at most 2 ^ 16 bytes, the same routine gives 0; and the loop that
-- folds the carries has ended after two turns: further turns change nothing. `t` and `c` are the
-- first two bytes.
pub icmp_checksum_verifies :
    (t c k : ℕ) (rest : List ℕ)
    → All IsByte (t ∷ c ∷ rest)
    → length rest ≤ 65532
    → let cs = icmp_checksum (t ∷ c ∷ 0 ∷ 0 ∷ rest) in
      (icmp_checksum (t ∷ c ∷ cs / 2 ^ 8 ∷ cs % 2 ^ 8 ∷ rest) ≡ 0)
      × (fold_carry (suc (suc k)) (sum_words 0 (t ∷ c ∷ 0 ∷ 0 ∷ rest))
          ≡ fold_carry 2 (sum_words 0 (t ∷ c ∷ 0 ∷ 0 ∷ rest)))
icmp_checksum_verifies t c k rest h short =
    let cs = icmp_checksum (t ∷ c ∷ 0 ∷ 0 ∷ rest) in
    let blank : All IsByte (t ∷ c ∷ 0 ∷ 0 ∷ rest) =
      (h.0, (h.1.0, (omega arith, (omega arith, h.1.1)))) in
    let is : cs ≡ 65535 - ones_sum (total (t ∷ c ∷ 0 ∷ 0 ∷ rest)) =
      icmp_checksum_lem (t ∷ c ∷ 0 ∷ 0 ∷ rest) blank (omega arith) in
    let filled : All IsByte (t ∷ c ∷ cs / 256 ∷ cs % 256 ∷ rest) =
      (h.0, (h.1.0, (omega (arith, is), (omega arith, h.1.1)))) in
    (
      icmp_checksum_lem (t ∷ c ∷ cs / 256 ∷ cs % 256 ∷ rest) filled (omega arith)
          ∙ complement (total (t ∷ c ∷ 0 ∷ 0 ∷ rest)) cs
              (total (t ∷ c ∷ cs / 256 ∷ cs % 256 ∷ rest)) is (omega arith),
      fold_message k (t ∷ c ∷ 0 ∷ 0 ∷ rest) blank (omega arith)
          ∙ sym (fold_message 0 (t ∷ c ∷ 0 ∷ 0 ∷ rest) blank (omega arith)),
    )
