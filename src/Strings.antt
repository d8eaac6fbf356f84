-- ===== src/Strings.antt =====
-- The functions of Go's `strings`, `unicode`, `utf8` and `strconv` that config.go and targetsio.go
-- call, on texts of code points.
use fogping.Prelude.{
  ℕ, zero, suc, ◌+◌, ◌/◌, ◌%◌, ◌<◌, ◌≡◌, refl, Bool, true, false, ◌&&◌, ◌||◌, [], ◌∷◌, ◌++◌, arith,
  ltb, leb, nat_beq, if◌then◌else◌, Text, any, any-append, ap, ◌∙◌,
}
use fogping.Prelude.Int.{ℤ, pos, negsuc}

-- unicode.IsSpace: the Latin-1 spaces, then the White_Space property.
unfoldable pub is_space : ℕ → Bool
is_space c =
    leb 9 c && leb c 13
    || nat_beq c 32
    || nat_beq c 0x85
    || nat_beq c 0xa0
    || nat_beq c 0x1680
    || leb 0x2000 c && leb c 0x200a
    || nat_beq c 0x2028
    || nat_beq c 0x2029
    || nat_beq c 0x202f
    || nat_beq c 0x205f
    || nat_beq c 0x3000

-- unicode.IsControl: the codes up to 31, and those from 127 to 159.
unfoldable pub is_control : ℕ → Bool
is_control c = ltb c 0x20 || leb 0x7f c && ltb c 0xa0

-- The bytes of a code point in UTF-8, and `len` of a string.
unfoldable pub rune_len : ℕ → ℕ
rune_len c = if ltb c 0x80 then 1 else if ltb c 0x800 then 2 else if ltb c 0x10000 then 3 else 4

unfoldable pub byte_len : Text → ℕ
unfolding rune_len
byte_len [] = 0
byte_len (c ∷ s) = rune_len c + byte_len s

unfoldable pub trim_left : Text → Text
unfolding is_space
trim_left [] = []
trim_left (c ∷ s) = let rest = trim_left s in if is_space c then rest else c ∷ s

abbrev join_trimmed : Bool → ℕ → Text → Text
join_trimmed true c [] = []
join_trimmed true c (d ∷ s) = c ∷ d ∷ s
join_trimmed false c s = c ∷ s

unfoldable pub trim_right : Text → Text
unfolding is_space
trim_right [] = []
trim_right (c ∷ s) = join_trimmed (is_space c) c (trim_right s)

-- strings.TrimSpace
unfoldable pub trim_space : Text → Text
unfolding trim_left trim_right
trim_space s = trim_right (trim_left s)

-- strings.ToLower, as far as the result can be ASCII: the ASCII capitals, and the two other runes
-- whose lower case is ASCII. All other runes stay outside ASCII and are left as they are.
unfoldable pub to_lower : Text → Text
to_lower [] = []
to_lower (c ∷ s) =
    (if leb b'A' c && leb c b'Z'
      then c + 32
      else if nat_beq c 0x130
      then b'i'
      else if nat_beq c 0x212a
      then b'k'
      else c)
    ∷ to_lower s

-- Decimal digits, most significant first; `n + 1` rounds are more than there are digits.
unfoldable pub digits : ℕ → ℕ → Text
digits zero n = []
digits (suc f) n =
    let rest = digits f (n / 10) in if ltb n 10 then (48 + n) ∷ [] else rest ++ (48 + n % 10) ∷ []

-- strconv.Itoa
unfoldable pub itoa : ℤ → Text
unfolding digits
itoa (pos n) = digits (n + 1) n
itoa (negsuc n) = b'-' ∷ digits (n + 2) (n + 1)

-- net.JoinHostPort: a host with a colon is an IPv6 literal and is bracketed.
unfoldable pub join_host_port : Text → Text → Text
join_host_port host port =
    if any (nat_beq b':') host then b'[' ∷ (host ++ b']' ∷ b':' ∷ port) else host ++ b':' ∷ port

starts_clean : Text → Bool
starts_clean [] = true
starts_clean (c ∷ s) = if is_space c then false else true

trim_left-starts_clean : (s : Text) → starts_clean (trim_left s) ≡ true
unfolding trim_left starts_clean
trim_left-starts_clean [] = refl
trim_left-starts_clean (c ∷ s) = ground (arith, trim_left-starts_clean s)

trim_left_clean : (s : Text) → starts_clean s ≡ true → trim_left s ≡ s
unfolding trim_left starts_clean
trim_left_clean [] h = refl
trim_left_clean (c ∷ s) h = ground arith

trim_right-starts_clean : (s : Text) → starts_clean s ≡ true → starts_clean (trim_right s) ≡ true
unfolding trim_right starts_clean
trim_right-starts_clean [] h = refl
trim_right-starts_clean (c ∷ s) h = ground arith

trim_right-cons :
    (c : ℕ) (s : Text) → trim_right (c ∷ s) ≡ join_trimmed (is_space c) c (trim_right s)
unfolding trim_right
trim_right-cons c s = refl

trim_right_join :
    (b : Bool) (c : ℕ) (t : Text)
    → is_space c ≡ b
    → trim_right t ≡ t
    → trim_right (join_trimmed b c t) ≡ join_trimmed b c t
trim_right_join true c [] e h = unfold trim_right in refl
trim_right_join true c (d ∷ t) e h = rw (trim_right-cons c (d ∷ t), e, h)
trim_right_join false c t e h = rw (trim_right-cons c t, e, h)

trim_right_idem : (s : Text) → trim_right (trim_right s) ≡ trim_right s
trim_right_idem [] = unfold trim_right in refl
trim_right_idem (c ∷ s) =
    rw (trim_right-cons c s)
      (trim_right_join (is_space c) c (trim_right s) refl (trim_right_idem s))

-- Trimming a trimmed text changes nothing.
pub trim_space_idem : (s : Text) → trim_space (trim_space s) ≡ trim_space s
trim_space_idem s =
    unfold trim_space in
    ap trim_right (
      trim_left_clean (trim_right (trim_left s))
        (trim_right-starts_clean (trim_left s) (trim_left-starts_clean s)))
    ∙ trim_right_idem (trim_left s)

trim_right_spaceless : (s : Text) → any is_space s ≡ false → trim_right s ≡ s
trim_right_spaceless [] h = unfold trim_right in refl
trim_right_spaceless (c ∷ s) h = rw (trim_right-cons c s) (ground (arith, trim_right_spaceless s))

pub trim_space_spaceless : (s : Text) → any is_space s ≡ false → trim_space s ≡ s
trim_space_spaceless [] h = unfold trim_space in refl
trim_space_spaceless (c ∷ s) h =
    unfold trim_space in
    ap trim_right (trim_left_clean (c ∷ s) (unfold starts_clean in ground arith))
    ∙ trim_right_spaceless (c ∷ s) h

digit-is_space : (d : ℕ) → d < 10 → is_space (48 + d) ≡ false
unfolding is_space
digit-is_space d h = ground arith

digits-spaceless : (f n : ℕ) → any is_space (digits f n) ≡ false
unfolding digits
digits-spaceless zero n = refl
digits-spaceless (suc f) n = ground (
  arith,
  digits-spaceless f (n / 10),
  digit-is_space n,
  digit-is_space (n % 10),
  any-append is_space (digits f (n / 10)) ((48 + n % 10) ∷ []),
)

itoa-spaceless : (i : ℤ) → any is_space (itoa i) ≡ false
itoa-spaceless (pos n) = unfold itoa in digits-spaceless (n + 1) n
itoa-spaceless (negsuc n) = unfold itoa is_space in digits-spaceless (n + 2) (n + 1)

-- An address has no space if its host has none.
pub join_host_port-spaceless :
    (host : Text) (port : ℤ)
    → any is_space host ≡ false
    → any is_space (join_host_port host (itoa port)) ≡ false
join_host_port-spaceless host port h =
    unfold join_host_port in
    ground (
      arith,
      itoa-spaceless port,
      any-append is_space host (b']' ∷ b':' ∷ itoa port),
      any-append is_space host (b':' ∷ itoa port),
      bracket,
      colon,
    )
  where
    bracket : (is_space b'[' ≡ false) × (is_space b']' ≡ false)
    bracket = unfold is_space in (refl, refl)

    colon : is_space b':' ≡ false
    colon = unfold is_space in refl
