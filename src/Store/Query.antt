-- ===== src/Store/Query.antt =====
-- `ReadRange` and the two queries under it in store.go, `replay`, and `EnsureTarget`.
use fogping.Prelude.{
  zero, ◌<◌, ℕ, suc, ◌+◌, ◌-◌, ◌*◌, ◌%◌, ◌^◌, ◌≤◌, ◌≡◌, Bool, not, ◌&&◌, Option, none, some, List,
  [], ◌∷◌, map, Text, if◌then◌else◌, ◌==◌, nat_eq, text_eq, length, keep, ltb, leb, arith,
}
use fogping.Prelude.Int.{ℤ, pos, negsuc, pos_part, neg_part, sub_ℕ, ltb_ℤ}
use fogping.Prelude.Map.{lookup, insert}
use fogping.Float.{Float}
use fogping.Store.{Round, Memory, RoundRow}
use fogping.Store.Samples.{unpack_samples}
use fogping.Store.Live.{cap_ring}
use fogping.Store.Rollup.{HourlyRow, bucket_sec}

-- Go's int64: two's complement on 64 bits.
abbrev pub residue : ℤ → ℕ
residue (pos n) = n % 2 ^ 64
residue (negsuc n) = 2 ^ 64 - 1 - n % 2 ^ 64

abbrev pub wrap : ℤ → ℤ
wrap z = let r = residue z in if ltb r (2 ^ 63) then pos r else negsuc (2 ^ 64 - 1 - r)

abbrev pub sub_ℤ : ℤ → ℤ → ℤ
sub_ℤ a b = sub_ℕ (pos_part a + neg_part b) (pos_part b + neg_part a)

-- A number of seconds as a duration in nanoseconds, before it wraps.
abbrev pub nanoseconds : ℤ → ℤ
nanoseconds (pos n) = pos (n * 1000000000)
nanoseconds (negsuc n) = negsuc (suc n * 1000000000 - 1)

abbrev pub day : ℕ
day = 86400

-- The test of `ReadRange`.
unfoldable pub is_raw : ℤ → ℤ → Bool
is_raw from to = not (ltb_ℤ (pos (day * 1000000000)) (wrap (nanoseconds (wrap (sub_ℤ to from)))))

wrap_small : (n : ℕ) → n < 2 ^ 63 → wrap (pos n) ≡ pos n
wrap_small n h = ground arith

sub_ℤ-length : (from length : ℕ) → sub_ℤ (pos (from + length)) (pos from) ≡ pos length
sub_ℤ-length from length = ground arith

-- A range of up to a day, and only that, is read raw, as long as it is under 292 years.
pub is_raw-day :
    (from length : ℕ)
    → length ≤ 9223372036
    → is_raw (pos from) (pos (from + length)) ≡ leb length day
unfolding is_raw
is_raw-day from length fits =
    rw
      (
        sub_ℤ-length from length,
        wrap_small length (omega arith),
        wrap_small (length * 1000000000) (omega arith),
      )
      (ground arith)

-- What the database does in a query: it fails, or the scan of the rows stops after some of them.
pub data Cursor : Type 0 where
  broken whole : Cursor
  breaks : ℕ → Cursor

unfoldable pub scanned {ℓ} : {A : Type ℓ} → Cursor → List A → List A
scanned broken xs = []
scanned whole xs = xs
scanned (breaks n) [] = []
scanned (breaks zero) (x ∷ xs) = []
scanned (breaks (suc n)) (x ∷ xs) = x ∷ scanned (breaks n) xs

-- `t BETWEEN from AND to`
abbrev pub between : ℤ → ℤ → ℕ → Bool
between from to t = not (ltb_ℤ (pos t) from) && not (ltb_ℤ to (pos t))

-- `t > from - bucketSec AND t <= to`
abbrev pub straddles : ℤ → ℤ → ℕ → Bool
straddles from to t = ltb_ℤ (sub_ℤ from (pos bucket_sec)) (pos t) && not (ltb_ℤ to (pos t))

-- `Bucket`; the five numbers are there or none is.
pub record Bucket (F : Type 0) : Type 0 where
  pub t : ℕ
  pub q : List F
  pub loss : F
  pub n : ℕ
  pub bursts : ℕ

pub data Series (F : Type 0) : Type 0 where
  raw : List (Round F) → Series F
  hourly : List (Bucket F) → Series F

module _ (float : Float) where
  open float use {F, of_int}

  unfoldable pub round_of : RoundRow F → Round F
  round_of r = record {
    t = r.t;
    s = r.sent;
    r = r.recv;
    ms = unpack_samples float r.samples;
    b = not (r.burst == 0);
    z = r.z;
  }

  unfoldable pub query_raw : Cursor → Memory F → List (RoundRow F) → Text → ℤ → ℤ → List (Round F)
  query_raw cursor s rows name from to = elim (lookup name s.ids) [
    | none ↦ []
    | some id ↦
        map round_of (
          scanned cursor (keep (λ (r : RoundRow F). r.target_id == id && between from to r.t) rows))
  ]

  -- The value of a `sql.NullFloat64`.
  abbrev float_value : Option F → F
  float_value none = of_int (pos 0)
  float_value (some v) = v

  numbers_of : List (Option F) → List F
  numbers_of [] = []
  numbers_of (none ∷ q) = []
  numbers_of (some lo ∷ q) = lo ∷ map float_value q

  unfoldable pub bucket_row : HourlyRow F → Bucket F
  unfolding numbers_of
  bucket_row r = record {
    t = r.t;
    q = numbers_of r.q;
    loss = r.loss_pct;
    n = r.n;
    bursts = r.bursts;
  }

  unfoldable pub query_hourly :
      Cursor → Memory F → List (HourlyRow F) → Text → ℤ → ℤ → List (Bucket F)
  query_hourly cursor s rows name from to = elim (lookup name s.ids) [
    | none ↦ []
    | some id ↦ map bucket_row (
        scanned cursor
          (keep (λ (r : HourlyRow F). r.target_id == id && straddles from to r.t) rows))
  ]

  unfoldable pub read_range :
      Cursor → Memory F → List (RoundRow F) → List (HourlyRow F) → Text → ℤ → ℤ → Series F
  read_range cursor s rows buckets name from to =
      if is_raw from to
      then raw (query_raw cursor s rows name from to)
      else hourly (query_hourly cursor s buckets name from to)

  -- The ring of a name that is known is replaced by its last rounds in the table.
  -- The last 24 hours; `start` and `end` are two readings of the clock, in Unix seconds.
  unfoldable pub replay : Cursor → ℕ → ℕ → Text → List (RoundRow F) → Memory F → Memory F
  replay cursor start end name rows s = elim (lookup name s.ids) [
    | none ↦ s
    | some id ↦ record s {
      rings =
          insert name (cap_ring (query_raw cursor s rows name (sub_ℕ start day) (pos end))) s.rings;
    }
  ]
