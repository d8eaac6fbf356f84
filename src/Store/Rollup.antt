-- ===== src/Store/Rollup.antt =====
-- `Rollup` of store.go: the hourly buckets recomputed from the raw rounds.
use mathlib.Core.Option
use fogping.Prelude.{
  ℕ, ◌+◌, ◌-◌, ◌*◌, ◌/◌, Bool, true, not, ◌||◌, ◌&&◌, Option, none, some, List, [], ◌∷◌, ◌++◌, map,
  Text, if◌then◌else◌, ◌==◌, nat_eq, length, get_elem?, keep, ltb, leb,
}
use fogping.Prelude.Int.{pos, sub_ℕ}
use fogping.Float.{Float, sort_floats}
use fogping.Store.{RoundRow}
use fogping.Store.Samples.{round2, unpack_samples}

abbrev pub bucket_sec : ℕ
bucket_sec = 3600

-- The first bucket that is recomputed: `since` aligned down, unless the bucket starts before the
-- horizon, which is then aligned up.
unfoldable pub rollup_start : ℕ → ℕ → ℕ
rollup_start since horizon =
    let start = since / bucket_sec * bucket_sec in
    if ltb start horizon then (horizon + bucket_sec - 1) / bucket_sec * bucket_sec else start

unfoldable pub bucket_of : ℕ → ℕ
bucket_of t = t / bucket_sec * bucket_sec

-- The struct `agg`; a quantile that is nil is `none`.
pub record Agg (F : Type 0) : Type 0 where
  pub id : ℕ
  pub t : ℕ
  pub sent : ℕ
  pub recv : ℕ
  pub n : ℕ
  pub burst : ℕ
  pub q : List (Option F)

-- `out`, and `cur` with `vals` where a bucket is open.
pub record Rolling (F : Type 0) : Type 0 where
  pub out : List (Agg F)
  pub open_bucket : Option (Agg F × List F)

-- A row of the table `rounds_hourly`.
pub record HourlyRow (F : Type 0) : Type 0 where
  pub target_id : ℕ
  pub t : ℕ
  pub q : List (Option F)
  pub loss_pct : F
  pub bursts : ℕ
  pub n : ℕ

-- `int(float64(len(vals)-1)*p)` for the five `p`, as hundredths. The product of the index with the
-- float nearest to .9 or .99 rounds to a value with the same integer part for any list that fits
-- in memory.
abbrev pub quantile_index : ℕ → ℕ → ℕ
quantile_index n hundredths = (n - 1) * hundredths / 100

abbrev pub quantiles : List ℕ
quantiles = 0 ∷ 50 ∷ 90 ∷ 99 ∷ 100 ∷ []

abbrev pub new_agg : {F : Type 0} → ℕ → ℕ → Agg F
new_agg id t = record { id = id; t = t; sent = 0; recv = 0; n = 0; burst = 0; q = [] }

unfoldable pub add_row : {F : Type 0} → RoundRow F → Agg F → Agg F
add_row r a = record a {
  sent = a.sent + r.sent;
  recv = a.recv + r.recv;
  burst = a.burst + r.burst;
  n = a.n + 1;
}

module _ (float : Float) where
  open float use {F, of_int, mul, div}

  unfoldable pub quantiles_of : List F → List (Option F)
  quantiles_of [] = map (λ p. none) quantiles
  quantiles_of (v ∷ vals) =
      let sorted = sort_floats float (v ∷ vals) in
      map (λ p. Option.map (round2 float) (get_elem? sorted (quantile_index (length sorted) p)))
        quantiles

  unfoldable pub close_bucket : List (Agg F) → Option (Agg F × List F) → List (Agg F)
  close_bucket out none = out
  close_bucket out (some (cur, vals)) = out ++ record cur { q = quantiles_of vals } ∷ []

  unfoldable pub starts_bucket : RoundRow F → Option (Agg F × List F) → Bool
  starts_bucket r none = true
  starts_bucket r (some (cur, vals)) = not (r.target_id == cur.id) || not (bucket_of r.t == cur.t)

  unfoldable pub extend_bucket : RoundRow F → Option (Agg F × List F) → Option (Agg F × List F)
  unfolding add_row
  extend_bucket r none = none
  extend_bucket r (some (cur, vals)) = some (add_row r cur, vals ++ unpack_samples float r.samples)

  unfoldable pub roll_row : RoundRow F → Rolling F → Rolling F
  unfolding starts_bucket extend_bucket
  roll_row r st =
      if starts_bucket r st.open_bucket
      then record {
        out = close_bucket st.out st.open_bucket;
        open_bucket = extend_bucket r (some (new_agg r.target_id (bucket_of r.t), []));
      }
      else record st { open_bucket = extend_bucket r st.open_bucket }

  unfoldable pub roll_rows : List (RoundRow F) → Rolling F → Rolling F
  roll_rows [] st = st
  roll_rows (r ∷ rows) st = roll_rows rows (roll_row r st)

  abbrev pub nothing_open : Rolling F
  nothing_open = record { out = []; open_bucket = none }

  -- The buckets of the rows from `start` on; the rows come by target and time.
  unfoldable pub buckets : ℕ → List (RoundRow F) → List (Agg F)
  buckets start rows =
      let st = roll_rows (keep (λ (r : RoundRow F). leb start r.t) rows) nothing_open in
      close_bucket st.out st.open_bucket

  -- `100 * float64(a.sent-a.recv) / float64(a.sent)`, or 0.
  unfoldable pub loss_of : ℕ → ℕ → F
  loss_of sent recv =
      if ltb 0 sent
      then div (mul (of_int (pos 100)) (of_int (sub_ℕ sent recv))) (of_int (pos sent))
      else of_int (pos 0)

  unfoldable pub hourly_of : Agg F → HourlyRow F
  unfolding loss_of
  hourly_of a = record {
    target_id = a.id;
    t = a.t;
    q = a.q;
    loss_pct = loss_of a.sent a.recv;
    bursts = a.burst;
    n = a.n;
  }

  -- `INSERT OR REPLACE` by the primary key, in its order.
  unfoldable pub put_hourly : HourlyRow F → List (HourlyRow F) → List (HourlyRow F)
  put_hourly r [] = r ∷ []
  put_hourly r (q ∷ rows) =
      if ltb r.target_id q.target_id
      then r ∷ q ∷ rows
      else if r.target_id == q.target_id && ltb r.t q.t
      then r ∷ q ∷ rows
      else if r.target_id == q.target_id && r.t == q.t
      then r ∷ rows
      else q ∷ put_hourly r rows

  unfoldable pub put_buckets : List (Agg F) → List (HourlyRow F) → List (HourlyRow F)
  unfolding put_hourly hourly_of
  put_buckets [] hourly = hourly
  put_buckets (a ∷ out) hourly = put_buckets out (put_hourly (hourly_of a) hourly)

  -- The transaction, when there is something to write, may fail; then nothing changes.
  unfoldable pub write_buckets :
      Option Text → List (Agg F) → List (HourlyRow F) → Option Text × List (HourlyRow F)
  write_buckets write out hourly =
      if leb (length out) 0
      then (none, hourly)
      else elim write [ some e ↦ (some e, hourly) | none ↦ (none, put_buckets out hourly) ]

  -- `query` and `write` are the errors that the read and the transaction meet.
  unfoldable pub rollup :
      Option Text
      → Option Text
      → ℕ
      → ℕ
      → List (RoundRow F)
      → List (HourlyRow F)
      → Option Text × List (HourlyRow F)
  rollup (some e) write since horizon rows hourly = (some e, hourly)
  rollup none write since horizon rows hourly =
      write_buckets write (buckets (rollup_start since horizon) rows) hourly
