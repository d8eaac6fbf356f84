-- ===== src/Store/Grouping.antt =====
-- The buckets of `Rollup` against a group-by of the rows.
use fogping.Prelude.{
  ℕ, ◌+◌, ◌≡◌, refl, ap, ◌∙◌, Bool, ◌&&◌, Option, none, some, List, [], ◌∷◌, ◌++◌, if◌then◌else◌,
  ◌==◌, nat_eq, keep, leb, arith,
}
use fogping.Float.{Float}
use fogping.Store.{RoundRow}
use fogping.Store.Rollup.{
  Agg, Rolling, bucket_of, new_agg, add_row, quantiles_of, close_bucket, roll_row, roll_rows,
  nothing_open, buckets,
}

-- The sum of a measure over the elements that pass a test.
unfoldable pub total {ℓ} : {A : Type ℓ} → (A → Bool) → (A → ℕ) → List A → ℕ
total p f [] = 0
total p f (a ∷ xs) = (if p a then f a else 0) + total p f xs

total-snoc {ℓ} :
    {A : Type ℓ} (p : A → Bool) (f : A → ℕ) (xs : List A) (a : A)
    → total p f (xs ++ a ∷ []) ≡ total p f xs + (if p a then f a else 0)
unfolding total
total-snoc p f [] a = omega arith
total-snoc p f (x ∷ xs) a = omega (arith, total-snoc p f xs a)

-- A number that a bucket adds up over its rows.
record Measure (F : Type 0) : Type 0 where
  pub row : RoundRow F → ℕ
  pub agg : Agg F → ℕ
  pub at_new : (id t : ℕ) → agg (new_agg id t) ≡ 0
  pub at_row : (r : RoundRow F) (a : Agg F) → agg (add_row r a) ≡ agg a + row r
  pub at_close : (a : Agg F) (q : List (Option F)) → agg (record a { q = q }) ≡ agg a

module _ (float : Float) (m : Measure (float.F)) (id t : ℕ) where
  open float use {F}

  abbrev row_in : RoundRow F → Bool
  row_in r = r.target_id == id && bucket_of r.t == t

  abbrev agg_in : Agg F → Bool
  agg_in a = a.id == id && a.t == t

  abbrev open_value : Option (Agg F × List F) → ℕ
  open_value none = 0
  open_value (some (cur, vals)) = if agg_in cur then m.agg cur else 0

  close_bucket-total :
      (out : List (Agg F)) (o : Option (Agg F × List F))
      → total agg_in m.agg (close_bucket float out o) ≡ total agg_in m.agg out + open_value o
  unfolding close_bucket
  close_bucket-total out none = omega arith
  close_bucket-total out (some (cur, vals)) =
      total-snoc agg_in m.agg out (record cur { q = quantiles_of float vals })
      ∙ ap (λ k. total agg_in m.agg out + (if agg_in cur then k else 0))
          (m.at_close cur (quantiles_of float vals))

  roll_row-total :
      (r : RoundRow F) (out : List (Agg F)) (o : Option (Agg F × List F))
      → total agg_in m.agg (roll_row float r (record { out = out; open_bucket = o })).out
          + open_value (roll_row float r (record { out = out; open_bucket = o })).open_bucket
        ≡ total agg_in m.agg out + open_value o + (if row_in r then m.row r else 0)
  unfolding roll_row
  roll_row-total r out none = ground (
    arith,
    close_bucket-total out none,
    m.at_row r (new_agg r.target_id (bucket_of r.t)),
    m.at_new r.target_id (bucket_of r.t),
  )
  roll_row-total r out (some (cur, vals)) = ground (
    arith,
    close_bucket-total out (some (cur, vals)),
    m.at_row r (new_agg r.target_id (bucket_of r.t)),
    m.at_new r.target_id (bucket_of r.t),
    m.at_row r cur,
  )

  roll_rows-total :
      (rows : List (RoundRow F)) (st : Rolling F)
      → total agg_in m.agg
          (close_bucket float (roll_rows float rows st).out (roll_rows float rows st).open_bucket)
        ≡ total agg_in m.agg st.out + open_value st.open_bucket + total row_in m.row rows
  unfolding roll_rows total
  roll_rows-total [] st = omega (arith, close_bucket-total st.out st.open_bucket)
  roll_rows-total (r ∷ rows) st =
      omega
        (arith, roll_rows-total rows (roll_row float r st), roll_row-total r st.out st.open_bucket)

  buckets-total :
      (start : ℕ) (rows : List (RoundRow F))
      → total agg_in m.agg (buckets float start rows)
        ≡ total row_in m.row (keep (λ (r : RoundRow F). leb start r.t) rows)
  unfolding buckets total
  buckets-total start rows =
      omega (
        arith,
        roll_rows-total (keep (λ (r : RoundRow F). leb start r.t) rows) (nothing_open float),
      )

module _ {F : Type 0} where
  measure_sent : Measure F
  unfolding add_row
  measure_sent = record {
    row = λ (r : RoundRow F). r.sent;
    agg = λ (a : Agg F). a.sent;
    at_new = λ id t. refl;
    at_row = λ r a. refl;
    at_close = λ a q. refl;
  }

  measure_recv : Measure F
  unfolding add_row
  measure_recv = record {
    row = λ (r : RoundRow F). r.recv;
    agg = λ (a : Agg F). a.recv;
    at_new = λ id t. refl;
    at_row = λ r a. refl;
    at_close = λ a q. refl;
  }

  measure_burst : Measure F
  unfolding add_row
  measure_burst = record {
    row = λ (r : RoundRow F). r.burst;
    agg = λ (a : Agg F). a.burst;
    at_new = λ id t. refl;
    at_row = λ r a. refl;
    at_close = λ a q. refl;
  }

  measure_rounds : Measure F
  unfolding add_row
  measure_rounds = record {
    row = λ (r : RoundRow F). 1;
    agg = λ (a : Agg F). a.n;
    at_new = λ id t. refl;
    at_row = λ r a. refl;
    at_close = λ a q. refl;
  }

module _ (float : Float) (id t start : ℕ) (rows : List (RoundRow (float.F))) where
  -- The raw rows from `start` on that a group-by would put in the group of the key.
  abbrev pub grouped : (RoundRow (float.F) → ℕ) → ℕ
  grouped f =
      total (λ (r : RoundRow (float.F)). r.target_id == id && bucket_of r.t == t) f
        (keep (λ (r : RoundRow (float.F)). leb start r.t) rows)

  abbrev pub bucketed : (Agg (float.F) → ℕ) → ℕ
  bucketed f = total (λ (a : Agg (float.F)). a.id == id && a.t == t) f (buckets float start rows)

  -- For every target and hour the buckets of that key count the packets sent and received, the
  -- bursts and the rounds that the rows of that key have, from the start of the rollup on, in
  -- whatever order the rows come.
  pub buckets-group :
      (bucketed (λ (a : Agg (float.F)). a.sent) ≡ grouped (λ (r : RoundRow (float.F)). r.sent))
      × (bucketed (λ (a : Agg (float.F)). a.recv) ≡ grouped (λ (r : RoundRow (float.F)). r.recv))
      × (bucketed (λ (a : Agg (float.F)). a.burst) ≡ grouped (λ (r : RoundRow (float.F)). r.burst))
      × (bucketed (λ (a : Agg (float.F)). a.n) ≡ grouped (λ (r : RoundRow (float.F)). 1))
  unfolding measure_sent measure_recv measure_burst measure_rounds
  buckets-group = (
    buckets-total float measure_sent id t start rows,
    buckets-total float measure_recv id t start rows,
    buckets-total float measure_burst id t start rows,
    buckets-total float measure_rounds id t start rows,
  )
