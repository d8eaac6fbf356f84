-- ===== src/Store/Horizon.antt =====
-- Where `Rollup` of store.go starts, and what the retention may have deleted before it.
use fogping.Prelude.{
  ℕ, ◌*◌, ◌≤◌, ◌≡◌, ◌↔◌, refl, ap, Bool, ◌&&◌, Option, none, some, Text, List, [], ◌∷◌, keep, ltb,
  leb, inl, inr, arith, Bool-cases,
}
use fogping.Float.{Float}
use fogping.Store.{RoundRow}
use fogping.Store.Rollup.{
  write_buckets, roll_rows, nothing_open, close_bucket, HourlyRow, bucket_sec, rollup_start,
  bucket_of, buckets, rollup,
}
use fogping.Store.Sched.{RollupSched, horizon_of, since_of, tick, tick_since, retention}

-- The rollup starts at the first bucket boundary that is neither before the bucket of `since` nor
-- before the horizon.
pub rollup_start_least :
    (since horizon k : ℕ)
    → (bucket_of (rollup_start since horizon) ≡ rollup_start since horizon)
      × ((rollup_start since horizon ≤ k * bucket_sec)
          ↔ (bucket_of since ≤ k * bucket_sec) × (horizon ≤ k * bucket_sec))
unfolding rollup_start bucket_of
rollup_start_least since horizon k =
    (ground arith, ((λ h. (ground arith, ground arith)), (λ h. ground arith)))

horizon-rollup_start : (since horizon : ℕ) → horizon ≤ rollup_start since horizon
unfolding rollup_start
horizon-rollup_start since horizon = ground arith

module _ (float : Float) where
  open float use {F}

  keep-keep :
      (cut start : ℕ) (rows : List (RoundRow F))
      → cut ≤ start
      → keep (λ (r : RoundRow F). leb start r.t) (keep (λ (r : RoundRow F). leb cut r.t) rows)
        ≡ keep (λ (r : RoundRow F). leb start r.t) rows
  keep-keep cut start [] h = refl
  keep-keep cut start (r ∷ rows) h = ground (arith, keep-keep cut start rows h)

  buckets_retained :
      (start cut : ℕ) (rows : List (RoundRow F))
      → cut ≤ start
      → buckets float start (keep (λ (r : RoundRow F). leb cut r.t) rows) ≡ buckets float start rows
  unfolding buckets
  buckets_retained start cut rows h =
      ap
        (λ (kept : List (RoundRow F)).
          let st = roll_rows float kept (nothing_open float) in
          close_bucket float st.out st.open_bucket)
        (keep-keep cut start rows h)

  rollup_retained :
      (query write : Option Text) (since horizon cut : ℕ) (rows : List (RoundRow F))
      (hourly : List (HourlyRow F))
      → cut ≤ horizon
      → rollup float query write since horizon (keep (λ (r : RoundRow F). leb cut r.t) rows) hourly
        ≡ rollup float query write since horizon rows hourly
  unfolding rollup
  rollup_retained (some e) write since horizon cut rows hourly h = refl
  rollup_retained none write since horizon cut rows hourly h =
      ap (λ out. write_buckets float write out hourly)
        (buckets_retained (rollup_start since horizon) cut rows
          (omega (arith, h, horizon-rollup_start since horizon)))

  tick_rows :
      (query write : Option Text) (r : RollupSched) (now : ℕ) (rows rows' : List (RoundRow F))
      → (hourly : List (HourlyRow F)) (s : Option ℕ)
      → ((since : ℕ)
          → rollup float query write since (horizon_of r now) rows hourly
            ≡ rollup float query write since (horizon_of r now) rows' hourly)
      → tick_since float query write r now rows hourly s
        ≡ tick_since float query write r now rows' hourly s
  unfolding tick_since
  tick_rows query write r now rows rows' hourly none same = refl
  tick_rows query write r now rows rows' hourly (some since) same =
      ap
        (λ (done : Option Text × List (HourlyRow F)). elim (done.0) [
          | some e ↦ (r, done.1)
          | none ↦ (record r { last = some now }, done.1)
        ])
        (same since)

  -- A tick writes the same hourly rows whether or not a retention whose cut is at or before the
  -- horizon of the tick has deleted raw rounds first, and leaves the same schedule.
  pub tick-retention :
      (query write : Option Text) (r : RollupSched) (now : ℕ) (rows : List (RoundRow F))
      → (hourly hourly' : List (HourlyRow F)) (before : ℕ → ℕ) (raw_ok hourly_ok : Bool)
      → (raw_days keep_days : ℕ) → before raw_days ≤ horizon_of r now
      → tick float query write r now
          (retention float before raw_ok hourly_ok raw_days keep_days rows hourly').0
          hourly
        ≡ tick float query write r now rows hourly
  unfolding retention tick
  tick-retention query write r now rows hourly hourly' before raw_ok hourly_ok raw_days keep_days
        h =
      elim (Bool-cases (ltb 0 raw_days && raw_ok)) [
        | inl e ↦ rw e (
            tick_rows query write r now (keep (λ (q : RoundRow F). leb (before raw_days) q.t) rows)
              rows hourly (since_of r now)
              (λ since.
                rollup_retained query write since (horizon_of r now) (before raw_days) rows hourly
                  h))
        | inr e ↦ rw e refl
      ]
