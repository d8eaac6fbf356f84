-- ===== src/Store/Sched.antt =====
-- `rollupSched` and `Retention` of store.go: what the hourly housekeeping recomputes and deletes.
use fogping.Prelude.{
  ℕ, ◌-◌, ◌*◌, ◌/◌, Bool, Option, none, some, List, ◌&&◌, Text, if◌then◌else◌, keep, ltb, leb,
}
use fogping.Float.{Float}
use fogping.Store.{RoundRow}
use fogping.Store.Rollup.{HourlyRow, rollup}

-- A time is in nanoseconds since the epoch.
abbrev pub second : ℕ
second = 1000000000

abbrev pub unix : ℕ → ℕ
unix now = now / second

abbrev pub hour : ℕ
hour = 3600 * second

-- The zero time of `last` is `none`.
pub record RollupSched : Type 0 where
  pub hot : ℕ
  pub last : Option ℕ

abbrev pub horizon_of : RollupSched → ℕ → ℕ
horizon_of r now = unix (now - r.hot)

-- The `since` of a tick; `none` where the tick returns at once.
unfoldable pub since_of : RollupSched → ℕ → Option ℕ
since_of r now = elim (r.last) [
  | none ↦ some (horizon_of r now)
  | some last ↦ if ltb (now - last) (300 * second) then none else some (unix (now - 2 * hour))
]

module _ (float : Float) where
  open float use {F}

  unfoldable pub tick_since :
      Option Text
      → Option Text
      → RollupSched
      → ℕ
      → List (RoundRow F)
      → List (HourlyRow F)
      → Option ℕ
      → RollupSched × List (HourlyRow F)
  tick_since query write r now rows hourly none = (r, hourly)
  tick_since query write r now rows hourly (some since) =
      let (err, hourly') = rollup float query write since (horizon_of r now) rows hourly in
      elim err [ some e ↦ (r, hourly') | none ↦ (record r { last = some now }, hourly') ]

  -- `query` and `write` are the errors that the two database accesses of the rollup meet.
  unfoldable pub tick :
      Option Text
      → Option Text
      → RollupSched
      → ℕ
      → List (RoundRow F)
      → List (HourlyRow F)
      → RollupSched × List (HourlyRow F)
  tick query write r now rows hourly = tick_since query write r now rows hourly (since_of r now)

  -- `before` is `now.AddDate(0, 0, -days).Unix()`; a delete that fails is left for the next night.
  unfoldable pub retention :
      (ℕ → ℕ)
      → Bool
      → Bool
      → ℕ
      → ℕ
      → List (RoundRow F)
      → List (HourlyRow F)
      → List (RoundRow F) × List (HourlyRow F)
  retention before raw_ok hourly_ok raw_days keep_days rows hourly = (
    if ltb 0 raw_days && raw_ok
        then keep (λ (r : RoundRow F). leb (before raw_days) r.t) rows
        else rows,
    if ltb 0 keep_days && hourly_ok
        then keep (λ (r : HourlyRow F). leb (before keep_days) r.t) hourly
        else hourly,
  )
