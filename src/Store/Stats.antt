-- ===== src/Store/Stats.antt =====
-- `calcStats` and `pct` of store.go: the figures under the chart.
use fogping.Prelude.{
  ℕ, ◌+◌, ◌-◌, ◌*◌, ◌/◌, Option, none, some, List, [], ◌∷◌, ◌++◌, if◌then◌else◌, length, get_elem?,
  ltb,
}
use fogping.Prelude.Int.{pos, sub_ℕ}
use fogping.Float.{Float, sort_floats}
use fogping.Store.{Round}

pub record Stats (F : Type 0) : Type 0 where
  pub rounds : ℕ
  pub p50 : F
  pub p90 : F
  pub p99 : F
  pub loss_pct : F
  pub bursts : ℕ

-- `sent`, `recv`, `pool` and `st.Bursts` in the loop
pub record Tally (F : Type 0) : Type 0 where
  pub sent : ℕ
  pub recv : ℕ
  pub pool : List F
  pub bursts : ℕ

unfoldable pub tally : {F : Type 0} → List (Round F) → Tally F → Tally F
tally [] acc = acc
tally (r ∷ rounds) acc = tally rounds (record {
  sent = acc.sent + r.s;
  recv = acc.recv + r.r;
  pool = acc.pool ++ r.ms;
  bursts = if r.b then acc.bursts + 1 else acc.bursts;
})

-- `int(float64(n-1) * p / 100)`: the product is exact, and its quotient is no nearer to the next
-- integer than a hundredth.
abbrev pub pct_index : ℕ → ℕ → ℕ
pct_index n p = (n - 1) * p / 100

module _ (float : Float) where
  open float use {F, of_int, mul, div, leb}

  -- An index that is out of range would panic.
  abbrev pub or_zero : Option F → F
  or_zero none = of_int (pos 0)
  or_zero (some v) = v

  unfoldable pub pct : List F → ℕ → F
  pct [] p = of_int (pos 0)
  pct (x ∷ xs) p = or_zero (get_elem? (x ∷ xs) (pct_index (length (x ∷ xs)) p))

  -- 100 * float64(sent-recv) / float64(sent)
  unfoldable pub loss_share : Tally F → F
  loss_share t =
      if ltb 0 t.sent
      then div (mul (of_int (pos 100)) (of_int (sub_ℕ t.sent t.recv))) (of_int (pos t.sent))
      else of_int (pos 0)

  unfoldable pub stats_of : ℕ → Tally F → Stats F
  unfolding pct loss_share
  stats_of n t =
      let sorted = sort_floats float t.pool in
      record {
        rounds = n;
        p50 = pct sorted 50;
        p90 = pct sorted 90;
        p99 = pct sorted 99;
        loss_pct = loss_share t;
        bursts = t.bursts;
      }

  unfoldable pub calc_stats : List (Round F) → Stats F
  unfolding stats_of tally
  calc_stats rounds =
      stats_of (length rounds) (tally rounds (record { sent = 0; recv = 0; pool = []; bursts = 0 }))
