-- ===== src/Store/Percentiles.antt =====
-- What the figures of `calcStats` of store.go say of the samples.
use fogping.Prelude.{ℕ, ◌-◌, ◌*◌, ◌<◌, List, [], ◌∷◌, ◌++◌, length}
use fogping.Float.{Float}
use fogping.Float.Rank.{count}
use fogping.Store.{Round}

module _ {F : Type 0} where
  -- All samples, in the order of the rounds.
  abbrev pub samples : List (Round F) → List F
  samples [] = []
  samples (r ∷ rounds) = r.ms ++ samples rounds

module _ (float : Float) where
  open float use {F, leb}

  -- More than `p` hundredths of the other samples, in number, are at most `q`, itself counted, and
  -- more than the rest of the hundredths are at least `q`.
  abbrev pub AtPercent : List F → ℕ → F → Type 0
  AtPercent pool p q =
      (p * (length pool - 1) < 100 * count (λ x. leb x q) pool)
      × ((100 - p) * (length pool - 1) < 100 * count (λ x. leb q x) pool)
