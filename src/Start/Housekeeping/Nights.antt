-- ===== src/Start/Housekeeping/Nights.antt =====
-- What the nights of `housekeeping` of main.go do to the tables, and on which days.
use fogping.Prelude.{
  ℕ, ◌<◌, ◌≤◌, ◌≡◌, ◌⊎◌, Bool, false, List, [], ◌∷◌, Text, All, keep, leb, text_eq,
}
use fogping.Float.{Float}
use fogping.Store.{RoundRow}
use fogping.Store.Rollup.{HourlyRow}
use fogping.Start.Housekeeping.{Turn, House, is_night, keep_house}

-- The day is the same, or a later one.
abbrev pub NotAfter : (Text → ℕ) → Text → Text → Type 0
NotAfter rank a b = (a ≡ b) ⊎ (rank a < rank b)

-- The days of the clock, of which `last` is the first, do not go back.
abbrev pub Forward : {F : Type 0} → (Text → ℕ) → Text → List (Turn F) → Type 0
Forward rank last [] = Unit
Forward rank last (turn ∷ turns) = NotAfter rank last turn.day × Forward rank turn.day turns

-- Each day is later than the one before, and the first later than `last`.
abbrev pub Rising : (Text → ℕ) → Text → List Text → Type 0
Rising rank last [] = Unit
Rising rank last (day ∷ days) = (rank last < rank day) × Rising rank day days

module _ (float : Float) (hot_days keep_days : ℕ) where
  open float use {F}

  -- What a night leaves: nothing that is older than its cut, where the delete did not fail.
  pub record IsClean (turn : Turn F) (after : House F) : Type 0 where
    pub raw :
        (turn.raw_ok ≡ false) ⊎ All (λ (r : RoundRow F). turn.before hot_days ≤ r.t) after.rows
    pub hourly :
        (turn.hourly_ok ≡ false)
        ⊎ All (λ (r : HourlyRow F). turn.before keep_days ≤ r.t) after.hourly

  abbrev pub is_hot : Turn F → RoundRow F → Bool
  is_hot turn r = leb (turn.before hot_days) r.t

  -- After each turn: raw rounds that are not older than the cut are all there, and the tables are
  -- clean if it was a night.
  abbrev pub Tidy : List (Turn F) → House F → Type 0
  Tidy [] h = Unit
  Tidy (turn ∷ turns) h =
      (keep (is_hot turn) (keep_house float hot_days keep_days turn h).rows
        ≡ keep (is_hot turn) turn.rows)
      × ((is_night turn h.last ≡ false) ⊎ IsClean turn (keep_house float hot_days keep_days turn h))
      × Tidy turns (keep_house float hot_days keep_days turn h)
