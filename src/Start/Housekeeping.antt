-- ===== src/Start/Housekeeping.antt =====
-- `housekeeping` of main.go: the rollup at each tick, and the retention once in the night.
pub mod Nights
use fogping.Prelude.{
  ℕ, ◌*◌, ◌≡◌, ◌≢◌, refl, sym, ap, subst, All, All-map, ◌∙◌, inl, inr, Bool, true, false, not, ◌&&◌,
  ◌||◌, Option, none, List, [], ◌∷◌, Text, if◌then◌else◌, ◌==◌, nat_eq, text_eq, eq_of, ne_of,
  eq_refl, any, arith, Bool-cases,
}
use fogping.Float.{Float}
use fogping.Store.{RoundRow}
use fogping.Store.Rollup.{HourlyRow}
use fogping.Store.Sched
use fogping.Store.Sched.{RollupSched, tick, retention}

-- A turn of the loop: the clock with its local date and time, the cuts of `AddDate`, and what the
-- database does. The raw rounds are those of the turn.
pub record Turn (F : Type 0) : Type 0 where
  pub now : ℕ
  pub day : Text
  pub hour : ℕ
  pub minute : ℕ
  pub before : ℕ → ℕ
  pub query : Option Text
  pub write : Option Text
  pub raw_ok : Bool
  pub hourly_ok : Bool
  pub rows : List (RoundRow F)

-- The variables of the loop, and the tables.
pub record House (F : Type 0) : Type 0 where
  pub sched : RollupSched
  pub last : Text
  pub rows : List (RoundRow F)
  pub hourly : List (HourlyRow F)

unfoldable pub is_night : {F : Type 0} → Turn F → Text → Bool
is_night turn last = turn.hour == 0 && turn.minute == 5 && not (last == turn.day)

or_twice : (a b : Bool) → (a || (a || b)) ≡ (a || b)
or_twice true b = refl
or_twice false b = refl

module _ (float : Float) (hot_days keep_days : ℕ) where
  open float use {F}

  unfoldable pub rolled : Turn F → House F → House F
  rolled turn h =
      let (sched, hourly) = tick float turn.query turn.write h.sched turn.now turn.rows h.hourly in
      record h { sched = sched; hourly = hourly; rows = turn.rows }

  unfoldable pub retained : Turn F → House F → House F
  retained turn h =
      let (rows, hourly) =
        retention float turn.before turn.raw_ok turn.hourly_ok hot_days keep_days h.rows h.hourly in
      record h { last = turn.day; rows = rows; hourly = hourly }

  unfoldable pub keep_house : Turn F → House F → House F
  unfolding rolled retained is_night
  keep_house turn h =
      let h' = rolled turn h in if is_night turn h'.last then retained turn h' else h'

  unfoldable pub keep_house_all : List (Turn F) → House F → House F
  unfolding keep_house
  keep_house_all [] h = h
  keep_house_all (turn ∷ turns) h = keep_house_all turns (keep_house turn h)

  -- The first tick comes before the loop; `main` starts with no schedule and no night.
  unfoldable pub housekeeping : Turn F → List (Turn F) → List (HourlyRow F) → House F
  unfolding keep_house_all rolled
  housekeeping first turns hourly = keep_house_all turns (
      rolled first (record {
        sched = record { hot = hot_days * 24 * Sched.hour; last = none };
        last = [];
        rows = first.rows;
        hourly = hourly;
      }))

  -- The days of the nights on which retention ran.
  unfoldable pub nights : List (Turn F) → House F → List Text
  nights [] h = []
  nights (turn ∷ turns) h =
      let rest = nights turns (keep_house turn h) in
      if is_night turn h.last then turn.day ∷ rest else rest

  pub last-night :
      (turn : Turn F) (h : House F)
      → is_night turn h.last ≡ true
      → (keep_house turn h).last ≡ turn.day
  unfolding keep_house rolled retained
  last-night turn h night = rw night refl

  pub last-other :
      (turn : Turn F) (h : House F)
      → is_night turn h.last ≡ false
      → (keep_house turn h).last ≡ h.last
  unfolding keep_house rolled
  last-other turn h other = rw other refl

  pub night-new : (turn : Turn F) (last : Text) → is_night turn last ≡ true → last ≢ turn.day
  unfolding is_night
  night-new turn last night = ne_of (ground (arith, night))

  -- Whether retention has run for a day, before or in these turns.
  abbrev pub done_for : Text → List (Turn F) → House F → Bool
  done_for day turns h = any (λ d. d == day) (h.last ∷ nights turns h)

  -- What a turn adds to the days for which retention has run.
  done_for-step :
      (day : Text) (turn : Turn F) (turns : List (Turn F)) (h : House F)
      → done_for day (turn ∷ turns) h ≡ (h.last == day || done_for day turns (keep_house turn h))
  unfolding nights
  done_for-step day turn turns h =
      let later = any (λ d. d == day) (nights turns (keep_house turn h)) in
      let at : Text → Bool = λ last. (h.last == day) || ((last == day) || later) in
      elim (Bool-cases (is_night turn h.last)) [
        | inl night ↦ rw night (ap at (sym (last-night turn h night)))
        | inr other ↦
            rw other (sym (or_twice (h.last == day) later) ∙ ap at (sym (last-other turn h other)))
      ]

  pub done_for-next :
      (day : Text) (turn : Turn F) (turns : List (Turn F)) (h : House F)
      → done_for day turns (keep_house turn h) ≡ true
      → done_for day (turn ∷ turns) h ≡ true
  done_for-next day turn turns h done = done_for-step day turn turns h ∙ ground (arith, done)

  last-now :
      (turn : Turn F) (h : House F)
      → turn.hour ≡ 0
      → turn.minute ≡ 5
      → (keep_house turn h).last ≡ turn.day
  last-now turn h hour minute = elim (Bool-cases (is_night turn h.last)) [
    | inl night ↦ last-night turn h night
    | inr other ↦
        last-other turn h other ∙ eq_of (unfold is_night in ground (arith, other, hour, minute))
  ]

  pub done_for-now :
      (turn : Turn F) (turns : List (Turn F)) (h : House F)
      → turn.hour ≡ 0
      → turn.minute ≡ 5
      → done_for turn.day (turn ∷ turns) h ≡ true
  done_for-now turn turns h hour minute =
      let last = last-now turn h hour minute in
      done_for-next turn.day turn turns h (rw last (ground (arith, eq_refl turn.day)))
