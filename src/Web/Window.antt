-- ===== src/Web/Window.antt =====
-- What the requests of web.go that read give, and to whom.
use fogping.Prelude.{
  ℕ, ◌+◌, ◌-◌, ◌*◌, ◌≤◌, ◌≡◌, ◌≢◌, refl, subst, ◌⊎◌, inl, inr, ◌||◌, Text, ◌==◌, nat_eq, text_eq,
  leb, ltb, true, arith, Bool-cases,
}
use fogping.Prelude.Int.{ℤ, pos, negsuc, ltb_ℤ, int_eq, int_beq_iff}
use fogping.Float.{Float}
use fogping.Config.{max_days}
use fogping.Store.Query.{is_raw, is_raw-day, day}
use fogping.Web.{Console, Request, authed}
use fogping.Web.Gate.{Admitted, authed-Admitted}
use fogping.Web.Read.{
  int_value, minutes_of, series_range, Ask, unauthorized, Sources, answer, serve_read,
}

minutes_of_bounds : (m : ℤ) → (1 ≤ minutes_of m) × (minutes_of m ≤ max_days * 1440)
unfolding minutes_of
minutes_of_bounds (negsuc n) = (omega arith, omega arith)
minutes_of_bounds (pos n) = ground arith

-- The minutes that are asked for, in range; or six hours where those are out of range.
abbrev pub Minutes : ℤ → ℕ → Type 0
Minutes asked m =
    (asked ≡ pos m) × (1 ≤ m) × (m ≤ 93 * 1440)
    ⊎ (m ≡ 360) × ((ltb_ℤ asked (pos 1) ≡ true) ⊎ (ltb_ℤ (pos (93 * 1440)) asked ≡ true))

minutes_of-Minutes : (asked : ℤ) → Minutes asked (minutes_of asked)
unfolding minutes_of
minutes_of-Minutes (negsuc n) = inr (refl, inl (ground arith))
minutes_of-Minutes (pos n) = elim (Bool-cases (leb n 0 || ltb (max_days * 1440) n)) [
  | inl out ↦ rw out (inr (refl, ground arith))
  | inr within ↦ rw within (inl (refl, (ground arith), (ground arith)))
]

raw_minutes :
    (now length : ℕ)
    → length ≤ now
    → length ≤ 9223372036
    → is_raw (pos (now - length)) (pos now) ≡ leb length day
raw_minutes now length h fits =
    let whole : now - length + length ≡ now = omega arith in
    subst (λ t. is_raw (pos (now - length)) (pos t) ≡ leb length day) whole
      (is_raw-day (now - length) length fits)

-- A request for a series gives both ends of its range, or it gets the minutes that end now: those it
-- asks for, if they are at least one and at most those of 93 days, and else 360; and then just a
-- window of up to a day is read raw.
-- The clock is past the 93 days.
pub series_range_lem :
    (from to minutes : Text) (now : ℕ)
    → 93 * 86400 ≤ now
    → (int_value from ≢ pos 0)
        × (int_value to ≢ pos 0)
        × (series_range from to minutes now ≡ (int_value from, int_value to))
      ⊎ (m : ℕ) × Minutes (int_value minutes) m
        × (series_range from to minutes now ≡ (pos (now - m * 60), pos now))
        × (is_raw (pos (now - m * 60)) (pos now) ≡ leb (m * 60) 86400)
unfolding series_range
series_range_lem from to minutes now late =
    elim (Bool-cases (int_value from == pos 0 || int_value to == pos 0)) [
      | inr given ↦ inl (
        (λ e. ground (arith, int_beq_iff (int_value from) (pos 0))),
        (λ e. ground (arith, int_beq_iff (int_value to) (pos 0))),
        rw given refl,
      )
      | inl recent ↦
          let m = minutes_of (int_value minutes) in
          let (least, most) = minutes_of_bounds (int_value minutes) in
          let asked = minutes_of-Minutes (int_value minutes) in
          inr (
            m,
            asked,
            rw recent (ground arith),
            raw_minutes now (m * 60) (omega arith) (omega arith),
          )
    ]

-- A request that reads is answered from the table, the probes and the store only with a session
-- that has not expired, or where there are no users; any other is answered with 401. It never
-- changes the table, the users or whether the console can be edited.
pub serve_read-Admitted :
    (float : Float) (r : Request) (ask : Ask) (c : Console) (d : Sources (float.F))
    → (((serve_read float r ask c d).0 ≡ unauthorized)
        ⊎ Admitted r c × ((serve_read float r ask c d).0 ≡ answer float ask r.now c.table d))
      × ((serve_read float r ask c d).1.table ≡ c.table)
      × ((serve_read float r ask c d).1.users ≡ c.users)
      × ((serve_read float r ask c d).1.editable ≡ c.editable)
unfolding serve_read
serve_read-Admitted float r ask c d = elim (Bool-cases (authed r c).0) [
  | inl known ↦ (inr (authed-Admitted r c known, rw known refl), refl, refl, refl)
  | inr stranger ↦ (inl (rw stranger refl), refl, refl, refl)
]
