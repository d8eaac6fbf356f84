-- ===== src/Start/Guarded.antt =====
-- What a program of main.go that goes on to run is given.
use fogping.Prelude.{
  ℕ, ◌≤◌, ◌<◌, ◌≡◌, refl, sym, subst, ap, ◌∙◌, ◌⊎◌, inl, inr, true, false, not, ◌&&◌, List, ◌++◌,
  Text, codes, ◌==◌, text_eq, any, length, leb, arith, All, Bool-cases,
}
use fogping.Prelude.Int.{ℤ, pos}
use fogping.Prelude.Map.{Map}
use fogping.Prelude.Result.{Result, ok, err}
use fogping.Config.{Config, default_config, retention_days, max_days}
use fogping.Config.Pace.{retention_days_bounds}
use fogping.Start.{AuthError, split_args, parse_auth_args, port_of}
use fogping.Start.Auth.{Credential, parse_auth_args_closed}
use fogping.Start.Launch.{
  Flags, Parsed, asks_help, bad_flag, parsed, runs, configured, with_users, with_days, with_flags,
  launch,
}

runs_inj : {a b : Config} {m n : Map Text Text} → runs a m ≡ runs b n → (a ≡ b) × (m ≡ n)
runs_inj {a} {b} {m} {n} h = (cc h, cc h)

-- What the page is protected by.
abbrev pub IsGuarded : Config → Map Text Text → Type 0
IsGuarded cfg users =
    cfg.editable ≡ true → (0 < length users) ⊎ (cfg.listen ≡ codes "127.0.0.1:8518")

local_listen :
    (flags : Flags) (days : ℤ)
    → flags.local_only ≡ true
    → (configured flags days).listen ≡ codes "127.0.0.1:8518"
unfolding configured port_of default_config
local_listen flags days h = rw h refl

configured-IsGuarded :
    (flags : Flags) (days : ℤ) (users : Map Text Text)
    → (flags.edit && leb (length users) 0 && not flags.local_only) ≡ false
    → IsGuarded (configured flags days) users
unfolding configured
configured-IsGuarded flags days users closed editable = elim (Bool-cases (leb (length users) 0)) [
  | inr some_user ↦ inl (ground (arith, some_user))
  | inl no_user ↦ elim (Bool-cases flags.local_only) [
    | inl only ↦ inr (local_listen flags days only)
    | inr all ↦ absurd (ground (arith, closed, editable, no_user, all))
  ]
]

with_users-runs :
    (flags : Flags) (days : ℤ) (r : Result AuthError (Map Text Text)) (cfg : Config)
    (users : Map Text Text)
    → with_users flags days r ≡ runs cfg users
    → (r ≡ ok users) × (cfg ≡ configured flags days) × IsGuarded cfg users
unfolding with_users
with_users-runs flags days (err e) cfg users h = absurd (cc h)
with_users-runs flags days (ok us) cfg users h =
    elim (Bool-cases (flags.edit && leb (length us) 0 && not flags.local_only)) [
      | inl open_page ↦ absurd (ground (arith, open_page))
      | inr closed ↦
          let (same_cfg, same_users) = runs_inj (rw closed at h) in
          (
            ap ok same_users,
            sym same_cfg,
            subst (λ (m : Map Text Text). IsGuarded cfg m) same_users
                (subst (λ (c : Config). IsGuarded c us) same_cfg
                  (configured-IsGuarded flags days us closed)),
          )
    ]

-- At least a day and at most the 93 of the maximum.
abbrev pub HasDays : Config → Type 0
HasDays cfg = (d : ℕ) × (cfg.retention_days ≡ pos d) × (1 ≤ d) × (d ≤ max_days)

with_days-runs :
    (flags : Flags) (auth : List Text) (cfg : Config) (users : Map Text Text)
    → with_days flags auth (retention_days flags.days) ≡ runs cfg users
    → HasDays cfg × (parse_auth_args (auth ++ flags.rest) ≡ ok users) × IsGuarded cfg users
unfolding with_days
with_days-runs flags auth cfg users h = elim (retention_days_bounds flags.days) [
  | inr (above, wrong) ↦ absurd (cc (rw wrong at h))
  | inl (below, (d, right, least, most)) ↦
      let (accepted, same, guarded) =
        with_users-runs flags (pos d) (parse_auth_args (auth ++ flags.rest)) cfg users
          (rw right at h) in
      (
        (d, ap (λ (c : Config). c.retention_days) same ∙ unfold configured in refl, least, most),
        accepted,
        guarded,
      )
]

with_flags-runs :
    (auth : List Text) (p : Parsed) (cfg : Config) (users : Map Text Text)
    → with_flags auth p ≡ runs cfg users
    → HasDays cfg × IsGuarded cfg users × ((words : List Text) × (parse_auth_args words ≡ ok users))
unfolding with_flags
with_flags-runs auth asks_help cfg users h = absurd (cc h)
with_flags-runs auth bad_flag cfg users h = absurd (cc h)
with_flags-runs auth (parsed flags) cfg users h = elim (Bool-cases flags.show_version) [
  | inl version ↦ absurd (cc (rw version at h))
  | inr runs_on ↦
      let (days, accepted, guarded) = with_days-runs flags auth cfg users (rw runs_on at h) in
      (days, guarded, (auth ++ flags.rest, accepted))
]

users-Credential :
    (words : List Text) (users : Map Text Text)
    → parse_auth_args words ≡ ok users
    → All Credential users
users-Credential words users accepted = elim (parse_auth_args_closed words users accepted) [
  | inl (none_given, no_user) ↦ subst (λ m. All Credential m) (sym no_user) tt
  | inr (credentials, some_user) ↦ credentials
]

-- Whatever the arguments and the flag package's reading of them: a program that goes on to run
-- keeps between 1 and 93 days, has no empty user or password, and if its page can be edited it has
-- at least one user or listens on 127.0.0.1 only.
pub launch-IsGuarded :
    (parse : List Text → Parsed) (args : List Text) (cfg : Config) (users : Map Text Text)
    → launch parse args ≡ runs cfg users
    → HasDays cfg × All Credential users × IsGuarded cfg users
unfolding launch
launch-IsGuarded parse args cfg users h = elim (Bool-cases (any (λ a. a == codes "help") args)) [
  | inl asked ↦ absurd (cc (rw asked at h))
  | inr unasked ↦
      let (flags, auth) = split_args args in
      let (days, guarded, (words, accepted)) =
        with_flags-runs auth (parse flags) cfg users (rw unasked at h) in
      (days, users-Credential words users accepted, guarded)
]
