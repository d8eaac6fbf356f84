-- ===== src/Start/Tests.antt =====
-- Runs of the command line of main.go.
use fogping.Prelude.{
  ℕ, ◌==◌, text_eq, if◌then◌else◌, ◌+◌, ◌-◌, ◌*◌, true, false, Option, none, some, ◌≡◌, refl, List,
  [], ◌∷◌, Text, codes, All,
}
use fogping.Prelude.Map.{Map, insert}
use fogping.Prelude.Result.{ok}
use fogping.Start.{split_args, is_auth, cut, split, gather, pair_up, parse_auth_args, port_of}
use fogping.Prelude.Int.{pos}
use fogping.Config.{Config, default_config, retention_days}
use fogping.Targets.Lookup.{no_fault}
use fogping.Targets.Reach.{new_table, new_table-IsValid}
use fogping.Store.Ensure.{Access, readable}
use fogping.Store.Tests.{whole_numbers, row_at}
use fogping.Runner.{reload}
use fogping.Runner.Reload.{Works}
use fogping.System.{System, reloaded}
use fogping.System.Recorded.{IsHeard}
use fogping.System.Synced.{IsSane, Synced}
use fogping.Start.Launch.{Parsed, parsed, runs, launch, seed, boot}
use fogping.Start.Guarded.{HasDays, IsGuarded, launch-IsGuarded}
use fogping.Start.Boot.{unstarted, boot-Synced}
use fogping.Start.Housekeeping.{Turn, House}
use fogping.Start.Auth.{Credential}

abbrev words : List Text
words = codes "user=ann,bob" ∷ codes "passwd=x,y" ∷ []

abbrev both : Map Text Text
both = (codes "ann", codes "x") ∷ (codes "bob", codes "y") ∷ []

accepted : parse_auth_args words ≡ ok both
unfolding parse_auth_args gather cut split pair_up insert
accepted = refl

abbrev line : List Text
line = codes "user=ann" ∷ codes "--edit" ∷ codes "passwd=x" ∷ codes "--days" ∷ codes "30" ∷ []

shown : port_of (codes "0.0.0.0:8518") ≡ codes ":8518"
unfolding port_of
shown = refl

-- What the flag package makes of `--edit --days 30`.
abbrev read_flags : List Text → Parsed
read_flags flags = parsed (record {
  local_only = false;
  days = pos 30;
  edit = true;
  show_version = false;
  rest = codes "passwd=x" ∷ [];
})

abbrev ann : Map Text Text
ann = (codes "ann", codes "x") ∷ []

abbrev thirty_days : Config
thirty_days = record default_config { retention_days = pos 30; editable = true }

launched : launch read_flags (codes "user=ann" ∷ codes "--edit" ∷ []) ≡ runs thirty_days ann
unfolding launch retention_days parse_auth_args gather split_args is_auth cut split pair_up insert
launched = refl

launch-IsGuarded_example : HasDays thirty_days × All Credential ann × IsGuarded thirty_days ann
launch-IsGuarded_example =
    launch-IsGuarded read_flags (codes "user=ann" ∷ codes "--edit" ∷ []) thirty_days ann launched

abbrev access : ℕ → Access
access id = readable 60 60

works : Works access
works id = (refl, refl)

no_urls : Text → Option Text
no_urls s = none

abbrev first_start : System ℕ
first_start =
    reloaded whole_numbers [] access none
      (unstarted whole_numbers [] thirty_days ann (seed none (no_fault 0) none new_table))

boots :
    boot whole_numbers [] access none none (no_fault 0) none thirty_days ann new_table
    ≡ some first_start
unfolding boot reload reloaded
boots = refl

boot-Synced_example :
    Synced first_start
    × IsSane first_start
    × IsHeard first_start
    × (first_start.console.users ≡ ann)
    × (first_start.console.editable ≡ thirty_days.editable)
    × (first_start.console.sessions ≡ [])
boot-Synced_example =
    boot-Synced whole_numbers [] access none none (no_fault 0) none thirty_days ann new_table
      first_start new_table-IsValid works boots

abbrev night : ℕ → Turn ℕ
night second = record {
  now = 1700000000000000000 + second;
  day = codes "2026-01-31";
  hour = 0;
  minute = 5;
  before = λ days. 1700000000 - days * 86400;
  query = none;
  write = none;
  raw_ok = true;
  hourly_ok = true;
  rows = row_at 3700 ∷ row_at 1700000000 ∷ [];
}

abbrev house : House ℕ
house = record {
  sched = record { hot = 172800000000000; last = none };
  last = [];
  rows = [];
  hourly = [];
}

-- Only the night's day has a rank.
abbrev rank : Text → ℕ
rank day = if day == codes "2026-01-31" then 1 else 0
