-- ===== src/Start/Launch.antt =====
-- `main` of main.go: from the command line to the configuration, the users and the table that the
-- program runs with.
use fogping.Prelude.{
  ℕ, Bool, not, ◌&&◌, Option, none, some, List, [], ◌++◌, Text, codes, if◌then◌else◌, ◌==◌, nat_eq,
  text_eq, any, leb, length,
}
use fogping.Prelude.Int.{ℤ, pos}
use fogping.Prelude.Map.{Map}
use fogping.Prelude.Result.{Result, ok, err}
use fogping.Float.{Float}
use fogping.Config.{Config, TargetCfg, default_config, retention_days, icmp, fast}
use fogping.Targets.{Effect, create_target, target_rows}
use fogping.Targets.Rows.{Table}
use fogping.Store.{Memory, RoundRow}
use fogping.Store.Ensure.{Access}
use fogping.Runner.{World, reload}
use fogping.System.{System}
use fogping.Start.{AuthError, split_args, parse_auth_args, port_of}

-- What the flags say, and the arguments that are none.
pub record Flags : Type 0 where
  pub local_only : Bool
  pub days : ℤ
  pub edit : Bool
  pub show_version : Bool
  pub rest : List Text

-- What the flag package makes of the flags: a request for help, an error, or their values.
pub data Parsed : Type 0 where
  asks_help bad_flag : Parsed
  parsed : Flags → Parsed

-- How `main` goes on: it prints the help or the version, ends with a status, or runs.
pub data Launch : Type 0 where
  shows_help shows_version : Launch
  -- a wrong flag or number of days; words that are no users; a writable page that is open to all
  wrong_usage wrong_users unsafe : Launch
  runs : Config → Map Text Text → Launch

unfoldable pub configured : Flags → ℤ → Config
configured flags days = record default_config {
  retention_days = days;
  listen =
      (if flags.local_only
        then codes "127.0.0.1" ++ port_of default_config.listen
        else default_config.listen);
  editable = flags.edit;
}

unfoldable pub with_users : Flags → ℤ → Result AuthError (Map Text Text) → Launch
unfolding configured
with_users flags days (err e) = wrong_users
with_users flags days (ok users) =
    if flags.edit && leb (length users) 0 && not flags.local_only
    then unsafe
    else runs (configured flags days) users

unfoldable pub with_days : Flags → List Text → Result ℤ ℤ → Launch
unfolding with_users
with_days flags auth (err n) = wrong_usage
with_days flags auth (ok days) = with_users flags days (parse_auth_args (auth ++ flags.rest))

unfoldable pub with_flags : List Text → Parsed → Launch
unfolding with_days
with_flags auth asks_help = shows_help
with_flags auth bad_flag = wrong_usage
with_flags auth (parsed flags) =
    if flags.show_version then shows_version else with_days flags auth (retention_days flags.days)

unfoldable pub launch : (List Text → Parsed) → List Text → Launch
unfolding with_flags
launch parse args =
    if any (λ a. a == codes "help") args
    then shows_help
    else (let (flags, auth) = split_args args in with_flags auth (parse flags))

abbrev pub demo_target : TargetCfg
demo_target = record {
  id = 0;
  name = codes "Demo";
  type = icmp;
  host = codes "www.google.com";
  port = pos 0;
  pace = fast;
  interval_sec = pos 0;
}

-- A table without a row gets the demo target; `fault` is what the count of the rows meets.
unfoldable pub seed : Option Text → Effect → Option Text → Table → Table
seed (some e) effect select table = table
seed none effect select table =
    if target_rows table == 0 then (create_target effect select demo_target table).1 else table

module _ (float : Float) (rows : List (RoundRow (float.F))) where
  open float use {F}

  abbrev pub empty_memory : Memory F
  empty_memory = record { ids = []; rings = []; names = []; total = 0; pending = [] }

  unfoldable pub begun : Config → Map Text Text → Option Text × World F → Option (System F)
  begun cfg users (some e, w) = none
  begun cfg users (none, w) = some (record {
    console = record { users = users; editable = cfg.editable; sessions = []; table = w.table };
    live = w.live;
    memory = w.memory;
  })

  -- From the table that the store finds: the seed, and the first reload, without which the program
  -- ends.
  unfoldable pub boot :
      (ℕ → Access)
      → Option Text
      → Option Text
      → Effect
      → Option Text
      → Config
      → Map Text Text
      → Table
      → Option (System F)
  unfolding seed begun
  boot access fault count effect select cfg users table = begun cfg users (
      reload float access rows fault
        (record { live = []; memory = empty_memory; table = seed count effect select table }))
