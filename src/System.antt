-- ===== src/System.antt =====
-- The requests of web.go that write, with the reload of the probes by runner.go after each that
-- succeeds.
pub mod Reloaded
pub mod Synced
pub mod Recorded
pub mod Tests
use fogping.Prelude.{
  ℕ, Bool, true, false, ◌&&◌, Option, List, Text, if◌then◌else◌, ◌==◌, nat_eq, ltb,
}
use fogping.Prelude.Map.{Map}
use fogping.Config.{TargetCfg}
use fogping.Float.{Float}
use fogping.Targets.Rows.{Table}
use fogping.TargetsIo.Serve.{Reply, refused, planned, serve_import}
use fogping.Store.{Memory, RoundRow}
use fogping.Store.Ensure.{Access}
use fogping.Runner.{World, reload}
use fogping.Web.{
  Console, Request, Call, post_target, put_target, delete_target, post_import, serve_write,
}

-- What the mux, the runner and the store share: the console with the table, the probes that run, and
-- the memory of the store.
pub record System (F : Type 0) : Type 0 where
  pub console : Console
  pub live : Map ℕ TargetCfg
  pub memory : Memory F

unfoldable pub imported_any : Reply → Bool
imported_any (refused status) = false
imported_any (planned p) = ltb 0 p.imported

-- Which calls that are answered with 200 reload the probes: an import only if it added a target.
unfoldable pub reloads : Call → Table → Bool
unfolding imported_any
reloads (post_target effect select entry) table = true
reloads (put_target exec select id entry) table = true
reloads (delete_target exec id) table = true
reloads (post_import outcome names upload) table =
    imported_any (serve_import outcome upload names table).0

module _ (float : Float) (rows : List (RoundRow (float.F))) where
  open float use {F}

  abbrev pub world_of : System F → World F
  world_of s = record { live = s.live; memory = s.memory; table = s.console.table }

  -- The probes and the table after a reload; its error is only logged.
  unfoldable pub reloaded : (ℕ → Access) → Option Text → System F → System F
  reloaded access fault s =
      let w = (reload float access rows fault (world_of s)).1 in
      record { console = record s.console { table = w.table }; live = w.live; memory = w.memory }

  -- A request, with what the database does to it and to the reload.
  unfoldable pub serve :
      (Text → Option Text) → (ℕ → Access) → Option Text → Request → Call → System F → ℕ × System F
  unfolding reloaded reloads
  serve host_of access fault r call s =
      let (status, c) = serve_write host_of r call s.console in
      let after : System F = record s { console = c } in
      if status == 200 && reloads call s.console.table
      then (status, reloaded access fault after)
      else (status, after)
