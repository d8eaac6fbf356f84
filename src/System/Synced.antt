-- ===== src/System/Synced.antt =====
-- Sequences of requests, each with its reload: what the table says and what is probed.
use fogping.Prelude.{
  ℕ, ◌≡◌, refl, ◌∙◌, true, ◌&&◌, Option, none, List, Text, ◌==◌, nat_eq, nat_beq_iff, either_branch,
}
use fogping.Prelude.Map.{lookup}
use fogping.Float.{Float}
use fogping.Targets.Rows.{find_id}
use fogping.Targets.Validity.{IsValid}
use fogping.Store.{Round, RoundRow}
use fogping.Store.Live.{append, flush}
use fogping.Store.Ensure.{Access}
use fogping.Runner.Diff.{Keyed}
use fogping.Runner.Reload.{Works, active_cfg, reload_runs_active}
use fogping.Web.{Request, Call, serve_write, login}
use fogping.Web.Reach.{Step-IsValid, writes, logs_in}
use fogping.System.{System, reloads, world_of, reloaded, serve}
use fogping.System.Reloaded.{Kept, reload-Holds}

module _ {F : Type 0} where
  -- A valid table, and one probe for an id.
  pub record IsSane (s : System F) : Type 0 where
    pub valid : IsValid s.console.table
    pub keyed : Keyed s.live

  -- Just the active rows are probed, each with its settings.
  abbrev pub Synced : System F → Type 0
  Synced s = (id : ℕ) → lookup id s.live ≡ active_cfg (find_id id s.console.table.rows) none

  pub written-IsSane :
      (host_of : Text → Option Text) (r : Request) (call : Call) (s : System F)
      → IsSane s
      → IsSane (record s { console = (serve_write host_of r call s.console).1 })
  written-IsSane host_of r call s sane = record {
    valid = Step-IsValid host_of (writes r call) sane.valid;
    keyed = sane.keyed;
  }

module _ (float : Float) (rows : List (RoundRow (float.F))) where
  open float use {F}

  pub reloaded-IsSane :
      (access : ℕ → Access) (fault : Option Text) (s : System F)
      → IsSane s
      → IsSane (reloaded float rows access fault s)
  unfolding reloaded
  reloaded-IsSane access fault s sane =
      let start : Kept s.console.table s.console.table = record {
        valid = sane.valid;
        same = λ id. refl;
      } in
      let (keyed, kept) =
        reload-Holds float access rows s.console.table fault (world_of float rows s)
          (sane.keyed, start) in
      record { valid = kept.valid; keyed = keyed }

  pub reloaded-Synced :
      (access : ℕ → Access) (s : System F)
      → Works access
      → IsSane s
      → Synced (reloaded float rows access none s)
  unfolding reloaded
  reloaded-Synced access s works sane id =
      let start : Kept s.console.table s.console.table = record {
        valid = sane.valid;
        same = λ i. refl;
      } in
      let (keyed, kept) =
        reload-Holds float access rows s.console.table none (world_of float rows s)
          (sane.keyed, start) in
      (reload_runs_active float access rows (world_of float rows s) id works sane.valid
        sane.keyed).1
      ∙ kept.same id

module _ (float : Float) (host_of : Text → Option Text) where
  open float use {F}

  -- A request that writes, with whatever the database does to it and to the reload; a login; a round
  -- of some probe, or the write of what waits.
  pub data Turn (s : System F) : System F → Type 0 where
    served :
        (access : ℕ → Access) (rows : List (RoundRow F)) (fault : Option Text) (r : Request)
        (call : Call)
        → Turn s (serve float rows host_of access fault r call s).1
    entered :
        (method user pass token : Text) (now : ℕ)
        → Turn s (record s { console = (login method user pass token now s.console).1 })
    probed :
        (fault : Option Text) (name : Text) (r : Round F) (rows : List (RoundRow F))
        → Turn s (record s { memory = (append float fault name r (s.memory, rows)).1 })
    wrote :
        (fault : Option Text) (rows : List (RoundRow F))
        → Turn s (record s { memory = (flush float fault (s.memory, rows)).1 })

  pub data Run (s : System F) : System F → Type 0 where
    begin : Run s s
    and_then : {mid last : System F} → Run s mid → Turn mid last → Run s last

  Turn-IsSane : {s after : System F} → Turn s after → IsSane s → IsSane after
  unfolding serve
  Turn-IsSane {s} (served access rows fault r call) sane =
      let answer = serve_write host_of r call s.console in
      let after : System F = record s { console = answer.1 } in
      let written = written-IsSane host_of r call s sane in
      either_branch (λ (x : ℕ × System F). IsSane x.1)
        (answer.0 == 200 && reloads call s.console.table)
        (answer.0, reloaded float rows access fault after) (answer.0, after)
        (reloaded-IsSane float rows access fault after written) written
  Turn-IsSane {s} (entered method user pass token now) sane = record {
    valid = Step-IsValid host_of {c = s.console} (logs_in method user pass token now) sane.valid;
    keyed = sane.keyed;
  }
  Turn-IsSane (probed fault name r rows) sane = record { valid = sane.valid; keyed = sane.keyed }
  Turn-IsSane (wrote fault rows) sane = record { valid = sane.valid; keyed = sane.keyed }

  pub Run-IsSane : {s last : System F} → IsSane s → Run s last → IsSane last
  Run-IsSane sane begin = sane
  Run-IsSane sane (and_then run turn) = Turn-IsSane turn (Run-IsSane sane run)

module _ (float : Float) (rows : List (RoundRow (float.F))) (host_of : Text → Option Text) where
  open float use {F}

  status_lem :
      (access : ℕ → Access) (r : Request) (call : Call) (s : System F)
      → (serve float rows host_of access none r call s).0 ≡ 200
      → (serve_write host_of r call s.console).0 ≡ 200
  unfolding serve
  status_lem access r call s =
      let answer = serve_write host_of r call s.console in
      let after : System F = record s { console = answer.1 } in
      either_branch (λ (x : ℕ × System F). x.0 ≡ 200 → answer.0 ≡ 200)
        (answer.0 == 200 && reloads call s.console.table)
        (answer.0, reloaded float rows access none after) (answer.0, after) (λ e. e) (λ e. e)

  -- From a valid table with one probe for an id, whatever requests, logins and rounds came before
  -- and whatever the database did to them and to the reloads: after a request that is answered with
  -- 200 and reloads, and whose reload meets no failure, just the active rows of the table are
  -- probed, each with its settings. The table is valid and there is one probe for an id all the
  -- time.
  pub serve-Synced :
      {first s : System F} (access : ℕ → Access) (r : Request) (call : Call)
      → IsSane first
      → Run float host_of first s
      → Works access
      → (serve float rows host_of access none r call s).0 ≡ 200
      → reloads call s.console.table ≡ true
      → Synced (serve float rows host_of access none r call s).1
        × IsSane (serve float rows host_of access none r call s).1
  unfolding serve
  serve-Synced {s = s} access r call sane run works fine reloading =
      let answer = serve_write host_of r call s.console in
      let before = Run-IsSane float host_of sane run in
      let written = written-IsSane host_of r call s before in
      let status : answer.0 ≡ 200 = status_lem access r call s fine in
      let code : (answer.0 == 200) ≡ true = (nat_beq_iff answer.0 200).1 status in
      rw (code, reloading)
        (
          reloaded-Synced float rows access (record s { console = answer.1 }) works written,
          reloaded-IsSane float rows access none (record s { console = answer.1 }) written,
        )
