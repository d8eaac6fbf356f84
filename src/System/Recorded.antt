-- ===== src/System/Recorded.antt =====
-- Sequences of requests, each with its reload, and rounds of the probes: which rounds the store of
-- store.go takes.
use fogping.Prelude.{
  ℕ, ◌≡◌, ◌∙◌, ◌&&◌, arith, Option, some, List, [], ◌∷◌, ◌++◌, Text, ◌==◌, nat_eq, text_eq,
  either_branch, ap,
}
use fogping.Prelude.Map.{lookup}
use fogping.Config.{TargetCfg}
use fogping.Float.{Float}
use fogping.Store.{Round, RoundRow}
use fogping.Store.Live.{append, ring_cap, ring_of}
use fogping.Store.Ring.{last_of, cap_ring-last_of, append-known, flush-memory}
use fogping.Store.Known.{append-Known}
use fogping.Store.Ensure.{Access}
use fogping.Runner.Names.{Apart}
use fogping.Runner.Recorded.{IsRecorded, reload-IsRecorded, reload-Apart}
use fogping.Web.{serve_write}
use fogping.System.{System, world_of, reloads, reloaded, serve}
use fogping.System.Synced.{
  IsSane, written-IsSane, Turn, served, entered, probed, wrote, Run, begin, and_then, Run-IsSane,
}

module _ {F : Type 0} where
  -- The probes have different names, and the store knows them.
  pub record IsHeard (s : System F) : Type 0 where
    pub apart : Apart s.live
    pub recorded : IsRecorded s.live s.memory

  pub idle-IsHeard : (s : System F) → s.live ≡ [] → IsHeard s
  unfolding lookup
  idle-IsHeard s idle = record {
    apart = λ i j a b p q same. absurd (ground (arith, idle, p));
    recorded = λ id cfg h. absurd (ground (arith, idle, h));
  }

module _ (float : Float) where
  open float use {F}

  pub reloaded-IsHeard :
      (access : ℕ → Access) (rows : List (RoundRow F)) (fault : Option Text) (s : System F)
      → IsSane s
      → IsHeard s
      → IsHeard (reloaded float rows access fault s)
  unfolding reloaded
  reloaded-IsHeard access rows fault s sane heard =
      let w = world_of float rows s in
      record {
        apart = reload-Apart float access rows fault w sane.valid sane.keyed heard.apart;
        recorded =
            reload-IsRecorded float access rows fault w sane.keyed heard.apart heard.recorded;
      }

module _ (float : Float) (host_of : Text → Option Text) where
  open float use {F}

  Turn-IsHeard :
      {s after : System F} → Turn float host_of s after → IsSane s → IsHeard s → IsHeard after
  unfolding serve
  Turn-IsHeard {s} (served access rows fault r call) sane heard =
      let answer = serve_write host_of r call s.console in
      let after : System F = record s { console = answer.1 } in
      let same : IsHeard after = record { apart = heard.apart; recorded = heard.recorded } in
      either_branch (λ (x : ℕ × System F). IsHeard x.1)
        (answer.0 == 200 && reloads call s.console.table)
        (answer.0, reloaded float rows access fault after) (answer.0, after)
        (reloaded-IsHeard float access rows fault after (written-IsSane host_of r call s sane) same)
        same
  Turn-IsHeard (entered method user pass token now) sane heard = record {
    apart = heard.apart;
    recorded = heard.recorded;
  }
  Turn-IsHeard {s} (probed fault name r rows) sane heard = record {
    apart = heard.apart;
    recorded = λ id cfg h.
        append-Known float fault name cfg.name r s.memory rows (heard.recorded id cfg h);
  }
  Turn-IsHeard {s} (wrote fault rows) sane heard = record {
    apart = heard.apart;
    recorded = λ id cfg h.
        let (k, known) = heard.recorded id cfg h in
        (k, ap (λ m. lookup cfg.name m.ids) (flush-memory float fault s.memory rows) ∙ known);
  }

  Run-IsHeard : {s last : System F} → IsSane s → IsHeard s → Run float host_of s last → IsHeard last
  Run-IsHeard sane heard begin = heard
  Run-IsHeard sane heard (and_then run turn) =
      Turn-IsHeard turn (Run-IsSane float host_of sane run) (Run-IsHeard sane heard run)

  -- Whatever requests, logins, rounds and writes come, and whatever the database does to them and
  -- to the reloads, from a valid table with one probe for an id, different names and every name
  -- known to the store: no two probes ever have the same name, and a round of a probe that runs is
  -- never dropped. It becomes the last of the ring of its name, which keeps the last 1440, and the
  -- ids of the names stay.
  pub probe_heard :
      {first s : System F} (id : ℕ) (cfg : TargetCfg) (fault : Option Text) (r : Round F)
      (rows : List (RoundRow F))
      → IsSane first
      → IsHeard first
      → Run float host_of first s
      → lookup id s.live ≡ some cfg
      → Apart s.live
        × (ring_of (lookup cfg.name (append float fault cfg.name r (s.memory, rows)).1.rings)
            ≡ last_of ring_cap (ring_of (lookup cfg.name s.memory.rings) ++ r ∷ []))
        × ((append float fault cfg.name r (s.memory, rows)).1.ids ≡ s.memory.ids)
  probe_heard {s = s} id cfg fault r rows sane heard run runs =
      let after = Run-IsHeard sane heard run in
      let (k, known) = after.recorded id cfg runs in
      let (ids, ring, waits) = append-known float fault cfg.name r s.memory rows k known in
      (
        after.apart,
        ring ∙ cap_ring-last_of (ring_of (lookup cfg.name s.memory.rings) ++ r ∷ []),
        ids,
      )
