-- ===== src/Probe/Loop.antt =====
-- `probeLoop` of probe.go: a round of a target, its verdict, and the round stored, at each tick.
use fogping.Prelude.{
  ℕ, ◌/◌, ◌*◌, ◌^◌, false, Option, List, [], ◌∷◌, Text, if◌then◌else◌, ◌==◌, text_eq,
}
use fogping.Prelude.Int.{pos}
use fogping.Prelude.Result.{Result, ok, err}
use fogping.Float.{Float}
use fogping.Config.{TargetCfg, ProbeCfg, icmp, tcp}
use fogping.Config.Pace.{probe_params}
use fogping.Store.{Round, Memory, RoundRow}
use fogping.Store.Live.{append}
use fogping.Detector.{check_burst}
use fogping.Probe.{Ip, Net}
use fogping.Probe.Collect.{millisecond}
use fogping.Probe.Rounds.{ProbeError, empty_round, icmp_round, tcp_round}

-- What one turn of the loop meets: the world at its start, the world in which a round that could not
-- be made has ended, the resolver, the two sockets, the random
-- bytes, and the database when the round is written.
pub record Turn (W : Type 0) : Type 0 where
  pub world : W
  pub failed : W
  pub answer : Result Text (List Ip)
  pub dgram : Option Text
  pub raw_fault : Option Text
  pub nonce : List ℕ
  pub write : Option Text

module _ (float : Float) (net : Net) (pid : ℕ) where
  open float use {F, of_int}
  open net use {W, clock}

  -- A type that is neither leaves the zero round.
  unfoldable pub measure : TargetCfg → ProbeCfg → Turn W → Result ProbeError (Round F × W)
  unfolding probe_params
  measure t p turn =
      let packets = (probe_params t p).1 in
      let gap = p.gap_ms * millisecond in
      let timeout = p.timeout_ms * millisecond in
      if t.type == icmp
      then icmp_round float net t.host turn.answer turn.dgram turn.raw_fault pid turn.nonce packets
          gap timeout turn.world
      else if t.type == tcp
      then tcp_round float net t.host turn.answer t.port packets gap timeout turn.world
      else ok (record { t = 0; s = 0; r = 0; ms = []; b = false; z = of_int (pos 0) }, turn.world)

  -- A round that could not be made counts as one of which everything was lost.
  unfoldable pub or_lost : ℕ → W → Result ProbeError (Round F × W) → Round F × W
  unfolding empty_round
  or_lost packets w (ok made) = made
  or_lost packets w (err e) = (empty_round float net w packets, w)

  unfoldable pub judged : Text → Memory F → Round F × W → Round F
  judged name s (r, w) =
      let (burst, score) = check_burst float name r (clock w / 10 ^ 9) s in
      record r { b = burst; z = score }

  unfoldable pub round_of_turn : TargetCfg → ProbeCfg → Turn W → Memory F → Round F
  unfolding measure or_lost judged
  round_of_turn t p turn s =
      judged t.name s (or_lost (probe_params t p).1 turn.failed (measure t p turn))

  unfoldable pub probe_once :
      TargetCfg → ProbeCfg → Turn W → Memory F × List (RoundRow F) → Memory F × List (RoundRow F)
  unfolding round_of_turn
  probe_once t p turn (s, rows) =
      let (fault, s', rows') =
        append float turn.write t.name (round_of_turn t p turn s) (s, rows) in
      (s', rows')

  -- The turns until the probe is stopped.
  unfoldable pub probe_loop :
      TargetCfg
      → ProbeCfg
      → List (Turn W)
      → Memory F × List (RoundRow F)
      → Memory F × List (RoundRow F)
  unfolding probe_once
  probe_loop t p [] state = state
  probe_loop t p (turn ∷ turns) state = probe_loop t p turns (probe_once t p turn state)
