-- ===== src/Probe/Stored.antt =====
-- What the loop of a probe of probe.go leaves in the store.
use fogping.Prelude.{
  ℕ, suc, ◌+◌, ◌*◌, ◌/◌, ◌^◌, ◌≤◌, ◌<◌, ◌≡◌, ◌⊎◌, inl, inr, refl, ap, ◌∙◌, true, Option, some, List,
  [], ◌∷◌, ◌++◌, Text, ◌==◌, text_eq, text_beq_iff, ne_of, length, All, arith, Bool-cases,
}
use fogping.Prelude.Int.{pos, ltb_ℤ}
use fogping.Prelude.Map.{lookup}
use fogping.Prelude.Result.{Result, ok, err}
use fogping.Float.{Float}
use fogping.Config.{TargetCfg, ProbeCfg, icmp, tcp}
use fogping.Config.Pace.{probe_params}
use fogping.Store.{Round, Memory, RoundRow}
use fogping.Store.Live.{ring_cap, ring_of, append_all}
use fogping.Store.Ring.{last_of, rounds_of, append_all-ring}
use fogping.Detector.{check_burst, verdict, loss_of}
use fogping.Probe.{Net}
use fogping.Probe.Collect.{millisecond}
use fogping.Probe.Rounds.{ProbeError, empty_round}
use fogping.Probe.Counted.{IsRound}
use fogping.Probe.Made.{Makes, icmp_round-Makes, tcp_round-Makes}
use fogping.Probe.Loop.{Turn, measure, or_lost, judged, round_of_turn, probe_once, probe_loop}

-- A round of `n` packets that counts what it holds, and that is flagged only if it lost two packets.
pub record IsStored {F : Type 0} (n : ℕ) (round : Round F) : Type 0 where
  pub counted : IsRound n round
  pub flagged : round.b ≡ true → round.r + 2 ≤ round.s

module _ (float : Float) (net : Net) (pid : ℕ) where
  open float use {F}
  open net use {W, clock}

  check_burst-few :
      (name : Text) (r : Round F) (now : ℕ) (s : Memory F)
      → r.r ≤ r.s
      → (check_burst float name r now s).0 ≡ true
      → r.r + 2 ≤ r.s
  unfolding check_burst verdict
  check_burst-few name r now s sound flagged = elim (Bool-cases (ltb_ℤ (loss_of float r) (pos 2))) [
    | inl few ↦ cc (rw few at flagged)
    | inr many ↦ ground arith
  ]

  or_lost-IsRound :
      (n : ℕ) (w : W) (made : Result ProbeError (Round F × W))
      → Makes float net n made
      → IsRound n (or_lost float net pid n w made).0
  unfolding or_lost empty_round
  or_lost-IsRound n w (ok made) m = m
  or_lost-IsRound n w (err e) m = record { sent = refl; received = omega arith; sampled = refl }

  judged-IsStored :
      (name : Text) (s : Memory F) (n : ℕ) (made : Round F × W)
      → IsRound n made.0
      → IsStored n (judged float net pid name s made)
  unfolding judged
  judged-IsStored name s n (r, w) m = record {
    counted = record { sent = m.sent; received = m.received; sampled = m.sampled };
    flagged = check_burst-few name r (clock w / 10 ^ 9) s m.received;
  }

  measure-Makes :
      (t : TargetCfg) (p : ProbeCfg) (turn : Turn W)
      → (t.type ≡ icmp) ⊎ (t.type ≡ tcp)
      → Makes float net (probe_params t p).1 (measure float net pid t p turn)
  unfolding measure
  measure-Makes t p turn known = elim (Bool-cases (t.type == icmp)) [
    | inl ping ↦ rw ping (
        icmp_round-Makes float net t.host turn.answer turn.dgram turn.raw_fault pid turn.nonce
          (probe_params t p).1 (p.gap_ms * millisecond) (p.timeout_ms * millisecond) turn.world)
    | inr other ↦
        let connect : (t.type == tcp) ≡ true = elim known [
          | inl e ↦ absurd (ne_of other e)
          | inr e ↦ (text_beq_iff t.type tcp).1 e
        ] in
        rw (other, connect)
          (tcp_round-Makes float net t.host turn.answer t.port (probe_params t p).1
            (p.gap_ms * millisecond) (p.timeout_ms * millisecond) turn.world)
  ]

  round_of_turn-IsStored :
      (t : TargetCfg) (p : ProbeCfg) (turn : Turn W) (s : Memory F)
      → (t.type ≡ icmp) ⊎ (t.type ≡ tcp)
      → IsStored (probe_params t p).1 (round_of_turn float net pid t p turn s)
  unfolding round_of_turn
  round_of_turn-IsStored t p turn s known =
      let made = measure float net pid t p turn in
      judged-IsStored t.name s (probe_params t p).1
        (or_lost float net pid (probe_params t p).1 turn.failed made)
        (or_lost-IsRound (probe_params t p).1 turn.failed made (measure-Makes t p turn known))

  -- The rounds of the turns, in order, with what the database does at each.
  rounds_made :
      TargetCfg
      → ProbeCfg
      → List (Turn W)
      → Memory F × List (RoundRow F)
      → List (Option Text × Round F)
  rounds_made t p [] state = []
  rounds_made t p (turn ∷ turns) state =
      (turn.write, round_of_turn float net pid t p turn state.0)
      ∷ rounds_made t p turns (probe_once float net pid t p turn state)

  probe_loop-append_all :
      (t : TargetCfg) (p : ProbeCfg) (turns : List (Turn W)) (state : Memory F × List (RoundRow F))
      → probe_loop float net pid t p turns state
        ≡ append_all float t.name (rounds_made t p turns state) state
  unfolding probe_loop append_all rounds_made probe_once
  probe_loop-append_all t p [] state = refl
  probe_loop-append_all t p (turn ∷ turns) (s, rows) =
      probe_loop-append_all t p turns (probe_once float net pid t p turn (s, rows))

  rounds_made-IsStored :
      (t : TargetCfg) (p : ProbeCfg) (turns : List (Turn W)) (state : Memory F × List (RoundRow F))
      → (t.type ≡ icmp) ⊎ (t.type ≡ tcp)
      → All (IsStored (probe_params t p).1) (rounds_of float (rounds_made t p turns state))
        × (length (rounds_of float (rounds_made t p turns state)) ≡ length turns)
  unfolding rounds_made
  rounds_made-IsStored t p [] state known = (tt, refl)
  rounds_made-IsStored t p (turn ∷ turns) state known =
      let (rest, size) =
        rounds_made-IsStored t p turns (probe_once float net pid t p turn state) known in
      ((round_of_turn-IsStored t p turn state.0 known, rest), ap suc size)

  -- However the network and the database behave, a probe of a known target leaves its ring with the
  -- last 1440 of the rounds it had and one new round for each turn. Each new round has as many
  -- packets as the pace says, no more answers than packets, and a sample for each answer; it is
  -- flagged only where at least two packets were lost. Failures of the resolver, the sockets and
  -- the database are turns too.
  pub probe_loop-stores :
      (t : TargetCfg) (p : ProbeCfg) (turns : List (Turn W)) (s : Memory F)
      (rows : List (RoundRow F)) (id : ℕ)
      → (t.type ≡ icmp) ⊎ (t.type ≡ tcp)
      → lookup t.name s.ids ≡ some id
      → length (ring_of (lookup t.name s.rings)) ≤ ring_cap
      → length s.pending < 16
      → (made : List (Round F)) × (ring_of
            (lookup t.name (probe_loop float net pid t p turns (s, rows)).0.rings)
          ≡ last_of ring_cap (ring_of (lookup t.name s.rings) ++ made))
        × (length made ≡ length turns)
        × All (IsStored (probe_params t p).1) made
  probe_loop-stores t p turns s rows id known live fits short =
      let rounds = rounds_made t p turns (s, rows) in
      let (stored, size) = rounds_made-IsStored t p turns (s, rows) known in
      let ring = (append_all-ring float t.name rounds s rows id live fits short).0 in
      (
        rounds_of float rounds,
        ap (λ (state : Memory F × List (RoundRow F)). ring_of (lookup t.name state.0.rings))
              (probe_loop-append_all t p turns (s, rows))
            ∙ ring,
        size,
        stored,
      )
