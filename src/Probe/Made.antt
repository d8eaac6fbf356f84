-- ===== src/Probe/Made.antt =====
-- The rounds of probe.go that `icmpRound` and `tcpRound` make count no more than they sent.
use fogping.Prelude.{
  ℕ, zero, suc, ◌+◌, ◌%◌, ◌^◌, ◌≤◌, ◌≡◌, refl, sym, Bool, true, false, Option, some, List, [], ◌∷◌,
  Text, arith, length, length-append,
}
use fogping.Prelude.Int.{ℤ}
use fogping.Prelude.Result.{Result, ok, err, ◌>>=◌}
use fogping.Float.{Float}
use fogping.Store.{Round}
use fogping.Probe.{Ip, Net}
use fogping.Probe.Collect.{collect, milliseconds}
use fogping.Probe.Rounds.{
  ProbeError, empty_round, no_progress, send_packets, exchange, on_socket, icmp_round, icmp_socket,
  resolve_ipv4, dialled, paused, dial_packets, on_addresses, looked_up, tcp_round,
}
use fogping.Probe.Counted.{
  Counted, IsRound, count_true-repeat, length-repeat, send_packets-Counted, collect-Counted,
  collected-IsRound,
}

module _ (float : Float) where
  open float use {F}

  module _ (net : Net) where
    open net use {W, clock, dial}

    -- A round that was made is a round of `n` packets.
    abbrev pub Makes : ℕ → Result ProbeError (Round F × W) → Type 0
    Makes n (ok (round, w)) = IsRound n round
    Makes n (err e) = Unit

    exchange-IsRound :
        (raw : Bool) (id : ℕ) (nonce dst : List ℕ) (gap packets timeout : ℕ) (round : Round F)
        (w : W)
        → round.s ≡ packets
        → IsRound packets (exchange float net raw id nonce dst gap packets timeout round w).0
    unfolding exchange
    exchange-IsRound raw id nonce dst gap packets timeout round w e =
        let start : Counted packets (no_progress float net packets) =
          unfold no_progress in
          record {
            sized = length-repeat packets false;
            marked = sym (count_true-repeat packets);
            sampled = refl;
          } in
        let sent =
          send_packets float net raw id nonce dst gap packets 0
            (no_progress float net packets, w) in
        let c =
          send_packets-Counted float net packets raw id nonce dst gap packets 0
            (no_progress float net packets) w start in
        collected-IsRound float net packets raw id nonce dst gap round
          (collect float net raw id nonce (clock sent.1 + timeout) sent) e
          (collect-Counted float net packets raw id nonce (clock sent.1 + timeout) sent.0 sent.1 c)

    on_socket-Makes :
        (pid : ℕ) (nonce : List ℕ) (packets gap timeout : ℕ) (w : W) (dst : List ℕ)
        (raw : Result ProbeError Bool)
        → Makes packets (on_socket float net pid nonce packets gap timeout w dst raw)
    unfolding on_socket
    on_socket-Makes pid nonce packets gap timeout w dst (err e) = tt
    on_socket-Makes pid nonce packets gap timeout w dst (ok raw) =
        exchange-IsRound raw (pid % 2 ^ 16) nonce dst gap packets timeout
          (empty_round float net w packets) w (unfold empty_round in refl)

    on_answer-Makes :
        (pid : ℕ) (nonce : List ℕ) (packets gap timeout : ℕ) (w : W) (raw : Result ProbeError Bool)
        (ip : Result ProbeError (List ℕ))
        → Makes packets
            (ip >>= (λ dst. on_socket float net pid nonce packets gap timeout w dst raw))
    on_answer-Makes pid nonce packets gap timeout w raw (err e) = tt
    on_answer-Makes pid nonce packets gap timeout w raw (ok dst) =
        on_socket-Makes pid nonce packets gap timeout w dst raw

    pub icmp_round-Makes :
        (host : Text) (answer : Result Text (List Ip)) (dgram fault : Option Text) (pid : ℕ)
        (nonce : List ℕ) (packets gap timeout : ℕ) (w : W)
        → Makes packets
            (icmp_round float net host answer dgram fault pid nonce packets gap timeout w)
    unfolding icmp_round
    icmp_round-Makes host answer dgram fault pid nonce packets gap timeout w =
        on_answer-Makes pid nonce packets gap timeout w (icmp_socket dgram fault)
          (resolve_ipv4 host answer)

    -- A round of `n` packets of which `left` are still to be sent.
    record Dialling (n left : ℕ) (round : Round F) : Type 0 where
      sent : round.s ≡ n
      within : round.r + left ≤ n
      sampled : length round.ms ≡ round.r

    module _ (ip : Ip) (port : ℤ) (gap timeout n : ℕ) where
      dialled-Dialling :
          (left t0 : ℕ) (round : Round F) (got : Bool × W)
          → Dialling n (suc left) round
          → Dialling n left (dialled float net ip port gap timeout t0 round got).0
      unfolding dialled
      dialled-Dialling left t0 round (false, w) d = record {
        sent = d.sent;
        within = omega (arith, d.within);
        sampled = d.sampled;
      }
      dialled-Dialling left t0 round (true, w) d = record {
        sent = d.sent;
        within = omega (arith, d.within);
        sampled = omega (
          arith,
          d.sampled,
          length-append round.ms (milliseconds float (clock w) (some t0) ∷ []),
        );
      }

      dial_packets-Dialling :
          (left : ℕ) (round : Round F) (w : W)
          → Dialling n left round
          → Dialling n 0 (dial_packets float net ip port gap timeout left (round, w)).0
      unfolding dial_packets paused
      dial_packets-Dialling zero round w d = d
      dial_packets-Dialling (suc left) round w d =
          let got =
            dialled float net ip port gap timeout (clock w) round (dial ip port timeout w) in
          let next = paused float net ip port gap timeout left got in
          dial_packets-Dialling left next.0 next.1
            (dialled-Dialling left (clock w) round (dial ip port timeout w) d)

    on_addresses-Makes :
        (host : Text) (port : ℤ) (packets gap timeout : ℕ) (w : W) (ips : List Ip)
        → Makes packets (on_addresses float net host port packets gap timeout w ips)
    unfolding on_addresses
    on_addresses-Makes host port packets gap timeout w [] = tt
    on_addresses-Makes host port packets gap timeout w (ip ∷ ips) =
        let start : Dialling packets packets (empty_round float net w packets) =
          unfold empty_round in record { sent = refl; within = omega arith; sampled = refl } in
        let d =
          dial_packets-Dialling ip port gap timeout packets packets
            (empty_round float net w packets) w start in
        record { sent = d.sent; received = omega (arith, d.sent, d.within); sampled = d.sampled }

    pub tcp_round-Makes :
        (host : Text) (answer : Result Text (List Ip)) (port : ℤ) (packets gap timeout : ℕ) (w : W)
        → Makes packets (tcp_round float net host answer port packets gap timeout w)
    unfolding tcp_round looked_up
    tcp_round-Makes host (err e) port packets gap timeout w = tt
    tcp_round-Makes host (ok ips) port packets gap timeout w =
        on_addresses-Makes host port packets gap timeout w ips
