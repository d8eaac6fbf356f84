-- ===== src/Probe/Rounds.antt =====
-- One round of probe.go: `resolveIPv4`, `icmpSocket`, `icmpRound` and `tcpRound`. Go returns a round
-- beside an error too, which `probeLoop` does not read.
use fogping.Prelude.{
  ℕ, zero, suc, ◌+◌, ◌/◌, ◌%◌, ◌^◌, Bool, true, false, Option, none, some, List, [], ◌∷◌, ◌++◌,
  Text, if◌then◌else◌, ltb,
}
use fogping.Prelude.Int.{ℤ, pos}
use fogping.Prelude.Result.{Result, ok, err, ◌>>=◌}
use fogping.Float.{Float}
use fogping.Store.{Round}
use fogping.Probe.{Ip, v4, v6, Net}
use fogping.Probe.Echo.{build_echo}
use fogping.Probe.Collect.{Progress, set_at, milliseconds, collect}

-- The argument is the host, or what the resolver or the kernel said.
pub data ProbeError : Type 0 where
  lookup_failed no_ipv4 no_address no_socket : Text → ProbeError

-- The first address that `To4` turns into four bytes.
unfoldable pub first_v4 : Text → List Ip → Result ProbeError (List ℕ)
first_v4 host [] = err (no_ipv4 host)
first_v4 host (v4 bytes ∷ ips) = ok bytes
first_v4 host (v6 bytes ∷ ips) = first_v4 host ips

-- net.LookupIP gives addresses or an error.
unfoldable pub looked_up : Result Text (List Ip) → Result ProbeError (List Ip)
looked_up (err e) = err (lookup_failed e)
looked_up (ok ips) = ok ips

unfoldable pub resolve_ipv4 : Text → Result Text (List Ip) → Result ProbeError (List ℕ)
unfolding first_v4 looked_up
resolve_ipv4 host answer = looked_up answer >>= (λ ips. first_v4 host ips)

-- What keeps each of the two kinds of socket from being opened; the result says if it is a raw one.
unfoldable pub icmp_socket : Option Text → Option Text → Result ProbeError Bool
icmp_socket none raw = ok false
icmp_socket (some e) none = ok true
icmp_socket (some e) (some e') = err (no_socket e')

-- `make` of the two slices
unfoldable pub repeat {ℓ} : {A : Type ℓ} → ℕ → A → List A
repeat zero a = []
repeat (suc n) a = a ∷ repeat n a

module _ (float : Float) (net : Net) where
  open float use {F}
  open net use {W, clock, send, dial, sleep}

  unfoldable pub empty_round : W → ℕ → Round F
  empty_round w packets = record {
    t = clock w / 10 ^ 9;
    s = packets;
    r = 0;
    ms = [];
    b = false;
    z = float.of_int (pos 0);
  }

  unfoldable pub no_progress : ℕ → Progress F
  unfolding repeat
  no_progress packets = record {
    send_at = repeat packets none;
    got = repeat packets false;
    r = 0;
    ms = [];
  }

  module _ (raw : Bool) (id : ℕ) (nonce : List ℕ) (dst : List ℕ) (gap : ℕ) where
    -- After a packet that was sent, replies are collected until the next; one that was not is
    -- passed over.
    unfoldable pub after_send : Progress F → Bool × W → Progress F × W
    after_send p (false, w) = (p, w)
    after_send p (true, w) = collect float net raw id nonce (clock w + gap) (p, w)

    unfoldable pub sent_at : ℕ → W → Progress F → Progress F
    unfolding set_at
    sent_at i w p = record p { send_at = set_at i (some (clock w)) p.send_at }

    -- The packets from the sequence number `i` on.
    unfoldable pub send_packets : ℕ → ℕ → Progress F × W → Progress F × W
    unfolding after_send sent_at
    send_packets zero i state = state
    send_packets (suc left) i (p, w) =
        send_packets left (i + 1) (after_send (sent_at i w p) (send (build_echo id i nonce) dst w))

    unfoldable pub collected : Round F → Progress F × W → Round F × W
    collected round (p, w) = (record round { r = p.r; ms = p.ms }, w)

    -- The round on an open socket; the last packets are waited for until the timeout.
    unfoldable pub exchange : ℕ → ℕ → Round F → W → Round F × W
    unfolding send_packets collected no_progress
    exchange packets timeout round w =
        let (p, w') = send_packets packets 0 (no_progress packets, w) in
        collected round (collect float net raw id nonce (clock w' + timeout) (p, w'))

  -- `pid` is the process id, `dgram` and `raw_fault` what the sockets meet.
  unfoldable pub on_socket :
      ℕ → List ℕ → ℕ → ℕ → ℕ → W → List ℕ → Result ProbeError Bool → Result ProbeError (Round F × W)
  unfolding exchange empty_round
  on_socket pid nonce packets gap timeout w dst (err e) = err e
  on_socket pid nonce packets gap timeout w dst (ok raw) =
      ok (exchange raw (pid % 2 ^ 16) nonce dst gap packets timeout (empty_round w packets) w)

  unfoldable pub icmp_round :
      Text
      → Result Text (List Ip)
      → Option Text
      → Option Text
      → ℕ
      → List ℕ
      → ℕ
      → ℕ
      → ℕ
      → W
      → Result ProbeError (Round F × W)
  unfolding resolve_ipv4 icmp_socket on_socket
  icmp_round host answer dgram raw_fault pid nonce packets gap timeout w =
      resolve_ipv4 host answer
      >>= (λ ip. on_socket pid nonce packets gap timeout w ip (icmp_socket dgram raw_fault))

  module _ (ip : Ip) (port : ℤ) (gap timeout : ℕ) where
    -- A connection's time is a sample.
    unfoldable pub dialled : ℕ → Round F → Bool × W → Round F × W
    unfolding milliseconds
    dialled t0 round (false, w) = (round, w)
    dialled t0 round (true, w) = (
      record round {
        r = round.r + 1;
        ms = round.ms ++ milliseconds float (clock w) (some t0) ∷ [];
      },
      w,
    )

    -- No pause after the last packet.
    unfoldable pub paused : ℕ → Round F × W → Round F × W
    paused left (round, w) = (round, if ltb 0 left then sleep gap w else w)

    -- The connections that are left.
    unfoldable pub dial_packets : ℕ → Round F × W → Round F × W
    unfolding dialled paused
    dial_packets zero state = state
    dial_packets (suc left) (round, w) =
        dial_packets left (paused left (dialled (clock w) round (dial ip port timeout w)))

  unfoldable pub on_addresses : Text → ℤ → ℕ → ℕ → ℕ → W → List Ip → Result ProbeError (Round F × W)
  unfolding dial_packets empty_round
  on_addresses host port packets gap timeout w [] = err (no_address host)
  on_addresses host port packets gap timeout w (ip ∷ ips) =
      ok (dial_packets ip port gap timeout packets (empty_round w packets, w))

  unfoldable pub tcp_round :
      Text → Result Text (List Ip) → ℤ → ℕ → ℕ → ℕ → W → Result ProbeError (Round F × W)
  unfolding looked_up on_addresses
  tcp_round host answer port packets gap timeout w =
      looked_up answer >>= (λ ips. on_addresses host port packets gap timeout w ips)
