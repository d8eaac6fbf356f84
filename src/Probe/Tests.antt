-- ===== src/Probe/Tests.antt =====
-- Runs of probe.go on a network that answers every packet within a nanosecond.
use fogping.Prelude.{
  ℕ, ◌+◌, ◌≤◌, ◌<◌, ◌≡◌, refl, inl, true, false, not, ◌&&◌, ◌||◌, none, some, List, [], ◌∷◌, ◌++◌,
  if◌then◌else◌, ◌==◌, nat_eq, text_eq, length, All, arith,
}
use fogping.Prelude.Map.{lookup}
use fogping.Prelude.Result.{ok}
use fogping.Config.{default_config}
use fogping.Config.Pace.{probe_params}
use fogping.Config.Tests.{site}
use fogping.Store.{Round}
use fogping.Store.Live.{ring_cap, ring_of}
use fogping.Store.Ring.{last_of}
use fogping.Store.Tests.{whole_numbers, memory, known, fits}
use fogping.Probe.{v4, Net, packet}
use fogping.Probe.Checksum.{icmp_checksum}
use fogping.Probe.Echo.{build_echo, answer, reply_seq, reply_seq-build_echo}
use fogping.Probe.Collect.{Progress, collect}
use fogping.Probe.Loop.{Turn, probe_loop}
use fogping.Probe.Stored.{IsStored, probe_loop-stores}

pub later : (n : ℕ) (w : ℕ) → w < w + 1
later n w = omega arith

pub now_or_later : (bytes dst : List ℕ) (w : ℕ) → w ≤ w
now_or_later bytes dst w = omega arith

abbrev four_bytes : List ℕ
four_bytes = 1 ∷ 2 ∷ 3 ∷ 4 ∷ []

abbrev pub echoing : Net
echoing = record {
  W = ℕ;
  clock = λ w. w;
  send = λ bytes dst w. (true, w);
  receive = λ wait w. (packet (answer 0 (build_echo 7 0 (1 ∷ 2 ∷ 3 ∷ 4 ∷ []))), w + 1);
  dial = λ ip port timeout w. (true, w + 3000000);
  sleep = λ n w. w + n;
  receive_takes = later;
  send_takes = now_or_later;
}

abbrev waiting : Progress ℕ
waiting = record { send_at = some 0 ∷ none ∷ []; got = false ∷ false ∷ []; r = 0; ms = [] }

-- The reply is counted once, however often it comes.
collect_once :
    collect whole_numbers echoing false 7 four_bytes 3 (waiting, 0)
    ≡ (record { send_at = some 0 ∷ none ∷ []; got = true ∷ false ∷ []; r = 1; ms = 0 ∷ [] }, 3)
unfolding collect reply_seq build_echo
collect_once = refl

abbrev own_id : ℕ
own_id = 7

-- An IP header without options.
abbrev header : List ℕ
header = 69 ∷ 0 ∷ 0 ∷ 42 ∷ 0 ∷ 0 ∷ 0 ∷ 0 ∷ 64 ∷ 1 ∷ 0 ∷ 0 ∷ 127 ∷ 0 ∷ 0 ∷ 1 ∷ 127 ∷ 0 ∷ 0 ∷ 1 ∷ []

reply_seq-build_echo_example :
    (reply_seq true own_id four_bytes
        (header ++ answer 0 (build_echo own_id 300 (1 ∷ 2 ∷ 3 ∷ 4 ∷ [])))
      ≡ (if (true && not (own_id == own_id)) || not (four_bytes == four_bytes)
          then none
          else some 300))
    × (icmp_checksum (build_echo own_id 300 (1 ∷ 2 ∷ 3 ∷ 4 ∷ [])) ≡ 0)
reply_seq-build_echo_example =
    reply_seq-build_echo true header 0 own_id own_id 300 1 2 3 4 four_bytes refl (omega arith)
      (omega arith) (omega arith, (omega arith, (omega arith, (omega arith, tt))))

abbrev turns : List (Turn ℕ)
turns =
    record {
      world = 70000000000;
      failed = 70000000000;
      answer = ok (v4 (127 ∷ 0 ∷ 0 ∷ 1 ∷ []) ∷ []);
      dgram = none;
      raw_fault = none;
      nonce = 1 ∷ 2 ∷ 3 ∷ 4 ∷ [];
      write = some [];
    }
    ∷ []

probe_loop-stores_example :
    (made : List (Round ℕ)) × (ring_of (
        lookup site.name
          (probe_loop whole_numbers echoing 7 site default_config.probe turns (memory, [])).0.rings)
      ≡ last_of ring_cap (ring_of (lookup site.name memory.rings) ++ made))
    × (length made ≡ length turns)
    × All (IsStored (probe_params site default_config.probe).1) made
probe_loop-stores_example =
    probe_loop-stores whole_numbers echoing 7 site default_config.probe turns memory [] 1 (inl refl)
      known fits (omega arith)
