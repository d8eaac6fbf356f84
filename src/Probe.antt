-- ===== src/Probe.antt =====
-- The probes of probe.go: what they need of the network, and their parts in the child modules.
pub mod Checksum
pub mod Echo
pub mod Collect
pub mod Rounds
pub mod Ends
pub mod Counted
pub mod Made
pub mod Loop
pub mod Stored
pub mod Tests
use fogping.Prelude.{ℕ, ◌≤◌, ◌<◌, Bool, List}
use fogping.Prelude.Int.{ℤ}

-- An address of net.LookupIP: four bytes where `To4` gives them.
pub data Ip : Type 0 where
  v4 : List ℕ → Ip
  v6 : List ℕ → Ip

-- What `Recvfrom` gives: a packet, EAGAIN or a like error after which the loop goes on, or another.
pub data Received : Type 0 where
  packet : List ℕ → Received
  again : Received
  broken : Received

-- The network and its clock, in nanoseconds since 1970: a call gives its answer and the world after
-- it.
pub record Net : Type 1 where
  pub W : Type 0
  pub clock : W → ℕ
  -- Sendto of a packet to an address, and whether it succeeded
  pub send : List ℕ → List ℕ → W → Bool × W
  -- Recvfrom with a timeout
  pub receive : ℕ → W → Received × W
  -- net.DialTimeout with an address, a port and a timeout, and whether it connected
  pub dial : Ip → ℤ → ℕ → W → Bool × W
  pub sleep : ℕ → W → W
  -- Receiving takes time.
  pub receive_takes : (wait : ℕ) (w : W) → clock w < clock (receive wait w).1
  pub send_takes : (bytes dst : List ℕ) (w : W) → clock w ≤ clock (send bytes dst w).1
