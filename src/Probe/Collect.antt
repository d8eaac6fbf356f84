-- ===== src/Probe/Collect.antt =====
-- `collect` and `icmpRound` of probe.go. The clock never goes back, so a span of time is a natural
-- number; the loop of `collect` is on fuel, and the time that is left is enough.
use fogping.Prelude.{
  ℕ, zero, suc, ◌+◌, ◌-◌, ◌*◌, ◌/◌, ◌^◌, Bool, true, false, Option, none, some, List, [], ◌∷◌, ◌++◌,
  if◌then◌else◌, leb, get_elem?, ltb,
}
use fogping.Prelude.Int.{pos}
use fogping.Float.{Float}
use fogping.Probe.{Net, Received, packet, again, broken}
use fogping.Probe.Echo.{reply_seq}

-- time.Millisecond, in nanoseconds
abbrev pub millisecond : ℕ
millisecond = 10 ^ 6

-- The timeout of one `Recvfrom`, of what is left until the deadline.
unfoldable pub wait_of : ℕ → ℕ
wait_of remain =
    let wait = if ltb (50 * millisecond) remain then 50 * millisecond else remain in
    if ltb wait millisecond then millisecond else wait

-- What `icmpRound` keeps while it runs: `sendAt`, `got` and the round's count and samples. A packet
-- not yet sent has the zero time, which `Sub` takes for 2 ^ 63 - 1 nanoseconds ago.
pub record Progress (F : Type 0) : Type 0 where
  pub send_at : List (Option ℕ)
  pub got : List Bool
  pub r : ℕ
  pub ms : List F

-- now.Sub(sendAt).Microseconds()
unfoldable pub microseconds : ℕ → Option ℕ → ℕ
microseconds now none = (2 ^ 63 - 1) / 1000
microseconds now (some sent) = (now - sent) / 1000

unfoldable pub set_at {ℓ} : {A : Type ℓ} → ℕ → A → List A → List A
set_at i a [] = []
set_at zero a (x ∷ xs) = a ∷ xs
set_at (suc i) a (x ∷ xs) = x ∷ set_at i a xs

module _ (float : Float) where
  open float use {F, of_int, div}

  unfoldable pub milliseconds : ℕ → Option ℕ → F
  unfolding microseconds
  milliseconds now sent = div (of_int (pos (microseconds now sent))) (of_int (pos 1000))

  -- A reply with a sequence number: out of range and repeated ones are passed over.
  unfoldable pub mark : ℕ → Progress F → ℕ → Option (Option ℕ) → Option Bool → Progress F
  unfolding set_at milliseconds
  mark now p seq (some sent) (some false) = record p {
    got = set_at seq true p.got;
    r = p.r + 1;
    ms = p.ms ++ milliseconds now sent ∷ [];
  }
  mark now p seq sent seen = p

  unfoldable pub accept : ℕ → Progress F → Option ℕ → Progress F
  unfolding mark
  accept now p none = p
  accept now p (some seq) = mark now p seq (get_elem? p.send_at seq) (get_elem? p.got seq)

  module _ (net : Net) (raw : Bool) (id : ℕ) (nonce : List ℕ) where
    open net use {W, clock, send, receive}

    -- One turn of the loop with what `Recvfrom` gave; true where the loop goes on.
    unfoldable pub take_in : Progress F → Received × W → Bool × Progress F × W
    unfolding accept
    take_in p (packet bytes, w) = (true, accept (clock w) p (reply_seq raw id nonce bytes), w)
    take_in p (again, w) = (true, p, w)
    take_in p (broken, w) = (false, p, w)

    unfoldable pub collect_loop : ℕ → ℕ → Progress F × W → Progress F × W
    unfolding wait_of take_in
    collect_loop zero deadline state = state
    collect_loop (suc n) deadline (p, w) =
        let (on, p', w') = take_in p (receive (wait_of (deadline - clock w)) w) in
        let rest = collect_loop n deadline (p', w') in
        if leb deadline (clock w) then (p, w) else if on then rest else (p', w')

    unfoldable pub collect : ℕ → Progress F × W → Progress F × W
    unfolding collect_loop
    collect deadline (p, w) = collect_loop (deadline - clock w) deadline (p, w)
