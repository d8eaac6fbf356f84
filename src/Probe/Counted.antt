-- ===== src/Probe/Counted.antt =====
-- What a round of probe.go counts: no more than was sent, and one sample for each.
use fogping.Prelude.{
  ℕ, zero, suc, ◌+◌, ◌-◌, ◌≤◌, ◌≡◌, refl, ap, ◌∙◌, Bool, true, false, Option, none, some, List, [],
  ◌∷◌, arith, length, length-append, either_branch, if◌then◌else◌, leb, get_elem?,
}
use fogping.Float.{Float}
use fogping.Store.{Round}
use fogping.Probe.{Net, Received, packet, again, broken}
use fogping.Probe.Echo.{build_echo, reply_seq}
use fogping.Probe.Collect.{
  Progress, set_at, mark, accept, take_in, collect_loop, collect, milliseconds, wait_of,
}
use fogping.Probe.Rounds.{repeat, after_send, sent_at, send_packets, collected}

unfoldable pub count_true : List Bool → ℕ
count_true [] = 0
count_true (true ∷ bs) = 1 + count_true bs
count_true (false ∷ bs) = count_true bs

count_true-length : (bs : List Bool) → count_true bs ≤ length bs
unfolding count_true
count_true-length [] = omega arith
count_true-length (true ∷ bs) = omega (arith, count_true-length bs)
count_true-length (false ∷ bs) = omega (arith, count_true-length bs)

pub count_true-repeat : (n : ℕ) → count_true (repeat n false) ≡ 0
unfolding count_true repeat
count_true-repeat zero = refl
count_true-repeat (suc n) = count_true-repeat n

pub length-repeat {ℓ} : {A : Type ℓ} (n : ℕ) (a : A) → length (repeat n a) ≡ n
unfolding repeat
length-repeat zero a = refl
length-repeat (suc n) a = ap suc (length-repeat n a)

length-set_at {ℓ} : {A : Type ℓ} (i : ℕ) (a : A) (xs : List A) → length (set_at i a xs) ≡ length xs
unfolding set_at
length-set_at zero a [] = refl
length-set_at (suc i) a [] = refl
length-set_at zero a (x ∷ xs) = refl
length-set_at (suc i) a (x ∷ xs) = ap suc (length-set_at i a xs)

count_true-set_at :
    (i : ℕ) (bs : List Bool)
    → get_elem? bs i ≡ some false
    → count_true (set_at i true bs) ≡ suc (count_true bs)
unfolding count_true set_at
count_true-set_at i [] h = absurd cc
count_true-set_at zero (true ∷ bs) h = absurd cc
count_true-set_at zero (false ∷ bs) h = omega arith
count_true-set_at (suc i) (true ∷ bs) h = omega (arith, count_true-set_at i bs h)
count_true-set_at (suc i) (false ∷ bs) h = count_true-set_at i bs h

-- One sample for each packet that is marked as answered, of `n` packets.
pub record Counted {F : Type 0} (n : ℕ) (p : Progress F) : Type 0 where
  pub sized : length p.got ≡ n
  pub marked : p.r ≡ count_true p.got
  pub sampled : length p.ms ≡ p.r

-- A round of `n` packets as `probeLoop` stores it.
pub record IsRound {F : Type 0} (n : ℕ) (round : Round F) : Type 0 where
  pub sent : round.s ≡ n
  pub received : round.r ≤ round.s
  pub sampled : length round.ms ≡ round.r

module _ (float : Float) where
  open float use {F}

  mark-Counted :
      (n now : ℕ) (p : Progress F) (seq : ℕ) (sent : Option (Option ℕ)) (seen : Option Bool)
      → get_elem? p.got seq ≡ seen
      → Counted n p
      → Counted n (mark float now p seq sent seen)
  unfolding mark
  mark-Counted n now p seq (some sent) (some false) e c = record {
    sized = length-set_at seq true p.got ∙ c.sized;
    marked = omega (arith, c.marked, count_true-set_at seq p.got e);
    sampled = omega (arith, c.sampled, length-append p.ms (milliseconds float now sent ∷ []));
  }
  mark-Counted n now p seq (some sent) (some true) e c = c
  mark-Counted n now p seq (some sent) none e c = c
  mark-Counted n now p seq none (some true) e c = c
  mark-Counted n now p seq none (some false) e c = c
  mark-Counted n now p seq none none e c = c

  accept-Counted :
      (n now : ℕ) (p : Progress F) (answer : Option ℕ)
      → Counted n p
      → Counted n (accept float now p answer)
  unfolding accept
  accept-Counted n now p none c = c
  accept-Counted n now p (some seq) c =
      mark-Counted n now p seq (get_elem? p.send_at seq) (get_elem? p.got seq) refl c

  module _ (net : Net) (n : ℕ) (raw : Bool) (id : ℕ) (nonce : List ℕ) where
    open net use {W, clock, receive, send}

    take_in-Counted :
        (p : Progress F) (got : Received × W)
        → Counted n p
        → Counted n (take_in float net raw id nonce p got).1
    unfolding take_in
    take_in-Counted p (packet bytes, w) c =
        accept-Counted n (clock w) p (reply_seq raw id nonce bytes) c
    take_in-Counted p (again, w) c = c
    take_in-Counted p (broken, w) c = c

    collect_loop-Counted :
        (fuel deadline : ℕ) (p : Progress F) (w : W)
        → Counted n p
        → Counted n (collect_loop float net raw id nonce fuel deadline (p, w)).0
    unfolding collect_loop
    collect_loop-Counted zero deadline p w c = c
    collect_loop-Counted (suc fuel) deadline p w c =
        let next = take_in float net raw id nonce p (receive (wait_of (deadline - clock w)) w) in
        let c' = take_in-Counted p (receive (wait_of (deadline - clock w)) w) c in
        let rest = collect_loop-Counted fuel deadline next.1 next.2 c' in
        either_branch (λ (state : Progress F × W). Counted n state.0) (leb deadline (clock w))
          (p, w)
          (if next.0
            then collect_loop float net raw id nonce fuel deadline (next.1, next.2)
            else (next.1, next.2))
          c
          (either_branch (λ (state : Progress F × W). Counted n state.0) next.0
            (collect_loop float net raw id nonce fuel deadline (next.1, next.2)) (next.1, next.2)
            rest c')

    pub collect-Counted :
        (deadline : ℕ) (p : Progress F) (w : W)
        → Counted n p
        → Counted n (collect float net raw id nonce deadline (p, w)).0
    unfolding collect
    collect-Counted deadline p w c = collect_loop-Counted (deadline - clock w) deadline p w c

    module _ (dst : List ℕ) (gap : ℕ) where
      after_send-Counted :
          (p : Progress F) (answer : Bool × W)
          → Counted n p
          → Counted n (after_send float net raw id nonce dst gap p answer).0
      unfolding after_send
      after_send-Counted p (false, w) c = c
      after_send-Counted p (true, w) c = collect-Counted (clock w + gap) p w c

      sent_at-Counted :
          (i : ℕ) (w : W) (p : Progress F)
          → Counted n p
          → Counted n (sent_at float net raw id nonce dst gap i w p)
      unfolding sent_at
      sent_at-Counted i w p c = record { sized = c.sized; marked = c.marked; sampled = c.sampled }

      pub send_packets-Counted :
          (left i : ℕ) (p : Progress F) (w : W)
          → Counted n p
          → Counted n (send_packets float net raw id nonce dst gap left i (p, w)).0
      unfolding send_packets
      send_packets-Counted zero i p w c = c
      send_packets-Counted (suc left) i p w c =
          let next =
            after_send float net raw id nonce dst gap (sent_at float net raw id nonce dst gap i w p)
              (send (build_echo id i nonce) dst w) in
          send_packets-Counted left (i + 1) next.0 next.1 (
            after_send-Counted (sent_at float net raw id nonce dst gap i w p)
              (send (build_echo id i nonce) dst w) (sent_at-Counted i w p c))

      pub collected-IsRound :
          (round : Round F) (state : Progress F × W)
          → round.s ≡ n
          → Counted n state.0
          → IsRound n (collected float net raw id nonce dst gap round state).0
      unfolding collected
      collected-IsRound round (p, w) e c = record {
        sent = e;
        received = omega (arith, e, c.sized, c.marked, count_true-length p.got);
        sampled = c.sampled;
      }
