-- ===== src/Store/Ring.antt =====
-- The rings and the queue of store.go.
use fogping.Prelude.{
  ℕ, zero, suc, ◌+◌, ◌-◌, ◌%◌, ◌^◌, ◌≤◌, ◌<◌, ◌≡◌, ◌≢◌, refl, sym, ap, ◌∙◌, inl, inr, Option, none,
  some, List, [], ◌∷◌, ◌++◌, Text, if◌then◌else◌, ◌==◌, nat_eq, text_eq, eq_refl, length,
  length-append, length-drop, drop, ltb, arith, Bool-cases, append_assoc, append-nil,
}
use fogping.Prelude.Map.{Map, lookup, insert, lookup-insert, lookup-remove}
use fogping.Float.{Float}
use fogping.Store.{Round, Memory, RoundRow}
use fogping.Store.Live.{
  ring_cap, ring_of, cap_ring, rename_target, queue, flush, append, append_all,
}

-- The last `n` elements.
abbrev pub last_of {ℓ} : {A : Type ℓ} → ℕ → List A → List A
last_of n xs = drop (length xs - n) xs

drop-snoc :
    {A : Type 0} (n : ℕ) (xs ys : List A) → n ≤ length xs → drop n (xs ++ ys) ≡ drop n xs ++ ys
drop-snoc zero xs ys h = refl
drop-snoc (suc n) [] ys h = absurd (omega arith)
drop-snoc (suc n) (x ∷ xs) ys h = drop-snoc n xs ys (omega arith)

drop-nil : {A : Type 0} (n : ℕ) → drop {A = A} n [] ≡ []
drop-nil zero = refl
drop-nil (suc n) = refl

drop-drop : {A : Type 0} (m n : ℕ) (xs : List A) → drop m (drop n xs) ≡ drop (n + m) xs
drop-drop m zero xs = let e : m ≡ zero + m = omega arith in ap (λ k. drop k xs) e
drop-drop {A} m (suc n) [] = drop-nil m ∙ sym (drop-nil {A = A} (suc n + m))
drop-drop m (suc n) (x ∷ xs) =
    let e : suc (n + m) ≡ suc n + m = omega arith in drop-drop m n xs ∙ ap (λ k. drop k (x ∷ xs)) e

pub cap_ring-last_of : {A : Type 0} (xs : List A) → cap_ring xs ≡ last_of ring_cap xs
unfolding cap_ring
cap_ring-last_of xs = elim (Bool-cases (ltb ring_cap (length xs))) [
  | inl long ↦ rw long
  | inr short ↦
      let e : zero ≡ length xs - ring_cap = ground arith in rw short (ap (λ k. drop k xs) e)
]

-- Capping as the rounds come is capping at the end.
last_of-append :
    {A : Type 0} (xs ys : List A)
    → last_of ring_cap (last_of ring_cap xs ++ ys) ≡ last_of ring_cap (xs ++ ys)
last_of-append xs ys =
    let k = length xs - ring_cap in
    let m = length (drop k xs ++ ys) - ring_cap in
    let e : k + m ≡ length (xs ++ ys) - ring_cap =
      omega (arith, length-append (drop k xs) ys, length-append xs ys, length-drop k xs) in
    ap (drop m) (sym (drop-snoc k xs ys (omega arith)))
    ∙ drop-drop m k (xs ++ ys)
    ∙ ap (λ n. drop n (xs ++ ys)) e

module _ {F : Type 0} where
  -- A rename carries the id and the ring over to the new name and touches no other name, if the new
  -- name is not in use; a rename of an unknown name does nothing.
  pub rename_target_lem :
      (old new : Text) (s : Memory F) (id : ℕ)
      → lookup old s.ids ≡ some id
      → old ≢ new
      → (name : Text)
      → (lookup name (rename_target old new s).ids
          ≡ (if old == name then none else if new == name then some id else lookup name s.ids))
        × (lookup name (rename_target old new s).rings ≡ (
            if old == name
            then none
            else if new == name
            then some (ring_of (lookup old s.rings))
            else lookup name s.rings))
  unfolding rename_target
  rename_target_lem old new s id known apart name = ground (
    arith,
    lookup-remove old name (insert new id s.ids),
    lookup-insert new name id s.ids,
    lookup-remove old name (insert new (ring_of (lookup old s.rings)) s.rings),
    lookup-insert new name (ring_of (lookup old s.rings)) s.rings,
  )

length-cap_ring : {A : Type 0} (ring : List A) → length (cap_ring ring) ≤ ring_cap
unfolding cap_ring
length-cap_ring ring = ground (arith, length-drop (length ring - ring_cap) ring)

module _ (float : Float) where
  open float use {F}

  abbrev pub rounds_of : List (Option Text × Round F) → List (Round F)
  rounds_of [] = []
  rounds_of ((fault, r) ∷ rounds) = r ∷ rounds_of rounds

  pub flush-memory :
      (fault : Option Text) (s : Memory F) (rows : List (RoundRow F))
      → (flush float fault (s, rows)).1 ≡ record s { pending = [] }
  unfolding flush
  flush-memory fault s rows = ground arith

  pub queue-known :
      (name : Text) (r : Round F) (s : Memory F) (id : ℕ)
      → lookup name s.ids ≡ some id
      → queue name r s ≡ record s {
        rings = insert name (cap_ring (ring_of (lookup name s.rings) ++ r ∷ [])) s.rings;
        total = (s.total + 1) % 2 ^ 64;
        pending = s.pending ++ (id, r) ∷ [];
      }
  unfolding queue
  queue-known name r s id known = rw known

  ring_of-insert :
      (name : Text) (ring : List (Round F)) (rings : Map Text (List (Round F)))
      → ring_of (lookup name (insert name ring rings)) ≡ ring
  unfolding ring_of
  ring_of-insert name ring rings = rw (lookup-insert name name ring rings, eq_refl name)

  -- One round of a known target.
  pub append-known :
      (fault : Option Text) (name : Text) (r : Round F) (s : Memory F) (rows : List (RoundRow F))
      (id : ℕ)
      → lookup name s.ids ≡ some id
      → ((append float fault name r (s, rows)).1.ids ≡ s.ids)
        × (ring_of (lookup name (append float fault name r (s, rows)).1.rings)
            ≡ cap_ring (ring_of (lookup name s.rings) ++ r ∷ []))
        × (length s.pending < 16 → length (append float fault name r (s, rows)).1.pending < 16)
  unfolding append
  append-known fault name r s rows id known =
      let queued = queue-known name r s id known in
      rw (known, append)
        (ground (
          arith,
          queued,
          flush-memory fault (queue name r s) rows,
          length-append s.pending ((id, r) ∷ []),
          ring_of-insert name (cap_ring (ring_of (lookup name s.rings) ++ r ∷ [])) s.rings,
        ))

  cap_all : (ring : List (Round F)) → length ring ≤ ring_cap → last_of ring_cap (ring ++ []) ≡ ring
  cap_all ring fits =
      let e : length ring - ring_cap ≡ zero = omega arith in rw append-nil (ap (λ n. drop n ring) e)

  -- Whatever the database does, the ring of a known target is the last 1440 rounds of what it was
  -- with all that came since, its id stays, and fewer than sixteen rounds wait to be written.
  pub append_all-ring :
      (name : Text) (rounds : List (Option Text × Round F)) (s : Memory F)
      (rows : List (RoundRow F)) (id : ℕ)
      → lookup name s.ids ≡ some id
      → length (ring_of (lookup name s.rings)) ≤ ring_cap
      → length s.pending < 16
      → (ring_of (lookup name (append_all float name rounds (s, rows)).0.rings)
          ≡ last_of ring_cap (ring_of (lookup name s.rings) ++ rounds_of rounds))
        × ((append_all float name rounds (s, rows)).0.ids ≡ s.ids)
        × (length (append_all float name rounds (s, rows)).0.pending < 16)
  unfolding append_all
  append_all-ring name [] s rows id known fits short =
      (sym (cap_all (ring_of (lookup name s.rings)) fits), refl, short)
  append_all-ring name ((fault, r) ∷ rounds) s rows id known fits short =
      let (ids, ring, waits) = append-known fault name r s rows id known in
      let after = append float fault name r (s, rows) in
      let ring' = ring ∙ cap_ring-last_of (ring_of (lookup name s.rings) ++ r ∷ []) in
      let (rest, ids', waits') =
        append_all-ring name rounds after.1 after.2 id (ap (lookup name) ids ∙ known)
          (rw ring (length-cap_ring (ring_of (lookup name s.rings) ++ r ∷ []))) (waits short) in
      (
        rest
            ∙ ap (λ ring. last_of ring_cap (ring ++ rounds_of rounds)) ring'
            ∙ last_of-append (ring_of (lookup name s.rings) ++ r ∷ []) (rounds_of rounds)
            ∙ ap (last_of ring_cap)
                (append_assoc (ring_of (lookup name s.rings)) (r ∷ []) (rounds_of rounds)),
        ids' ∙ ids,
        waits',
      )
