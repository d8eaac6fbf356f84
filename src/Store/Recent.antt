-- ===== src/Store/Recent.antt =====
-- `Recent` of store.go: the binary search of `sort.Search` over the ring.
use fogping.Prelude.{
  ℕ, zero, suc, ◌+◌, ◌-◌, ◌/◌, ◌≤◌, ◌<◌, ◌≡◌, refl, sym, ap, inl, inr, Bool, true, false, none,
  some, List, [], ◌∷◌, Text, if◌then◌else◌, text_eq, length, get_elem?, drop, keep, ltb, leb, arith,
  All, Bool-cases,
}
use fogping.Prelude.Map.{lookup}
use fogping.Store.{Round, Memory}
use fogping.Store.Live.{ring_of}

-- sort.Search(n, f): `i` and `j` close in on the first index that passes. The fuel is above `j - i`,
-- which every round makes smaller.
unfoldable pub search_loop : ℕ → (ℕ → Bool) → ℕ → ℕ → ℕ
search_loop zero test i j = i
search_loop (suc fuel) test i j =
    let h = (i + j) / 2 in
    let right = search_loop fuel test (h + 1) j in
    let left = search_loop fuel test i h in if ltb i j then (if test h then left else right) else i

unfoldable pub sort_search : ℕ → (ℕ → Bool) → ℕ
unfolding search_loop
sort_search n test = search_loop (n + 1) test 0 n

module _ {F : Type 0} where
  unfoldable pub is_recent : List (Round F) → ℕ → ℕ → Bool
  is_recent ring since i = elim (get_elem? ring i) [ none ↦ false | some r ↦ leb since r.t ]

  unfoldable pub recent_of : List (Round F) → ℕ → List (Round F)
  recent_of ring since = drop (sort_search (length ring) (is_recent ring since)) ring

  unfoldable pub recent : Text → ℕ → Memory F → List (Round F)
  unfolding recent_of ring_of
  recent name since s = recent_of (ring_of (lookup name s.rings)) since

  -- The times of a ring do not go back.
  abbrev pub Ordered : List (Round F) → Type 0
  Ordered [] = Unit
  Ordered (r ∷ ring) = All (λ (q : Round F). r.t ≤ q.t) ring × Ordered ring

  is_recent-All :
      (since : ℕ) (ring : List (Round F)) (m : ℕ)
      → All (λ (q : Round F). since ≤ q.t) ring
      → m < length ring
      → is_recent ring since m ≡ true
  unfolding is_recent
  is_recent-All since [] m a h = absurd (omega arith)
  is_recent-All since (r ∷ ring) zero a h = ground arith
  is_recent-All since (r ∷ ring) (suc m) a h = is_recent-All since ring m a.1 (omega arith)

  All-since :
      (since t : ℕ) (ring : List (Round F))
      → since ≤ t
      → All (λ (q : Round F). t ≤ q.t) ring
      → All (λ (q : Round F). since ≤ q.t) ring
  All-since since t [] h a = tt
  All-since since t (r ∷ ring) h a = (omega arith, All-since since t ring h a.1)

  is_recent_mono :
      (since : ℕ) (ring : List (Round F)) (k m : ℕ)
      → Ordered ring
      → k ≤ m
      → m < length ring
      → is_recent ring since k ≡ true
      → is_recent ring since m ≡ true
  unfolding is_recent
  is_recent_mono since [] k m o le h p = absurd (omega arith)
  is_recent_mono since (r ∷ ring) zero zero o le h p = p
  is_recent_mono since (r ∷ ring) zero (suc m) o le h p =
      is_recent-All since ring m (All-since since r.t ring (ground arith) o.0) (omega arith)
  is_recent_mono since (r ∷ ring) (suc k) zero o le h p = absurd (omega arith)
  is_recent_mono since (r ∷ ring) (suc k) (suc m) o le h p =
      is_recent_mono since ring k m o.1 (omega arith) (omega arith) p

-- What a search leaves: all below fail, and all from the result on pass.
record Found (n : ℕ) (test : ℕ → Bool) (i j : ℕ) : Type 0 where
  fits : i ≤ j
  within : j ≤ n
  below : (k : ℕ) → k < i → test k ≡ false
  above : (k : ℕ) → j ≤ k → k < n → test k ≡ true

module _ (n : ℕ) (test : ℕ → Bool)
    (mono : (k m : ℕ) → k ≤ m → m < n → test k ≡ true → test m ≡ true) where
  fails_below : (h k : ℕ) → h < n → test h ≡ false → k ≤ h → test k ≡ false
  fails_below h k hn fails le = elim (Bool-cases (test k)) [
    | inr no_pass ↦ no_pass
    | inl pass ↦ let e = mono k h le hn pass in cc
  ]

  search_loop-Found :
      (fuel i j : ℕ)
      → j - i < fuel
      → Found n test i j
      → Found n test (search_loop fuel test i j) (search_loop fuel test i j)
  unfolding search_loop
  search_loop-Found zero i j h f = absurd (omega arith)
  search_loop-Found (suc fuel) i j h f = elim (Bool-cases (ltb i j)) [
    | inr stop ↦
        let e : i ≡ j = ground arith in
        rw stop (record {
          fits = omega arith;
          within = omega arith;
          below = f.below;
          above = λ k le lt. f.above k (omega arith) lt;
        })
    | inl go ↦
        let mid = (i + j) / 2 in
        let lt : mid < j = ground arith in
        let le : i ≤ mid = ground arith in
        elim (Bool-cases (test mid)) [
          | inl pass ↦
              rw (go, pass)
                (search_loop-Found fuel i mid (omega arith) (record {
                  fits = le;
                  within = omega arith;
                  below = f.below;
                  above = λ k from kn. mono mid k from kn pass;
                }))
          | inr fail ↦
              rw (go, fail)
                (search_loop-Found fuel (mid + 1) j (omega arith) (record {
                  fits = omega arith;
                  within = omega arith;
                  below = λ k lt'. fails_below mid k (omega arith) fail (omega arith);
                  above = f.above;
                }))
        ]
  ]

module _ {F : Type 0} where
  keep_all :
      (since : ℕ) (ring : List (Round F))
      → ((k : ℕ) → k < length ring → is_recent ring since k ≡ true)
      → keep (λ (r : Round F). leb since r.t) ring ≡ ring
  unfolding is_recent
  keep_all since [] h = refl
  keep_all since (r ∷ ring) h =
      let passes : leb since r.t ≡ true = h zero (omega arith) in
      rw passes (ap (◌∷◌ r) (keep_all since ring (λ k lt. h (suc k) (omega arith))))

  drop-eq-keep :
      (since : ℕ) (ring : List (Round F)) (i : ℕ)
      → i ≤ length ring
      → ((k : ℕ) → k < i → is_recent ring since k ≡ false)
      → ((k : ℕ) → i ≤ k → k < length ring → is_recent ring since k ≡ true)
      → drop i ring ≡ keep (λ (r : Round F). leb since r.t) ring
  unfolding is_recent
  drop-eq-keep since [] zero le below above = refl
  drop-eq-keep since [] (suc i) le below above = refl
  drop-eq-keep since (r ∷ ring) zero le below above =
      sym (keep_all since (r ∷ ring) (λ k lt. above k (omega arith) lt))
  drop-eq-keep since (r ∷ ring) (suc i) le below above =
      let fails : leb since r.t ≡ false = below zero (omega arith) in
      rw fails (
        drop-eq-keep since ring i (omega arith) (λ k lt. below (suc k) (omega arith))
          (λ k from lt. above (suc k) (omega arith) (omega arith)))

  -- On a ring in the order of time the binary search finds just the rounds from `since` on.
  pub recent_of-eq-keep :
      (ring : List (Round F)) (since : ℕ)
      → Ordered ring
      → recent_of ring since ≡ keep (λ (r : Round F). leb since r.t) ring
  unfolding recent_of
  recent_of-eq-keep ring since o =
      let n = length ring in
      let found : Found n (is_recent ring since) (sort_search n (is_recent ring since))
          (sort_search n (is_recent ring since)) =
        unfold sort_search in
        search_loop-Found n (is_recent ring since)
          (λ k m le lt pass. is_recent_mono since ring k m o le lt pass) (n + 1) 0 n (omega arith)
          (record {
            fits = omega arith;
            within = omega arith;
            below = λ k lt. absurd (omega arith);
            above = λ k from lt. absurd (omega arith);
          }) in
      drop-eq-keep since ring (sort_search n (is_recent ring since)) found.within found.below
        found.above
