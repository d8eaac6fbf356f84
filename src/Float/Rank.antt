-- ===== src/Float/Rank.antt =====
-- Where a value stands among the floats that `sort.Float64s` sorts.
use fogping.Prelude.{
  ℕ, zero, suc, ◌+◌, ◌≤◌, ◌<◌, ◌≡◌, refl, sym, ◌∙◌, subst, inl, inr, Bool, true, some, List, [],
  ◌∷◌, if◌then◌else◌, length, get_elem?, Bool-cases, arith, All,
}
use fogping.Float.{
  Float, sort_floats, insert_float, length-sort_floats, IsSorted, sort_floats-IsSorted,
}

unfoldable pub count : {A : Type 0} → (A → Bool) → List A → ℕ
count p [] = 0
count p (x ∷ xs) = (if p x then 1 else 0) + count p xs

count-all :
    {A : Type 0} (p : A → Bool) (xs : List A) → All (λ x. p x ≡ true) xs → count p xs ≡ length xs
unfolding count
count-all p [] h = refl
count-all p (x ∷ xs) h = rw h.0 (omega (arith, count-all p xs h.1))

some_inj : {A : Type 0} {a b : A} → some a ≡ some b → a ≡ b
some_inj {a = a} {b = b} h = cc h

All-get {κ} :
    {A : Type 0} (P : A → Type κ) (xs : List A) (i : ℕ) (v : A)
    → All P xs
    → get_elem? xs i ≡ some v
    → P v
All-get P [] i v h e = absurd cc
All-get P (x ∷ xs) zero v h e = let same : x ≡ v = cc in subst P same h.0
All-get P (x ∷ xs) (suc i) v h e = All-get P xs i v h.1 e

pub get_elem?-some :
    {A : Type 0} (xs : List A) (i : ℕ) → i < length xs → (v : A) × (get_elem? xs i ≡ some v)
get_elem?-some [] i h = absurd (omega arith)
get_elem?-some (x ∷ xs) zero h = (x, refl)
get_elem?-some (x ∷ xs) (suc i) h = get_elem?-some xs i (omega arith)

module _ (float : Float) where
  open float use {F, leb, leb_total, leb_trans}

  count-insert_float :
      (p : F → Bool) (a : F) (bs : List F)
      → count p (insert_float float a bs) ≡ (if p a then 1 else 0) + count p bs
  unfolding count insert_float
  count-insert_float p a [] = refl
  count-insert_float p a (b ∷ bs) = elim (Bool-cases (leb a b)) [
    | inl le ↦ rw le refl
    | inr gt ↦ rw gt (omega (arith, count-insert_float p a bs))
  ]

  pub count-sort_floats : (p : F → Bool) (xs : List F) → count p (sort_floats float xs) ≡ count p xs
  unfolding count sort_floats
  count-sort_floats p [] = refl
  count-sort_floats p (a ∷ xs) =
      omega (arith, count-insert_float p a (sort_floats float xs), count-sort_floats p xs)

  leb_refl : (a : F) → leb a a ≡ true
  leb_refl a = ground (arith, leb_total a a)

  below_All :
      (a b : F) (xs : List F)
      → leb a b ≡ true
      → All (λ c. leb b c ≡ true) xs
      → All (λ c. leb a c ≡ true) xs
  below_All a b [] le h = tt
  below_All a b (c ∷ cs) le h = (leb_trans a b c le h.0, below_All a b cs le h.1)

  -- Everything in a sorted list is at least its head.
  head_least : (a : F) (xs : List F) → IsSorted float (a ∷ xs) → All (λ b. leb a b ≡ true) xs
  head_least a [] s = tt
  head_least a (b ∷ bs) s = (s.0, below_All a b bs s.0 (head_least b bs s.1))

  IsSorted-tail : (a : F) (xs : List F) → IsSorted float (a ∷ xs) → IsSorted float xs
  IsSorted-tail a [] s = tt
  IsSorted-tail a (b ∷ bs) s = s.1

  -- In a sorted list the elements up to an index are at most what stands there.
  rank_low :
      (xs : List F) (i : ℕ) (v : F)
      → IsSorted float xs
      → get_elem? xs i ≡ some v
      → suc i ≤ count (λ x. leb x v) xs
  unfolding count
  rank_low [] i v s e = absurd cc
  rank_low (x ∷ xs) zero v s e =
      let le : leb x v ≡ true = subst (λ u. leb x u ≡ true) (some_inj e) (leb_refl x) in
      rw le (omega arith)
  rank_low (x ∷ xs) (suc i) v s e =
      let le : leb x v ≡ true = All-get (λ b. leb x b ≡ true) xs i v (head_least x xs s) e in
      rw le (omega (arith, rank_low xs i v (IsSorted-tail x xs s) e))

  rank_high :
      (xs : List F) (i : ℕ) (v : F)
      → IsSorted float xs
      → get_elem? xs i ≡ some v
      → length xs ≤ i + count (λ x. leb v x) xs
  unfolding count
  rank_high [] i v s e = absurd cc
  rank_high (x ∷ xs) zero v s e =
      let same : x ≡ v = some_inj e in
      let whole : count (λ u. leb x u) (x ∷ xs) ≡ length (x ∷ xs) =
        count-all (λ u. leb x u) (x ∷ xs) (leb_refl x, head_least x xs s) in
      subst (λ u. length (x ∷ xs) ≤ 0 + count (λ y. leb u y) (x ∷ xs)) same (omega (arith, whole))
  rank_high (x ∷ xs) (suc i) v s e = omega (arith, rank_high xs i v (IsSorted-tail x xs s) e)

  -- The value at an index of the sorted list has that many samples at or below it, itself among
  -- them, and the others at or above it.
  pub sort_floats-rank :
      (xs : List F) (i : ℕ) (v : F)
      → get_elem? (sort_floats float xs) i ≡ some v
      → (suc i ≤ count (λ x. leb x v) xs) × (length xs ≤ i + count (λ x. leb v x) xs)
  sort_floats-rank xs i v e =
      let s = sort_floats-IsSorted float xs in
      (
        omega (arith, rank_low (sort_floats float xs) i v s e, count-sort_floats (λ x. leb x v) xs),
        omega (
          arith,
          rank_high (sort_floats float xs) i v s e,
          count-sort_floats (λ x. leb v x) xs,
          length-sort_floats float xs,
        ),
      )

  -- Of two indices, the larger has the larger value.
  pub IsSorted-mono :
      (xs : List F) (i j : ℕ) (u v : F)
      → IsSorted float xs
      → i ≤ j
      → get_elem? xs i ≡ some u
      → get_elem? xs j ≡ some v
      → leb u v ≡ true
  IsSorted-mono [] i j u v s le e f = absurd cc
  IsSorted-mono (x ∷ xs) zero zero u v s le e f =
      let same : u ≡ v = some_inj (sym e ∙ f) in subst (λ a. leb u a ≡ true) same (leb_refl u)
  IsSorted-mono (x ∷ xs) zero (suc j) u v s le e f =
      let same : x ≡ u = some_inj e in
      subst (λ a. leb a v ≡ true) same (All-get (λ b. leb x b ≡ true) xs j v (head_least x xs s) f)
  IsSorted-mono (x ∷ xs) (suc i) zero u v s le e f = absurd (omega arith)
  IsSorted-mono (x ∷ xs) (suc i) (suc j) u v s le e f =
      IsSorted-mono xs i j u v (IsSorted-tail x xs s) (omega arith) e f
