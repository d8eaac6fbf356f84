-- ===== src/Float.antt =====
-- Go's float64 xs an interface: the operations that store.go and detect.go use and the few facts of
-- them that the proofs rely on. `leb` is the order by which `sort.Float64s` sorts.
pub mod Rank
use fogping.Prelude.{
  ℕ, suc, ◌<◌, ◌^◌, ◌≡◌, refl, ◌⊎◌, inl, inr, Bool, true, List, [], ◌∷◌, if◌then◌else◌, Bool-cases,
  length, arith,
}
use fogping.Prelude.Int.{ℤ}
use mathlib.Core.List.{Perm}
use mathlib.Core.List.Perm

pub record Float : Type 1 where
  pub F : Type 0
  pub leb : F → F → Bool
  pub leb_total : (a b : F) → (leb a b ≡ true) ⊎ (leb b a ≡ true)
  pub leb_trans : (a b c : F) → leb a b ≡ true → leb b c ≡ true → leb a c ≡ true
  -- `<` and `==` of Go, which are false at a NaN
  pub lt : F → F → Bool
  pub eq : F → F → Bool
  pub lt_leb : (a b : F) → lt a b ≡ true → leb a b ≡ true
  pub of_int : ℤ → F
  pub add : F → F → F
  pub sub : F → F → F
  pub mul : F → F → F
  pub div : F → F → F
  -- int(f)
  pub trunc : F → ℤ
  -- math.Float32bits(float32(f)) and float64(math.Float32frombits(b))
  pub bits32 : F → ℕ
  pub of_bits32 : ℕ → F
  pub bits32_lt : (a : F) → bits32 a < 2 ^ 32

module _ (float : Float) where
  open float use {F, leb, leb_total, leb_trans}

  unfoldable pub insert_float : F → List F → List F
  insert_float a [] = a ∷ []
  insert_float a (b ∷ bs) = if leb a b then a ∷ b ∷ bs else b ∷ insert_float a bs

  -- sort.Float64s
  unfoldable pub sort_floats : List F → List F
  unfolding insert_float
  sort_floats [] = []
  sort_floats (a ∷ xs) = insert_float a (sort_floats xs)

  insert_float-perm : (a : F) (bs : List F) → Perm (insert_float a bs) (a ∷ bs)
  unfolding insert_float
  insert_float-perm a [] = Perm.refl (a ∷ [])
  insert_float-perm a (b ∷ bs) = elim (Bool-cases (leb a b)) [
    | inl le ↦ rw le (Perm.refl (a ∷ b ∷ bs))
    | inr gt ↦ rw gt (Perm.trans (Perm.cons b (insert_float-perm a bs)) (Perm.swap a b bs))
  ]

  pub sort_floats-perm : (xs : List F) → Perm (sort_floats xs) xs
  unfolding sort_floats
  sort_floats-perm [] = Perm.refl []
  sort_floats-perm (a ∷ xs) =
      Perm.trans (insert_float-perm a (sort_floats xs)) (Perm.cons a (sort_floats-perm xs))

  length-insert_float : (a : F) (bs : List F) → length (insert_float a bs) ≡ suc (length bs)
  unfolding insert_float
  length-insert_float a [] = refl
  length-insert_float a (b ∷ bs) = ground (arith, length-insert_float a bs)

  pub length-sort_floats : (xs : List F) → length (sort_floats xs) ≡ length xs
  unfolding sort_floats
  length-sort_floats [] = refl
  length-sort_floats (a ∷ xs) =
      ground (arith, length-insert_float a (sort_floats xs), length-sort_floats xs)

  abbrev pub IsSorted : List F → Type 0
  IsSorted [] = Unit
  IsSorted (a ∷ []) = Unit
  IsSorted (a ∷ b ∷ bs) = (leb a b ≡ true) × IsSorted (b ∷ bs)

  insert_float-IsSorted : (a : F) (bs : List F) → IsSorted bs → IsSorted (insert_float a bs)
  unfolding insert_float
  insert_float-IsSorted a [] s = tt
  insert_float-IsSorted a (b ∷ []) s = elim (Bool-cases (leb a b)) [
    | inl le ↦ rw le (le, tt)
    | inr gt ↦ rw gt (ground (arith, leb_total a b), tt)
  ]
  insert_float-IsSorted a (b ∷ c ∷ cs) s =
      let ih = insert_float-IsSorted a (c ∷ cs) s.1 in
      elim (Bool-cases (leb a b)) [
        | inl le ↦ rw le (le, s)
        | inr gt ↦ elim (Bool-cases (leb a c)) [
          | inl le ↦ rw (gt, le) (ground (arith, leb_total a b), rw le at ih)
          | inr gt' ↦ rw (gt, gt') (s.0, rw gt' at ih)
        ]
      ]

  pub sort_floats-IsSorted : (xs : List F) → IsSorted (sort_floats xs)
  unfolding sort_floats
  sort_floats-IsSorted [] = tt
  sort_floats-IsSorted (a ∷ xs) = insert_float-IsSorted a (sort_floats xs) (sort_floats-IsSorted xs)
