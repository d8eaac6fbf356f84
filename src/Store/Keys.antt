-- ===== src/Store/Keys.antt =====
-- The keys of the buckets of `Rollup`.
use fogping.Prelude.{
  ℕ, ◌≤◌, ◌<◌, ◌≡◌, refl, sym, subst, ◌⊎◌, inl, inr, Bool, true, false, Option, none, some, List,
  [], ◌∷◌, ◌++◌, nat_eq, nat_beq_iff, keep, leb, arith, All, All-append, Bool-cases,
}
use fogping.Float.{Float}
use fogping.Store.{RoundRow}
use fogping.Store.Rollup.{
  Agg, bucket_of, add_row, quantiles_of, close_bucket, roll_row, roll_rows, nothing_open, buckets,
  starts_bucket, extend_bucket,
}

abbrev pub Before : ℕ → ℕ → ℕ → ℕ → Type 0
Before i t j u = (i < j) ⊎ (i ≡ j) × (t < u)

abbrev pub NotAfter : ℕ → ℕ → ℕ → ℕ → Type 0
NotAfter i t j u = (i < j) ⊎ (i ≡ j) × (t ≤ u)

-- The order of the query: by target, then by time.
abbrev pub InOrder : {F : Type 0} → List (RoundRow F) → Type 0
InOrder [] = Unit
InOrder (r ∷ rows) =
    All (λ (q : RoundRow _). NotAfter r.target_id r.t q.target_id q.t) rows × InOrder rows

module _ {F : Type 0} where
  abbrev pub Ascending : List (Agg F) → Type 0
  Ascending [] = Unit
  Ascending (a ∷ out) = All (λ (b : Agg F). Before a.id a.t b.id b.t) out × Ascending out

  Ascending-snoc :
      (out : List (Agg F)) (b : Agg F)
      → Ascending out
      → All (λ (a : Agg F). Before a.id a.t b.id b.t) out
      → Ascending (out ++ b ∷ [])
  Ascending-snoc [] b asc before = (tt, tt)
  Ascending-snoc (a ∷ out) b asc before = (
    All-append (λ (c : Agg F). Before a.id a.t c.id c.t) out (b ∷ []) asc.0 (before.0, tt),
    Ascending-snoc out b asc.1 before.1,
  )

  bucket_of-NotAfter :
      (r q : RoundRow F)
      → NotAfter r.target_id r.t q.target_id q.t
      → NotAfter r.target_id (bucket_of r.t) q.target_id (bucket_of q.t)
  unfolding bucket_of
  bucket_of-NotAfter r q (inl lt) = inl lt
  bucket_of-NotAfter r q (inr (same, le)) = inr (same, omega (arith, le))

module _ (float : Float) where
  open float use {F}

  abbrev Below : ℕ → ℕ → List (Agg F) → Type 0
  Below i t out = All (λ (a : Agg F). Before a.id a.t i t) out

  -- What is done ascends, and stays below the bucket that is open.
  abbrev Good : List (Agg F) → Option (Agg F × List F) → Type 0
  Good out none = out ≡ []
  Good out (some (cur, vals)) = Ascending out × Below cur.id cur.t out

  abbrev Follows : Option (Agg F × List F) → RoundRow F → Type 0
  Follows none r = Unit
  Follows (some (cur, vals)) r = NotAfter cur.id cur.t r.target_id (bucket_of r.t)

  abbrev Opens : RoundRow F → Option (Agg F × List F) → Type 0
  Opens r none = ⊥
  Opens r (some (cur, vals)) = (cur.id ≡ r.target_id) × (cur.t ≡ bucket_of r.t)

  Below-trans : (i t j u : ℕ) (out : List (Agg F)) → Before i t j u → Below i t out → Below j u out
  Below-trans i t j u [] h all = tt
  Below-trans i t j u (a ∷ out) h all = (ground (arith, h), Below-trans i t j u out h all.1)

  close_bucket-Ascending :
      (out : List (Agg F)) (o : Option (Agg F × List F))
      → Good out o
      → Ascending (close_bucket float out o)
  unfolding close_bucket
  close_bucket-Ascending out none g = subst Ascending (sym g) tt
  close_bucket-Ascending out (some (cur, vals)) g =
      Ascending-snoc out (record cur { q = quantiles_of float vals }) g.0 g.1

  close_bucket-Below :
      (out : List (Agg F)) (o : Option (Agg F × List F)) (r : RoundRow F)
      → Good out o
      → Follows o r
      → starts_bucket float r o ≡ true
      → Below r.target_id (bucket_of r.t) (close_bucket float out o)
  unfolding close_bucket starts_bucket
  close_bucket-Below out none r g f h = subst (Below r.target_id (bucket_of r.t)) (sym g) tt
  close_bucket-Below out (some (cur, vals)) r g f h =
      let new : Before cur.id cur.t r.target_id (bucket_of r.t) =
        ground (arith, f, nat_beq_iff r.target_id cur.id, nat_beq_iff (bucket_of r.t) cur.t) in
      All-append (λ (a : Agg F). Before a.id a.t r.target_id (bucket_of r.t)) out
        (record cur { q = quantiles_of float vals } ∷ [])
        (Below-trans cur.id cur.t r.target_id (bucket_of r.t) out new g.1) (new, tt)

  extend_bucket-Good :
      (r : RoundRow F) (out : List (Agg F)) (o : Option (Agg F × List F))
      → Good out o
      → starts_bucket float r o ≡ false
      → Good out (extend_bucket float r o) × Opens r (extend_bucket float r o)
  unfolding extend_bucket add_row starts_bucket
  extend_bucket-Good r out none g h = absurd (cc h)
  extend_bucket-Good r out (some (cur, vals)) g h = (
    g,
    (
      ground (arith, nat_beq_iff r.target_id cur.id),
      ground (arith, nat_beq_iff r.target_id cur.id, nat_beq_iff (bucket_of r.t) cur.t),
    ),
  )

  roll_row-Good :
      (r : RoundRow F) (out : List (Agg F)) (o : Option (Agg F × List F))
      → Good out o
      → Follows o r
      → Good
          (roll_row float r (record { out = out; open_bucket = o })).out
          (roll_row float r (record { out = out; open_bucket = o })).open_bucket
        × Opens r (roll_row float r (record { out = out; open_bucket = o })).open_bucket
  unfolding roll_row add_row extend_bucket
  roll_row-Good r out o g f = elim (Bool-cases (starts_bucket float r o)) [
    | inl starts ↦
        rw starts
          ((close_bucket-Ascending out o g, close_bucket-Below out o r g f starts), (refl, refl))
    | inr goes_on ↦ rw goes_on (extend_bucket-Good r out o g goes_on)
  ]

  Opens-Follows :
      (r q : RoundRow F) (o : Option (Agg F × List F))
      → Opens r o
      → NotAfter r.target_id r.t q.target_id q.t
      → Follows o q
  Opens-Follows r q none opens le = absurd opens
  Opens-Follows r q (some (cur, vals)) opens le =
      let later = bucket_of-NotAfter r q le in ground (arith, opens, later)

  abbrev FollowsFirst : Option (Agg F × List F) → List (RoundRow F) → Type 0
  FollowsFirst o [] = Unit
  FollowsFirst o (r ∷ rows) = Follows o r

  nothing_follows : (rows : List (RoundRow F)) → FollowsFirst none rows
  nothing_follows [] = tt
  nothing_follows (r ∷ rows) = tt

  roll_rows-Good :
      (rows : List (RoundRow F)) (out : List (Agg F)) (o : Option (Agg F × List F))
      → Good out o
      → InOrder rows
      → FollowsFirst o rows
      → Good
          (roll_rows float rows (record { out = out; open_bucket = o })).out
          (roll_rows float rows (record { out = out; open_bucket = o })).open_bucket
  unfolding roll_rows
  roll_rows-Good [] out o g ordered f = g
  roll_rows-Good (r ∷ []) out o g ordered f = (roll_row-Good r out o g f).0
  roll_rows-Good (r ∷ q ∷ rows) out o g ordered f =
      let st = roll_row float r (record { out = out; open_bucket = o }) in
      let (good, opens) = roll_row-Good r out o g f in
      roll_rows-Good (q ∷ rows) st.out st.open_bucket good ordered.1
        (Opens-Follows r q st.open_bucket opens ordered.0.0)

  All-keep :
      (P : RoundRow F → Type 0) (p : RoundRow F → Bool) (rows : List (RoundRow F))
      → All P rows
      → All P (keep p rows)
  All-keep P p [] all = tt
  All-keep P p (r ∷ rows) all = elim (Bool-cases (p r)) [
    | inl in_it ↦ rw in_it (all.0, All-keep P p rows all.1)
    | inr out_of_it ↦ rw out_of_it (All-keep P p rows all.1)
  ]

  keep-InOrder :
      (p : RoundRow F → Bool) (rows : List (RoundRow F)) → InOrder rows → InOrder (keep p rows)
  keep-InOrder p [] ordered = tt
  keep-InOrder p (r ∷ rows) ordered = elim (Bool-cases (p r)) [
    | inl in_it ↦ rw in_it (
      All-keep (λ (q : RoundRow F). NotAfter r.target_id r.t q.target_id q.t) p rows ordered.0,
      keep-InOrder p rows ordered.1,
    )
    | inr out_of_it ↦ rw out_of_it (keep-InOrder p rows ordered.1)
  ]

  -- If the rows come by target and time, as the query orders them, the buckets come by target and
  -- hour, and no target and hour has two.
  pub buckets-Ascending :
      (start : ℕ) (rows : List (RoundRow F)) → InOrder rows → Ascending (buckets float start rows)
  unfolding buckets
  buckets-Ascending start rows ordered =
      let kept = keep (λ (r : RoundRow F). leb start r.t) rows in
      let st = roll_rows float kept (nothing_open float) in
      close_bucket-Ascending st.out st.open_bucket (
        roll_rows-Good kept [] none refl
          (keep-InOrder (λ (r : RoundRow F). leb start r.t) rows ordered) (nothing_follows kept))
