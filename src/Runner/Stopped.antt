-- ===== src/Runner/Stopped.antt =====
-- The first loop of `apply` in runner.go, and the ids under which store.go knows the names.
use fogping.Prelude.{
  ℕ, ◌≡◌, ◌≢◌, refl, sym, subst, ap, ◌∙◌, ◌⊎◌, inl, inr, Option, none, some, ◌∷◌, Text, ◌==◌,
  nat_eq, text_eq, text_beq_iff, eq_of, ne_of, if◌then◌else◌, arith, Bool-cases,
}
use fogping.Prelude.Map.{Map, lookup, lookup-remove}
use fogping.Config.{TargetCfg}
use fogping.Store.{Memory}
use fogping.Store.Live.{remove_target, rename_target}
use fogping.Store.Ring.{rename_target_lem}
use fogping.Runner.{cfg_eq, keeps, forget}
use fogping.Runner.Diff.{Keyed}
use fogping.Runner.Names.{Apart, lookup-tail, lookup-head}

-- No probe is renamed to the name of one that runs.
abbrev pub Clear : Map ℕ TargetCfg → Map ℕ TargetCfg → Type 0
Clear want live =
    (i j : ℕ) (a b t : TargetCfg)
    → lookup i live ≡ some a
    → lookup i want ≡ some t
    → t.name ≢ a.name
    → lookup j live ≡ some b
    → t.name ≢ b.name

-- The map has an entry for the id, with the name.
abbrev pub Entry : Map ℕ TargetCfg → ℕ → Text → Type 0
Entry m id name = (cfg : TargetCfg) × (lookup id m ≡ some cfg) × (cfg.name ≡ name)

pub Entry-cons :
    (id k : ℕ) (cfg : TargetCfg) (name : Text) (rest : Map ℕ TargetCfg)
    → Entry ((id, cfg) ∷ rest) k name
    → (id ≡ k) × (cfg.name ≡ name) ⊎ Entry rest k name
unfolding lookup
Entry-cons id k cfg name rest (c, h, named) = elim (Bool-cases (id == k)) [
  | inl this ↦
      let same : cfg ≡ c = ground (arith, this, h) in
      inl (eq_of this, ap (λ (x : TargetCfg). x.name) same ∙ named)
  | inr other ↦ inr (c, ground (arith, other, h), named)
]

-- Where the probe's name is kept, or another name is taken.
abbrev Stays : TargetCfg → Option TargetCfg → Text → Type 0
Stays cfg want name = (cfg.name ≢ name) ⊎ (t : TargetCfg) × (want ≡ some t) × (t.name ≡ cfg.name)

abbrev Moves : ℕ → Option TargetCfg → Text → ℕ → Type 0
Moves id want name k = (t : TargetCfg) × (want ≡ some t) × (t.name ≡ name) × (id ≡ k)

module _ {F : Type 0} where
  -- The store knows the name of every probe under the id of the probe.
  abbrev pub Owned : Map ℕ TargetCfg → Memory F → Type 0
  Owned live s =
      (id : ℕ) (cfg : TargetCfg) → lookup id live ≡ some cfg → lookup cfg.name s.ids ≡ some id

  -- The store knows no other names.
  abbrev pub Only : Map ℕ TargetCfg → Memory F → Type 0
  Only m s = (name : Text) (id : ℕ) → lookup name s.ids ≡ some id → Entry m id name

  pub forget-ids :
      (cfg : TargetCfg) (want : Option TargetCfg) (s : Memory F) (id : ℕ) (name : Text) (k : ℕ)
      → lookup cfg.name s.ids ≡ some id
      → lookup name (forget cfg want s).ids ≡ some k
      → (lookup name s.ids ≡ some k) × Stays cfg want name ⊎ Moves id want name k
  unfolding forget remove_target
  forget-ids cfg none s id name k own h =
      let at = lookup-remove cfg.name name s.ids in
      elim (Bool-cases (cfg.name == name)) [
        | inl this ↦ absurd (ground (arith, at, h, this))
        | inr other ↦ inl (ground (arith, at, h, other), inl (ne_of other))
      ]
  forget-ids cfg (some t) s id name k own h = elim (Bool-cases (t.name == cfg.name)) [
    | inl same ↦ inl (ground (arith, same, h), inr (t, refl, eq_of same))
    | inr differs ↦
        let apart : cfg.name ≢ t.name = λ e. ne_of differs (sym e) in
        let at = (rename_target_lem cfg.name t.name s id own apart name).0 in
        let h' : lookup name (rename_target cfg.name t.name s).ids ≡ some k =
          ground (arith, differs, h) in
        elim (Bool-cases (cfg.name == name)) [
          | inl this ↦ absurd (ground (arith, at, h', this))
          | inr other ↦ elim (Bool-cases (t.name == name)) [
            | inl new ↦ inr (t, refl, eq_of new, ground (arith, at, h', other, new))
            | inr old ↦ inl (ground (arith, at, h', other, old), inl (ne_of other))
          ]
        ]
  ]

  pub forget-others :
      (cfg : TargetCfg) (want : Option TargetCfg) (s : Memory F) (id : ℕ) (name : Text) (k : ℕ)
      → lookup cfg.name s.ids ≡ some id
      → cfg.name ≢ name
      → ((t : TargetCfg) → want ≡ some t → t.name ≢ cfg.name → t.name ≢ name)
      → lookup name s.ids ≡ some k
      → lookup name (forget cfg want s).ids ≡ some k
  unfolding forget remove_target
  forget-others cfg none s id name k own apart clear h =
      let at = lookup-remove cfg.name name s.ids in
      ground (arith, at, h, text_beq_iff cfg.name name)
  forget-others cfg (some t) s id name k own apart clear h =
      elim (Bool-cases (t.name == cfg.name)) [
        | inl same ↦ rw same h
        | inr differs ↦
            let moved : cfg.name ≢ t.name = λ e. ne_of differs (sym e) in
            let at = (rename_target_lem cfg.name t.name s id own moved name).0 in
            let new : t.name ≢ name = clear t refl (ne_of differs) in
            rw differs (ground (arith, at, h, text_beq_iff cfg.name name, text_beq_iff t.name name))
      ]

  -- What the first loop needs of the probes it has not come to yet.
  pub record Ready (want rest : Map ℕ TargetCfg) (s : Memory F) : Type 0 where
    pub keyed : Keyed rest
    pub apart : Apart rest
    pub clear : Clear want rest
    pub owned : Owned rest s

  abbrev pub passed : Map ℕ TargetCfg → ℕ → TargetCfg → Memory F → Memory F
  passed want id cfg s = if keeps cfg (lookup id want) then s else forget cfg (lookup id want) s

  module _ (want rest : Map ℕ TargetCfg) (id : ℕ) (cfg : TargetCfg) (s : Memory F)
      (ready : Ready want ((id, cfg) ∷ rest) s) where
    pub head_at : lookup id ((id, cfg) ∷ rest) ≡ some cfg
    head_at = lookup-head id cfg rest

    tail_at :
        (k : ℕ) (c : TargetCfg) → lookup k rest ≡ some c → lookup k ((id, cfg) ∷ rest) ≡ some c
    tail_at k c h = lookup-tail k id cfg c rest ready.keyed.0 h

    tail_name : (k : ℕ) (c : TargetCfg) → lookup k rest ≡ some c → cfg.name ≢ c.name
    tail_name k c h same =
        let key : id ≡ k = ready.apart id k cfg c head_at (tail_at k c h) same in
        let gone : lookup k rest ≡ none = subst (λ i. lookup i rest ≡ none) key ready.keyed.0 in
        cc (gone, h)

    passed-Owned : Owned rest (passed want id cfg s)
    passed-Owned k c h = elim (Bool-cases (keeps cfg (lookup id want))) [
      | inl stays ↦ rw stays (ready.owned k c (tail_at k c h))
      | inr stops ↦ rw stops (
          forget-others cfg (lookup id want) s id c.name k (ready.owned id cfg head_at)
            (tail_name k c h)
            (λ t wanted moved. ready.clear id k cfg c t head_at wanted moved (tail_at k c h))
            (ready.owned k c (tail_at k c h)))
    ]

    pub Ready-tail : Ready want rest (passed want id cfg s)
    Ready-tail = record {
      keyed = ready.keyed.1;
      apart = λ i j a b p q. ready.apart i j a b (tail_at i a p) (tail_at j b q);
      clear = λ i j a b t p wanted moved q.
          ready.clear i j a b t (tail_at i a p) wanted moved (tail_at j b q);
      owned = passed-Owned;
    }
