-- ===== src/Runner/Owned.antt =====
-- The ids under which store.go knows the names of the probes after the first loop of `apply` in
-- runner.go.
use fogping.Prelude.{
  ℕ, ◌≡◌, ◌≢◌, sym, subst, ap, ◌∙◌, ◌⊎◌, inl, inr, true, false, Option, none, some, [], ◌∷◌, Text,
  nat_eq, text_eq, eq_of, Bool-cases,
}
use fogping.Prelude.Map.{Map, lookup}
use fogping.Config.{TargetCfg}
use fogping.Store.{Memory}
use fogping.Runner.{cfg_eq, keeps, stop_stale}
use fogping.Runner.Diff.{lookup-stop_stale}
use fogping.Runner.Names.{lookup-tail, kept_of-some}
use fogping.Runner.Stopped.{
  Entry, Entry-cons, Owned, Only, Ready, Ready-tail, passed, head_at, forget-ids, forget-others,
}

pub keeps-some :
    (cfg : TargetCfg) (want : Option TargetCfg) → keeps cfg want ≡ true → want ≡ some cfg
unfolding keeps
keeps-some cfg none h = absurd (cc h)
keeps-some cfg (some t) h = ap some (eq_of h)

module _ {F : Type 0} where
  -- Each name that is known is of a probe still to come, or is wanted for its id.
  abbrev Accounted : Map ℕ TargetCfg → Map ℕ TargetCfg → Memory F → Type 0
  Accounted want rest s =
      (name : Text) (k : ℕ) → lookup name s.ids ≡ some k → Entry rest k name ⊎ Entry want k name

  passed-Accounted :
      (want rest : Map ℕ TargetCfg) (id : ℕ) (cfg : TargetCfg) (s : Memory F)
      → Ready want ((id, cfg) ∷ rest) s
      → Accounted want ((id, cfg) ∷ rest) s
      → Accounted want rest (passed want id cfg s)
  passed-Accounted want rest id cfg s ready acc name k =
      elim (Bool-cases (keeps cfg (lookup id want))) [
        | inl stays ↦ rw stays (λ h. elim (acc name k h) [
          | inr wanted ↦ inr wanted
          | inl entry ↦ elim (Entry-cons id k cfg name rest entry) [
            | inr later ↦ inl later
            | inl (key, named) ↦ inr (
              cfg,
              subst (λ i. lookup i want ≡ some cfg) key (keeps-some cfg (lookup id want) stays),
              named,
            )
          ]
        ])
        | inr stops ↦ rw stops (λ h.
            elim (forget-ids cfg (lookup id want) s id name k
              (ready.owned id cfg (head_at want rest id cfg s ready)) h) [
                | inr (t, wanted, named, key) ↦
                    inr (t, subst (λ i. lookup i want ≡ some t) key wanted, named)
                | inl (before, stays) ↦ elim (acc name k before) [
                  | inr wanted ↦ inr wanted
                  | inl entry ↦ elim (Entry-cons id k cfg name rest entry) [
                    | inr later ↦ inl later
                    | inl (key, named) ↦ elim stays [
                      | inl apart ↦ absurd (apart named)
                      | inr (t, wanted, same) ↦
                          inr (t, subst (λ i. lookup i want ≡ some t) key wanted, same ∙ named)
                    ]
                  ]
                ]
              ])
      ]

  -- After the first loop the store knows only names that are wanted, each for its id.
  stop_stale-Accounted :
      (want live : Map ℕ TargetCfg) (s : Memory F)
      → Ready want live s
      → Accounted want live s
      → Only want (stop_stale want live s).1
  unfolding stop_stale lookup
  stop_stale-Accounted want [] s ready acc = λ name k h. elim (acc name k h) [
    | inl (c, never, named) ↦ absurd (cc never)
    | inr wanted ↦ wanted
  ]
  stop_stale-Accounted want ((id, cfg) ∷ rest) s ready acc =
      stop_stale-Accounted want rest (passed want id cfg s) (Ready-tail want rest id cfg s ready)
        (passed-Accounted want rest id cfg s ready acc)

  -- A name that no probe loses or takes stays with its id.
  stop_stale-stays :
      (name : Text) (k : ℕ) (want live : Map ℕ TargetCfg) (s : Memory F)
      → Ready want live s
      → ((j : ℕ) (c : TargetCfg)
          → lookup j live ≡ some c
          → keeps c (lookup j want) ≡ false
          → (c.name ≢ name)
            × ((t : TargetCfg) → lookup j want ≡ some t → t.name ≢ c.name → t.name ≢ name))
      → lookup name s.ids ≡ some k
      → lookup name (stop_stale want live s).1.ids ≡ some k
  unfolding stop_stale
  stop_stale-stays name k want [] s ready others h = h
  stop_stale-stays name k want ((id, cfg) ∷ rest) s ready others h =
      let at = head_at want rest id cfg s ready in
      let next : lookup name (passed want id cfg s).ids ≡ some k =
        elim (Bool-cases (keeps cfg (lookup id want))) [
          | inl stays ↦ rw stays h
          | inr stops ↦
              let (apart, clear) = others id cfg at stops in
              rw stops (
                forget-others cfg (lookup id want) s id name k (ready.owned id cfg at) apart clear
                  h)
        ] in
      stop_stale-stays name k want rest (passed want id cfg s) (Ready-tail want rest id cfg s ready)
        (λ j c p. others j c (lookup-tail j id cfg c rest ready.keyed.0 p)) next

  stop_stale-Owned :
      (want live : Map ℕ TargetCfg) (s : Memory F)
      → Ready want live s
      → Owned (stop_stale want live s).0 (stop_stale want live s).1
  stop_stale-Owned want live s ready id cfg h =
      let (runs, stays) =
        kept_of-some (lookup id live) (lookup id want) cfg
          (sym (lookup-stop_stale id want live s ready.keyed) ∙ h) in
      stop_stale-stays cfg.name id want live s ready
        (λ j c at stops. (
          λ same.
              let key : j ≡ id = ready.apart j id c cfg at runs same in
              let own : lookup id live ≡ some c = subst (λ i. lookup i live ≡ some c) key at in
              let cfg_c : cfg ≡ c = cc (runs, own) in
              let kept : keeps c (lookup id want) ≡ true =
                subst (λ x. keeps x (lookup id want) ≡ true) cfg_c stays in
              let lost : keeps c (lookup id want) ≡ false =
                subst (λ i. keeps c (lookup i want) ≡ false) key stops in
              let no : true ≡ false = sym kept ∙ lost in absurd (cc no),
          λ t wanted moved. ready.clear j id c cfg t at wanted moved runs,
        ))
        (ready.owned id cfg runs)

  -- After the first loop: the probes that go on have their ids, and no other name is known but those
  -- that are wanted.
  pub stop_stale_lem :
      (want live : Map ℕ TargetCfg) (s : Memory F)
      → Ready want live s
      → Only live s
      → Owned (stop_stale want live s).0 (stop_stale want live s).1
        × Only want (stop_stale want live s).1
  stop_stale_lem want live s ready only = (
    stop_stale-Owned want live s ready,
    stop_stale-Accounted want live s ready (λ name k h. inl (only name k h)),
  )
