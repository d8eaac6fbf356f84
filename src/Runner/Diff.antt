-- ===== src/Runner/Diff.antt =====
-- What runs after `apply` of runner.go.
use fogping.Prelude.{
  ℕ, ◌≡◌, ◌≢◌, refl, sym, subst, ap, ◌∙◌, ◌⊎◌, inl, inr, true, Option, none, some, List, [], ◌∷◌,
  if◌then◌else◌, ◌==◌, eq_refl, eq_of, ne_of, nat_eq, Text, Bool-cases, Option-cases,
}
use fogping.Prelude.Map.{Map, lookup, lookup-insert}
use fogping.Config.{TargetCfg}
use fogping.Targets.Rows.{Table}
use fogping.Float.{Float}
use fogping.Store.{Memory, RoundRow}
use fogping.Store.Ensure.{Access, ensure_target}
use fogping.Runner.{
  World, cfg_eq, keeps, forget, stop_stale, start_one, start_next, start_missing, apply_wanted,
}

-- Each key has one entry.
abbrev pub Keyed : Map ℕ TargetCfg → Type 0
Keyed [] = Unit
Keyed ((id, cfg) ∷ m) = (lookup id m ≡ none) × Keyed m

abbrev pub kept_of : Option TargetCfg → Option TargetCfg → Option TargetCfg
kept_of none want = none
kept_of (some cfg) want = if keeps cfg want then some cfg else none

pub kept_of_lem :
    (old want : Option TargetCfg)
    → ((cfg : TargetCfg) × (want ≡ some cfg) × (kept_of old want ≡ some cfg))
      ⊎ (kept_of old want ≡ none) × ((want ≡ none) ⊎ (old ≢ want))
unfolding keeps
kept_of_lem none none = inr (refl, inl refl)
kept_of_lem none (some t) = inr (refl, inr (λ e. cc e))
kept_of_lem (some cfg) none = inr (refl, inl refl)
kept_of_lem (some cfg) (some t) = elim (Bool-cases (t == cfg)) [
  | inl same ↦ inl (t, refl, rw same (ap some (sym (eq_of same))))
  | inr other ↦ inr (rw other refl, inr (λ e. let same : t ≡ cfg = cc e in ne_of other same))
]

module _ {F : Type 0} where
  -- The first loop keeps just the probes that run what is wanted.
  pub lookup-stop_stale :
      (id : ℕ) (want live : Map ℕ TargetCfg) (s : Memory F)
      → Keyed live
      → lookup id (stop_stale want live s).0 ≡ kept_of (lookup id live) (lookup id want)
  unfolding stop_stale lookup
  lookup-stop_stale id want [] s k = refl
  lookup-stop_stale id want ((j, cfg) ∷ live) s k =
      let at_key : lookup j want ≡ lookup id want
          → keeps cfg (lookup j want) ≡ keeps cfg (lookup id want) =
        ap (keeps cfg) in
      elim (Bool-cases (j == id)) [
        | inl this ↦
            let same : j ≡ id = eq_of this in
            let alone : lookup id live ≡ none = subst (λ i. lookup i live ≡ none) same k.0 in
            let key = at_key (ap (λ i. lookup i want) same) in
            elim (Bool-cases (keeps cfg (lookup id want))) [
              | inl stays ↦ rw (this, key, stays) (rw this refl)
              | inr stops ↦
                  rw (this, key, stops)
                    (lookup-stop_stale id want live (forget cfg (lookup j want) s) k.1
                      ∙ rw alone refl)
            ]
        | inr other ↦ elim (Bool-cases (keeps cfg (lookup j want))) [
          | inl stays ↦ rw (other, stays) (rw other (lookup-stop_stale id want live s k.1))
          | inr stops ↦
              rw (other, stops) (lookup-stop_stale id want live (forget cfg (lookup j want) s) k.1)
        ]
      ]

module _ (float : Float) (access : ℕ → Access) (rows : List (RoundRow (float.F))) where
  open float use {F}

  abbrev pub begun : ℕ → ℕ → TargetCfg → Option Text → Option TargetCfg → Option TargetCfg
  begun id j t none old = if j == id then some t else old
  begun id j t (some e) old = old

  pub lookup-start_one :
      (id j : ℕ) (t : TargetCfg) (w : World F) (r : Option Text × Memory F × Table)
      → lookup id (start_one float access rows j t w r).live ≡ begun id j t r.0 (lookup id w.live)
  unfolding start_one
  lookup-start_one id j t w (none, memory, table) = lookup-insert j id t w.live
  lookup-start_one id j t w (some e, memory, table) = refl

  pub start_next-some :
      (id j : ℕ) (t cfg : TargetCfg) (w : World F)
      → lookup id w.live ≡ some cfg
      → lookup id (start_next float access rows j t w (lookup j w.live)).live ≡ some cfg
  unfolding start_next
  start_next-some id j t cfg w h = elim (Option-cases (lookup j w.live)) [
    | inr (old, runs) ↦ rw runs h
    | inl idle ↦
        let ensured = ensure_target float (access j) t rows w.memory w.table in
        let after = lookup-start_one id j t w ensured in
        rw idle (elim (Option-cases (ensured.0)) [
          | inr (e, fault) ↦ after ∙ rw fault h
          | inl fine ↦ elim (Bool-cases (j == id)) [
            | inl this ↦ absurd (cc (subst (λ i. lookup i w.live ≡ none) (eq_of this) idle, h))
            | inr other ↦ after ∙ rw fine (rw other h)
          ]
        ])
  ]

  -- The second loop leaves what runs alone.
  pub start_missing-some :
      (id : ℕ) (cfg : TargetCfg) (todo : Map ℕ TargetCfg) (w : World F)
      → lookup id w.live ≡ some cfg
      → lookup id (start_missing float access rows todo w).live ≡ some cfg
  unfolding start_missing
  start_missing-some id cfg [] w h = h
  start_missing-some id cfg ((j, t) ∷ todo) w h =
      start_missing-some id cfg todo (start_next float access rows j t w (lookup j w.live))
        (start_next-some id j t cfg w h)

  start_next_lem :
      (id j : ℕ) (t : TargetCfg) (w : World F)
      → lookup id w.live ≡ none
      → (j ≡ id) × (lookup id (start_next float access rows j t w (lookup j w.live)).live ≡ some t)
        ⊎ (lookup id (start_next float access rows j t w (lookup j w.live)).live ≡ none)
  unfolding start_next
  start_next_lem id j t w h = elim (Option-cases (lookup j w.live)) [
    | inr (old, runs) ↦ rw runs (inr h)
    | inl idle ↦
        let ensured = ensure_target float (access j) t rows w.memory w.table in
        let after = lookup-start_one id j t w ensured in
        rw idle (elim (Option-cases (ensured.0)) [
          | inr (e, fault) ↦ inr (after ∙ rw fault h)
          | inl fine ↦ elim (Bool-cases (j == id)) [
            | inl this ↦ inl (eq_of this, after ∙ rw fine (rw this refl))
            | inr other ↦ inr (after ∙ rw fine (rw other h))
          ]
        ])
  ]

  -- A missing probe is started as it is wanted, or not at all.
  start_missing-none :
      (id : ℕ) (todo : Map ℕ TargetCfg) (w : World F)
      → Keyed todo
      → lookup id w.live ≡ none
      → (lookup id (start_missing float access rows todo w).live ≡ none)
        ⊎ (lookup id (start_missing float access rows todo w).live ≡ lookup id todo)
  unfolding start_missing lookup
  start_missing-none id [] w k h = inl h
  start_missing-none id ((j, t) ∷ todo) w k h =
      let w' = start_next float access rows j t w (lookup j w.live) in
      elim (start_next_lem id j t w h) [
        | inl (same, started) ↦
            let this : (j == id) ≡ true = rw same (eq_refl id) in
            inr (start_missing-some id t todo w' started ∙ rw this refl)
        | inr idle ↦ elim (start_missing-none id todo w' k.1 idle) [
          | inl never ↦ inl never
          | inr later ↦ elim (Bool-cases (j == id)) [
            | inl this ↦ inl (later ∙ subst (λ i. lookup i todo ≡ none) (eq_of this) k.0)
            | inr other ↦ inr (later ∙ rw other refl)
          ]
        ]
      ]

  -- Whatever `EnsureTarget` meets, after `apply` an id is probed with the settings that are wanted,
  -- or, if these have changed, not at all; an id that is not wanted is not probed, and a probe
  -- whose settings have not changed goes on. The maps have one entry for an id, and any order.
  pub apply_wanted_lem :
      (want : Map ℕ TargetCfg) (w : World F) (id : ℕ)
      → Keyed want
      → Keyed w.live
      → (lookup id (apply_wanted float access rows want w).live ≡ lookup id want)
        ⊎ (lookup id (apply_wanted float access rows want w).live ≡ none)
          × (lookup id w.live ≢ lookup id want)
  unfolding apply_wanted
  apply_wanted_lem want w id k l =
      let stopped = stop_stale want w.live w.memory in
      let w' : World F = record w { live = stopped.0; memory = stopped.1 } in
      let kept = lookup-stop_stale id want w.live w.memory l in
      elim (kept_of_lem (lookup id w.live) (lookup id want)) [
        | inl (cfg, wanted, stays) ↦
            inl (start_missing-some id cfg want w' (kept ∙ stays) ∙ sym wanted)
        | inr (stops, why) ↦ elim (start_missing-none id want w' k (kept ∙ stops)) [
          | inr started ↦ inl started
          | inl idle ↦ elim why [
            | inl unwanted ↦ inl (idle ∙ sym unwanted)
            | inr changed ↦ inr (idle, changed)
          ]
        ]
      ]
