-- ===== src/Runner/Recorded.antt =====
-- What `apply` of runner.go leaves in the memory of store.go for the probes that run.
use fogping.Prelude.{
  ℕ, ◌≡◌, ◌≢◌, refl, sym, subst, ◌∙◌, inl, inr, true, false, Option, none, some, List, [], ◌∷◌,
  Text, ◌==◌, nat_eq, text_eq, arith, Bool-cases,
}
use fogping.Prelude.Map.{Map, lookup}
use fogping.Config.{TargetCfg}
use fogping.Float.{Float}
use fogping.Targets.{active_targets}
use fogping.Targets.Rows.{Table}
use fogping.Targets.Validity.{IsValid}
use fogping.Store.{Memory, RoundRow}
use fogping.Store.Known.{
  Known, remove_target-Known, rename_target-Known, Grown, ensure_target-Grown,
}
use fogping.Store.Ensure.{Access, ensure_target}
use fogping.Runner.{
  World, cfg_eq, keeps, forget, stop_stale, start_one, start_next, start_missing, apply_wanted,
  apply, wanted, reload,
}
use fogping.Runner.Diff.{Keyed, lookup-stop_stale, lookup-start_one, apply_wanted_lem}
use fogping.Runner.Names.{Apart, wanted-Apart, lookup-tail, lookup-head, kept_of-some}
use fogping.Runner.Reload.{wanted-Keyed}

module _ {F : Type 0} where
  -- Every probe that runs is of a name that the store knows.
  abbrev pub IsRecorded : Map ℕ TargetCfg → Memory F → Type 0
  IsRecorded live s = (id : ℕ) (cfg : TargetCfg) → lookup id live ≡ some cfg → Known cfg.name s

  forget-Known :
      (cfg : TargetCfg) (want : Option TargetCfg) (name : Text) (s : Memory F)
      → cfg.name ≢ name
      → Known name s
      → Known name (forget cfg want s)
  unfolding forget
  forget-Known cfg none name s apart known = remove_target-Known cfg.name name s apart known
  forget-Known cfg (some t) name s apart known = elim (Bool-cases (t.name == cfg.name)) [
    | inl same ↦ rw same known
    | inr other ↦ rw other (rename_target-Known cfg.name t.name name s apart known)
  ]

  -- The first loop forgets only the names of probes that it stops.
  stop_stale-Known :
      (name : Text) (want live : Map ℕ TargetCfg) (s : Memory F)
      → Keyed live
      → ((j : ℕ) (cfg : TargetCfg)
          → lookup j live ≡ some cfg
          → keeps cfg (lookup j want) ≡ false
          → cfg.name ≢ name)
      → Known name s
      → Known name (stop_stale want live s).1
  unfolding stop_stale
  stop_stale-Known name want [] s k others known = known
  stop_stale-Known name want ((id, cfg) ∷ live) s k others known =
      let rest : (j : ℕ) (t : TargetCfg)
          → lookup j live ≡ some t
          → keeps t (lookup j want) ≡ false
          → t.name ≢ name =
        λ j t h. others j t (lookup-tail j id cfg t live k.0 h) in
      elim (Bool-cases (keeps cfg (lookup id want))) [
        | inl stays ↦ rw stays (stop_stale-Known name want live s k.1 rest known)
        | inr stops ↦ rw stops (
            stop_stale-Known name want live (forget cfg (lookup id want) s) k.1 rest (
              forget-Known cfg (lookup id want) name s
                (others id cfg (lookup-head id cfg live) stops) known))
      ]

  stop_stale-IsRecorded :
      (want live : Map ℕ TargetCfg) (s : Memory F)
      → Keyed live
      → Apart live
      → IsRecorded live s
      → IsRecorded (stop_stale want live s).0 (stop_stale want live s).1
  stop_stale-IsRecorded want live s k apart known id cfg h =
      let (runs, stays) =
        kept_of-some (lookup id live) (lookup id want) cfg
          (sym (lookup-stop_stale id want live s k) ∙ h) in
      stop_stale-Known cfg.name want live s k
        (λ j t at stops same.
          let key : j ≡ id = apart j id t cfg at runs same in
          let own : lookup id live ≡ some t = subst (λ i. lookup i live ≡ some t) key at in
          let cfg_t : cfg ≡ t = cc (runs, own) in
          let kept : keeps t (lookup id want) ≡ true =
            subst (λ x. keeps x (lookup id want) ≡ true) cfg_t stays in
          let lost : keeps t (lookup id want) ≡ false =
            subst (λ i. keeps t (lookup i want) ≡ false) key stops in
          let no : true ≡ false = sym kept ∙ lost in absurd (cc no))
        (known id cfg runs)

module _ (float : Float) (access : ℕ → Access) (rows : List (RoundRow (float.F))) where
  open float use {F}

  start_one-IsRecorded :
      (id : ℕ) (t : TargetCfg) (w : World F) (r : Option Text × Memory F × Table)
      → Grown float t.name w.memory r
      → IsRecorded w.live w.memory
      → IsRecorded
          (start_one float access rows id t w r).live
          (start_one float access rows id t w r).memory
  start_one-IsRecorded id t w (none, memory, table) grown known j cfg h =
      let at = sym (lookup-start_one float access rows j id t w (none, memory, table)) ∙ h in
      unfold start_one in
      elim (Bool-cases (id == j)) [
        | inl this ↦
            let same : t ≡ cfg = ground (arith, this, at) in
            subst (λ (x : TargetCfg). Known x.name memory) same (grown.1 refl)
        | inr other ↦ grown.0 cfg.name (known j cfg (ground (arith, other, at)))
      ]
  start_one-IsRecorded id t w (some e, memory, table) grown known j cfg h =
      unfold start_one in grown.0 cfg.name (known j cfg (unfold start_one in h))

  start_next-IsRecorded :
      (id : ℕ) (t : TargetCfg) (w : World F) (runs : Option TargetCfg)
      → IsRecorded w.live w.memory
      → IsRecorded
          (start_next float access rows id t w runs).live
          (start_next float access rows id t w runs).memory
  unfolding start_next
  start_next-IsRecorded id t w (some cfg) known = known
  start_next-IsRecorded id t w none known =
      start_one-IsRecorded id t w (ensure_target float (access id) t rows w.memory w.table)
        (ensure_target-Grown float (access id) t rows w.memory w.table) known

  start_missing-IsRecorded :
      (todo : Map ℕ TargetCfg) (w : World F)
      → IsRecorded w.live w.memory
      → IsRecorded
          (start_missing float access rows todo w).live
          (start_missing float access rows todo w).memory
  unfolding start_missing
  start_missing-IsRecorded [] w known = known
  start_missing-IsRecorded ((id, t) ∷ todo) w known =
      start_missing-IsRecorded todo (start_next float access rows id t w (lookup id w.live))
        (start_next-IsRecorded id t w (lookup id w.live) known)

  pub reload-IsRecorded :
      (fault : Option Text) (w : World F)
      → Keyed w.live
      → Apart w.live
      → IsRecorded w.live w.memory
      → IsRecorded
          (reload float access rows fault w).1.live
          (reload float access rows fault w).1.memory
  unfolding reload apply apply_wanted
  reload-IsRecorded (some e) w k apart known = known
  reload-IsRecorded none w k apart known =
      let want = wanted (active_targets w.table) [] in
      let stopped = stop_stale want w.live w.memory in
      start_missing-IsRecorded want (record w { live = stopped.0; memory = stopped.1 })
        (stop_stale-IsRecorded want w.live w.memory k apart known)

  reload-wanted :
      (w : World F) (id : ℕ) (cfg : TargetCfg)
      → Keyed w.live
      → lookup id (reload float access rows none w).1.live ≡ some cfg
      → lookup id (wanted (active_targets w.table) []) ≡ some cfg
  unfolding reload apply
  reload-wanted w id cfg k h =
      let want = wanted (active_targets w.table) [] in
      elim (apply_wanted_lem float access rows want w id
        (wanted-Keyed (active_targets w.table) [] tt) k) [
          | inl as_wanted ↦ sym as_wanted ∙ h
          | inr (idle, changed) ↦ absurd (cc (idle, h))
        ]

  pub reload-Apart :
      (fault : Option Text) (w : World F)
      → IsValid w.table
      → Keyed w.live
      → Apart w.live
      → Apart (reload float access rows fault w).1.live
  reload-Apart (some e) w v k apart = unfold reload in apart
  reload-Apart none w v k apart = λ i j a b p q.
      wanted-Apart w.table v i j a b (reload-wanted w i a k p) (reload-wanted w j b k q)
