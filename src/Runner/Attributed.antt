-- ===== src/Runner/Attributed.antt =====
-- The ids under which store.go knows the names of the probes after `Reload` of runner.go.
use fogping.Prelude.{
  ℕ, ◌≡◌, ◌≢◌, refl, sym, subst, ap, ◌∙◌, inl, inr, Option, none, some, List, [], ◌∷◌, Text, ◌==◌,
  nat_eq, text_eq, eq_of, ne_of, arith, Bool-cases, Option-cases,
}
use fogping.Prelude.Map.{Map, lookup, lookup-insert}
use fogping.Config.{TargetCfg}
use fogping.Float.{Float}
use fogping.Targets.{active_targets}
use fogping.Targets.Rows.{Table, find}
use fogping.Targets.Validity.{IsValid}
use fogping.Store.{Memory, RoundRow}
use fogping.Store.Known.{JoinsAs, ensure_target-JoinsAs}
use fogping.Store.Ensure.{Access, ensure_target}
use fogping.Runner.{
  World, start_one, start_next, start_missing, stop_stale, apply_wanted, apply, wanted, reload,
}
use fogping.Runner.Diff.{Keyed, lookup-stop_stale}
use fogping.Runner.Reload.{wanted-Keyed}
use fogping.Runner.Names.{Apart, wanted-Apart, kept_of-some, lookup-tail, lookup-head}
use fogping.Runner.Stored.{Stored, wanted-Stored}
use fogping.Runner.Stopped.{Entry, Entry-cons, Owned, Only, Ready}
use fogping.Runner.Owned.{stop_stale_lem, keeps-some}

module _ {F : Type 0} (want : Map ℕ TargetCfg) (table : Table) where
  -- What holds between two steps of the second loop.
  record Going (todo : Map ℕ TargetCfg) (w : World F) : Type 0 where
    owned : Owned w.live w.memory
    only : Only want w.memory
    within : (id : ℕ) (t : TargetCfg) → lookup id w.live ≡ some t → lookup id want ≡ some t
    same : w.table ≡ table
    pending :
        (name : Text) (k : ℕ)
        → lookup name w.memory.ids ≡ some k
        → lookup k w.live ≡ none
        → Entry todo k name

  Going-skip :
      (j : ℕ) (t old : TargetCfg) (todo : Map ℕ TargetCfg) (w : World F)
      → lookup j w.live ≡ some old
      → Going ((j, t) ∷ todo) w
      → Going todo w
  Going-skip j t old todo w runs g = record {
    owned = g.owned;
    only = g.only;
    within = g.within;
    same = g.same;
    pending = λ name k h idle. elim (Entry-cons j k t name todo (g.pending name k h idle)) [
      | inr later ↦ later
      | inl (key, named) ↦
          let no : lookup k w.live ≡ some old = subst (λ i. lookup i w.live ≡ some old) key runs in
          absurd (cc (no, idle))
    ];
  }

module _ (float : Float) (access : ℕ → Access) (rows : List (RoundRow (float.F)))
    (want : Map ℕ TargetCfg) (table : Table) where
  open float use {F}

  start_one-Going :
      (j : ℕ) (t : TargetCfg) (todo : Map ℕ TargetCfg) (w : World F)
      (r : Option Text × Memory F × Table)
      → lookup j want ≡ some t
      → lookup j w.live ≡ none
      → JoinsAs float t.name j w.memory w.table r
      → Going want table ((j, t) ∷ todo) w
      → Going want table todo (start_one float access rows j t w r)
  unfolding start_one
  start_one-Going j t todo w (none, memory, after) wants idle joins g =
      let live = λ (i : ℕ). lookup-insert j i t w.live in
      record {
        owned = λ id cfg h. elim (Bool-cases (j == id)) [
          | inl this ↦
              let cfg_t : t ≡ cfg = ground (arith, live id, this, h) in
              subst (λ (c : TargetCfg). lookup c.name memory.ids ≡ some id) cfg_t
                (joins.owned refl ∙ ap some (eq_of this))
          | inr other ↦ joins.forth cfg.name id (g.owned id cfg (ground (arith, live id, other, h)))
        ];
        only = λ name k h. elim (joins.back name k h) [
          | inl before ↦ g.only name k before
          | inr (named, key, fine) ↦ (t, subst (λ i. lookup i want ≡ some t) key wants, named)
        ];
        within = λ id cfg h. elim (Bool-cases (j == id)) [
          | inl this ↦
              let at : lookup id want ≡ some t =
                subst (λ i. lookup i want ≡ some t) (eq_of this) wants in
              ground (arith, live id, this, h, at)
          | inr other ↦ g.within id cfg (ground (arith, live id, other, h))
        ];
        same = joins.same ∙ g.same;
        pending = λ name k h out. elim (Bool-cases (j == k)) [
          | inl this ↦ absurd (ground (arith, live k, this, out))
          | inr other ↦
              let before : lookup k w.live ≡ none = ground (arith, live k, other, out) in
              let apart : j ≢ k = ne_of other in
              elim (joins.back name k h) [
                | inr (named, key, fine) ↦ absurd (apart key)
                | inl known ↦ elim (Entry-cons j k t name todo (g.pending name k known before)) [
                  | inr later ↦ later
                  | inl (key, named) ↦ absurd (apart key)
                ]
              ]
        ];
      }
  start_one-Going j t todo w (some e, memory, after) wants idle joins g = record {
    owned = λ id cfg h. joins.forth cfg.name id (g.owned id cfg h);
    only = λ name k h. elim (joins.back name k h) [
      | inl before ↦ g.only name k before
      | inr (named, key, fine) ↦ absurd (cc fine)
    ];
    within = g.within;
    same = joins.same ∙ g.same;
    pending = λ name k h out. elim (joins.back name k h) [
      | inr (named, key, fine) ↦ absurd (cc fine)
      | inl known ↦ elim (Entry-cons j k t name todo (g.pending name k known out)) [
        | inr later ↦ later
        | inl (key, named) ↦
            let own : lookup t.name w.memory.ids ≡ some j =
              ap (λ n. lookup n w.memory.ids) named ∙ known ∙ ap some (sym key) in
            absurd (cc (joins.sure own))
      ]
    ];
  }

  start_next-Going :
      (j : ℕ) (t : TargetCfg) (todo : Map ℕ TargetCfg) (w : World F)
      → Apart want
      → Stored want table
      → lookup j want ≡ some t
      → Going want table ((j, t) ∷ todo) w
      → Going want table todo (start_next float access rows j t w (lookup j w.live))
  unfolding start_next
  start_next-Going j t todo w apart stored wants g = elim (Option-cases (lookup j w.live)) [
    | inr (old, runs) ↦ rw runs (Going-skip want table j t old todo w runs g)
    | inl idle ↦
        let (row, found, key) = stored j t wants in
        let found' : find t.name w.table.rows ≡ some row =
          subst (λ (x : Table). find t.name x.rows ≡ some row) (sym g.same) found in
        let right : (k : ℕ) → lookup t.name w.memory.ids ≡ some k → k ≡ row.id = λ k known.
          let (c, at, named) = g.only t.name k known in apart k j c t at wants named ∙ sym key in
        let joins =
          ensure_target-JoinsAs float (access j) t rows w.memory w.table row found' right in
        rw idle (
          start_one-Going j t todo w (ensure_target float (access j) t rows w.memory w.table) wants
            idle
            (subst
              (λ i.
                JoinsAs float t.name i w.memory w.table
                  (ensure_target float (access j) t rows w.memory w.table))
              key joins)
            g)
  ]

  start_missing-Going :
      (todo : Map ℕ TargetCfg) (w : World F)
      → Apart want
      → Stored want table
      → Keyed todo
      → ((j : ℕ) (t : TargetCfg) → lookup j todo ≡ some t → lookup j want ≡ some t)
      → Going want table todo w
      → Going want table [] (start_missing float access rows todo w)
  unfolding start_missing
  start_missing-Going [] w apart stored k part g = g
  start_missing-Going ((j, t) ∷ todo) w apart stored k part g =
      start_missing-Going todo (start_next float access rows j t w (lookup j w.live)) apart stored
        k.1 (λ i u h. part i u (lookup-tail i j t u todo k.0 h))
        (start_next-Going j t todo w apart stored (part j t (lookup-head j t todo)) g)

  Going-Only : (w : World F) → Going want table [] w → Only w.live w.memory
  unfolding lookup
  Going-Only w g name k h =
      let (t, wants, named) = g.only name k h in
      elim (Option-cases (lookup k w.live)) [
        | inr (c, runs) ↦
            let same : c ≡ t = cc (g.within k c runs, wants) in
            (c, runs, ap (λ (x : TargetCfg). x.name) same ∙ named)
        | inl idle ↦ let (c, never, other) = g.pending name k h idle in absurd (cc never)
      ]

module _ (float : Float) (access : ℕ → Access) (rows : List (RoundRow (float.F))) where
  open float use {F}

  stopped-Going :
      (w : World F)
      → Ready (wanted (active_targets w.table) []) w.live w.memory
      → Only w.live w.memory
      → let want = wanted (active_targets w.table) [] in
        let stopped = stop_stale want w.live w.memory in
        Going want w.table want (record w { live = stopped.0; memory = stopped.1 })
  stopped-Going w ready only =
      let want = wanted (active_targets w.table) [] in
      let (owned, wants) = stop_stale_lem want w.live w.memory ready only in
      record {
        owned = owned;
        only = wants;
        within = λ id t h.
            let (runs, stays) =
              kept_of-some (lookup id w.live) (lookup id want) t
                (sym (lookup-stop_stale id want w.live w.memory ready.keyed) ∙ h) in
            keeps-some t (lookup id want) stays;
        same = refl;
        pending = λ name k h idle. wants name k h;
      }

  -- Whatever a `Reload` meets: if the table is valid, the probes have one entry for an id and
  -- different names, the store knows just their names, each under the id of its probe, and no probe
  -- is renamed to the name of one that runs, then afterwards too the store knows just the names of
  -- the probes, each under the id of its probe.
  pub reload-Owned :
      (fault : Option Text) (w : World F)
      → IsValid w.table
      → Ready (wanted (active_targets w.table) []) w.live w.memory
      → Only w.live w.memory
      → Owned (reload float access rows fault w).1.live (reload float access rows fault w).1.memory
        × Only (reload float access rows fault w).1.live (reload float access rows fault w).1.memory
  unfolding reload apply apply_wanted
  reload-Owned (some e) w v ready only = (ready.owned, only)
  reload-Owned none w v ready only =
      let want = wanted (active_targets w.table) [] in
      let stopped = stop_stale want w.live w.memory in
      let begun : World F = record w { live = stopped.0; memory = stopped.1 } in
      let done =
        start_missing-Going float access rows want w.table want begun (wanted-Apart w.table v)
          (wanted-Stored w.table v) (wanted-Keyed (active_targets w.table) [] tt) (λ j t h. h)
          (stopped-Going w ready only) in
      (
        done.owned,
        Going-Only float access rows want w.table (start_missing float access rows want begun) done,
      )
