-- ===== src/Runner/Reload.antt =====
-- What runs after `Reload` of runner.go, against the table.
use fogping.Prelude.{
  ℕ, ◌≡◌, ◌≤◌, refl, sym, subst, ◌∙◌, inl, inr, false, Option, none, some, List, [], ◌∷◌, map, keep,
  if◌then◌else◌, ◌==◌, eq_of, nat_eq, nat_beq_iff, arith, text_eq, Bool-cases, Option-cases,
}
use fogping.Prelude.Map.{Map, lookup, insert, lookup-insert}
use fogping.Config.{TargetCfg}
use fogping.Targets.{active_targets}
use fogping.Targets.Rows.{Row, Table, find, find_id}
use fogping.Targets.Validity.{IsValid, Ascends}
use fogping.Targets.Listing.{active_targets_lem}
use fogping.Float.{Float}
use fogping.Store.{Memory, RoundRow}
use fogping.Store.Ensure.{Access, ensure_target}
use fogping.Runner.{
  World, cfg_eq, wanted, stop_stale, start_next, start_missing, apply_wanted, apply, reload,
}
use fogping.Runner.Diff.{
  Keyed, lookup-stop_stale, kept_of_lem, start_missing-some, lookup-start_one,
}

pub Keyed-insert : (k : ℕ) (t : TargetCfg) (m : Map ℕ TargetCfg) → Keyed m → Keyed (insert k t m)
unfolding insert
Keyed-insert k t [] h = (unfold lookup in refl, tt)
Keyed-insert k t ((j, u) ∷ m) h = elim (Bool-cases (j == k)) [
  | inl this ↦ rw this (subst (λ i. lookup i m ≡ none) (eq_of this) h.0, h.1)
  | inr other ↦
      let apart : (k == j) ≡ false = ground (arith, nat_beq_iff k j, nat_beq_iff j k) in
      rw other (lookup-insert k j t m ∙ rw apart h.0, Keyed-insert k t m h.1)
]

pub wanted-Keyed :
    (fresh : List TargetCfg) (want : Map ℕ TargetCfg) → Keyed want → Keyed (wanted fresh want)
unfolding wanted
wanted-Keyed [] want k = k
wanted-Keyed (t ∷ fresh) want k =
    wanted-Keyed fresh (insert t.id t want) (Keyed-insert t.id t want k)

-- The configuration of an active row.
abbrev pub active_cfg : Option Row → Option TargetCfg → Option TargetCfg
active_cfg none other = other
active_cfg (some row) other = if row.active then some row.cfg else other

find_id-Ascends :
    (id lo hi : ℕ) (rows : List Row) → Ascends lo rows hi → id ≤ lo → find_id id rows ≡ none
unfolding find_id
find_id-Ascends id lo hi [] a h = refl
find_id-Ascends id lo hi (r ∷ rows) a h =
    ground (arith, nat_beq_iff r.id id, find_id-Ascends id r.id hi rows a.1)

lookup-wanted :
    (id lo hi : ℕ) (rows : List Row) (want : Map ℕ TargetCfg)
    → Ascends lo rows hi
    → lookup id (wanted (map (λ (r : Row). r.cfg) (keep (λ (r : Row). r.active) rows)) want)
      ≡ active_cfg (find_id id rows) (lookup id want)
unfolding wanted find_id
lookup-wanted id lo hi [] want a = refl
lookup-wanted id lo hi (r ∷ rows) want a =
    let later : r.id ≡ id → find_id id rows ≡ none =
      λ e. find_id-Ascends id r.id hi rows a.1 (omega (arith, e)) in
    elim (Bool-cases r.active) [
      | inl active ↦ elim (Bool-cases (r.id == id)) [
        | inl this ↦
            rw (active, this)
              (lookup-wanted id r.id hi rows (insert r.id r.cfg want) a.1
                ∙ rw (later (eq_of this), lookup-insert r.id id r.cfg want, this) refl)
        | inr other ↦
            rw (active, other)
              (lookup-wanted id r.id hi rows (insert r.id r.cfg want) a.1
                ∙ rw (lookup-insert r.id id r.cfg want, other) refl)
      ]
      | inr inactive ↦ elim (Bool-cases (r.id == id)) [
        | inl this ↦
            rw (inactive, this)
              (lookup-wanted id r.id hi rows want a.1 ∙ rw (later (eq_of this)) refl)
        | inr other ↦ rw (inactive, other) (lookup-wanted id r.id hi rows want a.1)
      ]
    ]

pub lookup-active_targets :
    (id : ℕ) (table : Table)
    → IsValid table
    → lookup id (wanted (active_targets table) []) ≡ active_cfg (find_id id table.rows) none
lookup-active_targets id table v =
    rw (active_targets_lem table v)
      (lookup-wanted id 0 table.seq table.rows [] v.ordered ∙ unfold lookup in refl)

-- No statement of an `EnsureTarget` fails.
abbrev pub Works : (ℕ → Access) → Type 0
Works access = (id : ℕ) → ((access id).select ≡ none) × ((access id).insertion ≡ none)

module _ (float : Float) (access : ℕ → Access) (rows : List (RoundRow (float.F))) where
  open float use {F}

  ensure_target-none :
      (a : Access) (t : TargetCfg) (s : Memory F) (table : Table)
      → a.select ≡ none
      → a.insertion ≡ none
      → (ensure_target float a t rows s table).0 ≡ none
  unfolding ensure_target
  ensure_target-none a t s table selects inserts = elim (Option-cases (lookup t.name s.ids)) [
    | inr (id, live) ↦ rw (live, ensure_target) refl
    | inl absent ↦ elim (Option-cases (find t.name table.rows)) [
      | inr (row, known) ↦ rw (absent, selects, known, ensure_target) refl
      | inl fresh ↦ rw (absent, selects, fresh, inserts, ensure_target) refl
    ]
  ]

  start_next-Works :
      (id j : ℕ) (t : TargetCfg) (w : World F)
      → Works access
      → lookup id w.live ≡ none
      → lookup id (start_next float access rows j t w (lookup j w.live)).live
        ≡ (if j == id then some t else none)
  unfolding start_next
  start_next-Works id j t w works h = elim (Option-cases (lookup j w.live)) [
    | inr (old, runs) ↦ elim (Bool-cases (j == id)) [
      | inl this ↦ absurd (cc (subst (λ i. lookup i w.live ≡ some old) (eq_of this) runs, h))
      | inr other ↦ rw (runs, other) h
    ]
    | inl idle ↦
        let ensured = ensure_target float (access j) t rows w.memory w.table in
        let fine = ensure_target-none (access j) t w.memory w.table (works j).0 (works j).1 in
        rw idle (lookup-start_one float access rows id j t w ensured ∙ rw (fine, h) refl)
  ]

  start_missing-Works :
      (id : ℕ) (todo : Map ℕ TargetCfg) (w : World F)
      → Works access
      → Keyed todo
      → lookup id w.live ≡ none
      → lookup id (start_missing float access rows todo w).live ≡ lookup id todo
  unfolding start_missing lookup
  start_missing-Works id [] w works k h = h
  start_missing-Works id ((j, t) ∷ todo) w works k h =
      let w' = start_next float access rows j t w (lookup j w.live) in
      let next = start_next-Works id j t w works h in
      elim (Bool-cases (j == id)) [
        | inl this ↦
            start_missing-some float access rows id t todo w' (next ∙ rw this refl) ∙ rw this refl
        | inr other ↦
            start_missing-Works id todo w' works k.1 (next ∙ rw other refl) ∙ rw other refl
      ]

  pub apply_wanted-Works :
      (want : Map ℕ TargetCfg) (w : World F) (id : ℕ)
      → Works access
      → Keyed want
      → Keyed w.live
      → lookup id (apply_wanted float access rows want w).live ≡ lookup id want
  unfolding apply_wanted
  apply_wanted-Works want w id works k l =
      let stopped = stop_stale want w.live w.memory in
      let w' : World F = record w { live = stopped.0; memory = stopped.1 } in
      let kept = lookup-stop_stale id want w.live w.memory l in
      elim (kept_of_lem (lookup id w.live) (lookup id want)) [
        | inl (cfg, wanted, stays) ↦
            start_missing-some float access rows id cfg want w' (kept ∙ stays) ∙ sym wanted
        | inr (stops, why) ↦ start_missing-Works id want w' works k (kept ∙ stops)
      ]

  -- After a `Reload` of a valid table in which no statement fails, just the active rows of the
  -- table are probed, each with its settings, if the probes before had one entry for an id;
  -- whatever probes ran before, and in whatever order the first loop visits them.
  pub reload_runs_active :
      (w : World F) (id : ℕ)
      → Works access
      → IsValid w.table
      → Keyed w.live
      → ((reload float access rows none w).0 ≡ none)
        × (lookup id (reload float access rows none w).1.live
            ≡ active_cfg (find_id id w.table.rows) none)
  unfolding reload apply
  reload_runs_active w id works v l =
      let fresh = active_targets w.table in
      (
        refl,
        apply_wanted-Works (wanted fresh []) w id works (wanted-Keyed fresh [] tt) l
            ∙ lookup-active_targets id w.table v,
      )
