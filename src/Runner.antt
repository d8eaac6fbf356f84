-- ===== src/Runner.antt =====
-- runner.go: the running probes, by the id of their target, and their diff against the table. Go
-- visits a map in any order; here that is the order of the association list.
pub mod Diff
pub mod Reload
pub mod Names
pub mod Stopped
pub mod Owned
pub mod Stored
pub mod Attributed
pub mod Recorded
pub mod Tests
use fogping.Prelude.{
  ℕ, ◌≡◌, ◌↔◌, Bool, true, false, not, ◌&&◌, ◌||◌, Option, none, some, List, [], ◌∷◌, Text,
  if◌then◌else◌, ◌==◌, Eq, nat_eq, text_eq, text_beq_iff, nat_beq_iff, eq_refl, arith, leb, map,
}
use fogping.Prelude.Int.{int_eq, int_beq_iff}
use fogping.Prelude.Map.{Map, lookup, insert, remove}
use fogping.Config.{TargetCfg}
use fogping.Targets.{active_targets}
use fogping.Targets.Rows.{Table}
use fogping.Float.{Float}
use fogping.Store.{Memory, RoundRow}
use fogping.Store.Live.{remove_target, rename_target}
use fogping.Store.Ensure.{Access, ensure_target}

-- Go's `==` on the struct.
abbrev pub cfg_beq : TargetCfg → TargetCfg → Bool
cfg_beq a b =
    a.id == b.id
    && a.name == b.name
    && a.type == b.type
    && a.host == b.host
    && a.port == b.port
    && a.pace == b.pace
    && a.interval_sec == b.interval_sec

pub cfg_beq_iff : (a b : TargetCfg) → (cfg_beq a b ≡ true) ↔ (a ≡ b)
cfg_beq_iff a b = ground (
  arith,
  nat_beq_iff a.id b.id,
  text_beq_iff a.name b.name,
  text_beq_iff a.type b.type,
  text_beq_iff a.host b.host,
  int_beq_iff a.port b.port,
  text_beq_iff a.pace b.pace,
  int_beq_iff a.interval_sec b.interval_sec,
)

instance abbrev pub cfg_eq : Eq TargetCfg
cfg_eq = record { same = cfg_beq; same_iff = cfg_beq_iff }

-- A running probe is its configuration; to close its channel is to take it off the map.
pub record World (F : Type 0) : Type 0 where
  pub live : Map ℕ TargetCfg
  pub memory : Memory F
  pub table : Table

unfoldable pub wanted : List TargetCfg → Map ℕ TargetCfg → Map ℕ TargetCfg
wanted [] want = want
wanted (t ∷ fresh) want = wanted fresh (insert t.id t want)

unfoldable pub keeps : TargetCfg → Option TargetCfg → Bool
keeps cfg none = false
keeps cfg (some t) = t == cfg

module _ {F : Type 0} where
  -- What becomes of the live state of a probe that is stopped.
  unfoldable pub forget : TargetCfg → Option TargetCfg → Memory F → Memory F
  forget cfg none s = remove_target cfg.name s
  forget cfg (some t) s = if not (t.name == cfg.name) then rename_target cfg.name t.name s else s

  -- The first loop: the probes that go on, and the memory.
  unfoldable pub stop_stale :
      Map ℕ TargetCfg → Map ℕ TargetCfg → Memory F → Map ℕ TargetCfg × Memory F
  stop_stale want [] s = ([], s)
  stop_stale want ((id, cfg) ∷ live) s =
      let goes_on = keeps cfg (lookup id want) in
      let (rest, s') =
        stop_stale want live (if goes_on then s else forget cfg (lookup id want) s) in
      (if goes_on then (id, cfg) ∷ rest else rest, s')

module _ (float : Float) (access : ℕ → Access) (rows : List (RoundRow (float.F))) where
  open float use {F}

  unfoldable pub start_one : ℕ → TargetCfg → World F → Option Text × Memory F × Table → World F
  start_one id t w (none, memory, table) = record {
    live = insert id t w.live;
    memory = memory;
    table = table;
  }
  start_one id t w (some e, memory, table) = record w { memory = memory; table = table }

  unfoldable pub start_next : ℕ → TargetCfg → World F → Option TargetCfg → World F
  unfolding start_one
  start_next id t w (some cfg) = w
  start_next id t w none =
      start_one id t w (ensure_target float (access id) t rows w.memory w.table)

  -- The second loop; `access` is what each `EnsureTarget` meets.
  unfoldable pub start_missing : Map ℕ TargetCfg → World F → World F
  unfolding start_next
  start_missing [] w = w
  start_missing ((id, t) ∷ want) w = start_missing want (start_next id t w (lookup id w.live))

  -- `want` in the order in which the second loop visits it.
  unfoldable pub apply_wanted : Map ℕ TargetCfg → World F → World F
  apply_wanted want w =
      let (going, memory) = stop_stale want w.live w.memory in
      start_missing want (record w { live = going; memory = memory })

  unfoldable pub apply : List TargetCfg → World F → World F
  apply fresh w = apply_wanted (wanted fresh []) w

  -- `fault` is what the query of the active targets meets.
  unfoldable pub reload : Option Text → World F → Option Text × World F
  reload (some e) w = (some e, w)
  reload none w = (none, apply (active_targets w.table) w)

insert_by_id : TargetCfg → List TargetCfg → List TargetCfg
insert_by_id t [] = t ∷ []
insert_by_id t (u ∷ ts) = if leb t.id u.id then t ∷ u ∷ ts else u ∷ insert_by_id t ts

-- `Targets`: what runs, in the order of ids.
unfoldable pub running : Map ℕ TargetCfg → List TargetCfg
unfolding insert_by_id
running [] = []
running ((id, cfg) ∷ live) = insert_by_id cfg (running live)
