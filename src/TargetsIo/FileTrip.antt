-- ===== src/TargetsIo/FileTrip.antt =====
-- A whole exported file is imported again, target by target.
use fogping.Prelude.{
  ℕ, suc, ◌≤◌, ◌≡◌, ◌≢◌, refl, ap, ◌∙◌, inl, inr, Bool, false, none, some, List, [], ◌∷◌, ◌++◌, map,
  Text, codes, arith, text_eq, Bool-cases, All, keep, length, ltb,
}
use fogping.Prelude.Int.{pos}
use fogping.Prelude.Map.{Map, lookup}
use fogping.Prelude.Result.{ok}
use fogping.Config.{TargetCfg, IsNormal}
use fogping.Json.{Json, arr, to_items, from_items}
use fogping.Targets.{active_targets}
use fogping.Targets.Rows.{Row, Table}
use fogping.Targets.Validity.{IsValid, UniqueNames, Lacks, Sound}
use fogping.Targets.Listing.{active_targets_lem}
use fogping.TargetsIo.Rows.{
  to_file_target, encode_row, export_targets, encode_file, targets_format, targets_format_version,
}
use fogping.TargetsIo.Plan.{
  Plan, Head, plan_rows, plan_import, decode_head, decode_version, decode_rows, empty_plan,
  max_import_targets,
}
use fogping.TargetsIo.Grown.{fresh, taken, skipped, as_skipped, rows_of, plan_rows-rows_of}
use fogping.TargetsIo.Planned.{DistinctNames}
use fogping.TargetsIo.RoundTrip.{fresh_id}

from_items-to_items : (vs : List Json) → from_items (to_items vs) ≡ vs
unfolding from_items to_items
from_items-to_items [] = refl
from_items-to_items (v ∷ vs) = ap (◌∷◌ v) (from_items-to_items vs)

rows_of-map : (ts : List TargetCfg) → map encode_row (map to_file_target ts) ≡ rows_of ts
rows_of-map [] = refl
rows_of-map (t ∷ ts) = ap (◌∷◌ (encode_row (to_file_target t))) (rows_of-map ts)

length-rows_of : (ts : List TargetCfg) → length (rows_of ts) ≡ length ts
length-rows_of [] = refl
length-rows_of (t ∷ ts) = ap suc (length-rows_of ts)

-- The name that the server exports under.
abbrev app : Text
app = codes "fogping"

abbrev head_of : List TargetCfg → Text → Head
head_of ts date = record {
  format = targets_format;
  version = some (Json.int (pos targets_format_version));
  name = app ++ codes " targets";
  description = codes "Exported from " ++ app ++ codes " on " ++ date;
  targets = some (arr (to_items (map encode_row (map to_file_target ts))));
  wrong = false;
}

decode_head-export :
    (ts : List TargetCfg) (date : Text)
    → decode_head (some (encode_file (export_targets ts app date))) ≡ ok (head_of ts date)
unfolding decode_head encode_file export_targets
decode_head-export ts date = refl

decode_rows-export :
    (ts : List TargetCfg)
    → decode_rows (some (arr (to_items (map encode_row (map to_file_target ts))))) ≡ ok (rows_of ts)
unfolding decode_rows
decode_rows-export ts =
    ap ok (from_items-to_items (map encode_row (map to_file_target ts)) ∙ rows_of-map ts)

one_is_valid :
    decode_version (some (Json.int (pos targets_format_version))) ≡ ok (pos targets_format_version)
unfolding decode_version
one_is_valid = refl

fits :
    (ts : List TargetCfg)
    → length ts ≤ max_import_targets
    → ltb max_import_targets (length (rows_of ts)) ≡ false
fits ts few = ground (arith, length-rows_of ts)

none_seen : (ts : List TargetCfg) → All (λ (t : TargetCfg). lookup {V = ℕ} t.name [] ≡ none) ts
unfolding lookup
none_seen [] = tt
none_seen (t ∷ ts) = (refl, none_seen ts)

export_accepted :
    (existing : Map Text Bool) (ts : List TargetCfg) (date : Text)
    → length ts ≤ max_import_targets
    → plan_import existing (some (encode_file (export_targets ts (codes "fogping") date)))
      ≡ ok (
          plan_rows existing 0 (rows_of ts) [] (empty_plan (head_of ts date) (length (rows_of ts))))
unfolding plan_import
export_accepted existing ts date few =
    rw (decode_head-export ts date, one_is_valid, decode_rows-export ts, fits ts few)

-- An exported list of at most 500 normal targets with distinct names is planned whole, in order and
-- with all its settings: those whose names no active target has are added, the others skipped.
pub plan_import-export_targets :
    (existing : Map Text Bool) (ts : List TargetCfg) (date : Text)
    → All IsNormal ts
    → DistinctNames ts
    → length ts ≤ max_import_targets
    → (p : Plan) × (plan_import existing
          (some (encode_file (export_targets ts (codes "fogping") date)))
        ≡ ok p)
      × (p.cfgs ≡ map fresh_id (keep (fresh existing) ts))
      × (skipped p.skip ≡ as_skipped (keep (taken existing) ts))
      × (p.invalid ≡ [])
plan_import-export_targets existing ts date n d few =
    let rows = rows_of ts in
    let start = empty_plan (head_of ts date) (length rows) in
    let grown = plan_rows-rows_of existing 0 ts [] start n d (none_seen ts) in
    (
      plan_rows existing 0 rows [] start,
      export_accepted existing ts date few,
      grown.cfgs,
      grown.skip,
      grown.invalid,
    )

-- The active targets of a valid table have what the import asks for.
actives : List Row → List TargetCfg
actives rows = map (λ (r : Row). r.cfg) (keep (λ (r : Row). r.active) rows)

actives-IsNormal : (rows : List Row) → All Sound rows → All IsNormal (actives rows)
unfolding actives
actives-IsNormal [] s = tt
actives-IsNormal (r ∷ rows) s = elim (Bool-cases r.active) [
  | inl active ↦ rw active (s.0 active, actives-IsNormal rows s.1)
  | inr inactive ↦ rw inactive (actives-IsNormal rows s.1)
]

actives-Lacks :
    (name : Text) (rows : List Row)
    → Lacks name rows
    → All (λ (t : TargetCfg). t.name ≢ name) (actives rows)
unfolding actives
actives-Lacks name [] l = tt
actives-Lacks name (r ∷ rows) l = elim (Bool-cases r.active) [
  | inl active ↦ rw active (l.0, actives-Lacks name rows l.1)
  | inr inactive ↦ rw inactive (actives-Lacks name rows l.1)
]

actives-DistinctNames : (rows : List Row) → UniqueNames rows → DistinctNames (actives rows)
unfolding actives
actives-DistinctNames [] u = tt
actives-DistinctNames (r ∷ rows) u = elim (Bool-cases r.active) [
  | inl active ↦ rw active (actives-Lacks r.name rows u.0, actives-DistinctNames rows u.1)
  | inr inactive ↦ rw inactive (actives-DistinctNames rows u.1)
]

-- The file that a server with a valid table of at most 500 active targets exports, read by a server
-- with any names in its table: the plan adds, in the order of creation and with all settings, each
-- target whose name is no active target's there, skips the others since they exist, and refuses
-- none.
pub plan_import-active_targets :
    (existing : Map Text Bool) (table : Table) (date : Text)
    → IsValid table
    → length (active_targets table) ≤ max_import_targets
    → (p : Plan) × (plan_import existing
          (some (encode_file (export_targets (active_targets table) (codes "fogping") date)))
        ≡ ok p)
      × (p.cfgs ≡ map fresh_id (keep (fresh existing) (active_targets table)))
      × (skipped p.skip ≡ as_skipped (keep (taken existing) (active_targets table)))
      × (p.invalid ≡ [])
plan_import-active_targets existing table date v few =
    plan_import-export_targets existing (active_targets table) date
      (rw (active_targets_lem table v) (unfold actives in actives-IsNormal table.rows v.sound))
      (rw (active_targets_lem table v)
        (unfold actives in actives-DistinctNames table.rows v.distinct))
      few
