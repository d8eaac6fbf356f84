-- ===== src/TargetsIo/Tests.antt =====
-- Runs of targetsio.go on a small file and a small table.
use fogping.Prelude.{
  ◌≤◌, ◌≡◌, ◌≢◌, refl, arith, true, false, Option, none, some, List, [], ◌∷◌, map, Text, text_eq,
  codes, All, length, keep,
}
use mathlib.Core.List.{Perm}
use fogping.Prelude.Map.{lookup, insert}
use fogping.Prelude.Result.{ok}
use fogping.Config.{
  TargetCfg, IsNormal, normalize_target, check_port, trim_fields, bad_host, bad_interval, bad_name,
  check_pace, default_name, target_addr,
}
use fogping.Config.Tests.{site, shop, shop-IsNormal}
use fogping.Targets.Rows.{Table}
use fogping.Targets.{target_names, active_targets, import_targets}
use fogping.Targets.Import.{Created}
use fogping.Targets.Tests.{two, two-IsValid}
use fogping.Json.{Json, arr, to_items, from_items, fold_rune, is_field}
use fogping.Strings.{
  to_lower, trim_space, byte_len, digits, is_control, is_space, itoa, join_host_port, rune_len,
  trim_left, trim_right,
}
use fogping.TargetsIo.Rows.{
  decode_members, decode_member, row_type, row_target, add_int, add_text, named_error,
  to_file_target, encode_row, from_file_row, export_targets, encode_file,
}
use fogping.TargetsIo.Plan.{
  Head, head_members, plan_decoded, Add, exists_in_table, Plan, plan_import, plan_rows, decode_head,
  decode_version, decode_rows, max_import_targets,
}
use fogping.TargetsIo.Planned.{DistinctNames}
use fogping.TargetsIo.Gate.{numbers, range, plan_import-gate}
use fogping.TargetsIo.Applied.{healthy, plan_import_applies}
use fogping.TargetsIo.Serve.{
  Upload, received, working, is_dry_run, planned, Served, serve_import, serve_import-Served,
  serve_import_completes,
}
use fogping.TargetsIo.Grown.{fresh, taken, skipped, as_skipped}
use fogping.TargetsIo.RoundTrip.{from_file_row-to_file_target, fresh_id}
use fogping.TargetsIo.FileTrip.{plan_import-active_targets}

abbrev day : Text
day = codes "2024-01-02"

abbrev body : Option Json
body = some (encode_file (export_targets (site ∷ shop ∷ []) (codes "fogping") day))

-- The site is active in the table, and the shop is known from before.
abbrev plan : Plan
plan = record {
  name = codes "fogping targets";
  description = codes "Exported from fogping on 2024-01-02";
  total = 2;
  add = (record { row = 2; target = to_file_target shop; restores_history = true }) ∷ [];
  skip = (record { row = 1; name = site.name; code = exists_in_table }) ∷ [];
  invalid = [];
  dry_run = false;
  imported = 0;
  cfgs = shop ∷ [];
}

plan-ok : plan_import (target_names two) body ≡ ok plan
unfolding plan_import decode_head encode_file export_targets decode_version decode_rows to_items
    plan_rows from_file_row decode_members to_file_target row_type to_lower trim_space
    normalize_target check_port trim_fields row_target bad_host bad_interval bad_name check_pace
    default_name target_addr fold_rune from_items is_field insert lookup byte_len digits is_control
    is_space itoa join_host_port rune_len trim_left trim_right head_members plan_decoded add_int
    add_text decode_member encode_row named_error target_names
plan-ok = refl

plan_import_applies_example :
    (last : Table) × (import_targets none none (healthy (λ i. 0)) (shop ∷ []) two ≡ (none, last))
    × Created (healthy (λ i. 0)) 0 (shop ∷ []) two last
plan_import_applies_example = plan_import_applies (λ i. 0) two body plan two-IsValid plan-ok

plan_import-gate_example :
    (h : Head) × (rows : List Json) × (decode_head body ≡ ok h)
    × (h.targets ≡ some (arr (to_items rows)))
    × (2 ≡ length rows)
    × (length rows ≤ 500)
    × Perm (numbers plan) (range 1 (length rows))
    × All IsNormal (shop ∷ [])
    × DistinctNames (shop ∷ [])
    × All (λ (t : TargetCfg). lookup t.name (target_names two) ≢ some true) (shop ∷ [])
    × (map (λ (a : Add). a.target) plan.add ≡ map to_file_target (shop ∷ []))
plan_import-gate_example = plan_import-gate (target_names two) body plan plan-ok

from_file_row-to_file_target_example :
    from_file_row (encode_row (to_file_target shop)) ≡ ok (record shop { id = 0 })
from_file_row-to_file_target_example = from_file_row-to_file_target shop shop-IsNormal

few : length (active_targets two) ≤ max_import_targets
unfolding active_targets
few = omega arith

plan_import-active_targets_example :
    (p : Plan) × (plan_import
        (target_names two)
        (some (encode_file (export_targets (active_targets two) (codes "fogping") day)))
      ≡ ok p)
    × (p.cfgs ≡ map fresh_id (keep (fresh (target_names two)) (active_targets two)))
    × (skipped p.skip ≡ as_skipped (keep (taken (target_names two)) (active_targets two)))
    × (p.invalid ≡ [])
plan_import-active_targets_example =
    plan_import-active_targets (target_names two) two day two-IsValid few

abbrev upload : Upload
upload = record { media = codes "application/json"; body = received 900 body; dry_run = codes "0" }

serve_import-Served_example :
    Served (working (λ i. 0)) two two body (serve_import (working (λ i. 0)) upload two two)
serve_import-Served_example = serve_import-Served (working (λ i. 0)) upload two two

real_run : is_dry_run upload.dry_run ≡ false
unfolding is_dry_run to_lower
real_run = refl

serve_import_completes_example :
    (serve_import (working (λ i. 0)) upload two two).0 ≡ planned (record plan { imported = 1 })
serve_import_completes_example =
    serve_import_completes (λ i. 0) upload two 900 body plan two-IsValid refl refl (omega arith)
      real_run plan-ok
