-- ===== src/TargetsIo/Rows.antt =====
-- The rows of a target list: `fileTarget`, `toFileTarget`, `fromFileRow` and `exportTargets`.
use fogping.Prelude.{
  ℕ, ◌||◌, Option, none, some, List, [], ◌++◌, map, Text, codes, if◌then◌else◌, ◌==◌, text_eq,
}
use fogping.Prelude.Int.{ℤ, pos, int_eq}
use fogping.Prelude.Result.{Result, ok, err}
use fogping.Strings.{trim_space, to_lower}
use fogping.Config.{TargetCfg, TargetError, icmp, tcp, normal, normalize_target}
use fogping.Json.{Json, null, int, str, arr, obj, Members, end, member, is_field, to_items}

pub record FileTarget : Type 0 where
  pub name : Text
  pub type : Text
  pub host : Text
  pub port : ℤ
  pub pace : Text
  pub interval : ℤ

abbrev pub ping : Text
ping = codes "ping"

unfoldable pub to_file_target : TargetCfg → FileTarget
to_file_target t = record {
  name = t.name;
  type = if t.type == tcp then tcp else ping;
  host = t.host;
  port = if t.type == tcp then t.port else pos 0;
  pace = if t.pace == [] then normal else t.pace;
  interval = t.interval_sec;
}

-- The members of the JSON tags: `name`, `port`, `pace` and `interval` are left out when empty.
unfoldable pub add_text : Text → Text → Members → Members
add_text key value rest = if value == [] then rest else member key (str value) rest

unfoldable pub add_int : Text → ℤ → Members → Members
add_int key value rest = if value == pos 0 then rest else member key (int value) rest

unfoldable pub encode_row : FileTarget → Json
unfolding add_text add_int
encode_row f = obj (
    add_text (codes "name") f.name (
      member (codes "type") (str f.type) (
        member (codes "host") (str f.host) (
          add_int (codes "port") f.port
            (add_text (codes "pace") f.pace (add_int (codes "interval") f.interval end))))))

-- What makes a row invalid. A value of a wrong type is kept with the field that it was meant for.
pub data RowError : Type 0 where
  not_object type_required : RowError
  wrong_type : Text → Json → RowError
  unknown_file_type : Text → RowError
  invalid : TargetError → RowError

-- The struct as decoded so far, and the first error; decoding goes on after an error.
pub record Decoded : Type 0 where
  pub row : FileTarget
  pub failure : Option RowError

first : Option RowError → RowError → Option RowError
first none e = some e
first (some e) _ = some e

set_text : Text → (Text → FileTarget) → Json → Decoded → Decoded
unfolding first
set_text field put null d = d
set_text field put (str s) d = record d { row = put s }
set_text field put value d = record d { failure = first d.failure (wrong_type field value) }

set_int : Text → (ℤ → FileTarget) → Json → Decoded → Decoded
unfolding first
set_int field put null d = d
set_int field put (int i) d = record d { row = put i }
set_int field put value d = record d { failure = first d.failure (wrong_type field value) }

unfoldable pub decode_member : Text → Json → Decoded → Decoded
unfolding set_text set_int is_field
decode_member key value d =
    let f = d.row in
    if is_field (codes "name") key
    then set_text (codes "name") (λ s. record f { name = s }) value d
    else if is_field (codes "type") key
    then set_text (codes "type") (λ s. record f { type = s }) value d
    else if is_field (codes "host") key
    then set_text (codes "host") (λ s. record f { host = s }) value d
    else if is_field (codes "port") key
    then set_int (codes "port") (λ i. record f { port = i }) value d
    else if is_field (codes "pace") key
    then set_text (codes "pace") (λ s. record f { pace = s }) value d
    else if is_field (codes "interval") key
    then set_int (codes "interval") (λ i. record f { interval = i }) value d
    else d

unfoldable pub decode_members : Members → Decoded → Decoded
unfolding decode_member
decode_members end d = d
decode_members (member key value rest) d = decode_members rest (decode_member key value d)

abbrev pub empty_row : Decoded
empty_row = record {
  row = record { name = []; type = []; host = []; port = pos 0; pace = []; interval = pos 0 };
  failure = none;
}

-- The switch on the type of the file, and the validation of the editor.
unfoldable pub row_target : Text → FileTarget → TargetCfg
row_target type f = record {
  id = 0;
  name = f.name;
  type = type;
  host = f.host;
  port = f.port;
  pace = f.pace;
  interval_sec = f.interval;
}

unfoldable pub row_type : Text → Result RowError Text
row_type given =
    let type = to_lower (trim_space given) in
    if type == ping || type == icmp
    then ok icmp
    else if type == tcp
    then ok tcp
    else if type == []
    then err type_required
    else err (unknown_file_type given)

unfoldable pub named_error :
    Text → Result TargetError TargetCfg → Result (Text × RowError) TargetCfg
named_error name (ok t) = ok t
named_error name (err e) = err (name, invalid e)

typed_row : Text → FileTarget → Result RowError Text → Result (Text × RowError) TargetCfg
unfolding named_error
typed_row name f (err e) = err (name, e)
typed_row name f (ok type) = named_error name (normalize_target (row_target type f))

decoded_row : Text → Decoded → Result (Text × RowError) TargetCfg
unfolding typed_row
decoded_row name d = elim d.failure [
  | some e ↦ err (name, e)
  | none ↦ typed_row name d.row (row_type d.row.type)
]

-- A target, or the row's trimmed name with what is wrong. Only an object opens with a brace.
unfoldable pub from_file_row : Json → Result (Text × RowError) TargetCfg
unfolding decoded_row
from_file_row (obj members) =
    let d = decode_members members empty_row in decoded_row (trim_space d.row.name) d
from_file_row other = err ([], not_object)

pub record TargetsFile : Type 0 where
  pub format : Text
  pub version : ℤ
  pub name : Text
  pub description : Text
  pub targets : List FileTarget

abbrev pub targets_format : Text
targets_format = codes "netping-targets"

abbrev pub targets_format_version : ℕ
targets_format_version = 1

-- `date` is the day of the export, as `now.Format("2006-01-02")` writes it.
unfoldable pub export_targets : List TargetCfg → Text → Text → TargetsFile
export_targets ts app date = record {
  format = targets_format;
  version = pos targets_format_version;
  name = app ++ codes " targets";
  description = codes "Exported from " ++ app ++ codes " on " ++ date;
  targets = map to_file_target ts;
}

-- The file as JSON, by its tags.
unfoldable pub encode_file : TargetsFile → Json
unfolding add_text encode_row
encode_file file = obj (
    member (codes "format") (str file.format) (
      member (codes "version") (int file.version) (
        add_text (codes "name") file.name (
          add_text (codes "description") file.description
            (member (codes "targets") (arr (to_items (map encode_row file.targets))) end)))))
