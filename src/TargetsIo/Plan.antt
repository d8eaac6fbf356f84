-- ===== src/TargetsIo/Plan.antt =====
-- `planImport` of targetsio.go: the checks of the whole file, and the sorting of its rows.
use fogping.Prelude.{
  ℕ, suc, Bool, true, false, not, Option, none, some, List, [], ◌∷◌, ◌++◌, Text, codes,
  if◌then◌else◌, ◌==◌, text_eq, length, ltb,
}
use fogping.Prelude.Int.{ℤ, pos, ltb_ℤ}
use fogping.Prelude.Map.{Map, lookup, insert}
use fogping.Prelude.Result.{Result, ok, err, guard, ◌>>=◌, ◌>>◌}
use fogping.Config.{TargetCfg}
use fogping.Json.{Json, null, int, str, arr, obj, Members, end, member, is_field, from_items}
use fogping.TargetsIo.Rows.{
  FileTarget, RowError, to_file_target, from_file_row, targets_format, targets_format_version,
}

abbrev pub max_import_targets : ℕ
max_import_targets = 500

-- A refusal of the whole file.
pub data ImportError : Type 0 where
  not_json wrong_head no_version no_targets : ImportError
  wrong_format : Text → ImportError
  newer_version : ℤ → ImportError
  too_many : ℕ → ImportError

-- The HTTP status of a refusal.
unfoldable pub import_status : ImportError → ℕ
import_status (too_many n) = 413
import_status e = 400

pub record Add : Type 0 where
  pub row : ℕ
  pub target : FileTarget
  pub restores_history : Bool

-- `exists_in_table` is the code "exists", and `duplicate` has the row that came first.
pub data SkipCode : Type 0 where
  exists_in_table : SkipCode
  duplicate : ℕ → SkipCode

pub record Skip : Type 0 where
  pub row : ℕ
  pub name : Text
  pub code : SkipCode

pub record Invalid : Type 0 where
  pub row : ℕ
  pub name : Text
  pub error : RowError

pub record Plan : Type 0 where
  pub name : Text
  pub description : Text
  pub total : ℕ
  pub add : List Add
  pub skip : List Skip
  pub invalid : List Invalid
  pub dry_run : Bool
  pub imported : ℕ
  pub cfgs : List TargetCfg

-- The struct `head`; `none` is a raw message that the file does not have.
pub record Head : Type 0 where
  pub format : Text
  pub version : Option Json
  pub name : Text
  pub description : Text
  pub targets : Option Json
  pub wrong : Bool

head_text : (Text → Head) → Json → Head → Head
head_text put null h = h
head_text put (str s) h = put s
head_text put value h = record h { wrong = true }

head_member : Text → Json → Head → Head
unfolding head_text is_field
head_member key value h =
    if is_field (codes "format") key
    then head_text (λ s. record h { format = s }) value h
    else if is_field (codes "version") key
    then record h { version = some value }
    else if is_field (codes "name") key
    then head_text (λ s. record h { name = s }) value h
    else if is_field (codes "description") key
    then head_text (λ s. record h { description = s }) value h
    else if is_field (codes "targets") key
    then record h { targets = some value }
    else h

unfoldable pub head_members : Members → Head → Head
unfolding head_member
head_members end h = h
head_members (member key value rest) h = head_members rest (head_member key value h)

abbrev pub empty_head : Head
empty_head = record {
  format = [];
  version = none;
  name = [];
  description = [];
  targets = none;
  wrong = false;
}

-- `json.Unmarshal(body, &head)`; a null leaves the struct as it is.
unfoldable pub decode_head : Option Json → Result ImportError Head
unfolding head_members
decode_head none = err not_json
decode_head (some null) = ok empty_head
decode_head (some (obj members)) =
    let h = head_members members empty_head in if h.wrong then err wrong_head else ok h
decode_head (some other) = err wrong_head

-- `json.Unmarshal(head.Version, &version)` with the test that follows: a null leaves a zero.
unfoldable pub decode_version : Option Json → Result ImportError ℤ
decode_version (some (int v)) = if ltb_ℤ v (pos 1) then err no_version else ok v
decode_version other = err no_version

unfoldable pub decode_rows : Option Json → Result ImportError (List Json)
unfolding from_items
decode_rows (some (arr items)) = ok (from_items items)
decode_rows other = err no_targets

abbrev pub empty_plan : Head → ℕ → Plan
empty_plan h total = record {
  name = h.name;
  description = h.description;
  total = total;
  add = [];
  skip = [];
  invalid = [];
  dry_run = false;
  imported = 0;
  cfgs = [];
}

is_known : Option Bool → Bool
is_known none = false
is_known (some active) = true

module _ (existing : Map Text Bool) where
  -- A row whose name is new in the file.
  plan_new : ℕ → TargetCfg → Option Bool → Plan → Plan
  unfolding is_known
  plan_new row t (some true) p = record p {
    skip = p.skip ++ (record { row = row; name = t.name; code = exists_in_table }) ∷ [];
  }
  plan_new row t known p = record p {
    add =
        p.add
        ++ (record { row = row; target = to_file_target t; restores_history = is_known known })
          ∷ [];
    cfgs = p.cfgs ++ t ∷ [];
  }

  plan_named : ℕ → TargetCfg → Option ℕ → Map Text ℕ → Plan → Map Text ℕ × Plan
  unfolding plan_new
  plan_named row t (some earlier) seen p = (
    seen,
    record p {
      skip = p.skip ++ (record { row = row; name = t.name; code = duplicate earlier }) ∷ [];
    },
  )
  plan_named row t none seen p = (insert t.name row seen, plan_new row t (lookup t.name existing) p)

  unfoldable pub plan_decoded :
      ℕ → Result (Text × RowError) TargetCfg → Map Text ℕ → Plan → Map Text ℕ × Plan
  unfolding plan_named
  plan_decoded row (err (name, e)) seen p = (
    seen,
    record p { invalid = p.invalid ++ (record { row = row; name = name; error = e }) ∷ [] },
  )
  plan_decoded row (ok t) seen p = plan_named row t (lookup t.name seen) seen p

  -- The loop over the rows, numbered from 1; `i` counts the rows before.
  unfoldable pub plan_rows : ℕ → List Json → Map Text ℕ → Plan → Plan
  unfolding plan_decoded
  plan_rows i [] seen p = p
  plan_rows i (raw ∷ rows) seen p =
      let (seen', p') = plan_decoded (suc i) (from_file_row raw) seen p in
      plan_rows (suc i) rows seen' p'

  unfoldable pub plan_import : Option Json → Result ImportError Plan
  plan_import body = do
    h ← decode_head body
    guard (h.format == targets_format) (wrong_format h.format)
    version ← decode_version h.version
    guard (not (ltb_ℤ (pos targets_format_version) version)) (newer_version version)
    rows ← decode_rows h.targets
    guard (not (ltb max_import_targets (length rows))) (too_many (length rows))
    ok (plan_rows 0 rows [] (empty_plan h (length rows)))
