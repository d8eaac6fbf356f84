-- ===== src/TargetsIo/Serve.antt =====
-- `serveTargetsImport` of targetsio.go: the answers to an upload, and what each does to the table.
use fogping.Prelude.{
  ℕ, ◌*◌, ◌≤◌, ◌≡◌, eq_refl, refl, ◌⊎◌, inl, inr, Bool, true, false, ◌||◌, Option, none, some, List,
  [], ◌∷◌, Text, codes, if◌then◌else◌, ◌==◌, text_eq, length, ltb, Bool-cases, Option-cases, arith,
}
use fogping.Prelude.Result.{Result, ok, err}
use fogping.Strings.{to_lower}
use fogping.Config.{TargetCfg}
use fogping.Json.{Json}
use fogping.Targets.{StoreError, is_name_taken, Effect, target_names, import_targets}
use fogping.Targets.Rows.{Table}
use fogping.Targets.Validity.{IsValid}
use fogping.Targets.Import.{Created, done, import_targets_atomic}
use fogping.TargetsIo.Plan.{ImportError, import_status, Plan, plan_import}
use fogping.TargetsIo.Applied.{healthy, plan_import_applies}

abbrev pub max_import_bytes : ℕ
max_import_bytes = 1024 * 1024

-- A request: the media type of its header, the body, which is read or not, and the query value.
pub data Body : Type 0 where
  unreadable : Body
  received : ℕ → Option Json → Body

pub record Upload : Type 0 where
  pub media : Text
  pub body : Body
  pub dry_run : Text

-- An error with its HTTP status, or the plan as JSON.
pub data Reply : Type 0 where
  refused : ℕ → Reply
  planned : Plan → Reply

-- What the database does: the query of the names, and the import.
pub record Outcome : Type 0 where
  pub names : Option Text
  pub begin : Option Text
  pub commit : Option Text
  pub effects : ℕ → Effect

-- A database that does not fail.
abbrev pub working : (ℕ → ℕ) → Outcome
working gaps = record { names = none; begin = none; commit = none; effects = healthy gaps }

unfoldable pub is_dry_run : Text → Bool
is_dry_run query = let q = to_lower query in q == codes "1" || q == codes "true" || q == codes "yes"

import_reply : Plan → Option StoreError × Table → Reply × Table
import_reply p (none, after) = (planned (record p { imported = length p.cfgs }), after)
import_reply p (some e, after) = (refused (if is_name_taken e then 409 else 500), after)

import_planned : Outcome → Table → Plan → Reply × Table
unfolding import_reply
import_planned outcome table p =
    if ltb 0 (length p.cfgs)
    then import_reply p (import_targets outcome.begin outcome.commit outcome.effects p.cfgs table)
    else (planned (record p { imported = length p.cfgs }), table)

-- `names` is the table as the plan reads it, `table` as the import finds it.
serve_plan : Outcome → Text → Table → Result ImportError Plan → Reply × Table
unfolding import_planned
serve_plan outcome query table (err e) = (refused (import_status e), table)
serve_plan outcome query table (ok p) =
    if is_dry_run query
    then (planned (record p { dry_run = true }), table)
    else import_planned outcome table p

serve_body : Outcome → Text → Table → Table → Body → Reply × Table
unfolding serve_plan
serve_body outcome query names table unreadable = (refused 400, table)
serve_body outcome query names table (received size json) =
    if ltb max_import_bytes size then (refused 413, table) else elim outcome.names [
      | some e ↦ (refused 500, table)
      | none ↦ serve_plan outcome query table (plan_import (target_names names) json)
    ]

-- The reload of the probes that follows an import does not change the answer.
unfoldable pub serve_import : Outcome → Upload → Table → Table → Reply × Table
unfolding serve_body
serve_import outcome upload names table =
    if upload.media == codes "application/json"
    then serve_body outcome upload.dry_run names table upload.body
    else (refused 415, table)

abbrev pub Served : Outcome → Table → Table → Option Json → Reply × Table → Type 0
Served outcome names table json (refused status, after) = after ≡ table
Served outcome names table json (planned shown, after) =
    (p : Plan) × (plan_import (target_names names) json ≡ ok p)
    × ((shown ≡ record p { dry_run = true }) × (after ≡ table)
        ⊎ (shown ≡ record p { imported = length p.cfgs })
          × Created outcome.effects 0 p.cfgs table after)

abbrev pub json_of : Body → Option Json
json_of unreadable = none
json_of (received size json) = json

module _ (outcome : Outcome) (names table : Table) (json : Option Json) where
  no_rows-Created :
      (ts : List TargetCfg) → ltb 0 (length ts) ≡ false → Created outcome.effects 0 ts table table
  no_rows-Created [] h = done
  no_rows-Created (t ∷ ts) h = absurd (ground arith)

  import_reply-Served :
      (p : Plan) (done : Option StoreError × Table)
      → plan_import (target_names names) json ≡ ok p
      → (done.0 ≡ none) × Created outcome.effects 0 p.cfgs table (done.1)
        ⊎ ((e : StoreError) × (done.0 ≡ some e) × (done.1 ≡ table))
      → Served outcome names table json (import_reply p done)
  unfolding import_reply
  import_reply-Served p (none, after) e (inl (fine, created)) = (p, e, inr (refl, created))
  import_reply-Served p (none, after) e (inr (x, some_x, same)) = absurd (cc some_x)
  import_reply-Served p (some x, after) e (inl (fine, created)) = absurd (cc fine)
  import_reply-Served p (some x, after) e (inr (y, some_y, same)) = same

  import_planned-Served :
      (p : Plan)
      → plan_import (target_names names) json ≡ ok p
      → Served outcome names table json (import_planned outcome table p)
  unfolding import_planned
  import_planned-Served p e = elim (Bool-cases (ltb 0 (length p.cfgs))) [
    | inl some_to_add ↦ rw some_to_add (
        import_reply-Served p
          (import_targets outcome.begin outcome.commit outcome.effects p.cfgs table) e
          (import_targets_atomic outcome.effects outcome.begin outcome.commit p.cfgs table))
    | inr none_to_add ↦ rw none_to_add (p, e, inr (refl, no_rows-Created p.cfgs none_to_add))
  ]

  serve_plan-Served :
      (query : Text) (r : Result ImportError Plan)
      → plan_import (target_names names) json ≡ r
      → Served outcome names table json (serve_plan outcome query table r)
  unfolding serve_plan
  serve_plan-Served query (err x) e = refl
  serve_plan-Served query (ok p) e = elim (Bool-cases (is_dry_run query)) [
    | inl dry ↦ rw dry (p, e, inl (refl, refl))
    | inr wet ↦ rw wet (import_planned-Served p e)
  ]

  serve_body-Served :
      (query : Text) (size : ℕ)
      → Served outcome names table json (serve_body outcome query names table (received size json))
  unfolding serve_body
  serve_body-Served query size = elim (Bool-cases (ltb max_import_bytes size)) [
    | inl large ↦ rw large refl
    | inr fits ↦ elim (Option-cases outcome.names) [
      | inr (e, fault) ↦ rw (fits, fault) refl
      | inl fine ↦
          rw (fits, fine) (serve_plan-Served query (plan_import (target_names names) json) refl)
    ]
  ]

body-Served :
    (outcome : Outcome) (query : Text) (names table : Table) (body : Body)
    → Served outcome names table (json_of body) (serve_body outcome query names table body)
unfolding serve_body
body-Served outcome query names table unreadable = refl
body-Served outcome query names table (received size json) =
    serve_body-Served outcome names table json query size

-- Whatever the database does, and however the table changed between the plan and the import: an
-- answer that is an error, or that shows a dry run, leaves the table as it was; any other answer is
-- the plan of the file with the count of its targets, and comes after each of them was created.
pub serve_import-Served :
    (outcome : Outcome) (upload : Upload) (names table : Table)
    → Served outcome names table (json_of upload.body) (serve_import outcome upload names table)
unfolding serve_import
serve_import-Served outcome upload names table =
    elim (Bool-cases (upload.media == codes "application/json")) [
      | inr other ↦ rw other refl
      | inl json ↦ rw json (body-Served outcome upload.dry_run names table upload.body)
    ]

-- If the names are read, the table is valid and does not change between the plan and the import and
-- the database does not fail, an upload in JSON of at most a megabyte whose plan is accepted is
-- answered with success, unless it is a dry run: the answer shows the plan and counts all of its
-- targets.
pub serve_import_completes :
    (gaps : ℕ → ℕ) (upload : Upload) (table : Table) (size : ℕ) (json : Option Json) (p : Plan)
    → IsValid table
    → upload.media ≡ codes "application/json"
    → upload.body ≡ received size json
    → size ≤ max_import_bytes
    → is_dry_run upload.dry_run ≡ false
    → plan_import (target_names table) json ≡ ok p
    → (serve_import (working gaps) upload table table).0
      ≡ planned (record p { imported = length p.cfgs })
unfolding serve_import serve_body serve_plan import_planned import_reply
serve_import_completes gaps upload table size json p v media body fits wet e =
    let (last, applied, _) = plan_import_applies gaps table json p v e in
    let small : ltb max_import_bytes size ≡ false = ground arith in
    let is_json : (upload.media == codes "application/json") ≡ true =
      rw media (eq_refl (codes "application/json")) in
    elim (Bool-cases (ltb 0 (length p.cfgs))) [
      | inl some_to_add ↦ rw (is_json, body, small, e, wet, some_to_add, applied) refl
      | inr none_to_add ↦ rw (is_json, body, small, e, wet, none_to_add) refl
    ]
