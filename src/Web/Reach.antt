-- ===== src/Web/Reach.antt =====
-- Sequences of requests to web.go.
use fogping.Prelude.{
  ℕ, ◌≡◌, refl, sym, subst, ◌∙◌, codes, inl, inr, Option, none, some, Text, text_eq, arith,
  Bool-cases, Option-cases, ◌==◌,
}
use fogping.Prelude.Result.{Result, ok, err, Result-cases}
use fogping.Config.{TargetCfg, IsNormal, normalize_target}
use fogping.Config.Normal.{normalize_target-IsNormal}
use fogping.Prelude.Map.{lookup}
use fogping.Json.{Json}
use fogping.Targets.{StoreError, create_target, update_target, deactivate_target}
use fogping.Targets.Rows.{Table}
use fogping.Targets.Validity.{IsValid, IsNormal-id}
use fogping.Targets.Steps.{create_target-IsValid, update_target-IsValid, deactivate_target-IsValid}
use fogping.Targets.Import.{Created-IsValid}
use fogping.TargetsIo.Gate.{plan_import-gate}
use fogping.TargetsIo.Serve.{
  Reply, refused, planned, Outcome, serve_import, Served, json_of, serve_import-Served,
}
use fogping.Targets.{target_names}
use fogping.Web.{
  login, Console, Request, Entry, Call, post_target, put_target, delete_target, post_import, decode,
  path_id, status_of, deleted_status, import_status_of, with_target, with_id, handle, serve_write,
}
use fogping.Web.Gate.{serve_write-Admitted}

-- One request: a write, with what the database does, or a login.
pub data Step (host_of : Text → Option Text) (c : Console) : Console → Type 0 where
  writes : (r : Request) (call : Call) → Step host_of c (serve_write host_of r call c).1
  logs_in :
      (method user pass token : Text) (now : ℕ)
      → Step host_of c (login method user pass token now c).1

pub data Visited (host_of : Text → Option Text) (c : Console) : Console → Type 0 where
  start : Visited host_of c c
  then_one :
      {mid last : Console} → Visited host_of c mid → Step host_of mid last → Visited host_of c last

decode-IsNormal : (e : Entry) (t : TargetCfg) → decode e ≡ ok t → IsNormal t
unfolding decode
decode-IsNormal e t h = elim (Bool-cases (e.media == codes "application/json")) [
  | inr other ↦ absurd (ground (arith, other))
  | inl json ↦ elim (Option-cases e.decoded) [
    | inl bad ↦ absurd (ground (arith, json, bad))
    | inr (raw, read) ↦ elim (Result-cases (normalize_target raw)) [
      | inr (x, wrong) ↦ absurd (ground (arith, json, read, wrong))
      | inl (n, right) ↦ normalize_target-IsNormal raw t (right ∙ ground (arith, json, read, right))
    ]
  ]
]

with_target-IsValid :
    (r : Result ℕ TargetCfg) (table : Table) (f : TargetCfg → ℕ × Table)
    → IsValid table
    → ((t : TargetCfg) → r ≡ ok t → IsValid (f t).1)
    → IsValid (with_target r table f).1
unfolding with_target
with_target-IsValid (err status) table f v h = v
with_target-IsValid (ok t) table f v h = h t refl

module _ (table : Table) (v : IsValid table) where
  with_id-IsValid :
      (id : Option ℕ) (f : ℕ → ℕ × Table)
      → ((n : ℕ) → IsValid (f n).1)
      → IsValid (with_id id table f).1
  unfolding with_id
  with_id-IsValid none f h = v
  with_id-IsValid (some n) f h = h n

  status_of-IsValid :
      (r : Result StoreError TargetCfg × Table) → IsValid r.1 → IsValid (status_of r).1
  unfolding status_of
  status_of-IsValid (ok t, after) w = w
  status_of-IsValid (err e, after) w = w

  deleted_status-IsValid :
      (r : Option StoreError × Table) → IsValid r.1 → IsValid (deleted_status r).1
  unfolding deleted_status
  deleted_status-IsValid (none, after) w = w
  deleted_status-IsValid (some e, after) w = w

  import_status_of-IsValid :
      (outcome : Outcome) (names : Table) (json : Option Json) (r : Reply × Table)
      → Served outcome names table json r
      → IsValid (import_status_of r).1
  unfolding import_status_of
  import_status_of-IsValid outcome names json (refused status, after) same =
      subst IsValid (sym same) v
  import_status_of-IsValid outcome names json (planned shown, after) (p, plan, inl (dry, same)) =
      subst IsValid (sym same) v
  import_status_of-IsValid outcome names json (planned shown, after)
        (p, plan, inr (counted, created)) =
      let (_, _, _, _, _, _, _, ready, _, _, _) =
        plan_import-gate (target_names names) json p plan in
      Created-IsValid outcome.effects 0 p.cfgs table after created ready v

  handle-IsValid : (call : Call) → IsValid (handle call table).1
  unfolding handle
  handle-IsValid (post_target effect select entry) =
      with_target-IsValid (decode entry) table
        (λ t. status_of (create_target effect select t table)) v
        (λ t e.
          status_of-IsValid (create_target effect select t table)
            (create_target-IsValid effect select t table (decode-IsNormal entry t e) v))
  handle-IsValid (put_target exec select id entry) =
      with_id-IsValid (path_id id)
        (λ n.
          with_target (decode entry) table
            (λ t. status_of (update_target exec select (record t { id = n }) table)))
        (λ n.
          with_target-IsValid (decode entry) table
            (λ t. status_of (update_target exec select (record t { id = n }) table)) v
            (λ t e. status_of-IsValid (update_target exec select (record t { id = n }) table) (
              update_target-IsValid exec select (record t { id = n }) table
                (IsNormal-id n (decode-IsNormal entry t e)) v)))
  handle-IsValid (delete_target exec id) =
      with_id-IsValid (path_id id) (λ n. deleted_status (deactivate_target exec n table))
        (λ n.
          deleted_status-IsValid (deactivate_target exec n table)
            (deactivate_target-IsValid exec n table v))
  handle-IsValid (post_import outcome names upload) =
      import_status_of-IsValid outcome names (json_of upload.body)
        (serve_import outcome upload names table) (serve_import-Served outcome upload names table)

module _ (host_of : Text → Option Text) where
  login_keeps :
      (method user pass token : Text) (now : ℕ) (c : Console)
      → (login method user pass token now c).1.table ≡ c.table
  unfolding login
  login_keeps method user pass token now c = elim (Bool-cases (method == codes "POST")) [
    | inr other ↦ rw other refl
    | inl post ↦ elim (Option-cases (lookup user c.users)) [
      | inl unknown ↦ rw (post, unknown) refl
      | inr (want, known) ↦ elim (Bool-cases (pass == want)) [
        | inl right ↦ rw (post, known, right) refl
        | inr wrong ↦ rw (post, known, wrong) refl
      ]
    ]
  ]

  pub Step-IsValid :
      {c after : Console} → Step host_of c after → IsValid c.table → IsValid after.table
  Step-IsValid {c} (writes r call) v = elim (serve_write-Admitted host_of r call c) [
    | inl same ↦ subst IsValid (sym same) v
    | inr (_, _, _, _, changed) ↦ subst IsValid (sym changed) (handle-IsValid c.table v call)
  ]
  Step-IsValid {c} (logs_in method user pass token now) v =
      subst IsValid (sym (login_keeps method user pass token now c)) v

  -- Whatever requests come and whatever the database does, from a console with a valid table every
  -- table stays valid: ids positive, distinct and ascending, names distinct, active rows normal. The
  -- targets in the requests are any JSON.
  pub Visited-IsValid :
      {c last : Console} → IsValid c.table → Visited host_of c last → IsValid last.table
  Visited-IsValid v start = v
  Visited-IsValid v (then_one visits s) = Step-IsValid s (Visited-IsValid v visits)
