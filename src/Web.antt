-- ===== src/Web.antt =====
-- web.go: the sessions, the gate of the requests that write, and the handlers of the target editor.
pub mod Gate
pub mod Read
pub mod Window
pub mod Reach
pub mod Tests
use fogping.Prelude.{
  ℕ, zero, suc, ◌+◌, ◌-◌, ◌*◌, ◌^◌, Bool, true, false, not, ◌&&◌, ◌||◌, Option, none, some, List,
  [], ◌∷◌, Text, codes, if◌then◌else◌, ◌==◌, text_eq, nat_eq, length, ltb, leb,
}
use fogping.Prelude.Int.{ℤ, pos, negsuc, ltb_ℤ}
use fogping.Prelude.Map.{Map, lookup, insert, remove}
use fogping.Prelude.Result.{Result, ok, err}
use fogping.Config.{TargetCfg, TargetError, normalize_target}
use fogping.Targets.{
  StoreError, not_found, name_taken, name_deleted, Effect, create_target, update_target,
  deactivate_target,
}
use fogping.Targets.Rows.{Table}
use fogping.TargetsIo.Serve.{Upload, Reply, refused, planned, Outcome, serve_import}

abbrev pub week : ℕ
week = 7 * 24 * 3600 * 1000000000

-- The map of `sessions`: when a token expires, in nanoseconds.
abbrev pub Sessions : Type 0
Sessions = Map Text ℕ

-- `token` is the random one.
unfoldable pub issue : Text → ℕ → Sessions → Sessions
issue token now m = insert token (now + week) m

unfoldable pub valid : Text → ℕ → Sessions → Bool × Sessions
valid token now m = elim (lookup token m) [
  | none ↦ (false, remove token m)
  | some expiry ↦ if ltb expiry now then (false, remove token m) else (true, m)
]

-- What the mux closes over, and the table behind it.
pub record Console : Type 0 where
  pub users : Map Text Text
  pub editable : Bool
  pub sessions : Sessions
  pub table : Table

-- The parts of a request that the gate reads, and the time.
pub record Request : Type 0 where
  pub cookie : Option Text
  pub origin : Text
  pub host : Text
  pub now : ℕ

unfoldable pub authed : Request → Console → Bool × Sessions
authed r c =
    if leb (length c.users) 0
    then (true, c.sessions)
    else elim (r.cookie) [ none ↦ (false, c.sessions) | some token ↦ valid token r.now c.sessions ]

-- `host_of` is the host that `url.Parse` finds, if it succeeds.
unfoldable pub same_origin : (Text → Option Text) → Request → Bool
same_origin host_of r =
    if r.origin == []
    then true
    else elim (host_of (r.origin)) [ none ↦ false | some host ↦ host == r.host ]

-- strconv.ParseInt of base 10 and 64 bits, on digits after an optional sign.
parse_digits : Text → ℕ → Option ℕ
parse_digits [] n = some n
parse_digits (c ∷ s) n =
    let rest = parse_digits s (n * 10 + (c - b'0')) in
    if leb b'0' c && leb c b'9' then rest else none

parse_unsigned : Text → Option ℕ
unfolding parse_digits
parse_unsigned [] = none
parse_unsigned (c ∷ s) = parse_digits (c ∷ s) 0

unfoldable pub negated : ℕ → ℤ
negated zero = pos 0
negated (suc n) = negsuc n

bounded : Bool → Option ℕ → Option ℤ
unfolding negated
bounded negative none = none
bounded true (some n) = if leb n (2 ^ 63) then some (negated n) else none
bounded false (some n) = if ltb n (2 ^ 63) then some (pos n) else none

unfoldable pub parse_int : Text → Option ℤ
unfolding parse_unsigned bounded
parse_int [] = none
parse_int (c ∷ s) =
    if c == b'-'
    then bounded true (parse_unsigned s)
    else if c == b'+'
    then bounded false (parse_unsigned s)
    else bounded false (parse_unsigned (c ∷ s))

-- `r.PathValue("id")`, which is empty where the path has none; a row id is positive.
unfoldable pub path_id : Text → Option ℕ
path_id [] = some 0
path_id (c ∷ s) = elim (parse_int (c ∷ s)) [
  | none ↦ none
  | some (pos n) ↦ if leb n 0 then none else some n
  | some (negsuc n) ↦ none
]

-- A target in a body: its media type, and what `encoding/json` makes of it, if it can.
pub record Entry : Type 0 where
  pub media : Text
  pub decoded : Option TargetCfg

-- The handlers that write, each with what the database does.
pub data Call : Type 0 where
  post_target : Effect → Option Text → Entry → Call
  put_target : Option Text → Option Text → Text → Entry → Call
  delete_target : Option Text → Text → Call
  post_import : Outcome → Table → Upload → Call

unfoldable pub decode : Entry → Result ℕ TargetCfg
decode e = if not (e.media == codes "application/json") then err 415 else elim (e.decoded) [
  | none ↦ err 400
  | some t ↦ elim (normalize_target t) [ err x ↦ err 400 | ok n ↦ ok n ]
]

-- The status of `done`.
unfoldable pub error_status : StoreError → ℕ
error_status name_taken = 409
error_status name_deleted = 409
error_status not_found = 404
error_status other = 500

unfoldable pub status_of : Result StoreError TargetCfg × Table → ℕ × Table
unfolding error_status
status_of (ok t, table) = (200, table)
status_of (err e, table) = (error_status e, table)

unfoldable pub deleted_status : Option StoreError × Table → ℕ × Table
unfolding error_status
deleted_status (none, table) = (200, table)
deleted_status (some e, table) = (error_status e, table)

unfoldable pub import_status_of : Reply × Table → ℕ × Table
import_status_of (refused status, table) = (status, table)
import_status_of (planned p, table) = (200, table)

unfoldable pub with_target : Result ℕ TargetCfg → Table → (TargetCfg → ℕ × Table) → ℕ × Table
with_target (err status) table f = (status, table)
with_target (ok t) table f = f t

unfoldable pub with_id : Option ℕ → Table → (ℕ → ℕ × Table) → ℕ × Table
with_id none table f = (400, table)
with_id (some n) table f = f n

-- The body of `write`'s argument, with the id of the path; the reload that follows is the runner's.
unfoldable pub handle : Call → Table → ℕ × Table
unfolding status_of deleted_status import_status_of with_target with_id
handle (post_target effect select entry) table =
    with_target (decode entry) table (λ t. status_of (create_target effect select t table))
handle (put_target exec select id entry) table = with_id (path_id id) table (λ n.
    with_target (decode entry) table
      (λ t. status_of (update_target exec select (record t { id = n }) table)))
handle (delete_target exec id) table =
    with_id (path_id id) table (λ n. deleted_status (deactivate_target exec n table))
handle (post_import outcome names upload) table =
    import_status_of (serve_import outcome upload names table)

unfoldable pub serve_write : (Text → Option Text) → Request → Call → Console → ℕ × Console
serve_write host_of r call c0 =
    let (passed, m) = authed r c0 in
    let c : Console = record c0 { sessions = m } in
    if not passed
    then (401, c)
    else if not c.editable
    then (403, c)
    else if not (same_origin host_of r)
    then (403, c)
    else let (status, table) = handle call c.table in (status, record c { table = table })

-- `/api/login`: the session is the cookie of the answer.
unfoldable pub login : Text → Text → Text → Text → ℕ → Console → ℕ × Console
login method user pass token now c =
    if not (method == codes "POST") then (405, c) else elim (lookup user c.users) [
      | none ↦ (401, c)
      | some want ↦
          if pass == want
          then (200, record c { sessions = issue token now c.sessions })
          else (401, c)
    ]
