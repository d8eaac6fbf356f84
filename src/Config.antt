-- ===== src/Config.antt =====
-- config.go and `probeParams` of probe.go: the program's parameters, the target's configuration and
-- the validation that every target passes.
pub mod Normal
pub mod Faults
pub mod Pace
pub mod Tests
use fogping.Prelude.{
  ℕ, ◌+◌, ◌≤◌, ◌≡◌, ◌≢◌, ◌⊎◌, Bool, true, false, not, ◌||◌, [], Text, codes, ltb, if◌then◌else◌,
  ◌==◌, text_eq, length, any,
}
use fogping.Prelude.Int.{ℤ, pos, negsuc, ltb_ℤ, int_eq, ◌≤ℤ◌}
use fogping.Prelude.Result.{Result, ok, err, guard, ◌>>=◌, ◌>>◌}
use fogping.Strings.{is_space, is_control, byte_len, trim_space, itoa, join_host_port}

-- The fields are trimmed texts once `normalize_target` has passed; ids are row ids, from 1.
pub record TargetCfg : Type 0 where
  pub id : ℕ
  pub name : Text
  pub type : Text
  pub host : Text
  pub port : ℤ
  pub pace : Text
  pub interval_sec : ℤ

pub record ProbeCfg : Type 0 where
  pub interval_sec : ℤ
  pub packets : ℕ
  pub gap_ms : ℕ
  pub timeout_ms : ℕ

pub record Config : Type 0 where
  pub listen : Text
  pub data_dir : Text
  pub probe : ProbeCfg
  pub hot_days : ℕ
  pub retention_days : ℤ
  pub editable : Bool

abbrev pub default_days : ℕ
default_days = 93

abbrev pub max_days : ℕ
max_days = 93

unfoldable pub default_config : Config
default_config = record {
  listen = codes "0.0.0.0:8518";
  data_dir = codes "./data";
  probe = record { interval_sec = pos 60; packets = 20; gap_ms = 50; timeout_ms = 1000 };
  hot_days = 2;
  retention_days = pos default_days;
  editable = false;
}

-- The argument of the error is the number that was asked for.
unfoldable pub retention_days : ℤ → Result ℤ ℤ
retention_days n =
    if ltb_ℤ (pos max_days) n
    then err n
    else if not (ltb_ℤ (pos 0) n)
    then ok (pos default_days)
    else ok n

-- The messages of `normalizeTarget`, with the text that each quotes.
pub data TargetError : Type 0 where
  port_range interval_range name_invalid : TargetError
  unknown_type invalid_host invalid_pace : Text → TargetError

abbrev pub icmp : Text
icmp = codes "icmp"

abbrev pub tcp : Text
tcp = codes "tcp"

abbrev pub fast : Text
fast = codes "fast"

abbrev pub normal : Text
normal = codes "normal"

abbrev pub slow : Text
slow = codes "slow"

unfoldable pub target_addr : TargetCfg → Text
target_addr t = if t.type == tcp then join_host_port t.host (itoa t.port) else t.host

-- The four `strings.TrimSpace` lines and the default type.
unfoldable pub trim_fields : TargetCfg → TargetCfg
trim_fields t = record t {
  type = (let type = trim_space t.type in if type == [] then icmp else type);
  host = trim_space t.host;
  name = trim_space t.name;
  pace = trim_space t.pace;
}

-- The switch on the type; the result is the port that is kept.
unfoldable pub check_port : Text → ℤ → Result TargetError ℤ
check_port type port =
    if type == icmp
    then ok (pos 0)
    else if type == tcp
    then (if ltb_ℤ port (pos 1) || ltb_ℤ (pos 65535) port then err port_range else ok port)
    else err (unknown_type type)

unfoldable pub bad_host : Text → Bool
bad_host host = host == [] || ltb 253 (byte_len host) || any is_space host

-- The switch on the pace; "normal" is kept as the empty text.
unfoldable pub check_pace : Text → Result TargetError Text
check_pace pace =
    if pace == normal
    then ok []
    else if pace == [] || pace == fast || pace == slow
    then ok pace
    else err (invalid_pace pace)

unfoldable pub bad_interval : ℤ → Bool
bad_interval i = ltb_ℤ i (pos 0) || ltb_ℤ (pos 86400) i

unfoldable pub bad_name : Text → Bool
bad_name name = ltb 64 (length name) || any is_control name

unfoldable pub default_name : TargetCfg → Text
default_name t = if t.name == [] then target_addr t else t.name

-- What a caller sees of the target beside an error is not used, so an error carries none.
unfoldable pub normalize_target : TargetCfg → Result TargetError TargetCfg
normalize_target t0 = do
  let t1 = trim_fields t0
  port ← check_port t1.type t1.port
  guard (not (bad_host t1.host)) (invalid_host t1.host)
  pace ← check_pace t1.pace
  guard (not (bad_interval t1.interval_sec)) interval_range
  let t2 = record t1 { port = port; pace = pace }
  let name = default_name t2
  guard (not (bad_name name)) name_invalid
  ok (record t2 { name = name })

-- A target that the prober can run and the console can show, said without the code's tests.
abbrev pub Kind : Text → ℤ → Type 0
Kind type port =
    (type ≡ icmp) × (port ≡ pos 0) ⊎ (type ≡ tcp) × (pos 1 ≤ℤ port) × (port ≤ℤ pos 65535)

abbrev pub Pace : Text → Type 0
Pace pace = (pace ≡ []) ⊎ (pace ≡ fast) ⊎ (pace ≡ slow)

pub record IsHost (host : Text) : Type 0 where
  pub given : host ≢ []
  pub short : byte_len host ≤ 253
  pub spaceless : any is_space host ≡ false

pub record IsNormal (t : TargetCfg) : Type 0 where
  pub kind : Kind t.type t.port
  pub reachable : IsHost t.host
  pub paced : Pace t.pace
  pub nonneg : pos 0 ≤ℤ t.interval_sec
  pub daily : t.interval_sec ≤ℤ pos 86400
  pub named : t.name ≢ []
  pub fits : length t.name ≤ 64
  pub printable : any is_control t.name ≡ false
  pub trimmed : trim_space t.name ≡ t.name
