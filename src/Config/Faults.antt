-- ===== src/Config/Faults.antt =====
-- What a refusal of `normalizeTarget` of config.go says of the target.
use fogping.Prelude.{
  ◌<◌, ◌≡◌, ◌≢◌, refl, ◌⊎◌, inl, inr, true, [], Text, arith, text_eq, text_beq_iff, Bool-cases, any,
  length,
}
use fogping.Prelude.Int.{ℤ, pos, ◌≤ℤ◌}
use fogping.Prelude.Result.{ok, err, Result-cases}
use fogping.Strings.{is_control}
use fogping.Config.{
  TargetCfg, TargetError, port_range, unknown_type, invalid_host, invalid_pace, interval_range,
  name_invalid, icmp, tcp, fast, normal, slow, target_addr, trim_fields, check_port, bad_host,
  check_pace, bad_interval, bad_name, default_name, normalize_target, Pace, IsHost,
}
use fogping.Config.Normal.{IsHost-bad_host}

-- What an error says of the trimmed target.
abbrev pub Violates : TargetCfg → TargetError → Type 0
Violates t port_range = (t.type ≡ tcp) × ¬ ((pos 1 ≤ℤ t.port) × (t.port ≤ℤ pos 65535))
Violates t (unknown_type type) = (type ≡ t.type) × (t.type ≢ icmp) × (t.type ≢ tcp)
Violates t (invalid_host host) = (host ≡ t.host) × ¬ IsHost t.host
Violates t (invalid_pace pace) = (pace ≡ t.pace) × (t.pace ≢ normal) × ¬ Pace t.pace
Violates t interval_range = ¬ ((pos 0 ≤ℤ t.interval_sec) × (t.interval_sec ≤ℤ pos 86400))
Violates t name_invalid = (64 < length (default_name t)) ⊎ (any is_control (default_name t) ≡ true)

check_port-err : (t : TargetCfg) (e : TargetError) → check_port t.type t.port ≡ err e → Violates t e
unfolding check_port
check_port-err t port_range h = ground (arith, text_beq_iff t.type icmp, text_beq_iff t.type tcp)
check_port-err t (unknown_type s) h =
    ground (arith, text_beq_iff t.type icmp, text_beq_iff t.type tcp)
check_port-err t e h = ground (arith, text_beq_iff t.type icmp, text_beq_iff t.type tcp)

check_pace-err : (t : TargetCfg) (e : TargetError) → check_pace t.pace ≡ err e → Violates t e
unfolding check_pace
check_pace-err t (invalid_pace s) h = ground (
  arith,
  text_beq_iff t.pace normal,
  text_beq_iff t.pace [],
  text_beq_iff t.pace fast,
  text_beq_iff t.pace slow,
)
check_pace-err t e h = ground arith

default_name-kept :
    (t : TargetCfg) (pace : Text) {port : ℤ}
    → check_port t.type t.port ≡ ok port
    → default_name (record t { port = port; pace = pace }) ≡ default_name t
unfolding default_name target_addr check_port
default_name-kept t pace h = ground (arith, text_beq_iff t.type icmp, text_beq_iff t.type tcp)

bad_name-Violates :
    (name : Text) → bad_name name ≡ true → (64 < length name) ⊎ (any is_control name ≡ true)
unfolding bad_name
bad_name-Violates name h = ground arith

bad_interval-Violates : (i : ℤ) → bad_interval i ≡ true → ¬ ((pos 0 ≤ℤ i) × (i ≤ℤ pos 86400))
unfolding bad_interval
bad_interval-Violates i h = ground arith

bad_host-Violates : (host : Text) → bad_host host ≡ true → ¬ IsHost host
bad_host-Violates host h n = cc (IsHost-bad_host host n)

-- Each refusal names a fault that the trimmed target has.
pub normalize_target-err :
    (t : TargetCfg) (e : TargetError) → normalize_target t ≡ err e → Violates (trim_fields t) e
unfolding normalize_target
normalize_target-err t e h =
    let t1 = trim_fields t in
    elim (Result-cases (check_port t1.type t1.port)) [
      | inr (e1, failed) ↦ check_port-err t1 e (ground arith)
      | inl (port, port_ok) ↦ elim (Bool-cases (bad_host t1.host)) [
        | inl bad ↦
            let named : e ≡ invalid_host t1.host = ground arith in
            rw named (refl, bad_host-Violates t1.host bad)
        | inr host_ok ↦ elim (Result-cases (check_pace t1.pace)) [
          | inr (e1, failed) ↦ check_pace-err t1 e (ground arith)
          | inl (pace, pace_ok) ↦ elim (Bool-cases (bad_interval t1.interval_sec)) [
            | inl bad ↦
                let named : e ≡ interval_range = ground arith in
                rw named (bad_interval-Violates t1.interval_sec bad)
            | inr interval_ok ↦ elim (Bool-cases (bad_name (default_name t1))) [
              | inl bad ↦
                  let named : e ≡ name_invalid =
                    ground (arith, default_name-kept t1 pace port_ok) in
                  rw named (bad_name-Violates (default_name t1) bad)
              | inr name_ok ↦ absurd (ground (arith, default_name-kept t1 pace port_ok))
            ]
          ]
        ]
      ]
    ]
