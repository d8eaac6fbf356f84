-- ===== src/Config/Normal.antt =====
-- `normalizeTarget` of config.go accepts exactly the normal targets, and leaves those alone.
use fogping.Prelude.{
  ◌≤◌, ◌≡◌, ◌≢◌, refl, inl, inr, false, [], ◌∷◌, Text, arith, ◌==◌, text_eq, text_beq_iff,
  Bool-cases, any, length,
}
use fogping.Prelude.Int.{ℤ, pos, ◌≤ℤ◌}
use fogping.Prelude.Result.{ok, Result-cases}
use fogping.Strings.{
  is_space, is_control, trim_space, trim_space_idem, trim_space_spaceless, itoa, join_host_port,
  join_host_port-spaceless,
}
use fogping.Config.{
  TargetCfg, icmp, tcp, fast, normal, slow, target_addr, trim_fields, check_port, bad_host,
  check_pace, bad_interval, bad_name, default_name, normalize_target, Kind, Pace, IsHost, IsNormal,
}

check_port-Kind : (type : Text) (port : ℤ) {p : ℤ} → check_port type port ≡ ok p → Kind type p
unfolding check_port
check_port-Kind type port h = ground (arith, text_beq_iff type icmp, text_beq_iff type tcp)

Kind-check_port : (type : Text) (port : ℤ) → Kind type port → check_port type port ≡ ok port
unfolding check_port
Kind-check_port type port (inl (e, p)) = rw (e, p) refl
Kind-check_port type port (inr (e, lo, hi)) = rw e (ground arith)

check_pace-Pace : (pace : Text) {p : Text} → check_pace pace ≡ ok p → Pace p
unfolding check_pace
check_pace-Pace pace h = ground (
  arith,
  text_beq_iff pace normal,
  text_beq_iff pace [],
  text_beq_iff pace fast,
  text_beq_iff pace slow,
)

Pace-check_pace : (pace : Text) → Pace pace → check_pace pace ≡ ok pace
unfolding check_pace
Pace-check_pace pace (inl e) = rw e refl
Pace-check_pace pace (inr (inl e)) = rw e refl
Pace-check_pace pace (inr (inr e)) = rw e refl

bad_host-IsHost : (host : Text) → bad_host host ≡ false → IsHost host
unfolding bad_host
bad_host-IsHost host h = ground (arith, text_beq_iff host [])

pub IsHost-bad_host : (host : Text) → IsHost host → bad_host host ≡ false
unfolding bad_host
IsHost-bad_host host h = ground (arith, text_beq_iff host [])

-- The name of an accepted target is trimmed also where the address stands in for it.
default_name-trimmed :
    (t : TargetCfg)
    → any is_space t.host ≡ false
    → trim_space t.name ≡ t.name
    → trim_space (default_name t) ≡ default_name t
unfolding default_name target_addr
default_name-trimmed t h n = elim (Bool-cases (t.name == [])) [
  | inr given ↦ rw given n
  | inl empty ↦ elim (Bool-cases (t.type == tcp)) [
    | inl is_tcp ↦
        rw (empty, is_tcp)
          (trim_space_spaceless (join_host_port t.host (itoa t.port))
            (join_host_port-spaceless t.host t.port h))
    | inr other ↦ rw (empty, other) (trim_space_spaceless t.host h)
  ]
]

join_host_port-ne-nil : (host port : Text) → join_host_port host port ≢ []
unfolding join_host_port
join_host_port-ne-nil [] port h = ground arith
join_host_port-ne-nil (c ∷ host) port h = ground arith

default_name-ne-nil : (t : TargetCfg) → t.host ≢ [] → default_name t ≢ []
unfolding default_name target_addr
default_name-ne-nil t h e =
    ground (arith, text_beq_iff t.name [], join_host_port-ne-nil t.host (itoa t.port))

interval_range_ok : (i : ℤ) → bad_interval i ≡ false → (pos 0 ≤ℤ i) × (i ≤ℤ pos 86400)
unfolding bad_interval
interval_range_ok i h = ground arith

bad_name-parts :
    (name : Text) → bad_name name ≡ false → (length name ≤ 64) × (any is_control name ≡ false)
unfolding bad_name
bad_name-parts name h = ground arith

abbrev kept : TargetCfg → ℤ → Text → TargetCfg
kept t port pace = record (trim_fields t) { port = port; pace = pace }

record Accepted (t r : TargetCfg) (port : ℤ) (pace : Text) : Type 0 where
  port_ok : check_port (trim_fields t).type t.port ≡ ok port
  host_ok : bad_host (trim_fields t).host ≡ false
  pace_ok : check_pace (trim_fields t).pace ≡ ok pace
  interval_ok : bad_interval t.interval_sec ≡ false
  name_ok : bad_name (default_name (kept t port pace)) ≡ false
  result : r ≡ record (kept t port pace) { name = default_name (kept t port pace) }

normalize_target-Accepted :
    (t r : TargetCfg)
    → normalize_target t ≡ ok r
    → (port : ℤ) × (pace : Text) × Accepted t r port pace
unfolding normalize_target trim_fields
normalize_target-Accepted t r h = elim (Result-cases (check_port (trim_fields t).type t.port)) [
  | inr (e, failed) ↦ absurd (ground arith)
  | inl (port, port_ok) ↦ elim (Result-cases (check_pace (trim_fields t).pace)) [
    | inr (e, failed) ↦ absurd (ground arith)
    | inl (pace, pace_ok) ↦ (port, pace, ground arith)
  ]
]

-- What validation accepts is a normal target.
pub normalize_target-IsNormal : (t r : TargetCfg) → normalize_target t ≡ ok r → IsNormal r
unfolding trim_fields
normalize_target-IsNormal t r h =
    let (port, pace, a) = normalize_target-Accepted t r h in
    let host : IsHost (trim_space t.host) = bad_host-IsHost (trim_space t.host) a.host_ok in
    rw a.result (record {
      kind = check_port-Kind (trim_fields t).type t.port a.port_ok;
      reachable = host;
      paced = check_pace-Pace (trim_space t.pace) a.pace_ok;
      nonneg = (interval_range_ok t.interval_sec a.interval_ok).0;
      daily = (interval_range_ok t.interval_sec a.interval_ok).1;
      named = default_name-ne-nil (kept t port pace) host.given;
      fits = (bad_name-parts (default_name (kept t port pace)) a.name_ok).0;
      printable = (bad_name-parts (default_name (kept t port pace)) a.name_ok).1;
      trimmed = default_name-trimmed (kept t port pace) host.spaceless (trim_space_idem t.name);
    })

Kind-trimmed :
    (type : Text) (port : ℤ) → Kind type port → (trim_space type ≡ type) × ((type == []) ≡ false)
Kind-trimmed type port (inl (e, p)) = rw e (unfold trim_space in (refl, refl))
Kind-trimmed type port (inr (e, lo, hi)) = rw e (unfold trim_space in (refl, refl))

Pace-trimmed : (pace : Text) → Pace pace → trim_space pace ≡ pace
unfolding trim_space
Pace-trimmed pace (inl e) = rw e refl
Pace-trimmed pace (inr (inl e)) = rw e refl
Pace-trimmed pace (inr (inr e)) = rw e refl

trim_fields-IsNormal : (t : TargetCfg) → IsNormal t → trim_fields t ≡ t
unfolding trim_fields
trim_fields-IsNormal t n = ground (
  arith,
  Kind-trimmed t.type t.port n.kind,
  Pace-trimmed t.pace n.paced,
  trim_space_spaceless t.host n.reachable.spaceless,
)

IsNormal-tests :
    (t : TargetCfg)
    → IsNormal t
    → (bad_interval t.interval_sec ≡ false) × (bad_name t.name ≡ false) × (default_name t ≡ t.name)
unfolding bad_interval bad_name default_name
IsNormal-tests t n = ground (arith, text_beq_iff t.name [])

-- Validation leaves a normal target as it is.
pub normalize_target-fixed : (t : TargetCfg) → IsNormal t → normalize_target t ≡ ok t
unfolding normalize_target
normalize_target-fixed t n = ground (
  arith,
  trim_fields-IsNormal t n,
  Kind-check_port t.type t.port n.kind,
  IsHost-bad_host t.host n.reachable,
  Pace-check_pace t.pace n.paced,
  IsNormal-tests t n,
)

-- The pace "normal" is kept as the empty pace.
pub normalize_target-normal :
    (t : TargetCfg)
    → IsNormal t
    → t.pace ≡ []
    → normalize_target (record t { pace = normal }) ≡ ok t
unfolding normalize_target
normalize_target-normal t n e = ground (
  arith,
  trimmed,
  Kind-check_port t.type t.port n.kind,
  IsHost-bad_host t.host n.reachable,
  paced,
  IsNormal-tests t n,
  name,
)
  where
    trimmed : trim_fields (record t { pace = normal }) ≡ record t { pace = normal }
    trimmed =
        unfold trim_fields in
        ground (
          arith,
          Kind-trimmed t.type t.port n.kind,
          trim_space_spaceless t.host n.reachable.spaceless,
          (let e : trim_space normal ≡ normal = unfold trim_space in refl in e),
        )

    paced : check_pace normal ≡ ok []
    paced = unfold check_pace in refl

    name : default_name (record t { pace = [] }) ≡ default_name t
    name = unfold default_name target_addr in refl
