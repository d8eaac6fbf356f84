-- ===== src/TargetsIo/RoundTrip.antt =====
-- What is exported is imported again as it was.
use fogping.Prelude.{
  ◌≡◌, refl, ap, ◌∙◌, inl, inr, none, [], Text, codes, arith, ◌==◌, text_eq, eq_of, Bool-cases,
}
use fogping.Prelude.Int.{ℤ, pos, int_eq}
use fogping.Prelude.Result.{ok}
use fogping.Strings.{trim_space, to_lower}
use fogping.Config.{TargetCfg, icmp, tcp, normal, normalize_target, IsNormal}
use fogping.Config.Normal.{normalize_target-fixed, normalize_target-normal}
use fogping.Json.{Json, Members, end, member}
use fogping.TargetsIo.Rows.{
  FileTarget, Decoded, ping, to_file_target, encode_row, add_text, add_int, decode_member,
  decode_members, empty_row, row_target, row_type, named_error, from_file_row,
}

decode-add_text :
    (key v : Text) (rest : Members) (d d' : Decoded)
    → ((v ≡ []) → d ≡ d')
    → decode_member key (Json.str v) d ≡ d'
    → decode_members (add_text key v rest) d ≡ decode_members rest d'
unfolding decode_members add_text
decode-add_text key v rest d d' skip put = elim (Bool-cases (v == [])) [
  | inl empty ↦ rw empty (ap (decode_members rest) (skip (eq_of empty)))
  | inr given ↦ rw given (ap (decode_members rest) put)
]

decode-add_int :
    (key : Text) (v : ℤ) (rest : Members) (d d' : Decoded)
    → ((v ≡ pos 0) → d ≡ d')
    → decode_member key (Json.int v) d ≡ d'
    → decode_members (add_int key v rest) d ≡ decode_members rest d'
unfolding decode_members add_int
decode-add_int key v rest d d' skip put = elim (Bool-cases (v == pos 0)) [
  | inl empty ↦ rw empty (ap (decode_members rest) (skip (eq_of empty)))
  | inr given ↦ rw given (ap (decode_members rest) put)
]

abbrev decoded : FileTarget → Decoded
decoded f = record { row = f; failure = none }

-- Decoding what was encoded gives back the row.
abbrev members_of : FileTarget → Members
members_of f = add_text (codes "name") f.name (
    member (codes "type") (Json.str f.type) (
      member (codes "host") (Json.str f.host) (
        add_int (codes "port") f.port
          (add_text (codes "pace") f.pace (add_int (codes "interval") f.interval end)))))

decode_members-members_of : (f : FileTarget) → decode_members (members_of f) empty_row ≡ decoded f
unfolding decode_members
decode_members-members_of f =
    let e = empty_row.row in
    let d1 : Decoded = decoded (record e { name = f.name }) in
    let d2 : Decoded = decoded (record e { name = f.name; type = f.type; host = f.host }) in
    let d3 : Decoded = decoded (record f { pace = []; interval = pos 0 }) in
    let d4 : Decoded = decoded (record f { interval = pos 0 }) in
    decode-add_text (codes "name") f.name
      (member (codes "type") (Json.str f.type) (
        member (codes "host") (Json.str f.host) (
          add_int (codes "port") f.port
            (add_text (codes "pace") f.pace (add_int (codes "interval") f.interval end)))))
      empty_row d1 (λ none_given. rw none_given) refl
    ∙ decode-add_int (codes "port") f.port
        (add_text (codes "pace") f.pace (add_int (codes "interval") f.interval end)) d2 d3
        (λ zero_given. rw zero_given) refl
    ∙ decode-add_text (codes "pace") f.pace (add_int (codes "interval") f.interval end) d3 d4
        (λ none_given. rw none_given) refl
    ∙ decode-add_int (codes "interval") f.interval end d4 (decoded f) (λ zero_given. rw zero_given)
        refl

from_file_row-encode_row :
    (f : FileTarget) (type : Text)
    → row_type f.type ≡ ok type
    → from_file_row (encode_row f)
      ≡ named_error (trim_space f.name) (normalize_target (row_target type f))
unfolding from_file_row encode_row
from_file_row-encode_row f type h = rw (decode_members-members_of f) (ground arith)

abbrev pub fresh_id : TargetCfg → TargetCfg
fresh_id t = record t { id = 0 }

fresh_id-IsNormal : (t : TargetCfg) → IsNormal t → IsNormal (fresh_id t)
fresh_id-IsNormal t n = record {
  kind = n.kind;
  reachable = n.reachable;
  paced = n.paced;
  nonneg = n.nonneg;
  daily = n.daily;
  named = n.named;
  fits = n.fits;
  printable = n.printable;
  trimmed = n.trimmed;
}

row_type-known : (row_type ping ≡ ok icmp) × (row_type tcp ≡ ok tcp)
unfolding row_type trim_space to_lower
row_type-known = (refl, refl)

-- The row of a normal target passes the validation, up to its id.
normalize_row :
    (t : TargetCfg) (type : Text)
    → IsNormal t
    → t.type ≡ type
    → (to_file_target t).port ≡ t.port
    → normalize_target (row_target type (to_file_target t)) ≡ ok (fresh_id t)
unfolding to_file_target row_target
normalize_row t type n kind port = elim (Bool-cases (t.pace == [])) [
  | inl none_given ↦
      let same : row_target type (to_file_target t) ≡ record (fresh_id t) { pace = normal } =
        ground arith in
      ap normalize_target same
      ∙ normalize_target-normal (fresh_id t) (fresh_id-IsNormal t n) (eq_of none_given)
  | inr given ↦
      let same : row_target type (to_file_target t) ≡ fresh_id t = ground arith in
      ap normalize_target same ∙ normalize_target-fixed (fresh_id t) (fresh_id-IsNormal t n)
]

row_to_target :
    (t : TargetCfg) (type : Text)
    → IsNormal t
    → t.type ≡ type
    → row_type (to_file_target t).type ≡ ok type
    → (to_file_target t).port ≡ t.port
    → from_file_row (encode_row (to_file_target t)) ≡ ok (fresh_id t)
unfolding named_error
row_to_target t type n kind shown port =
    from_file_row-encode_row (to_file_target t) type shown
    ∙ ap (named_error (trim_space (to_file_target t).name)) (normalize_row t type n kind port)

icmp_fields :
    (t : TargetCfg)
    → t.type ≡ icmp
    → t.port ≡ pos 0
    → ((to_file_target t).type ≡ ping) × ((to_file_target t).port ≡ t.port)
unfolding to_file_target
icmp_fields t e p = rw (e, p) (refl, refl)

tcp_fields :
    (t : TargetCfg)
    → t.type ≡ tcp
    → ((to_file_target t).type ≡ tcp) × ((to_file_target t).port ≡ t.port)
unfolding to_file_target
tcp_fields t e = rw e (refl, refl)

-- The row that export writes for a normal target is decoded to that target, without its id.
pub from_file_row-to_file_target :
    (t : TargetCfg)
    → IsNormal t
    → from_file_row (encode_row (to_file_target t)) ≡ ok (record t { id = 0 })
from_file_row-to_file_target t n = elim n.kind [
  | inl (is_icmp, zero_port) ↦
      let (type, port) = icmp_fields t is_icmp zero_port in
      row_to_target t icmp n is_icmp (ap row_type type ∙ row_type-known.0) port
  | inr (is_tcp, lo, hi) ↦
      let (type, port) = tcp_fields t is_tcp in
      row_to_target t tcp n is_tcp (ap row_type type ∙ row_type-known.1) port
]
