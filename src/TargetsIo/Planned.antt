-- ===== src/TargetsIo/Planned.antt =====
-- What the plan of an import holds, whatever the file.
use mathlib.Core.List.{map-append}
use fogping.Prelude.{
  ℕ, suc, ◌≡◌, ◌≢◌, refl, sym, ap, ◌∙◌, inl, inr, Bool, true, false, none, some, List, [], ◌∷◌,
  ◌++◌, map, Text, arith, text_eq, eq_refl, Option-cases, All, All-append, All-map,
}
use fogping.Prelude.Map.{Map, lookup, insert, lookup-insert}
use fogping.Prelude.Result.{Result, ok, err, Result-cases}
use fogping.Config.{TargetCfg, IsNormal, normalize_target}
use fogping.Config.Normal.{normalize_target-IsNormal}
use fogping.Json.{Json, obj}
use fogping.TargetsIo.Rows.{
  RowError, to_file_target, from_file_row, decode_members, empty_row, row_type, row_target,
}
use fogping.TargetsIo.Plan.{Plan, Add, Skip, Invalid, plan_decoded, plan_rows}

pub from_file_row-IsNormal : (raw : Json) (t : TargetCfg) → from_file_row raw ≡ ok t → IsNormal t
unfolding from_file_row
from_file_row-IsNormal (obj members) t h =
    let d = decode_members members empty_row in
    elim (Option-cases d.failure) [
      | inr (e, failed) ↦ absurd (ground arith)
      | inl fine ↦ elim (Result-cases (row_type d.row.type)) [
        | inr (e, failed) ↦ absurd (ground arith)
        | inl (type, typed) ↦ elim (Result-cases (normalize_target (row_target type d.row))) [
          | inr (e, failed) ↦ absurd (ground arith)
          | inl (r, passed) ↦
              let same : r ≡ t = ground arith in
              rw (← same) (normalize_target-IsNormal (row_target type d.row) r passed)
        ]
      ]
    ]
from_file_row-IsNormal raw t h = cc

-- No two targets of a list have one name.
abbrev pub DistinctNames : List TargetCfg → Type 0
DistinctNames [] = Unit
DistinctNames (t ∷ ts) = All (λ (u : TargetCfg). u.name ≢ t.name) ts × DistinctNames ts

DistinctNames-snoc :
    (ts : List TargetCfg) (t : TargetCfg)
    → DistinctNames ts
    → All (λ (u : TargetCfg). u.name ≢ t.name) ts
    → DistinctNames (ts ++ t ∷ [])
DistinctNames-snoc [] t d a = (tt, tt)
DistinctNames-snoc (u ∷ ts) t d a = (
  All-append (λ (v : TargetCfg). v.name ≢ u.name) ts (t ∷ []) d.0 ((λ e. a.0 (sym e)), tt),
  DistinctNames-snoc ts t d.1 a.1,
)

module _ (existing : Map Text Bool) where
  -- A row ends in exactly one of the three lists.
  pub data Sorted (row : ℕ) (seen : Map Text ℕ) (p : Plan) : Map Text ℕ × Plan → Type 0 where
    to_invalid :
        (x : Invalid)
        → x.row ≡ row
        → Sorted row seen p (seen, record p { invalid = p.invalid ++ x ∷ [] })
    to_skip_seen :
        (x : Skip) → x.row ≡ row → Sorted row seen p (seen, record p { skip = p.skip ++ x ∷ [] })
    to_skip :
        (x : Skip) (name : Text)
        → x.row ≡ row
        → Sorted row seen p (insert name row seen, record p { skip = p.skip ++ x ∷ [] })
    to_add :
        (x : Add) (t : TargetCfg)
        → x.row ≡ row
        → x.target ≡ to_file_target t
        → IsNormal t
        → lookup t.name seen ≡ none
        → lookup t.name existing ≢ some true
        → Sorted row seen p
            (insert t.name row seen, record p { add = p.add ++ x ∷ []; cfgs = p.cfgs ++ t ∷ [] })

  pub plan_decoded-Sorted :
      (row : ℕ) (r : Result (Text × RowError) TargetCfg) (seen : Map Text ℕ) (p : Plan)
      → ((t : TargetCfg) → r ≡ ok t → IsNormal t)
      → Sorted row seen p (plan_decoded existing row r seen p)
  unfolding plan_decoded
  plan_decoded-Sorted row (err (name, e)) seen p n = to_invalid _ refl
  plan_decoded-Sorted row (ok t) seen p n = elim (Option-cases (lookup t.name seen)) [
    | inr (earlier, dup) ↦ rw dup (to_skip_seen _ refl)
    | inl new ↦ elim (Option-cases (lookup t.name existing)) [
      | inl absent ↦ rw (new, absent) (to_add _ t refl refl (n t refl) new (λ e. cc))
      | inr (true, known) ↦ rw (new, known) (to_skip _ t.name refl)
      | inr (false, known) ↦ rw (new, known) (to_add _ t refl refl (n t refl) new (λ e. cc))
    ]
  ]

  -- What holds of the plan after some rows.
  pub record IsPlanned (seen : Map Text ℕ) (p : Plan) : Type 0 where
    pub normal : All IsNormal p.cfgs
    pub inactive : All (λ (t : TargetCfg). lookup t.name existing ≢ some true) p.cfgs
    pub noted : All (λ (t : TargetCfg). lookup t.name seen ≢ none) p.cfgs
    pub distinct : DistinctNames p.cfgs
    pub shown : map (λ (a : Add). a.target) p.add ≡ map to_file_target p.cfgs

  noted-insert :
      (name : Text) (row : ℕ) (seen : Map Text ℕ) (ts : List TargetCfg)
      → All (λ (t : TargetCfg). lookup t.name seen ≢ none) ts
      → All (λ (t : TargetCfg). lookup t.name (insert name row seen) ≢ none) ts
  noted-insert name row seen ts a =
      All-map (λ t ne e. ne (ground (arith, lookup-insert name t.name row seen))) ts a

  Sorted-IsPlanned :
      {row : ℕ} {seen : Map Text ℕ} {p : Plan} {next : Map Text ℕ × Plan}
      → Sorted row seen p next
      → IsPlanned seen p
      → IsPlanned next.0 next.1
  Sorted-IsPlanned (to_invalid x e) h = record {
    normal = h.normal;
    inactive = h.inactive;
    noted = h.noted;
    distinct = h.distinct;
    shown = h.shown;
  }
  Sorted-IsPlanned (to_skip_seen x e) h = record {
    normal = h.normal;
    inactive = h.inactive;
    noted = h.noted;
    distinct = h.distinct;
    shown = h.shown;
  }
  Sorted-IsPlanned {row} {seen} {p} (to_skip x name e) h = record {
    normal = h.normal;
    inactive = h.inactive;
    noted = noted-insert name row seen p.cfgs h.noted;
    distinct = h.distinct;
    shown = h.shown;
  }
  Sorted-IsPlanned {row} {seen} {p} (to_add x t e shows n new free) h = record {
    normal = All-append IsNormal p.cfgs (t ∷ []) h.normal (n, tt);
    inactive =
        All-append (λ (u : TargetCfg). lookup u.name existing ≢ some true) p.cfgs (t ∷ [])
          h.inactive (free, tt);
    noted =
        All-append (λ (u : TargetCfg). lookup u.name (insert t.name row seen) ≢ none) p.cfgs
          (t ∷ []) (noted-insert t.name row seen p.cfgs h.noted)
          (
            (λ none_there. ground (arith, lookup-insert t.name t.name row seen, eq_refl t.name)),
            tt,
          );
    distinct = DistinctNames-snoc p.cfgs t h.distinct (
        All-map (λ u there same. there (ap (λ (name : Text). lookup name seen) same ∙ new)) p.cfgs
          h.noted);
    shown = rw (
      map-append (λ (a : Add). a.target) p.add (x ∷ []),
      map-append to_file_target p.cfgs (t ∷ []),
      h.shown,
      shows,
    );
  }

  pub plan_rows-IsPlanned :
      (i : ℕ) (rows : List Json) (seen : Map Text ℕ) (p : Plan)
      → IsPlanned seen p
      → (last : Map Text ℕ) × IsPlanned last (plan_rows existing i rows seen p)
  unfolding plan_rows
  plan_rows-IsPlanned i [] seen p h = (seen, h)
  plan_rows-IsPlanned i (raw ∷ rows) seen p h =
      let sorted =
        plan_decoded-Sorted (suc i) (from_file_row raw) seen p (from_file_row-IsNormal raw) in
      plan_rows-IsPlanned (suc i) rows _ _ (Sorted-IsPlanned sorted h)
