-- ===== src/TargetsIo/Grown.antt =====
-- The plan of rows that are exported targets.
use mathlib.Core.List.{map-append}
use fogping.Prelude.{
  not, Option, keep, Bool-cases, ℕ, suc, ◌≡◌, ◌≢◌, refl, sym, ap, ◌∙◌, inl, inr, Bool, true, false,
  none, some, List, [], ◌∷◌, ◌++◌, map, Text, append_assoc, append-nil, text_eq, beq_of_ne,
  Option-cases, All,
}
use fogping.Prelude.Map.{Map, lookup, insert, lookup-insert}
use fogping.Prelude.Result.{ok}
use fogping.Config.{TargetCfg, IsNormal}
use fogping.Json.{Json}
use fogping.TargetsIo.Rows.{to_file_target, encode_row}
use fogping.TargetsIo.Plan.{Plan, Skip, SkipCode, exists_in_table, plan_decoded, plan_rows}
use fogping.TargetsIo.Planned.{DistinctNames}
use fogping.TargetsIo.RoundTrip.{fresh_id, from_file_row-to_file_target}

abbrev pub rows_of : List TargetCfg → List Json
rows_of [] = []
rows_of (t ∷ ts) = encode_row (to_file_target t) ∷ rows_of ts

-- The name is that of an active target.
abbrev pub is_active : Option Bool → Bool
is_active none = false
is_active (some active) = active

abbrev pub taken : Map Text Bool → TargetCfg → Bool
taken existing t = is_active (lookup t.name existing)

abbrev pub fresh : Map Text Bool → TargetCfg → Bool
fresh existing t = not (is_active (lookup t.name existing))

-- Which names were skipped, and why.
abbrev pub skipped : List Skip → List (Text × SkipCode)
skipped skip = map (λ (s : Skip). (s.name, s.code)) skip

abbrev pub as_skipped : List TargetCfg → List (Text × SkipCode)
as_skipped ts = map (λ (t : TargetCfg). (t.name, exists_in_table)) ts

-- The plan has grown by the given targets: it adds those of new names, skips the others, and refuses
-- none.
pub record Grown (existing : Map Text Bool) (p q : Plan) (ts : List TargetCfg) : Type 0 where
  pub cfgs : q.cfgs ≡ p.cfgs ++ map fresh_id (keep (fresh existing) ts)
  pub skip : skipped q.skip ≡ skipped p.skip ++ as_skipped (keep (taken existing) ts)
  pub invalid : q.invalid ≡ p.invalid

module _ (existing : Map Text Bool) where
  -- A row of a name that the file did not have grows the plan by its target.
  plan_decoded-new :
      (row : ℕ) (t : TargetCfg) (seen : Map Text ℕ) (p : Plan)
      → lookup t.name seen ≡ none
      → ((plan_decoded existing row (ok (fresh_id t)) seen p).0 ≡ insert t.name row seen)
        × Grown existing p (plan_decoded existing row (ok (fresh_id t)) seen p).1 (t ∷ [])
  unfolding plan_decoded
  plan_decoded-new row t seen p new =
      let x : Skip = record { row = row; name = t.name; code = exists_in_table } in
      let add : List TargetCfg → List TargetCfg = λ ts. p.cfgs ++ map fresh_id ts in
      let pass : List TargetCfg → List (Text × SkipCode) = λ ts. skipped p.skip ++ as_skipped ts in
      elim (Option-cases (lookup t.name existing)) [
        | inl absent ↦
            let new1 : t ∷ [] ≡ keep (fresh existing) (t ∷ []) = rw absent refl in
            let old1 : [] ≡ keep (taken existing) (t ∷ []) = rw absent refl in
            rw (new, absent)
              (
                refl,
                record {
                  cfgs = ap add new1;
                  skip = sym (append-nil (skipped p.skip)) ∙ ap pass old1;
                  invalid = refl;
                },
              )
        | inr (true, known) ↦
            let new1 : [] ≡ keep (fresh existing) (t ∷ []) = rw known refl in
            let old1 : t ∷ [] ≡ keep (taken existing) (t ∷ []) = rw known refl in
            rw (new, known)
              (
                refl,
                record {
                  cfgs = sym (append-nil p.cfgs) ∙ ap add new1;
                  skip = map-append (λ (s : Skip). (s.name, s.code)) p.skip (x ∷ []) ∙ ap pass old1;
                  invalid = refl;
                },
              )
        | inr (false, known) ↦
            let new1 : t ∷ [] ≡ keep (fresh existing) (t ∷ []) = rw known refl in
            let old1 : [] ≡ keep (taken existing) (t ∷ []) = rw known refl in
            rw (new, known)
              (
                refl,
                record {
                  cfgs = ap add new1;
                  skip = sym (append-nil (skipped p.skip)) ∙ ap pass old1;
                  invalid = refl;
                },
              )
      ]

  lookup-others :
      (t : TargetCfg) (row : ℕ) (ts : List TargetCfg) (seen : Map Text ℕ)
      → All (λ (u : TargetCfg). u.name ≢ t.name) ts
      → All (λ (u : TargetCfg). lookup u.name seen ≡ none) ts
      → All (λ (u : TargetCfg). lookup u.name (insert t.name row seen) ≡ none) ts
  lookup-others t row [] seen d s = tt
  lookup-others t row (u ∷ ts) seen d s = (
    rw (lookup-insert t.name u.name row seen, beq_of_ne {a = t.name} (λ e. d.0 (sym e))) s.0,
    lookup-others t row ts seen d.1 s.1,
  )

  keep_head :
      (f : TargetCfg → Bool) (t : TargetCfg) (ts : List TargetCfg)
      → keep f (t ∷ ts) ≡ keep f (t ∷ []) ++ keep f ts
  keep_head f t ts = elim (Bool-cases (f t)) [ inl in_it ↦ rw in_it refl | inr out ↦ rw out refl ]

  Grown-trans :
      (p q r : Plan) (t : TargetCfg) (ts : List TargetCfg)
      → Grown existing p q (t ∷ [])
      → Grown existing q r ts
      → Grown existing p r (t ∷ ts)
  Grown-trans p q r t ts one rest =
      let new = keep (fresh existing) (t ∷ []) in
      let old = keep (taken existing) (t ∷ []) in
      record {
        cfgs =
            rest.cfgs
            ∙ ap (λ cs. cs ++ map fresh_id (keep (fresh existing) ts)) one.cfgs
            ∙ append_assoc p.cfgs (map fresh_id new) (map fresh_id (keep (fresh existing) ts))
            ∙ ap (λ cs. p.cfgs ++ cs)
                (sym (map-append fresh_id new (keep (fresh existing) ts))
                  ∙ ap (map fresh_id) (sym (keep_head (fresh existing) t ts)));
        skip =
            rest.skip
            ∙ ap (λ xs. xs ++ as_skipped (keep (taken existing) ts)) one.skip
            ∙ append_assoc (skipped p.skip) (as_skipped old) (as_skipped (keep (taken existing) ts))
            ∙ ap (λ xs. skipped p.skip ++ xs)
                (sym (
                    map-append (λ (u : TargetCfg). (u.name, exists_in_table)) old
                      (keep (taken existing) ts))
                  ∙ ap as_skipped (sym (keep_head (taken existing) t ts)));
        invalid = rest.invalid ∙ one.invalid;
      }

  pub plan_rows-rows_of :
      (i : ℕ) (ts : List TargetCfg) (seen : Map Text ℕ) (p : Plan)
      → All IsNormal ts
      → DistinctNames ts
      → All (λ (t : TargetCfg). lookup t.name seen ≡ none) ts
      → Grown existing p (plan_rows existing i (rows_of ts) seen p) ts
  unfolding plan_rows
  plan_rows-rows_of i [] seen p n d s = record {
    cfgs = sym (append-nil p.cfgs);
    skip = sym (append-nil (skipped p.skip));
    invalid = refl;
  }
  plan_rows-rows_of i (t ∷ ts) seen p n d s =
      let (noted, one) = plan_decoded-new (suc i) t seen p s.0 in
      let next = plan_decoded existing (suc i) (ok (fresh_id t)) seen p in
      let rest =
        plan_rows-rows_of (suc i) ts next.0 next.1 n.1 d.1
          (rw noted (lookup-others t (suc i) ts seen d.0 s.1)) in
      rw (from_file_row-to_file_target t n.0, plan_rows)
        (Grown-trans p next.1 (plan_rows existing (suc i) (rows_of ts) next.0 next.1) t ts one rest)
