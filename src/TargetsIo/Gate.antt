-- ===== src/TargetsIo/Gate.antt =====
-- What `planImport` promises of a plan: every row is sorted once, and what it would add can be
-- added.
use mathlib.Core.List.{Perm, perm_middle, map-append, perm_append_singleton}
use mathlib.Core.List.Perm
use fogping.Prelude.{
  ℕ, zero, suc, ◌≤◌, ◌≡◌, ◌≢◌, refl, sym, ap, ◌∙◌, inl, inr, Bool, true, false, Option, none, some,
  List, [], ◌∷◌, ◌++◌, map, Text, arith, append_assoc, append-nil, ◌==◌, text_eq, eq_of, Bool-cases,
  All, length,
}
use fogping.Prelude.Int.{ℤ, pos, ltb_ℤ, ◌≤ℤ◌}
use fogping.Prelude.Map.{Map, lookup}
use fogping.Prelude.Result.{ok, Result-cases}
use fogping.Config.{TargetCfg, IsNormal}
use fogping.Json.{Json, Items, nil, cons, null, int, num, str, obj, arr, to_items, from_items}
use fogping.TargetsIo.Rows.{to_file_target, from_file_row, targets_format, targets_format_version}
use fogping.TargetsIo.Plan.{
  Plan, Add, Skip, Invalid, Head, plan_rows, plan_import, max_import_targets, empty_plan,
  decode_head, decode_version, decode_rows,
}
use fogping.TargetsIo.Planned.{
  DistinctNames, Sorted, to_invalid, to_skip_seen, to_skip, to_add, plan_decoded-Sorted,
  plan_rows-IsPlanned, from_file_row-IsNormal,
}

to_items-from_items : (items : Items) → to_items (from_items items) ≡ items
unfolding to_items from_items
to_items-from_items nil = refl
to_items-from_items (cons v items) = ap (cons v) (to_items-from_items items)

abbrev pub add_rows : Plan → List ℕ
add_rows p = map (λ (a : Add). a.row) p.add

abbrev pub skip_rows : Plan → List ℕ
skip_rows p = map (λ (s : Skip). s.row) p.skip

abbrev pub invalid_rows : Plan → List ℕ
invalid_rows p = map (λ (x : Invalid). x.row) p.invalid

-- The numbers of the rows that a plan has sorted.
abbrev pub numbers : Plan → List ℕ
numbers p = add_rows p ++ (skip_rows p ++ invalid_rows p)

-- `n` numbers from `start` on.
abbrev pub range : ℕ → ℕ → List ℕ
range start zero = []
range start (suc n) = start ∷ range (suc start) n

module _ (existing : Map Text Bool) where
  snoc_last :
      (row : ℕ) (a b c : List ℕ) → Perm (a ++ (b ++ (c ++ row ∷ []))) (row ∷ (a ++ (b ++ c)))
  snoc_last row a b c =
      rw (← append_assoc b c (row ∷ []), ← append_assoc a (b ++ c) (row ∷ []))
        (perm_append_singleton row (a ++ (b ++ c)))

  snoc_mid : (row : ℕ) (a b c : List ℕ) → Perm (a ++ ((b ++ row ∷ []) ++ c)) (row ∷ (a ++ (b ++ c)))
  snoc_mid row a b c =
      rw (append_assoc b (row ∷ []) c, ← append_assoc a b (row ∷ c), ← append_assoc a b c)
        (perm_middle (a ++ b) c)

  snoc_first :
      (row : ℕ) (a b c : List ℕ) → Perm ((a ++ row ∷ []) ++ (b ++ c)) (row ∷ (a ++ (b ++ c)))
  snoc_first row a b c = rw (append_assoc a (row ∷ []) (b ++ c)) (perm_middle a (b ++ c))

  Sorted-numbers :
      {row : ℕ} {seen : Map Text ℕ} {p : Plan} {next : Map Text ℕ × Plan}
      → Sorted existing row seen p next
      → Perm (numbers next.1) (row ∷ numbers p)
  Sorted-numbers {row} {p = p} (to_invalid x e) =
      rw (map-append (λ (y : Invalid). y.row) p.invalid (x ∷ []), e)
        (snoc_last row (add_rows p) (skip_rows p) (invalid_rows p))
  Sorted-numbers {row} {p = p} (to_skip_seen x e) =
      rw (map-append (λ (y : Skip). y.row) p.skip (x ∷ []), e)
        (snoc_mid row (add_rows p) (skip_rows p) (invalid_rows p))
  Sorted-numbers {row} {p = p} (to_skip x name e) =
      rw (map-append (λ (y : Skip). y.row) p.skip (x ∷ []), e)
        (snoc_mid row (add_rows p) (skip_rows p) (invalid_rows p))
  Sorted-numbers {row} {p = p} (to_add x t e shows n new free) =
      rw (map-append (λ (y : Add). y.row) p.add (x ∷ []), e)
        (snoc_first row (add_rows p) (skip_rows p) (invalid_rows p))

  plan_rows-numbers :
      (i : ℕ) (rows : List Json) (seen : Map Text ℕ) (p : Plan)
      → Perm (numbers (plan_rows existing i rows seen p)) (range (suc i) (length rows) ++ numbers p)
  unfolding plan_rows
  plan_rows-numbers i [] seen p = Perm.refl (numbers p)
  plan_rows-numbers i (raw ∷ rows) seen p =
      let sorted =
        plan_decoded-Sorted existing (suc i) (from_file_row raw) seen p
          (from_file_row-IsNormal raw) in
      Perm.trans (plan_rows-numbers (suc i) rows _ _) (
        Perm.trans (Perm.append_left (range (suc (suc i)) (length rows)) (Sorted-numbers sorted))
          (perm_middle (range (suc (suc i)) (length rows)) (numbers p)))

  Sorted-total :
      {row : ℕ} {seen : Map Text ℕ} {p : Plan} {next : Map Text ℕ × Plan}
      → Sorted existing row seen p next
      → next.1.total ≡ p.total
  Sorted-total (to_invalid x e) = refl
  Sorted-total (to_skip_seen x e) = refl
  Sorted-total (to_skip x name e) = refl
  Sorted-total (to_add x t e shows n new free) = refl

  plan_rows-total :
      (i : ℕ) (rows : List Json) (seen : Map Text ℕ) (p : Plan)
      → (plan_rows existing i rows seen p).total ≡ p.total
  unfolding plan_rows
  plan_rows-total i [] seen p = refl
  plan_rows-total i (raw ∷ rows) seen p =
      let sorted =
        plan_decoded-Sorted existing (suc i) (from_file_row raw) seen p
          (from_file_row-IsNormal raw) in
      plan_rows-total (suc i) rows _ _ ∙ Sorted-total sorted

  decode_version-pos : (o : Option Json) (v : ℤ) → decode_version o ≡ ok v → pos 1 ≤ℤ v
  unfolding decode_version
  decode_version-pos o v h = ground arith

  one_only : (v : ℤ) → pos 1 ≤ℤ v → ltb_ℤ (pos 1) v ≡ false → v ≡ pos 1
  one_only v lo hi = ground arith

  -- An accepted file is an object with the format and the version of this build and with an array of
  -- at most 500 rows, and its plan is that of these rows.
  pub plan_import-rows :
      (body : Option Json) (p : Plan)
      → plan_import existing body ≡ ok p
      → (h : Head) × (rows : List Json) × (decode_head body ≡ ok h)
        × (h.format ≡ targets_format)
        × (decode_version h.version ≡ ok (pos targets_format_version))
        × (decode_rows h.targets ≡ ok rows)
        × (length rows ≤ max_import_targets)
        × (p ≡ plan_rows existing 0 rows [] (empty_plan h (length rows)))
  unfolding plan_import
  plan_import-rows body p e = elim (Result-cases (decode_head body)) [
    | inr (x, failed) ↦ absurd (ground arith)
    | inl (h, head_ok) ↦ elim (Bool-cases (h.format == targets_format)) [
      | inr other ↦ absurd (ground arith)
      | inl format ↦ elim (Result-cases (decode_version h.version)) [
        | inr (x, failed) ↦ absurd (ground arith)
        | inl (v, version_ok) ↦ elim (Result-cases (decode_rows h.targets)) [
          | inr (x, failed) ↦ absurd (ground arith)
          | inl (rows, rows_ok) ↦
              let only : v ≡ pos 1 =
                one_only v (decode_version-pos h.version v version_ok) (ground arith) in
              (
                h,
                rows,
                head_ok,
                eq_of format,
                version_ok ∙ ap ok only,
                rows_ok,
                ground arith,
                ground arith,
              )
        ]
      ]
    ]
  ]

  decode_rows-arr :
      (o : Option Json) (rows : List Json)
      → decode_rows o ≡ ok rows
      → o ≡ some (arr (to_items rows))
  unfolding decode_rows
  decode_rows-arr none rows h = absurd (cc h)
  decode_rows-arr (some null) rows h = absurd (cc h)
  decode_rows-arr (some (Json.bool b)) rows h = absurd (cc h)
  decode_rows-arr (some (int v)) rows h = absurd (cc h)
  decode_rows-arr (some (num s)) rows h = absurd (cc h)
  decode_rows-arr (some (str s)) rows h = absurd (cc h)
  decode_rows-arr (some (obj members)) rows h = absurd (cc h)
  decode_rows-arr (some (arr items)) rows h =
      let same : from_items items ≡ rows = cc h in
      ap (λ (vs : Items). some (arr vs))
        (sym (to_items-from_items items) ∙ ap (λ (vs : List Json). to_items vs) same)

  -- The plan of an accepted file: the file's targets are an array of rows, at most 500, and each of
  -- them is sorted once, into add, skip or invalid; the targets to be added are normal, have
  -- distinct names, none of which is an active target's, and are shown in `add` row by row.
  pub plan_import-gate :
      (body : Option Json) (p : Plan)
      → plan_import existing body ≡ ok p
      → (h : Head) × (rows : List Json) × (decode_head body ≡ ok h)
        × (h.targets ≡ some (arr (to_items rows)))
        × (p.total ≡ length rows)
        × (length rows ≤ 500)
        × Perm (numbers p) (range 1 (length rows))
        × All IsNormal p.cfgs
        × DistinctNames p.cfgs
        × All (λ (t : TargetCfg). lookup t.name existing ≢ some true) p.cfgs
        × (map (λ (a : Add). a.target) p.add ≡ map to_file_target p.cfgs)
  plan_import-gate body p e =
      let (h, rows, head_ok, _, _, rows_ok, few, planned) = plan_import-rows body p e in
      let start = empty_plan h (length rows) in
      let total = plan_rows-total 0 rows [] start in
      let (_, inv) =
        plan_rows-IsPlanned existing 0 rows [] start
          (record { normal = tt; inactive = tt; noted = tt; distinct = tt; shown = refl }) in
      let sorted = rw append-nil at (plan_rows-numbers 0 rows [] start) in
      (
        h,
        rows,
        head_ok,
        decode_rows-arr h.targets rows rows_ok,
        rw planned total,
        few,
        rw planned sorted,
        rw planned inv.normal,
        rw planned inv.distinct,
        rw planned inv.inactive,
        rw planned inv.shown,
      )
