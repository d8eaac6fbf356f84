-- ===== src/Store/Known.antt =====
-- The names that the live set of store.go knows, and how the methods of store.go and the first loop
-- of runner.go change them.
use fogping.Prelude.{
  ℕ, suc, ◌+◌, ap, ◌≡◌, ◌≢◌, refl, ◌∙◌, inl, inr, Option, none, some, List, [], ◌∷◌, ◌++◌, Text,
  ◌==◌, nat_eq, text_eq, text_beq_iff, eq_refl, arith, Bool-cases, Option-cases, ◌⊎◌, eq_of,
  if◌then◌else◌, subst,
}
use fogping.Prelude.Map.{lookup, insert, lookup-insert, lookup-remove}
use fogping.Config.{TargetCfg}
use fogping.Float.{Float}
use fogping.Targets.Rows.{Row, Table, find}
use fogping.Store.{Memory, Round, RoundRow}
use fogping.Store.Live.{remove_target, rename_target, append}
use fogping.Store.Ring.{append-known}
use fogping.Store.Ensure.{Access, ensure_target, register, insert_bare, bare_row}
use fogping.Store.Query.{replay}

module _ {F : Type 0} where
  abbrev pub Known : Text → Memory F → Type 0
  Known name s = (id : ℕ) × (lookup name s.ids ≡ some id)

  pub remove_target-Known :
      (old name : Text) (s : Memory F)
      → old ≢ name
      → Known name s
      → Known name (remove_target old s)
  unfolding remove_target
  remove_target-Known old name s apart (id, known) =
      (id, lookup-remove old name s.ids ∙ ground (arith, text_beq_iff old name))

  pub rename_target-Known :
      (old new name : Text) (s : Memory F)
      → old ≢ name
      → Known name s
      → Known name (rename_target old new s)
  unfolding rename_target
  rename_target-Known old new name s apart (id, known) = elim (Option-cases (lookup old s.ids)) [
    | inl absent ↦ rw (absent, rename_target) (id, known)
    | inr (own, live) ↦
        let at = lookup-remove old name (insert new own s.ids) in
        let moved = lookup-insert new name own s.ids in
        elim (Bool-cases (new == name)) [
          | inl this ↦ (own, ground (arith, live, at, moved, this, text_beq_iff old name))
          | inr other ↦ (id, ground (arith, live, at, moved, other, text_beq_iff old name))
        ]
  ]

module _ (float : Float) where
  open float use {F}

  Known-insert :
      (key name : Text) (id : ℕ) (s : Memory F)
      → Known name s
      → (k : ℕ) × (lookup name (insert key id s.ids) ≡ some k)
  Known-insert key name id s (k, known) = elim (Bool-cases (key == name)) [
    | inl this ↦ (id, lookup-insert key name id s.ids ∙ rw this refl)
    | inr other ↦ (k, lookup-insert key name id s.ids ∙ rw other known)
  ]

  register-ids :
      (a : Access) (name : Text) (id : ℕ) (rows : List (RoundRow F)) (s : Memory F)
      → (register float a name id rows s).ids ≡ insert name id s.ids
  unfolding register replay
  register-ids a name id rows s = rw (lookup-insert name name id s.ids, eq_refl name, replay) refl

  register-Known :
      (a : Access) (key name : Text) (id : ℕ) (rows : List (RoundRow F)) (s : Memory F)
      → Known name s
      → Known name (register float a key id rows s)
  register-Known a key name id rows s known =
      let (k, e) = Known-insert key name id s known in
      (k, ap (lookup name) (register-ids a key id rows s) ∙ e)

  register-joins :
      (a : Access) (name : Text) (id : ℕ) (rows : List (RoundRow F)) (s : Memory F)
      → Known name (register float a name id rows s)
  register-joins a name id rows s = (
    id,
    ap (lookup name) (register-ids a name id rows s)
        ∙ lookup-insert name name id s.ids
        ∙ rw (eq_refl name) refl,
  )

  -- Each name that was known, and the target's own if there is no error.
  abbrev pub Grown : Text → Memory F → Option Text × Memory F × Table → Type 0
  Grown own s after =
      ((name : Text) → Known name s → Known name (after.1)) × (after.0 ≡ none → Known own (after.1))

  register-Grown :
      (a : Access) (own : Text) (id : ℕ) (rows : List (RoundRow F)) (s : Memory F) (table : Table)
      → Grown own s (none, register float a own id rows s, table)
  register-Grown a own id rows s table =
      (λ name. register-Known a own name id rows s, λ fine. register-joins a own id rows s)

  pub ensure_target-Grown :
      (a : Access) (t : TargetCfg) (rows : List (RoundRow F)) (s : Memory F) (table : Table)
      → Grown t.name s (ensure_target float a t rows s table)
  unfolding ensure_target insert_bare
  ensure_target-Grown a t rows s table = elim (Option-cases (lookup t.name s.ids)) [
    | inr (id, live) ↦ rw (live, ensure_target) ((λ name known. known), λ fine. (id, live))
    | inl absent ↦ elim (Option-cases a.select) [
      | inr (e, fault) ↦
          rw (absent, fault, ensure_target) ((λ name known. known), λ fine. absurd (cc fine))
      | inl reads ↦ elim (Option-cases (find t.name table.rows)) [
        | inr (row, stored) ↦
            rw (absent, reads, stored, ensure_target) (register-Grown a t.name row.id rows s table)
        | inl fresh ↦ elim (Option-cases a.insertion) [
          | inr (e, fault) ↦
              rw (absent, reads, fresh, fault, ensure_target)
                ((λ name known. known), λ fine. absurd (cc fine))
          | inl inserts ↦
              let gap = table.seq + suc a.gap in
              rw (absent, reads, fresh, inserts, ensure_target)
                (register-Grown a t.name gap rows s
                  (record { rows = table.rows ++ bare_row t.name gap ∷ []; seq = gap }))
        ]
      ]
    ]
  ]

  -- A name joins under its id, or nothing changes.
  pub record JoinsAs (own : Text) (id : ℕ) (s : Memory F) (table : Table)
      (after : Option Text × Memory F × Table) : Type 0 where
    pub same : after.2 ≡ table
    pub back :
        (name : Text) (k : ℕ)
        → lookup name (after.1.ids) ≡ some k
        → (lookup name s.ids ≡ some k) ⊎ (own ≡ name) × (id ≡ k) × (after.0 ≡ none)
    pub forth :
        (name : Text) (k : ℕ) → lookup name s.ids ≡ some k → lookup name (after.1.ids) ≡ some k
    pub owned : after.0 ≡ none → lookup own (after.1.ids) ≡ some id
    pub sure : lookup own s.ids ≡ some id → after.0 ≡ none

  unchanged-JoinsAs :
      (own : Text) (id : ℕ) (s : Memory F) (table : Table) (e : Option Text)
      → (e ≡ none → lookup own s.ids ≡ some id)
      → (lookup own s.ids ≡ some id → e ≡ none)
      → JoinsAs own id s table (e, s, table)
  unchanged-JoinsAs own id s table e known sure = record {
    same = refl;
    back = λ name k h. inl h;
    forth = λ name k h. h;
    owned = known;
    sure = sure;
  }

  register-JoinsAs :
      (a : Access) (own : Text) (id : ℕ) (rows : List (RoundRow F)) (s : Memory F) (table : Table)
      → lookup own s.ids ≡ none
      → JoinsAs own id s table (none, register float a own id rows s, table)
  register-JoinsAs a own id rows s table absent =
      let ids : (name : Text)
          → lookup name (register float a own id rows s).ids
            ≡ (if own == name then some id else lookup name s.ids) =
        λ name. ap (lookup name) (register-ids a own id rows s) ∙ lookup-insert own name id s.ids in
      record {
        same = refl;
        back = λ name k h. elim (Bool-cases (own == name)) [
          | inl this ↦ inr (eq_of this, ground (arith, ids name, this, h), refl)
          | inr other ↦ inl (ground (arith, ids name, other, h))
        ];
        forth = λ name k h. elim (Bool-cases (own == name)) [
          | inl this ↦
              let gone : lookup name s.ids ≡ none =
                subst (λ n. lookup n s.ids ≡ none) (eq_of this) absent in
              absurd (cc (gone, h))
          | inr other ↦ ids name ∙ rw other h
        ];
        owned = λ fine. ids own ∙ rw (eq_refl own) refl;
        sure = λ known. refl;
      }

  -- A target whose row the table has is known under its id afterwards, or not at all.
  pub ensure_target-JoinsAs :
      (a : Access) (t : TargetCfg) (rows : List (RoundRow F)) (s : Memory F) (table : Table)
      (row : Row)
      → find t.name table.rows ≡ some row
      → ((k : ℕ) → lookup t.name s.ids ≡ some k → k ≡ row.id)
      → JoinsAs t.name row.id s table (ensure_target float a t rows s table)
  unfolding ensure_target
  ensure_target-JoinsAs a t rows s table row stored right =
      elim (Option-cases (lookup t.name s.ids)) [
        | inr (k, live) ↦
            rw (live, ensure_target)
              (unchanged-JoinsAs t.name row.id s table none (λ fine. live ∙ ap some (right k live))
                (λ known. refl))
        | inl absent ↦ elim (Option-cases a.select) [
          | inr (e, fault) ↦
              rw (absent, fault, ensure_target)
                (unchanged-JoinsAs t.name row.id s table (some e) (λ fine. absurd (cc fine))
                  (λ known. absurd (cc (known, absent))))
          | inl reads ↦
              rw (absent, reads, stored, ensure_target)
                (register-JoinsAs a t.name row.id rows s table absent)
        ]
      ]

  pub append-Known :
      (fault : Option Text) (own name : Text) (r : Round F) (s : Memory F)
      (rows : List (RoundRow F))
      → Known name s
      → Known name (append float fault own r (s, rows)).1
  unfolding append
  append-Known fault own name r s rows (id, known) = elim (Option-cases (lookup own s.ids)) [
    | inl absent ↦ rw (absent, append) (id, known)
    | inr (k, live) ↦
        (id, ap (lookup name) (append-known float fault own r s rows k live).0 ∙ known)
  ]
