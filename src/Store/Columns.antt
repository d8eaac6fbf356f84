-- ===== src/Store/Columns.antt =====
-- The columns of the tables that store.go and targets.go use, and what `migrateTargets` adds to
-- them.
use fogping.Prelude.{
  codes, ◌⊎◌, ◌≡◌, refl, sym, subst, ◌∙◌, inl, inr, true, false, Option, none, List, [], ◌∷◌, ◌++◌,
  Text, ◌==◌, eq_refl, text_eq, any-append, All, arith, Bool-cases, Option-cases,
}
use fogping.Store.Schema.{Schema, Faults, has, created, add_columns}

-- Nothing fails.
abbrev pub no_faults : Faults
no_faults = record {
  folder = none;
  connection = none;
  pragmas = none ∷ none ∷ none ∷ none ∷ none ∷ [];
  tables = λ i. none;
  info = none;
  scan = none;
  column = λ name. none;
  daily = none;
}

abbrev pub Has : Text → List Text → Type 0
Has name columns = has name columns ≡ true

Has-append :
    (name more : Text) (columns : List Text) → Has name columns → Has name (columns ++ more ∷ [])
Has-append name more columns h = any-append (λ c. c == name) columns (more ∷ []) ∙ rw h refl

Has-last : (name : Text) (columns : List Text) → Has name (columns ++ name ∷ [])
Has-last name columns =
    any-append (λ c. c == name) columns (name ∷ []) ∙ ground (arith, eq_refl name)

module _ (fault : Text → Option Text) (have : List Text) where
  pub add_columns-keeps :
      (name : Text) (names columns : List Text)
      → Has name columns
      → Has name (add_columns fault have names columns).1
  unfolding add_columns
  add_columns-keeps name [] columns h = h
  add_columns-keeps name (n ∷ names) columns h = elim (Bool-cases (has n have)) [
    | inl there ↦ rw there (add_columns-keeps name names columns h)
    | inr missing ↦ elim (Option-cases (fault n)) [
      | inr (e, fails) ↦ rw (missing, fails) h
      | inl fine ↦
          rw (missing, fine)
            (add_columns-keeps name names (columns ++ n ∷ []) (Has-append name n columns h))
    ]
  ]

-- No error, and all the names are there.
abbrev pub Adds : List Text → Option Text × List Text → Type 0
Adds names r = (r.0 ≡ none) × All (λ n. Has n r.1) names

module _ (have : List Text) where
  pub add_columns-fine :
      (names columns : List Text)
      → ((c : Text) → Has c have → Has c columns)
      → Adds names (add_columns (λ name. none) have names columns)
  unfolding add_columns
  add_columns-fine [] columns h = (refl, tt)
  add_columns-fine (n ∷ names) columns h = elim (Bool-cases (has n have)) [
    | inl there ↦
        let (fine, rest) = add_columns-fine names columns h in
        let next : add_columns (λ name. none) have (n ∷ names) columns
            ≡ add_columns (λ name. none) have names columns =
          rw there refl in
        subst (Adds (n ∷ names)) (sym next)
          (fine, (add_columns-keeps (λ name. none) have n names columns (h n there), rest))
    | inr missing ↦
        let (fine, rest) =
          add_columns-fine names (columns ++ n ∷ []) (λ c k. Has-append c n columns (h c k)) in
        let next : add_columns (λ name. none) have (n ∷ names) columns
            ≡ add_columns (λ name. none) have names (columns ++ n ∷ []) =
          rw missing refl in
        subst (Adds (n ∷ names)) (sym next) (
          fine,
          (
            add_columns-keeps (λ name. none) have n names (columns ++ n ∷ []) (Has-last n columns),
            rest,
          ),
        )
  ]

-- The columns that the statements of store.go and targets.go name: those of a `targets` from before
-- the migration, and those of the three tables.
abbrev pub first_targets : List Text
first_targets = codes "id" ∷ codes "name" ∷ []

abbrev used_targets : List Text
used_targets =
    codes "id"
    ∷ codes "name"
    ∷ codes "type"
    ∷ codes "host"
    ∷ codes "port"
    ∷ codes "pace"
    ∷ codes "interval_sec"
    ∷ codes "active"
    ∷ []

abbrev pub used_rounds : List Text
used_rounds =
    codes "target_id"
    ∷ codes "t"
    ∷ codes "sent"
    ∷ codes "recv"
    ∷ codes "samples"
    ∷ codes "burst"
    ∷ codes "z"
    ∷ []

abbrev pub used_hourly : List Text
used_hourly =
    codes "target_id"
    ∷ codes "t"
    ∷ codes "lo"
    ∷ codes "p50"
    ∷ codes "p90"
    ∷ codes "p99"
    ∷ codes "hi"
    ∷ codes "loss_pct"
    ∷ codes "bursts"
    ∷ codes "n"
    ∷ []

-- The table is not there, or it has the columns.
abbrev pub Whole : List Text → List Text → Type 0
Whole columns present = (present ≡ []) ⊎ All (λ n. Has n present) columns

-- The file has all that the program uses, and no daily table.
pub record IsReady (db : Schema) : Type 0 where
  pub targets : All (λ n. Has n db.columns) used_targets
  pub rounds : All (λ n. Has n db.rounds) used_rounds
  pub hourly : All (λ n. Has n db.hourly) used_hourly
  pub daily : db.daily ≡ false

pub created-all :
    (used columns present : List Text)
    → All (λ n. Has n columns) used
    → Whole used present
    → All (λ n. Has n (created columns present)) used
unfolding created
created-all used columns [] own whole = own
created-all used columns (c ∷ present) own (inl none_there) = absurd (cc none_there)
created-all used columns (c ∷ present) own (inr all) = all

pub created-keeps :
    (name : Text) (columns present : List Text)
    → Has name present
    → Has name (created columns present)
unfolding created
created-keeps name columns [] h = absurd (cc h)
created-keeps name columns (c ∷ present) h = h
