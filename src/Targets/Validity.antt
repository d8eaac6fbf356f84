-- ===== src/Targets/Validity.antt =====
-- The invariant of the table of targets and its preservation by every statement of targets.go.
use fogping.Prelude.{
  ℕ, ◌≤◌, ◌<◌, ◌≡◌, ◌≢◌, sym, subst, ◌∙◌, true, none, List, [], ◌∷◌, ◌++◌, Text, arith, ◌==◌,
  nat_eq, text_eq, text_beq_iff, nat_beq_iff, eq_of, ne_of, Bool-cases, inl, inr, All, All-append,
}
use fogping.Config.{TargetCfg, IsNormal}
use fogping.Targets.Rows.{Row, Table, find, reactivate, rewrite}

-- Ids ascend from above `lo`, and none is above `hi`.
abbrev pub Ascends : ℕ → List Row → ℕ → Type 0
Ascends lo [] hi = lo ≤ hi
Ascends lo (r ∷ rows) hi = (lo < r.id) × Ascends r.id rows hi

abbrev pub Lacks : Text → List Row → Type 0
Lacks name rows = All (λ (r : Row). r.name ≢ name) rows

abbrev pub UniqueNames : List Row → Type 0
UniqueNames [] = Unit
UniqueNames (r ∷ rows) = Lacks r.name rows × UniqueNames rows

abbrev pub Sound : Row → Type 0
Sound r = r.active ≡ true → IsNormal r.cfg

-- Ids are positive, distinct, in the order of creation and never used again; names are distinct;
-- every active row is one that the prober can run.
pub record IsValid (table : Table) : Type 0 where
  pub ordered : Ascends 0 table.rows table.seq
  pub distinct : UniqueNames table.rows
  pub sound : All Sound table.rows

pub IsNormal-id : {t : TargetCfg} (id : ℕ) → IsNormal t → IsNormal (record t { id = id })
IsNormal-id id n = record {
  kind = n.kind;
  reachable = n.reachable;
  paced = n.paced;
  nonneg = n.nonneg;
  daily = n.daily;
  named = n.named;
  fits = n.fits;
  printable = n.printable;
  trimmed = n.trimmed;
}

pub Ascends-snoc :
    (lo hi : ℕ) (rows : List Row) (row : Row)
    → Ascends lo rows hi
    → hi < row.id
    → Ascends lo (rows ++ row ∷ []) row.id
Ascends-snoc lo hi [] row a h = omega arith
Ascends-snoc lo hi (r ∷ rows) row a h = (a.0, Ascends-snoc r.id hi rows row a.1 h)

pub find-Lacks : (name : Text) (rows : List Row) → find name rows ≡ none → Lacks name rows
unfolding find
find-Lacks name [] h = tt
find-Lacks name (r ∷ rows) h =
    (ground (arith, text_beq_iff r.name name), find-Lacks name rows (ground arith))

pub UniqueNames-snoc :
    (rows : List Row) (row : Row)
    → UniqueNames rows
    → Lacks row.name rows
    → UniqueNames (rows ++ row ∷ [])
UniqueNames-snoc [] row u l = (tt, tt)
UniqueNames-snoc (r ∷ rows) row u l = (
  All-append (λ (s : Row). s.name ≢ r.name) rows (row ∷ []) u.0 ((λ e. l.0 (sym e)), tt),
  UniqueNames-snoc rows row u.1 l.1,
)

module _ (t : TargetCfg) where
  pub reactivate-Ascends :
      (lo hi : ℕ) (rows : List Row) → Ascends lo rows hi → Ascends lo (reactivate t rows) hi
  unfolding reactivate
  reactivate-Ascends lo hi [] a = a
  reactivate-Ascends lo hi (r ∷ rows) a = elim (Bool-cases (r.name == t.name)) [
    | inl same ↦ rw same a
    | inr other ↦ rw other (a.0, reactivate-Ascends r.id hi rows a.1)
  ]

  pub reactivate-Lacks :
      (name : Text) (rows : List Row) → Lacks name rows → Lacks name (reactivate t rows)
  unfolding reactivate
  reactivate-Lacks name [] l = tt
  reactivate-Lacks name (r ∷ rows) l = elim (Bool-cases (r.name == t.name)) [
    | inl same ↦ rw same ((λ e. l.0 (eq_of same ∙ e)), l.1)
    | inr other ↦ rw other (l.0, reactivate-Lacks name rows l.1)
  ]

  pub reactivate-UniqueNames :
      (rows : List Row) → UniqueNames rows → UniqueNames (reactivate t rows)
  unfolding reactivate
  reactivate-UniqueNames [] u = tt
  reactivate-UniqueNames (r ∷ rows) u = elim (Bool-cases (r.name == t.name)) [
    | inl same ↦ rw same (subst (λ name. Lacks name rows) (eq_of same) u.0, u.1)
    | inr other ↦ rw other (reactivate-Lacks r.name rows u.0, reactivate-UniqueNames rows u.1)
  ]

  pub reactivate-Sound :
      (rows : List Row) → IsNormal t → All Sound rows → All Sound (reactivate t rows)
  unfolding reactivate
  reactivate-Sound [] n s = tt
  reactivate-Sound (r ∷ rows) n s = elim (Bool-cases (r.name == t.name)) [
    | inl same ↦ rw same ((λ _. IsNormal-id r.id n), s.1)
    | inr other ↦ rw other (s.0, reactivate-Sound rows n s.1)
  ]

  pub rewrite-Ascends :
      (lo hi : ℕ) (rows : List Row) → Ascends lo rows hi → Ascends lo (rewrite t rows) hi
  unfolding rewrite
  rewrite-Ascends lo hi [] a = a
  rewrite-Ascends lo hi (r ∷ rows) a = elim (Bool-cases (r.id == t.id)) [
    | inl same ↦ rw same (subst (λ id. (lo < id) × Ascends id rows hi) (eq_of same) a)
    | inr other ↦ rw other (a.0, rewrite-Ascends r.id hi rows a.1)
  ]

  -- Only the row of the id may have the name.
  abbrev pub Reserved : List Row → Type 0
  Reserved rows = All (λ (r : Row). r.name ≡ t.name → r.id ≡ t.id) rows

  rewrite-Lacks :
      (name : Text) (rows : List Row)
      → t.name ≢ name
      → Lacks name rows
      → Lacks name (rewrite t rows)
  unfolding rewrite
  rewrite-Lacks name [] h l = tt
  rewrite-Lacks name (r ∷ rows) h l = elim (Bool-cases (r.id == t.id)) [
    | inl same ↦ rw same (h, l.1)
    | inr other ↦ rw other (l.0, rewrite-Lacks name rows h l.1)
  ]

  Reserved-Lacks :
      (lo hi : ℕ) (rows : List Row)
      → Ascends lo rows hi
      → t.id ≤ lo
      → Reserved rows
      → Lacks t.name rows
  Reserved-Lacks lo hi [] a h v = tt
  Reserved-Lacks lo hi (r ∷ rows) a h v = (
    λ e. let same : r.id ≡ t.id = v.0 e in absurd (omega arith),
    Reserved-Lacks r.id hi rows a.1 (omega arith) v.1,
  )

  pub rewrite-UniqueNames :
      (lo hi : ℕ) (rows : List Row)
      → Ascends lo rows hi
      → Reserved rows
      → UniqueNames rows
      → UniqueNames (rewrite t rows)
  unfolding rewrite
  rewrite-UniqueNames lo hi [] a v u = tt
  rewrite-UniqueNames lo hi (r ∷ rows) a v u = elim (Bool-cases (r.id == t.id)) [
    | inl same ↦
        rw same (Reserved-Lacks r.id hi rows a.1 (ground (arith, nat_beq_iff r.id t.id)) v.1, u.1)
    | inr other ↦ rw other (
      rewrite-Lacks r.name rows (λ e. ne_of other (v.0 (sym e))) u.0,
      rewrite-UniqueNames r.id hi rows a.1 v.1 u.1,
    )
  ]

  pub rewrite-Sound : (rows : List Row) → IsNormal t → All Sound rows → All Sound (rewrite t rows)
  unfolding rewrite
  rewrite-Sound [] n s = tt
  rewrite-Sound (r ∷ rows) n s = elim (Bool-cases (r.id == t.id)) [
    | inl same ↦ rw same ((λ _. n), s.1)
    | inr other ↦ rw other (s.0, rewrite-Sound rows n s.1)
  ]
