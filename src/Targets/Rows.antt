-- ===== src/Targets/Rows.antt =====
-- The rows of the table `targets`, and the searches and changes of single rows.
use fogping.Prelude.{
  ℕ, Bool, true, false, Option, none, some, List, [], ◌∷◌, Text, if◌then◌else◌, ◌==◌, nat_eq,
  text_eq,
}
use fogping.Config.{TargetCfg}

pub record Row : Type 0 where
  pub cfg : TargetCfg
  pub open cfg use *
  pub active : Bool

-- The rows in the order of their ids, and the largest id that the table ever had.
pub record Table : Type 0 where
  pub rows : List Row
  pub seq : ℕ

-- `WHERE name=?`
unfoldable pub find : Text → List Row → Option Row
find name [] = none
find name (r ∷ rows) = if r.name == name then some r else find name rows

-- `WHERE id=?`
unfoldable pub find_id : ℕ → List Row → Option Row
find_id id [] = none
find_id id (r ∷ rows) = if r.id == id then some r else find_id id rows

-- `DO UPDATE SET … active=1` on the row of the name: the id stays.
unfoldable pub reactivate : TargetCfg → List Row → List Row
reactivate t [] = []
reactivate t (r ∷ rows) =
    if r.name == t.name
    then (record { cfg = record t { id = r.id }; active = true }) ∷ rows
    else r ∷ reactivate t rows

-- `UPDATE targets SET name=?,… WHERE id=?`
unfoldable pub rewrite : TargetCfg → List Row → List Row
rewrite t [] = []
rewrite t (r ∷ rows) = if r.id == t.id then record r { cfg = t } ∷ rows else r ∷ rewrite t rows

-- `UPDATE targets SET active=0 WHERE id=?`
unfoldable pub deactivate : ℕ → List Row → List Row
deactivate id [] = []
deactivate id (r ∷ rows) =
    if r.id == id then record r { active = false } ∷ rows else r ∷ deactivate id rows
