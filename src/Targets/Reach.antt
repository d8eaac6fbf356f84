-- ===== src/Targets/Reach.antt =====
-- Sequences of calls of the methods of targets.go that write, whatever the database answers.
use fogping.Prelude.{ℕ, Option, List, [], Text, arith, All}
use fogping.Config.{TargetCfg, IsNormal}
use fogping.Targets.Rows.{Table}
use fogping.Targets.{Effect, create_target, update_target, deactivate_target, import_targets}
use fogping.Targets.Validity.{IsValid}
use fogping.Targets.Steps.{create_target-IsValid, update_target-IsValid, deactivate_target-IsValid}
use fogping.Targets.Import.{import_targets-IsValid}

-- One call of a method that writes targets; a target comes through the validation of config.go.
pub data Step (table : Table) : Table → Type 0 where
  creates :
      (effect : Effect) (select : Option Text) (t : TargetCfg)
      → IsNormal t
      → Step table (create_target effect select t table).1
  updates :
      (exec select : Option Text) (t : TargetCfg)
      → IsNormal t
      → Step table (update_target exec select t table).1
  deactivates : (exec : Option Text) (id : ℕ) → Step table (deactivate_target exec id table).1
  imports :
      (begin commit : Option Text) (effects : ℕ → Effect) (ts : List TargetCfg)
      → All IsNormal ts
      → Step table (import_targets begin commit effects ts table).1

pub data Reach (table : Table) : Table → Type 0 where
  here : Reach table table
  next : {mid last : Table} → Reach table mid → Step mid last → Reach table last

abbrev pub new_table : Table
new_table = record { rows = []; seq = 0 }

Step-IsValid : {table after : Table} → Step table after → IsValid table → IsValid after
Step-IsValid {table} (creates effect select t n) v = create_target-IsValid effect select t table n v
Step-IsValid {table} (updates exec select t n) v = update_target-IsValid exec select t table n v
Step-IsValid {table} (deactivates exec id) v = deactivate_target-IsValid exec id table v
Step-IsValid {table} (imports begin commit effects ts n) v =
    import_targets-IsValid begin commit effects ts table n v

pub new_table-IsValid : IsValid new_table
new_table-IsValid = record { ordered = omega arith; distinct = tt; sound = tt }

Reach-keeps : {table last : Table} → IsValid table → Reach table last → IsValid last
Reach-keeps v here = v
Reach-keeps v (next r s) = Step-IsValid s (Reach-keeps v r)

-- Whatever calls are made on a new database, with normal targets and any failures of the database,
-- the ids of the table stay positive, distinct and in the order of creation, its names stay
-- distinct, and every active row stays a normal target.
pub Reach-IsValid : {last : Table} → Reach new_table last → IsValid last
Reach-IsValid r = Reach-keeps new_table-IsValid r
