-- ===== src/Targets/Tests.antt =====
-- Runs of targets.go on a small table.
use mathlib.Core.List.{Perm}
use fogping.Prelude.{
  map, keep, ℕ, ◌≡◌, subst, ◌⊎◌, refl, true, false, none, some, [], ◌∷◌, Text, if◌then◌else◌, ◌==◌,
  text_eq, nat_eq,
}
use fogping.Prelude.Result.{ok, err}
use fogping.Config.Tests.{site, shop, site-IsNormal, shop-IsNormal}
use fogping.Targets.Rows.{Row, Table, find, find_id, reactivate, deactivate}
use fogping.Targets.{
  active_targets, StoreError, name_taken, not_found, Effect, upsert, create_target, update_target,
  deactivate_target, import_targets,
}
use fogping.Targets.Lookup.{create_target_lem, no_fault, upserted, create_reply}
use fogping.Targets.Change.{deactivate_target_lem, update_target_lem, Updates, Inactive}
use fogping.Targets.Validity.{IsValid}
use fogping.Targets.Listing.{ById, active_targets-ById}
use fogping.Targets.Import.{Created, done, more, import_targets_atomic}
use fogping.Targets.Reach.{Reach, here, next, creates, deactivates, new_table, Reach-IsValid}

-- The site is active; the shop was deleted.
abbrev pub two : Table
two = record {
  rows =
      (record { cfg = record site { id = 1 }; active = true })
      ∷ (record { cfg = record shop { id = 2 }; active = false })
      ∷ [];
  seq = 2;
}

abbrev one_made : Table
one_made = (create_target (no_fault 0) none site new_table).1

abbrev two_made : Table
two_made = (create_target (no_fault 0) none shop one_made).1

calls : Reach new_table (deactivate_target none 2 two_made).1
calls =
    next
      (next (next here (creates (no_fault 0) none site site-IsNormal))
        (creates (no_fault 0) none shop shop-IsNormal))
      (deactivates none 2)

calls-two : (deactivate_target none 2 two_made).1 ≡ two
unfolding create_target deactivate_target find_id upsert find deactivate
calls-two = refl

Reach-IsValid_example : IsValid (deactivate_target none 2 two_made).1
Reach-IsValid_example = Reach-IsValid calls

pub two-IsValid : IsValid two
two-IsValid = subst IsValid calls-two (Reach-IsValid calls)

create_target_lem_example :
    ((create_target (no_fault 0) none shop two).0 ≡ create_reply shop 3 (find shop.name two.rows))
    × ((name : Text)
        → find name (create_target (no_fault 0) none shop two).1.rows ≡ (
            if shop.name == name
            then some (upserted shop 3 (find shop.name two.rows))
            else find name two.rows))
create_target_lem_example = create_target_lem shop 0 two

taken : (create_target (no_fault 0) none site two).0 ≡ err name_taken
unfolding create_target upsert find
taken = refl

update_target_lem_example :
    Updates
      (record shop { id = 1 })
      two
      (find shop.name two.rows)
      (update_target none none (record shop { id = 1 }) two)
update_target_lem_example = update_target_lem (record shop { id = 1 }) two

deactivate_target_lem_example :
    ((row : Row) × (find_id 1 two.rows ≡ some row)
      × (row.active ≡ true)
      × ((deactivate_target none 1 two).0 ≡ none)
      × ((j : ℕ)
          → find_id j (deactivate_target none 1 two).1.rows
            ≡ (if 1 == j then some (record row { active = false }) else find_id j two.rows)))
    ⊎ Inactive (find_id 1 two.rows) × (deactivate_target none 1 two ≡ (some not_found, two))
deactivate_target_lem_example = deactivate_target_lem 1 two

abbrev healthy_db : ℕ → Effect
healthy_db i = no_fault 0

-- The second target is the first again.
import_targets_atomic_example :
    ((import_targets none none healthy_db (shop ∷ shop ∷ []) two).0 ≡ none)
      × Created healthy_db 0
          (shop ∷ shop ∷ [])
          two
          (import_targets none none healthy_db (shop ∷ shop ∷ []) two).1
    ⊎ ((e : StoreError) × ((import_targets none none healthy_db (shop ∷ shop ∷ []) two).0 ≡ some e)
        × ((import_targets none none healthy_db (shop ∷ shop ∷ []) two).1 ≡ two))
import_targets_atomic_example = import_targets_atomic healthy_db none none (shop ∷ shop ∷ []) two

shop_back :
    create_target (no_fault 0) none shop two
    ≡ (ok (record shop { id = 2 }), (create_target (no_fault 0) none shop two).1)
unfolding create_target upsert find reactivate
shop_back = refl

shop-Created : Created healthy_db 0 (shop ∷ []) two (create_target (no_fault 0) none shop two).1
shop-Created = more (record shop { id = 2 }) shop_back done

-- Both are active, and the second comes first.
abbrev swapped : Table
swapped = record {
  rows =
      (record { cfg = record shop { id = 2 }; active = true })
      ∷ (record { cfg = record site { id = 1 }; active = true })
      ∷ [];
  seq = 2;
}

active_targets-ById_example :
    ById (active_targets swapped)
    × Perm
        (active_targets swapped)
        (map (λ (r : Row). r.cfg) (keep (λ (r : Row). r.active) swapped.rows))
active_targets-ById_example = active_targets-ById swapped
