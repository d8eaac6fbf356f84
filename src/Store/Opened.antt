-- ===== src/Store/Opened.antt =====
-- What opening a database file does to its tables, for store.go and targets.go.
use fogping.Prelude.{
  either_branch, codes, ◌≡◌, refl, inl, inr, false, Option, none, some, List, ◌∷◌, Text, text_eq,
  All, Bool-cases, Option-cases,
}
use fogping.Store.Schema.{
  Schema, Faults, target_columns, round_columns, hourly_columns, added_columns, created,
  create_hourly, create_rounds, create_tables, migrate_targets, first_fault, drop_daily, migrated,
  upgraded, opened, new_store,
}
use fogping.Store.Columns.{
  no_faults, Has, add_columns-keeps, Adds, add_columns-fine, first_targets, used_rounds,
  used_hourly, Whole, IsReady, created-all, created-keeps,
}

-- A file with all the columns that a file had, and maybe more.
pub record Keeps (name : Text) (db after : Schema) : Type 0 where
  pub columns : Has name db.columns → Has name after.columns
  pub rounds : Has name db.rounds → Has name after.rounds
  pub hourly : Has name db.hourly → Has name after.hourly

Keeps-refl : (name : Text) (db : Schema) → Keeps name db db
Keeps-refl name db = record { columns = λ h. h; rounds = λ h. h; hourly = λ h. h }

Keeps-trans : (name : Text) (a b c : Schema) → Keeps name a b → Keeps name b c → Keeps name a c
Keeps-trans name a b c k l = record {
  columns = λ h. l.columns (k.columns h);
  rounds = λ h. l.rounds (k.rounds h);
  hourly = λ h. l.hourly (k.hourly h);
}

-- A statement that fails or is done.
done_or_not :
    {A B : Type 0} (P : B → Type 0) (fault : Option A) (f : A → B) (y : B)
    → ((e : A) → P (f e))
    → P y
    → P (elim fault [ some e ↦ f e | none ↦ y ])
done_or_not P (some e) f y fails done = fails e
done_or_not P none f y fails done = done

module _ (faults : Faults) (name : Text) where
  create_hourly-Keeps : (db : Schema) → Keeps name db (create_hourly faults db).1
  unfolding create_hourly
  create_hourly-Keeps db =
      done_or_not (λ (r : Option Text × Schema). Keeps name db r.1) (faults.tables 2)
        (λ e. (some e, db)) (none, record db { hourly = created hourly_columns db.hourly })
        (λ e. Keeps-refl name db)
        (record {
          columns = λ h. h;
          rounds = λ h. h;
          hourly = created-keeps name hourly_columns db.hourly;
        })

  create_rounds-Keeps : (db : Schema) → Keeps name db (create_rounds faults db).1
  unfolding create_rounds
  create_rounds-Keeps db =
      let next : Schema = record db { rounds = created round_columns db.rounds } in
      done_or_not (λ (r : Option Text × Schema). Keeps name db r.1) (faults.tables 1)
        (λ e. (some e, db)) (create_hourly faults next) (λ e. Keeps-refl name db)
        (Keeps-trans name db next (create_hourly faults next).1
          (record {
            columns = λ h. h;
            rounds = created-keeps name round_columns db.rounds;
            hourly = λ h. h;
          })
          (create_hourly-Keeps next))

  create_tables-Keeps : (db : Schema) → Keeps name db (create_tables faults db).1
  unfolding create_tables
  create_tables-Keeps db =
      let next : Schema = record db { columns = created target_columns db.columns } in
      done_or_not (λ (r : Option Text × Schema). Keeps name db r.1) (faults.tables 0)
        (λ e. (some e, db)) (create_rounds faults next) (λ e. Keeps-refl name db)
        (Keeps-trans name db next (create_rounds faults next).1
          (record {
            columns = created-keeps name target_columns db.columns;
            rounds = λ h. h;
            hourly = λ h. h;
          })
          (create_rounds-Keeps next))

migrate_targets-fine :
    (columns : List Text) → Adds added_columns (migrate_targets no_faults columns)
unfolding migrate_targets
migrate_targets-fine columns = add_columns-fine columns added_columns columns (λ c h. h)

migrate_targets-keeps :
    (faults : Faults) (name : Text) (columns : List Text)
    → Has name columns
    → Has name (migrate_targets faults columns).1
unfolding migrate_targets
migrate_targets-keeps faults name columns h = elim (Option-cases faults.info) [
  | inr (e, fails) ↦ rw fails h
  | inl fine ↦ elim (Option-cases faults.scan) [
    | inr (e, fails) ↦ rw (fine, fails) h
    | inl whole ↦
        rw (fine, whole) (add_columns-keeps faults.column columns name added_columns columns h)
  ]
]

migrated-Keeps :
    (faults : Faults) (name : Text) (db : Schema) (r : Option Text × List Text)
    → (Has name db.columns → Has name r.1)
    → Keeps name db (migrated faults db r).1
unfolding migrated drop_daily
migrated-Keeps faults name db (some e, columns) h = record {
  columns = h;
  rounds = λ k. k;
  hourly = λ k. k;
}
migrated-Keeps faults name db (none, columns) h =
    let next : Schema = record db { columns = columns } in
    let kept : Keeps name db next = record { columns = h; rounds = λ k. k; hourly = λ k. k } in
    either_branch (λ (r : Option Text × Schema). Keeps name db r.1) db.daily
      (elim faults.daily [ some e ↦ (some e, next) | none ↦ (none, record next { daily = false }) ])
      (none, next)
      (done_or_not (λ (r : Option Text × Schema). Keeps name db r.1) faults.daily
        (λ e. (some e, next)) (none, record next { daily = false }) (λ e. kept)
        (record { columns = h; rounds = λ k. k; hourly = λ k. k }))
      kept

upgraded-Keeps :
    (faults : Faults) (name : Text) (db : Schema) (r : Option Text × Schema)
    → Keeps name db r.1
    → Keeps name db (upgraded faults r).1
unfolding upgraded
upgraded-Keeps faults name db (some e, next) k = k
upgraded-Keeps faults name db (none, next) k =
    let columns = migrate_targets faults next.columns in
    Keeps-trans name db next (migrated faults next columns).1 k
      (migrated-Keeps faults name next columns (migrate_targets-keeps faults name next.columns))

opened-Keeps :
    (faults : Faults) (name : Text) (db : Schema) (fault : Option Text)
    → Keeps name db (opened faults db fault).1
unfolding opened
opened-Keeps faults name db (some e) = Keeps-refl name db
opened-Keeps faults name db none =
    upgraded-Keeps faults name db (create_tables faults db) (create_tables-Keeps faults name db)

migrated-IsReady :
    (db : Schema) (r : Option Text × List Text)
    → All (λ n. Has n r.1) first_targets
    → All (λ n. Has n db.rounds) used_rounds
    → All (λ n. Has n db.hourly) used_hourly
    → Adds added_columns r
    → ((migrated no_faults db r).0 ≡ none) × IsReady (migrated no_faults db r).1
unfolding migrated drop_daily
migrated-IsReady db (some e, columns) base rounds hourly a = absurd (cc a.0)
migrated-IsReady db (none, columns) base rounds hourly a = elim (Bool-cases db.daily) [
  | inl old ↦ rw old (
    refl,
    record { targets = (base.0, (base.1.0, a.1)); rounds = rounds; hourly = hourly; daily = refl },
  )
  | inr new ↦ rw new (
    refl,
    record { targets = (base.0, (base.1.0, a.1)); rounds = rounds; hourly = hourly; daily = refl },
  )
]

all_rounds : All (λ n. Has n round_columns) used_rounds
all_rounds = (refl, (refl, (refl, (refl, (refl, (refl, (refl, tt)))))))

all_hourly : All (λ n. Has n hourly_columns) used_hourly
all_hourly = (refl, (refl, (refl, (refl, (refl, (refl, (refl, (refl, (refl, (refl, tt))))))))))

-- Opening takes no column of the three tables away, whatever fails. And if nothing fails, a file in
-- which each of the three tables is missing or has the columns that the program uses, in `targets`
-- at least the id and the name, has all columns that the program uses afterwards and no daily
-- table, whichever of the added columns an earlier release or a failed opening left.
pub new_store_lem :
    (faults : Faults) (name : Text) (db : Schema)
    → Whole first_targets db.columns
    → Whole used_rounds db.rounds
    → Whole used_hourly db.hourly
    → Keeps name db (new_store faults db).1
      × ((new_store no_faults db).0 ≡ none)
      × IsReady (new_store no_faults db).1
unfolding new_store opened create_tables create_rounds create_hourly upgraded first_fault
new_store_lem faults name db targets rounds hourly =
    let columns = created target_columns db.columns in
    let made : Schema = record db {
      columns = columns;
      rounds = created round_columns db.rounds;
      hourly = created hourly_columns db.hourly;
    } in
    let base = created-all first_targets target_columns db.columns (refl, (refl, tt)) targets in
    let keeps = λ (n : Text). migrate_targets-keeps no_faults n columns in
    let ready =
      migrated-IsReady made (migrate_targets no_faults columns)
        (keeps (codes "id") base.0, (keeps (codes "name") base.1.0, tt))
        (created-all used_rounds round_columns db.rounds all_rounds rounds)
        (created-all used_hourly hourly_columns db.hourly all_hourly hourly)
        (migrate_targets-fine columns) in
    (
      opened-Keeps faults name db
          (first_fault (faults.folder ∷ faults.connection ∷ faults.pragmas)),
      ready.0,
      ready.1,
    )
