-- ===== src/Store/Ensure.antt =====
-- `EnsureTarget` of store.go: a target joins the live set, with its id and its last day of rounds.
use fogping.Prelude.{
  ℕ, suc, ◌+◌, ◌≡◌, refl, false, ◌&&◌, Option, none, some, List, [], ◌∷◌, ◌++◌, map, Text, eq_refl,
  if◌then◌else◌, ◌==◌, nat_eq, text_eq, keep, arith, Bool-cases, inl, inr,
}
use fogping.Prelude.Int.{ℤ, pos, sub_ℕ}
use fogping.Prelude.Map.{lookup, insert, lookup-insert}
use fogping.Config.{TargetCfg, icmp}
use fogping.Targets.Rows.{Row, Table, find}
use fogping.Float.{Float}
use fogping.Store.{Memory, RoundRow, Round}
use fogping.Store.Samples.{round2, unpack_samples-pack_samples}
use fogping.Store.Live.{ring_cap, cap_ring, row_of}
use fogping.Store.Ring.{last_of, cap_ring-last_of}
use fogping.Store.Query.{Cursor, whole, scanned, between, round_of, query_raw, replay, day}

-- What the database gives to one `EnsureTarget`, and the two readings of the clock, in Unix seconds.
pub record Access : Type 0 where
  pub select : Option Text
  pub insertion : Option Text
  pub gap : ℕ
  pub cursor : Cursor
  pub start : ℕ
  pub end : ℕ

-- A database that does not fail, and the readings of the clock.
abbrev pub readable : ℕ → ℕ → Access
readable start end = record {
  select = none;
  insertion = none;
  gap = 0;
  cursor = whole;
  start = start;
  end = end;
}

-- `INSERT INTO targets(name) VALUES(?)`: the other columns have their defaults.
abbrev pub bare_row : Text → ℕ → Row
bare_row name id = record {
  cfg = record {
    id = id;
    name = name;
    type = icmp;
    host = [];
    port = pos 0;
    pace = [];
    interval_sec = pos 0;
  };
  active = false;
}

module _ (float : Float) where
  open float use {F}

  -- The live set with a target's id, an empty ring and its name, and the ring replayed.
  unfoldable pub register : Access → Text → ℕ → List (RoundRow F) → Memory F → Memory F
  register access name id rows s =
      replay float access.cursor access.start access.end name rows (record s {
        ids = insert name id s.ids;
        rings = insert name [] s.rings;
        names = s.names ++ name ∷ [];
      })

  unfoldable pub insert_bare :
      Access → Text → List (RoundRow F) → Memory F → Table → Option Text × Memory F × Table
  unfolding register
  insert_bare access name rows s table = elim access.insertion [
    | some e ↦ (some e, s, table)
    | none ↦
        let id = table.seq + suc access.gap in
        (
          none,
          register access name id rows s,
          record { rows = table.rows ++ bare_row name id ∷ []; seq = id },
        )
  ]

  unfoldable pub ensure_target :
      Access → TargetCfg → List (RoundRow F) → Memory F → Table → Option Text × Memory F × Table
  unfolding insert_bare register
  ensure_target access t rows s table = elim (lookup t.name s.ids) [
    | some id ↦ (none, s, table)
    | none ↦ elim access.select [
      | some e ↦ (some e, s, table)
      | none ↦ elim (find t.name table.rows) [
        | none ↦ insert_bare access t.name rows s table
        | some row ↦ (none, register access t.name row.id rows s, table)
      ]
    ]
  ]

  -- A round read back from the table is the round that was written, with its samples as float32s
  -- rounded to hundredths.
  pub round_of-row_of :
      (id : ℕ) (r : Round F)
      → round_of float (row_of float id r)
        ≡ record r { ms = map (λ v. round2 float (float.of_bits32 (float.bits32 v))) r.ms }
  unfolding round_of row_of
  round_of-row_of id r = elim (Bool-cases r.b) [
    | inl burst ↦ rw (burst, unpack_samples-pack_samples float r.ms) refl
    | inr fine ↦ rw (fine, unpack_samples-pack_samples float r.ms) refl
  ]

  abbrev held : ℤ → ℤ → ℕ → List (RoundRow F) → List (Round F)
  held from to id rows =
      map (round_of float)
        (keep (λ (r : RoundRow F). r.target_id == id && between from to r.t) rows)

  query_raw_known :
      (from to : ℤ) (name : Text) (id : ℕ) (rows : List (RoundRow F)) (s : Memory F)
      → lookup name s.ids ≡ some id
      → query_raw float whole s rows name from to ≡ held from to id rows
  unfolding query_raw scanned
  query_raw_known from to name id rows s known = rw (known, query_raw, scanned) refl

  replay_lem :
      (start end : ℕ) (name : Text) (id : ℕ) (rows : List (RoundRow F)) (s : Memory F)
      → lookup name s.ids ≡ some id
      → replay float whole start end name rows s ≡ record s {
        rings =
            insert name
              (cap_ring (
                map (round_of float) (
                  keep
                    (λ (r : RoundRow F).
                      r.target_id == id && between (sub_ℕ start day) (pos end) r.t)
                    rows)))
              s.rings;
      }
  unfolding replay
  replay_lem start end name id rows s known =
      rw (known, replay, query_raw_known (sub_ℕ start day) (pos end) name id rows s known) refl

  abbrev joined : ℕ → ℕ → Text → ℕ → List (RoundRow F) → Memory F → Memory F
  joined start end name id rows s = record s {
    ids = insert name id s.ids;
    rings =
        insert name (cap_ring (held (sub_ℕ start day) (pos end) id rows)) (insert name [] s.rings);
    names = s.names ++ name ∷ [];
  }

  register_lem :
      (start end : ℕ) (name : Text) (id : ℕ) (rows : List (RoundRow F)) (s : Memory F)
      → register (readable start end) name id rows s ≡ joined start end name id rows s
  unfolding register
  register_lem start end name id rows s =
      replay_lem start end name id rows
        (record s {
          ids = insert name id s.ids;
          rings = insert name [] s.rings;
          names = s.names ++ name ∷ [];
        })
        (rw (lookup-insert name name id s.ids, eq_refl name) refl)

  ensure_target_found :
      (start end : ℕ) (t : TargetCfg) (rows : List (RoundRow F)) (s : Memory F) (table : Table)
      (row : Row)
      → lookup t.name s.ids ≡ none
      → find t.name table.rows ≡ some row
      → ensure_target (readable start end) t rows s table
        ≡ (none, joined start end t.name row.id rows s, table)
  unfolding ensure_target
  ensure_target_found start end t rows s table row absent known =
      rw (absent, known, ensure_target, register_lem start end t.name row.id rows s) refl

  -- With a database that does not fail, a target that is not live and has a row joins the live set
  -- under its row's id, with the last 1440 rounds that the table holds of that id from 24 hours
  -- before the first reading of the clock up to the second; no other name is touched.
  pub ensure_target_lem :
      (start end : ℕ) (t : TargetCfg) (rows : List (RoundRow F)) (s : Memory F) (table : Table)
      (row : Row)
      → lookup t.name s.ids ≡ none
      → find t.name table.rows ≡ some row
      → (name : Text)
      → ((ensure_target (readable start end) t rows s table).0 ≡ none)
        × (lookup name (ensure_target (readable start end) t rows s table).1.ids
            ≡ (if t.name == name then some row.id else lookup name s.ids))
        × (lookup name (ensure_target (readable start end) t rows s table).1.rings ≡ (
            if t.name == name
            then some (
                last_of ring_cap (
                  map (round_of float) (
                    keep
                      (λ (r : RoundRow F).
                        r.target_id == row.id && between (sub_ℕ start 86400) (pos end) r.t)
                      rows)))
            else lookup name s.rings))
  ensure_target_lem start end t rows s table row absent known name =
      rw
        (
          ensure_target_found start end t rows s table row absent known,
          lookup-insert t.name name row.id s.ids,
          lookup-insert t.name name (cap_ring (held (sub_ℕ start day) (pos end) row.id rows))
              (insert t.name [] s.rings),
          lookup-insert t.name name [] s.rings,
          cap_ring-last_of (held (sub_ℕ start day) (pos end) row.id rows),
        )
        (refl, refl, ground arith)
