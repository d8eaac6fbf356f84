-- ===== src/Store/Live.antt =====
-- The methods of store.go that keep the live set of targets and their rings.
use fogping.Prelude.{
  ℕ, ◌+◌, ◌-◌, ◌%◌, ◌^◌, Option, none, some, List, [], ◌∷◌, ◌++◌, Text, if◌then◌else◌, ◌==◌, nat_eq,
  text_eq, length, drop, ltb, leb, ◌&&◌,
}
use fogping.Prelude.Map.{lookup, insert, remove}
use fogping.Float.{Float}
use fogping.Store.{Round, Memory, RoundRow}
use fogping.Store.Samples.{pack_samples}

abbrev pub ring_cap : ℕ
ring_cap = 1440

unfoldable pub ring_of {ℓ} : {F : Type ℓ} → Option (List F) → List F
ring_of none = []
ring_of (some ring) = ring

-- `ring[len(ring)-ringCap:]` where the ring is too long.
unfoldable pub cap_ring {ℓ} : {A : Type ℓ} → List A → List A
cap_ring ring = if ltb ring_cap (length ring) then drop (length ring - ring_cap) ring else ring

delete_name : Text → List Text → List Text
delete_name name [] = []
delete_name name (n ∷ names) = if n == name then names else n ∷ delete_name name names

rename_all : Text → Text → List Text → List Text
rename_all old new [] = []
rename_all old new (n ∷ names) = (if n == old then new else n) ∷ rename_all old new names

module _ {F : Type 0} where
  unfoldable pub remove_target : Text → Memory F → Memory F
  unfolding delete_name
  remove_target name s = record s {
    rings = remove name s.rings;
    ids = remove name s.ids;
    names = delete_name name s.names;
  }

  rename_known : Text → Text → Memory F → Option ℕ → Memory F
  unfolding rename_all ring_of
  rename_known old new s none = s
  rename_known old new s (some id) = record s {
    ids = remove old (insert new id s.ids);
    rings = remove old (insert new (ring_of (lookup old s.rings)) s.rings);
    names = rename_all old new s.names;
  }

  unfoldable pub rename_target : Text → Text → Memory F → Memory F
  unfolding rename_known
  rename_target old new s = rename_known old new s (lookup old s.ids)

  -- The first part of `Append`: the ring, the count, and the queue of rounds to write.
  queue_round : Text → Round F → Memory F → Option ℕ → Memory F
  unfolding ring_of cap_ring
  queue_round name r s none = s
  queue_round name r s (some id) = record s {
    rings = insert name (cap_ring (ring_of (lookup name s.rings) ++ r ∷ [])) s.rings;
    total = (s.total + 1) % 2 ^ 64;
    pending = s.pending ++ (id, r) ∷ [];
  }

  unfoldable pub queue : Text → Round F → Memory F → Memory F
  unfolding queue_round
  queue name r s = queue_round name r s (lookup name s.ids)

-- Rows are kept in the order of the primary key; `INSERT OR REPLACE` writes over an equal key.
module _ {F : Type 0} where
  unfoldable pub put_row : RoundRow F → List (RoundRow F) → List (RoundRow F)
  put_row r [] = r ∷ []
  put_row r (q ∷ rows) =
      if ltb r.target_id q.target_id
      then r ∷ q ∷ rows
      else if r.target_id == q.target_id && ltb r.t q.t
      then r ∷ q ∷ rows
      else if r.target_id == q.target_id && r.t == q.t
      then r ∷ rows
      else q ∷ put_row r rows

module _ (float : Float) where
  open float use {F}

  unfoldable pub row_of : ℕ → Round F → RoundRow F
  row_of id r = record {
    target_id = id;
    t = r.t;
    sent = r.s;
    recv = r.r;
    samples = pack_samples float r.ms;
    burst = if r.b then 1 else 0;
    z = r.z;
  }

  unfoldable pub write_all : List (ℕ × Round F) → List (RoundRow F) → List (RoundRow F)
  write_all [] rows = rows
  write_all ((id, r) ∷ batch) rows = write_all batch (put_row (row_of id r) rows)

  -- The queue is emptied first, so a transaction that fails loses its batch.
  unfoldable pub flush :
      Option Text → Memory F × List (RoundRow F) → Option Text × Memory F × List (RoundRow F)
  flush fault (s, rows) =
      let emptied : Memory F = record s { pending = [] } in
      if leb (length s.pending) 0 then (none, emptied, rows) else elim fault [
        | some e ↦ (some e, emptied, rows)
        | none ↦ (none, emptied, write_all s.pending rows)
      ]

  -- A round of an unknown name is dropped; sixteen waiting rounds are written at once.
  unfoldable pub append :
      Option Text
      → Text
      → Round F
      → Memory F × List (RoundRow F)
      → Option Text × Memory F × List (RoundRow F)
  append fault name r (s, rows) = elim (lookup name s.ids) [
    | none ↦ (none, s, rows)
    | some id ↦
        let queued = queue name r s in
        if leb 16 (length queued.pending) then flush fault (queued, rows) else (none, queued, rows)
  ]

  -- A sequence of rounds of one target, with what the database does at each.
  unfoldable pub append_all :
      Text
      → List (Option Text × Round F)
      → Memory F × List (RoundRow F)
      → Memory F × List (RoundRow F)
  append_all name [] state = state
  append_all name ((fault, r) ∷ rounds) state =
      let (e, s, rows) = append fault name r state in append_all name rounds (s, rows)
