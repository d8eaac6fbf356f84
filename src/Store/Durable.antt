-- ===== src/Store/Durable.antt =====
-- `flushLoop` and `Close` of store.go: when the rounds that were appended are in the table.
use fogping.Prelude.{
  ℕ, ◌≡◌, refl, sym, ap, subst, either_branch, ◌∙◌, inl, inr, true, Option, none, some, List, [],
  ◌∷◌, ◌++◌, append_assoc, append-nil, Text, if◌then◌else◌, text_eq, length, leb, arith, Bool-cases,
  Option-cases,
}
use fogping.Prelude.Map.{Map, lookup}
use fogping.Float.{Float}
use fogping.Store.{Round, Memory, RoundRow}
use fogping.Store.Live.{queue, append, flush, put_row, row_of, write_all}
use fogping.Store.Ring.{queue-known}

module _ (float : Float) where
  open float use {F}

  -- A tick of `flushLoop`, whose error is logged, and the last flush of `Close`.
  unfoldable pub flushed : Option Text → Memory F × List (RoundRow F) → Memory F × List (RoundRow F)
  flushed fault state = let (e, s, rows) = flush float fault state in (s, rows)

  -- What happens to a store: a round of any target, or a tick.
  pub data Event : Type 0 where
    arrives : Text → Round F → Event
    ticks : Event

  unfoldable pub after : Event → Memory F × List (RoundRow F) → Memory F × List (RoundRow F)
  unfolding flushed
  after (arrives name r) state = let (e, s, rows) = append float none name r state in (s, rows)
  after ticks state = flushed none state

  unfoldable pub after_all :
      List Event → Memory F × List (RoundRow F) → Memory F × List (RoundRow F)
  unfolding after
  after_all [] state = state
  after_all (event ∷ events) state = after_all events (after event state)

  -- A round of a name that is not known is dropped.
  abbrev pub identified : Option ℕ → Round F → List (ℕ × Round F)
  identified none r = []
  identified (some id) r = (id, r) ∷ []

  -- The rounds that came, with the ids of their targets.
  abbrev pub arrived : Map Text ℕ → List Event → List (ℕ × Round F)
  arrived ids [] = []
  arrived ids (arrives name r ∷ events) = identified (lookup name ids) r ++ arrived ids events
  arrived ids (ticks ∷ events) = arrived ids events

  write_all-append :
      (a b : List (ℕ × Round F)) (rows : List (RoundRow F))
      → write_all float (a ++ b) rows ≡ write_all float b (write_all float a rows)
  unfolding write_all
  write_all-append [] b rows = refl
  write_all-append ((id, r) ∷ a) b rows = write_all-append a b (put_row (row_of float id r) rows)

  abbrev emptied : Memory F → Memory F
  emptied s = record s { pending = [] }

  -- The table with what waits to be written.
  abbrev pub settled : Memory F × List (RoundRow F) → List (RoundRow F)
  settled (s, rows) = write_all float s.pending rows

  write_all-none :
      (batch : List (ℕ × Round F)) (rows : List (RoundRow F))
      → leb (length batch) 0 ≡ true
      → rows ≡ write_all float batch rows
  unfolding write_all
  write_all-none [] rows h = refl
  write_all-none (x ∷ batch) rows h = absurd (ground arith)

  flushed-written :
      (s : Memory F) (rows : List (RoundRow F))
      → flushed none (s, rows) ≡ (record s { pending = [] }, write_all float s.pending rows)
  unfolding flushed flush
  flushed-written s rows = elim (Bool-cases (leb (length s.pending) 0)) [
    | inl empty ↦ rw empty (
        ap (λ (table : List (RoundRow F)). (emptied s, table))
          (write_all-none s.pending rows empty))
    | inr some_wait ↦ rw some_wait refl
  ]

  after-arrives :
      (name : Text) (r : Round F) (s : Memory F) (rows : List (RoundRow F)) (id : ℕ)
      → lookup name s.ids ≡ some id
      → after (arrives name r) (s, rows) ≡ (
          if leb 16 (length (queue name r s).pending)
          then flushed none (queue name r s, rows)
          else (queue name r s, rows))
  unfolding after append flushed
  after-arrives name r s rows id known =
      elim (Bool-cases (leb 16 (length (queue name r s).pending))) [
        | inl many ↦ rw (known, many, append) refl
        | inr few ↦ rw (known, few, append) refl
      ]

  -- The ids of a state, and what its table holds with what waits.
  abbrev Leaves : Memory F → List (RoundRow F) → Memory F × List (RoundRow F) → Type 0
  Leaves s table state = (settled state ≡ table) × (state.0.ids ≡ s.ids)

  flushed-Leaves :
      (first : Memory F) (table : List (RoundRow F)) (state : Memory F × List (RoundRow F))
      → Leaves first table state
      → Leaves first table (flushed none state)
  flushed-Leaves first table (s, rows) h =
      subst (Leaves first table) (sym (flushed-written s rows)) (unfold write_all in h.0, h.1)

  -- What one round leaves: it waits last, or it was written after all that waited.
  known-Leaves :
      (name : Text) (r : Round F) (s : Memory F) (rows : List (RoundRow F)) (id : ℕ)
      → lookup name s.ids ≡ some id
      → Leaves s
          (write_all float (s.pending ++ (id, r) ∷ []) rows)
          (after (arrives name r) (s, rows))
  known-Leaves name r s rows id known =
      let table = write_all float (s.pending ++ (id, r) ∷ []) rows in
      let q = queue-known float name r s id known in
      let waits : Leaves s table (queue name r s, rows) =
        (ap (λ (x : Memory F). write_all float x.pending rows) q, ap (λ (x : Memory F). x.ids) q) in
      subst (Leaves s table) (sym (after-arrives name r s rows id known)) (
        either_branch (Leaves s table) (leb 16 (length (queue name r s).pending))
          (flushed none (queue name r s, rows)) (queue name r s, rows)
          (flushed-Leaves s table (queue name r s, rows) waits) waits)

  arrives-Leaves :
      (name : Text) (r : Round F) (s : Memory F) (rows : List (RoundRow F))
      → Leaves s
          (write_all float (s.pending ++ identified (lookup name s.ids) r) rows)
          (after (arrives name r) (s, rows))
  unfolding after append
  arrives-Leaves name r s rows = elim (Option-cases (lookup name s.ids)) [
    | inr (id, known) ↦ rw known (known-Leaves name r s rows id known)
    | inl unknown ↦
        rw (unknown, append)
          (ap (λ batch. write_all float batch rows) (sym (append-nil s.pending)), refl)
  ]

  after_all-Leaves :
      (events : List Event) (s : Memory F) (rows : List (RoundRow F))
      → Leaves s
          (write_all float (s.pending ++ arrived s.ids events) rows)
          (after_all events (s, rows))
  unfolding after_all
  after_all-Leaves [] s rows =
      (ap (λ batch. write_all float batch rows) (sym (append-nil s.pending)), refl)
  after_all-Leaves (ticks ∷ events) s rows =
      let (table, ids) = flushed-Leaves s (write_all float s.pending rows) (s, rows) (refl, refl) in
      let next = flushed none (s, rows) in
      let (rest, ids') = after_all-Leaves events next.0 next.1 in
      unfold after in
      (
        rest
            ∙ write_all-append next.0.pending (arrived next.0.ids events) next.1
            ∙ ap (write_all float (arrived next.0.ids events)) table
            ∙ ap (λ i. write_all float (arrived i events) (write_all float s.pending rows)) ids
            ∙ sym (write_all-append s.pending (arrived s.ids events) rows),
        ids' ∙ ids,
      )
  after_all-Leaves (arrives name r ∷ events) s rows =
      let batch = identified (lookup name s.ids) r in
      let (table, ids) = arrives-Leaves name r s rows in
      let next = after (arrives name r) (s, rows) in
      let (rest, ids') = after_all-Leaves events next.0 next.1 in
      (
        rest
            ∙ write_all-append next.0.pending (arrived next.0.ids events) next.1
            ∙ ap (write_all float (arrived next.0.ids events)) table
            ∙ ap
                (λ i.
                  write_all float (arrived i events) (write_all float (s.pending ++ batch) rows))
                ids
            ∙ sym (write_all-append (s.pending ++ batch) (arrived s.ids events) rows)
            ∙ ap (λ all. write_all float all rows)
                (append_assoc s.pending batch (arrived s.ids events)),
        ids' ∙ ids,
      )

  -- Where no transaction fails, the last flush leaves nothing waiting, and the table is what it was
  -- with all that waited and all rounds of known targets that came since written to it one after
  -- the other, however they were batched and whenever the flush loop ticked.
  pub after_all-flushed :
      (events : List Event) (s : Memory F) (rows : List (RoundRow F))
      → ((flushed none (after_all events (s, rows))).0.pending ≡ [])
        × ((flushed none (after_all events (s, rows))).1
            ≡ write_all float (s.pending ++ arrived s.ids events) rows)
  after_all-flushed events s rows =
      let end = after_all events (s, rows) in
      let table = (after_all-Leaves events s rows).0 in
      let done = flushed-written end.0 end.1 in
      (
        ap (λ (x : Memory F × List (RoundRow F)). x.0.pending) done,
        ap (λ (x : Memory F × List (RoundRow F)). x.1) done ∙ table,
      )
