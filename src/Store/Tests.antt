-- ===== src/Store/Tests.antt =====
-- Runs of store.go on a few rounds, with whole numbers for floats.
use fogping.Config.Tests.{shop}
use fogping.Targets.Rows.{Row, Table, find}
use fogping.Targets.Tests.{two}
use fogping.Store.Query.{is_raw, round_of, between}
use fogping.Store.Ensure.{readable, ensure_target, ensure_target_lem}
use fogping.Prelude.{
  inl, ◌&&◌, nat_eq, ℕ, ◌+◌, ◌-◌, ◌*◌, ◌/◌, ◌%◌, ◌^◌, ◌≤◌, ◌<◌, ◌≡◌, ◌≢◌, ◌⊎◌, inr, refl, arith,
  true, false, Option, none, some, List, [], ◌∷◌, ◌++◌, map, Text, codes, leb, ltb, nat_beq, keep,
  length, if◌then◌else◌, ◌==◌, text_eq, ne_of,
}
use fogping.Prelude.Int.{pos, pos_part}
use fogping.Prelude.Map.{lookup}
use fogping.Float.{Float}
use fogping.Store.{Round, Memory, RoundRow}
use fogping.Store.Samples.{pack_samples}
use fogping.Store.Live.{ring_cap, ring_of, append_all, write_all}
use fogping.Store.Ring.{last_of, rounds_of, append_all-ring}
use fogping.Store.Recent.{recent_of, recent_of-eq-keep}
use fogping.Store.Durable.{Event, arrives, ticks, flushed, after_all, arrived, after_all-flushed}
use fogping.Store.Schema.{Schema, Faults, round_columns, new_store}
use fogping.Store.Columns.{no_faults, Whole, first_targets, used_rounds, IsReady}
use fogping.Store.Opened.{Keeps, new_store_lem}
use fogping.Store.Percentiles.{samples}
use fogping.Store.Rollup.{buckets, Agg}
use fogping.Store.Keys.{InOrder, Ascending, buckets-Ascending}
use fogping.Store.Grouping.{grouped, bucketed, buckets-group}
use fogping.Store.Sched.{RollupSched, hour, tick, retention}
use fogping.Store.Horizon.{tick-retention}

pub leb_total_lem : (a b : ℕ) → (leb a b ≡ true) ⊎ (leb b a ≡ true)
leb_total_lem a b = ground arith

pub leb_trans_lem : (a b c : ℕ) → leb a b ≡ true → leb b c ≡ true → leb a c ≡ true
leb_trans_lem a b c h k = ground arith

pub ltb_leb_lem : (a b : ℕ) → ltb a b ≡ true → leb a b ≡ true
ltb_leb_lem a b h = ground arith

pub word_lt : (a : ℕ) → a % 2 ^ 32 < 2 ^ 32
word_lt a = omega arith

abbrev pub whole_numbers : Float
whole_numbers = record {
  F = ℕ;
  leb = leb;
  leb_total = leb_total_lem;
  leb_trans = leb_trans_lem;
  lt = ltb;
  eq = nat_beq;
  lt_leb = ltb_leb_lem;
  of_int = pos_part;
  add = λ a b. a + b;
  sub = λ a b. a - b;
  mul = λ a b. a * b;
  div = λ a b. a / b;
  trunc = pos;
  bits32 = λ a. a % 2 ^ 32;
  of_bits32 = λ n. n;
  bits32_lt = word_lt;
}

abbrev round_at : ℕ → Round ℕ
round_at t = record { t = t; s = 2; r = 1; ms = 7 ∷ []; b = false; z = 0 }

abbrev pub row_at : ℕ → RoundRow ℕ
row_at t = record {
  target_id = 1;
  t = t;
  sent = 2;
  recv = 1;
  samples = pack_samples whole_numbers (7 ∷ []);
  burst = 0;
  z = 0;
}

abbrev pub site_name : Text
site_name = codes "site"

abbrev shop_name : Text
shop_name = codes "shop"

abbrev pub memory : Memory ℕ
memory = record {
  ids = (site_name, 1) ∷ [];
  rings = (site_name, round_at 10 ∷ []) ∷ [];
  names = site_name ∷ [];
  total = 1;
  pending = [];
}

pub known : lookup site_name memory.ids ≡ some 1
unfolding lookup
known = refl

pub fits : length (ring_of (lookup site_name memory.rings)) ≤ ring_cap
unfolding lookup ring_of
fits = omega arith

other_name : site_name ≢ shop_name
other_name = ne_of refl

abbrev arrivals : List (Option Text × Round ℕ)
arrivals = (none, round_at 70) ∷ (some [], round_at 130) ∷ []

append_all-ring_example :
    (ring_of (lookup site_name (append_all whole_numbers site_name arrivals (memory, [])).0.rings)
      ≡ last_of ring_cap
          (ring_of (lookup site_name memory.rings) ++ rounds_of whole_numbers arrivals))
    × ((append_all whole_numbers site_name arrivals (memory, [])).0.ids ≡ memory.ids)
    × (length (append_all whole_numbers site_name arrivals (memory, [])).0.pending < 16)
append_all-ring_example =
    append_all-ring whole_numbers site_name arrivals memory [] 1 known fits (omega arith)

recent_of-eq-keep_example :
    recent_of (round_at 10 ∷ round_at 70 ∷ round_at 130 ∷ []) 70
    ≡ keep (λ (r : Round ℕ). leb 70 r.t) (round_at 10 ∷ round_at 70 ∷ round_at 130 ∷ [])
recent_of-eq-keep_example =
    recent_of-eq-keep (round_at 10 ∷ round_at 70 ∷ round_at 130 ∷ []) 70
      ((omega arith, (omega arith, tt)), ((omega arith, tt), (tt, tt)))

abbrev rows : List (RoundRow ℕ)
rows = row_at 3500 ∷ row_at 3700 ∷ row_at 3800 ∷ []

buckets-group_example :
    (bucketed whole_numbers 1 3600 3600 rows (λ (a : Agg ℕ). a.sent)
      ≡ grouped whole_numbers 1 3600 3600 rows (λ (r : RoundRow ℕ). r.sent))
    × (bucketed whole_numbers 1 3600 3600 rows (λ (a : Agg ℕ). a.recv)
        ≡ grouped whole_numbers 1 3600 3600 rows (λ (r : RoundRow ℕ). r.recv))
    × (bucketed whole_numbers 1 3600 3600 rows (λ (a : Agg ℕ). a.burst)
        ≡ grouped whole_numbers 1 3600 3600 rows (λ (r : RoundRow ℕ). r.burst))
    × (bucketed whole_numbers 1 3600 3600 rows (λ (a : Agg ℕ). a.n)
        ≡ grouped whole_numbers 1 3600 3600 rows (λ (r : RoundRow ℕ). 1))
buckets-group_example = buckets-group whole_numbers 1 3600 3600 rows

abbrev sched : RollupSched
sched = record { hot = 48 * hour; last = none }

-- A day's cut of 3,600 seconds, and a tick 49 hours after the epoch.
tick-retention_example :
    tick whole_numbers none none sched
      (49 * hour)
      (retention whole_numbers (λ d. 3600) true true 2 93 rows []).0
      []
    ≡ tick whole_numbers none none sched (49 * hour) rows []
tick-retention_example =
    tick-retention whole_numbers none none sched (49 * hour) rows [] [] (λ d. 3600) true true 2 93
      (omega arith)

-- A range of 293 years wraps round and is read raw.
wrapped : is_raw (pos 1) (pos 9223372038) ≡ true
unfolding is_raw
wrapped = refl

abbrev no_memory : Memory ℕ
no_memory = record { ids = []; rings = []; names = []; total = 0; pending = [] }

unknown : lookup shop.name no_memory.ids ≡ none
unfolding lookup
unknown = refl

abbrev shop_row : Row
shop_row = record { cfg = record shop { id = 2 }; active = false }

in_table : find shop.name two.rows ≡ some shop_row
unfolding find
in_table = refl

-- The first is from more than a day before.
abbrev shop_rows : List (RoundRow ℕ)
shop_rows = record (row_at 3500) { target_id = 2 } ∷ record (row_at 3700) { target_id = 2 } ∷ []

abbrev registered : Option Text × Memory ℕ × Table
registered = ensure_target whole_numbers (readable 90000 90001) shop shop_rows no_memory two

ensure_target_lem_example :
    (registered.0 ≡ none)
    × (lookup shop.name registered.1.ids
        ≡ (if shop.name == shop.name then some 2 else lookup shop.name no_memory.ids))
    × (lookup shop.name registered.1.rings ≡ (
        if shop.name == shop.name
        then some (
            last_of ring_cap (
              map (round_of whole_numbers) (
                keep
                  (λ (r : RoundRow ℕ). r.target_id == 2 && between (pos 3600) (pos 90001) r.t)
                  shop_rows)))
        else lookup shop.name no_memory.rings))
ensure_target_lem_example =
    ensure_target_lem whole_numbers 90000 90001 shop shop_rows no_memory two shop_row unknown
      in_table shop.name

rows-InOrder : InOrder rows
rows-InOrder = (
  (inr (refl, omega arith), (inr (refl, omega arith), tt)),
  ((inr (refl, omega arith), tt), (tt, tt)),
)

buckets-Ascending_example : Ascending (buckets whole_numbers 3600 rows)
buckets-Ascending_example = buckets-Ascending whole_numbers 3600 rows rows-InOrder

abbrev few_rounds : List (Round ℕ)
few_rounds = record (round_at 10) { ms = 9 ∷ 4 ∷ []; b = true } ∷ round_at 70 ∷ []

abbrev events : List (Event whole_numbers)
events =
    arrives site_name (round_at 70)
    ∷ ticks
    ∷ arrives shop_name (round_at 71)
    ∷ arrives site_name (round_at 130)
    ∷ []

after_all-flushed_example :
    ((flushed whole_numbers none (after_all whole_numbers events (memory, rows))).0.pending ≡ [])
    × ((flushed whole_numbers none (after_all whole_numbers events (memory, rows))).1
        ≡ write_all whole_numbers (memory.pending ++ arrived whole_numbers memory.ids events) rows)
after_all-flushed_example = after_all-flushed whole_numbers events memory rows

-- A file of an old release, of which the migration failed at its second column.
abbrev old_file : Schema
old_file = record {
  columns = codes "id" ∷ codes "name" ∷ codes "type" ∷ [];
  rounds = round_columns;
  hourly = [];
  daily = true;
}

abbrev full_disk : Faults
full_disk = record no_faults { column = λ name. some (codes "disk full") }

old_targets : Whole first_targets old_file.columns
old_targets = inr (refl, (refl, tt))

old_rounds : Whole used_rounds old_file.rounds
old_rounds = inr (refl, (refl, (refl, (refl, (refl, (refl, (refl, tt)))))))

new_store_lem_example :
    Keeps (codes "type") old_file (new_store full_disk old_file).1
    × ((new_store no_faults old_file).0 ≡ none)
    × IsReady (new_store no_faults old_file).1
new_store_lem_example =
    new_store_lem full_disk (codes "type") old_file old_targets old_rounds (inl refl)
