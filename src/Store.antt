-- ===== src/Store.antt =====
-- store.go: the rounds, the memory of the store, the tables of rounds and what the methods do to
-- them. The calls of one method are one step; two methods never interleave within one.
pub mod Samples
pub mod Live
pub mod Ring
pub mod Recent
pub mod Rollup
pub mod Grouping
pub mod Keys
pub mod Known
pub mod Horizon
pub mod Sched
pub mod Stats
pub mod Percentiles
pub mod Query
pub mod Schema
pub mod Columns
pub mod Opened
pub mod Durable
pub mod Ensure
pub mod Tests
use fogping.Prelude.{ℕ, Bool, List, Text}
use fogping.Prelude.Map.{Map}

-- `Round` of probe.go: a time in Unix seconds, packets sent and received, the samples, the verdict
-- on the loss and the score behind it.
pub record Round (F : Type 0) : Type 0 where
  pub t : ℕ
  pub s : ℕ
  pub r : ℕ
  pub ms : List F
  pub b : Bool
  pub z : F

-- The fields of `Store` that are no handles: ids and rings by name, the names in order, the count of
-- rounds, and the rounds that wait to be written.
pub record Memory (F : Type 0) : Type 0 where
  pub ids : Map Text ℕ
  pub rings : Map Text (List (Round F))
  pub names : List Text
  pub total : ℕ
  pub pending : List (ℕ × Round F)

-- A row of the table `rounds`; the samples are the packed bytes.
pub record RoundRow (F : Type 0) : Type 0 where
  pub target_id : ℕ
  pub t : ℕ
  pub sent : ℕ
  pub recv : ℕ
  pub samples : List ℕ
  pub burst : ℕ
  pub z : F
