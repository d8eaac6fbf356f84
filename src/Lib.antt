-- ===== src/Lib.antt =====
-- fogping probes network targets, keeps the rounds in SQLite, rolls them up by the hour and shows
-- them on a web page, where the list of targets is edited, exported and imported.
--
-- The parts and their files:
-- Config: config.go and `probeParams` of probe.go. `normalize_target` is `normalizeTarget`, split
--   where the source tests; `retention_days` is `retentionDays`; `probe_params` is `probeParams`.
--   `IsNormal` says without the code's tests what a target must be.
-- Targets: targets.go. The state is the table `targets` (`Table`, rows in the order of ids); the
--   methods `CreateTarget`, `UpdateTarget`, `DeactivateTarget`, `ImportTargets`, `ActiveTargets`,
--   `TargetRows` and `TargetNames` have their names in lower case. Each takes what the database does
--   as an argument (`Effect`, or the error that a statement meets). Targets/Reach has the calls as a
--   step relation.
-- TargetsIo: the file format of targetsio.go. TargetsIo/Rows has `toFileTarget`, `fromFileRow` and
--   `exportTargets`, TargetsIo/Plan has `planImport`. The plan reads the names of the table
--   (`target_names`), and its targets go to `import_targets`. TargetsIo/Serve has
--   `serveTargetsImport`, with its HTTP answers.
-- Store: store.go. `Memory` is what the struct keeps beside its handles; Store/Live has `Append`,
--   `Flush`, `RemoveTarget`, `RenameTarget`, Store/Recent has `Recent`, Store/Samples the packed
--   samples, Store/Query has `ReadRange` and the queries under it, Store/Ensure `EnsureTarget`,
--   Store/Rollup `Rollup`, Store/Sched `rollupSched.tick` and `Retention`, Store/Stats `calcStats`,
--   Store/Durable `flushLoop` and `Close`, Store/Schema `NewStore` with `migrateTargets` of targets.go
--   (the state is the columns of each table of the file) and the statements of `reclaim`.
-- Detector: detect.go. `check_burst` is `CheckBurst`; it reads the ring of the store (`recent`).
-- Probe: probe.go. Probe/Checksum has `icmpChecksum`, Probe/Echo `buildEcho` and the tests by which
--   `collect` knows a reply, Probe/Collect the loop of `collect`, Probe/Rounds `icmpRound` with
--   `resolveIPv4` and `icmpSocket`, and `tcpRound`; Probe/Loop is `probeLoop`, a sequence of turns, each
--   a round, its verdict by `check_burst` and `append` to the store. The network and its clock are the
--   record `Net`; the resolver's answer, the sockets' errors and the random bytes are arguments.
-- Runner: runner.go. The state (`World`) is the configurations of the running probes, the memory of
--   the store and the table; `reload` reads the table (`active_targets`), stops and starts probes, and
--   calls `remove_target`, `rename_target` and `ensure_target` of the store. Runner/Stopped and Owned
--   follow the ids of the names through the first loop, Stored and Attributed through the second.
-- Web: web.go. `serve_write` is `write` with `guard` around it, `handle` the routes that write, each
--   with its status; the parts are `authed`, `valid`, `same_origin`, `path_id`, `decode`. The host that
--   `url.Parse` finds is an argument, and so is what `encoding/json` makes of a body. Web/Read has the
--   requests that read, which `serve_read` answers behind the same guard: the list of targets with their
--   figures (`calc_stats`), the export of targetsio.go, and the series (`read_range`).
-- System: web.go, runner.go and store.go together: `serve` is a request that writes and the reload after
--   it. In System/Synced a `Run` is any sequence of such requests, logins, rounds that probes hand to
--   `append`, and flushes; a round may also come late, from a probe that a reload has stopped.
-- Start: main.go. `launch` is `main` from the arguments to the configuration and the users, with
--   `splitArgs`, `parseAuthArgs` and `portOf`; what the flag package makes of the flags is an argument.
--   `boot` goes on to the seed of an empty table and the first reload, which gives the state of System;
--   Start/Housekeeping has `housekeeping`, with its nights in Nights.
-- Strings, Json and Float: what the code uses of Go's strings, encoding/json and float64. Floats are
--   a record of operations with the laws of an order and a bound on `math.Float32bits`; what the verdict
--   needs of them near zero is the record `ExactNearZero`. Encoding is as JSON values, not as bytes.
--
-- Numbers: Go's int is an integer without a bound where the code checks the range (ports, intervals,
-- days), and a natural number where it counts; the counter of rounds wraps at 2^64. Times are Unix
-- seconds, and nanoseconds in the schedule, from the epoch on.
--
-- Fuel: the binary search of `sort.Search` runs on the length of the list, which each turn at least
-- decrements, and the digits of a number on the number itself; both end before the fuel does. The loop
-- of `collect` runs on the nanoseconds left until its deadline, of which each receive takes at least one;
-- the loop that folds the carries of the checksum on 2, since a sum has 32 bits.
--
-- Not modelled: the kernel's sockets behind `Net`, the log, the static pages, /api/version, help.go, the
-- signal that ends the program, and what SQLite does with a pragma or a VACUUM, on which no row of the
-- model depends. Goroutines are sequences of steps: each method of the store and of the runner is
-- one step. The locks of the source hold for less: `Append` has two parts under two locks, `Flush` takes
-- the queue under a lock and commits without one, so two flushes may commit in the other order, and
-- `Reload` reads the table before it takes the lock of the probes. Those interleavings are not modelled; in Probe/Loop the turns of one probe follow each other without those of others between
-- them, in Store/Durable the rounds of all probes come in any order.
pub mod Config
pub mod Detector
pub mod Float
pub mod Json
pub mod Prelude
pub mod Probe
pub mod Runner
pub mod Start
pub mod Store
pub mod Strings
pub mod System
pub mod Targets
pub mod TargetsIo
pub mod Web
