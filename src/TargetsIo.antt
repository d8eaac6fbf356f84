-- ===== src/TargetsIo.antt =====
-- targetsio.go: target lists as files. A row of the file and its decoding, the export, and the plan
-- that an import makes before it changes anything.
pub mod Rows
pub mod Plan
pub mod RoundTrip
pub mod Planned
pub mod Gate
pub mod Applied
pub mod Grown
pub mod FileTrip
pub mod Serve
pub mod Tests
