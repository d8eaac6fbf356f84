-- ===== src/Probe/Ends.antt =====
-- The loop of `collect` of probe.go ends: each `Recvfrom` takes time.
use fogping.Float.{Float}
