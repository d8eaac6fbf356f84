-- ===== src/Config/Pace.antt =====
-- `probeParams` of probe.go and `retentionDays` of config.go.
use fogping.Prelude.{
  ℕ, zero, suc, ◌≤◌, ◌<◌, ◌≡◌, ◌≢◌, ◌⊎◌, inl, inr, arith, Bool-cases, if◌then◌else◌, ◌==◌, text_eq,
  text_beq_iff, ltb,
}
use fogping.Prelude.Int.{ℤ, pos, negsuc, ltb_ℤ, ◌≤ℤ◌}
use fogping.Prelude.Result.{ok, err}
use fogping.Config.{
  TargetCfg, ProbeCfg, default_config, max_days, retention_days, fast, slow, IsNormal,
}

-- The interval in seconds and the packets of a round.
unfoldable pub probe_params : TargetCfg → ProbeCfg → ℤ × ℕ
probe_params t p =
    let paced : ℤ × ℕ =
      if t.pace == fast
      then (pos 15, 30)
      else if t.pace == slow
      then (pos 300, p.packets)
      else (p.interval_sec, p.packets) in
    (if ltb_ℤ (pos 0) t.interval_sec then t.interval_sec else paced.0, paced.1)

-- The interval that a pace stands for.
abbrev pub PaceInterval : TargetCfg → ProbeCfg → ℤ → Type 0
PaceInterval t p i =
    (t.pace ≡ fast) × (i ≡ pos 15)
    ⊎ (t.pace ≡ slow) × (i ≡ pos 300)
    ⊎ (t.pace ≢ fast) × (t.pace ≢ slow) × (i ≡ p.interval_sec)

-- An explicit interval comes before the pace, and the pace before the default of the program.
pub probe_params_precedence :
    (t : TargetCfg) (p : ProbeCfg)
    → (pos 1 ≤ℤ t.interval_sec) × ((probe_params t p).0 ≡ t.interval_sec)
      ⊎ (t.interval_sec ≤ℤ pos 0) × PaceInterval t p (probe_params t p).0
unfolding probe_params
probe_params_precedence t p = ground (arith, text_beq_iff t.pace fast, text_beq_iff t.pace slow)

-- With the program's parameters a normal target is probed with at least one packet, at an interval
-- of at least a second and at most a day: `time.NewTicker`, which panics at 0, is never given 0.
pub probe_params_bounds :
    (t : TargetCfg)
    → IsNormal t
    → (pos 1 ≤ℤ (probe_params t default_config.probe).0)
      × ((probe_params t default_config.probe).0 ≤ℤ pos 86400)
      × (0 < (probe_params t default_config.probe).1)
unfolding probe_params default_config
probe_params_bounds t n = ground arith

-- The days kept lie between 1 and the maximum; a request is refused exactly when it is above it.
pub retention_days_bounds :
    (n : ℤ)
    → (n ≤ℤ pos max_days) × ((d : ℕ) × (retention_days n ≡ ok (pos d)) × (1 ≤ d) × (d ≤ max_days))
      ⊎ ¬ (n ≤ℤ pos max_days) × (retention_days n ≡ err n)
unfolding retention_days
retention_days_bounds (pos zero) = inl (omega arith, (93, ground arith, omega arith, omega arith))
retention_days_bounds (pos (suc n)) = elim (Bool-cases (ltb 93 (suc n))) [
  | inl above ↦ inr (ground arith)
  | inr below ↦ inl (ground arith, (suc n, ground arith, ground arith, ground arith))
]
retention_days_bounds (negsuc n) = inl (omega arith, (93, ground arith, omega arith, omega arith))
