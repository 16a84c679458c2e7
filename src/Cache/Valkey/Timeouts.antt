-- ===== src/Cache/Valkey/Timeouts.antt =====
-- internal/cache/valkey.go, `normaliseDurations` and `deadlineOr`: the times that a call may take.
use mirador_rca.Prelude.{zero, suc, ◌*◌, ◌≡◌, refl, false, Option, none, some, arith}
use mirador_rca.Prelude.Int.{ℤ, pos, negsuc, ◌≤ℤ◌, leb_ℤ}
use mirador_rca.Cache.Valkey.{
  ValkeyConfig, or_fallback, normalise_durations, deadline_or, rounds, millisecond,
}

or_fallback_pos : (x fallback : ℤ) → pos 1 ≤ℤ fallback → pos 1 ≤ℤ or_fallback x fallback
or_fallback_pos x fallback h = ground arith

or_fallback_idem :
    (x fallback : ℤ) → or_fallback (or_fallback x fallback) fallback ≡ or_fallback x fallback
or_fallback_idem x fallback = ground arith

rounds-pos : (x : ℤ) → leb_ℤ x (pos 0) ≡ false → pos (rounds x) ≡ x
unfolding rounds
rounds-pos (pos zero) h = absurd (ground arith)
rounds-pos (pos (suc n)) h = refl
rounds-pos (negsuc n) h = absurd (ground arith)

rounds-or_fallback : (x : ℤ) → pos (rounds (or_fallback x (pos 1))) ≡ or_fallback x (pos 1)
rounds-or_fallback x = rounds-pos (or_fallback x (pos 1)) (ground arith)

-- After `normaliseDurations` every time and the number of retries is positive, the number of rounds is
-- the number of retries, and doing it again changes nothing.
pub normalise_durations_lem :
    (cfg : ValkeyConfig)
    → let cfg' = normalise_durations cfg in
      (pos 1 ≤ℤ cfg'.dial_timeout)
      × (pos 1 ≤ℤ cfg'.read_timeout)
      × (pos 1 ≤ℤ cfg'.write_timeout)
      × (pos (rounds cfg'.max_retries) ≡ cfg'.max_retries)
      × (normalise_durations cfg' ≡ cfg')
unfolding normalise_durations
normalise_durations_lem cfg = (
  or_fallback_pos cfg.dial_timeout _ (omega arith),
  or_fallback_pos cfg.read_timeout _ (omega arith),
  or_fallback_pos cfg.write_timeout _ (omega arith),
  rounds-or_fallback cfg.max_retries,
  rw (
    or_fallback_idem cfg.dial_timeout (pos (2000 * millisecond)),
    or_fallback_idem cfg.read_timeout (pos (500 * millisecond)),
    or_fallback_idem cfg.write_timeout (pos (500 * millisecond)),
    or_fallback_idem cfg.max_retries (pos 1),
  ),
)

-- For a timeout of at least a millisecond, `deadlineOr` returns a positive time that is at most the
-- timeout, whether the context has a deadline or not, and whether that has passed or not.
pub deadline_or_bounds :
    (remaining : Option ℤ) (d : ℤ)
    → pos millisecond ≤ℤ d
    → (pos 1 ≤ℤ deadline_or remaining d) × (deadline_or remaining d ≤ℤ d)
unfolding deadline_or
deadline_or_bounds none d h = ground arith
deadline_or_bounds (some remaining) d h = ground arith
