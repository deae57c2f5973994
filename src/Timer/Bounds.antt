-- ===== src/Timer/Bounds.antt =====
-- The bounds of the election timer: xraft-core/src/node.rs, `ElectionTimer`.
use failover_cluster.Prelude.{
  arith, max, refl, some, suc, true, u64_max, zero, ℕ, ◌↔◌, ◌≤◌, ◌≡◌, ◌+◌, ◌-◌, ◌<◌, ◌*◌,
}
use failover_cluster.Timer.{
  Rand, ElectionTimer, pick_in_range, new, from_config_ms, tick, is_expired, remaining, div_ceil,
}
use native.Mathlib.Nat.{lt-mul-div-succ, mul-div-le, mul-le-mul_right}

-- The target lies within the bounds, and the bounds are at least one tick.
pub record IsValid (t : ElectionTimer) : Type 0 where
  pub positive : 0 < t.min_ticks
  pub min_le : t.min_ticks ≤ t.timeout_ticks
  pub le_max : t.timeout_ticks ≤ t.max_ticks

-- Rounded up, not down, and by less than one more.
div_ceil-bounds : (a b : ℕ) → 0 < b → (a ≤ div_ceil a b * b) × (div_ceil a b * b < a + b)
unfolding div_ceil
div_ceil-bounds a b h =
    let over = lt-mul-div-succ (a + (b - 1)) h in
    let under = mul-div-le (a + (b - 1)) b in (omega arith, omega arith)

module _ {R : Type 0} ⦃rand : Rand R⦄ where
  pick_in_range-bounds :
      (lo hi : ℕ) (rng : R)
      → lo ≤ hi
      → (lo ≤ (pick_in_range lo hi rng).0) × ((pick_in_range lo hi rng).0 ≤ hi)
  unfolding pick_in_range
  pick_in_range-bounds lo hi rng h = ground (arith, rand.gen_range_bounds lo hi rng)

  new-some :
      (lo hi : ℕ) (rng : R)
      → 0 < lo
      → lo ≤ hi
      → (t : ElectionTimer) × (rng' : R) × (new lo hi rng ≡ some (t, rng'))
        × (t.min_ticks ≡ lo)
        × (t.max_ticks ≡ hi)
        × IsValid t
  unfolding new
  new-some lo hi rng p h =
      let (ge, le) = pick_in_range-bounds lo hi rng h in
      (
        record {
          elapsed_ticks = 0;
          timeout_ticks = (pick_in_range lo hi rng).0;
          min_ticks = lo;
          max_ticks = hi;
        },
        (pick_in_range lo hi rng).1,
        ground arith,
        refl,
        refl,
        record { positive = p; min_le = ge; le_max = le },
      )

  -- From any settings a timer is made, no assertion fails, its target is within its bounds, and the
  -- shortest timeout is no shorter than the setting in milliseconds.
  pub from_config_ms-total :
      (min_ms max_ms tick_interval_ms : ℕ) (rng : R)
      → (t : ElectionTimer) × (rng' : R) × (from_config_ms min_ms max_ms tick_interval_ms rng
          ≡ some (t, rng'))
        × IsValid t
        × (min_ms ≤ t.min_ticks * max tick_interval_ms 1)
        × (max_ms ≤ t.max_ticks * max tick_interval_ms 1)
  unfolding from_config_ms
  from_config_ms-total min_ms max_ms tick_interval_ms rng =
      let interval = max tick_interval_ms 1 in
      let lo = max (div_ceil min_ms interval) 1 in
      let hi = max (div_ceil max_ms interval) lo in
      let (t, rng', e, same_lo, same_hi, valid) = new-some lo hi rng (omega arith) (omega arith) in
      let (above, _) = div_ceil-bounds min_ms interval (omega arith) in
      let (above_max, _) = div_ceil-bounds max_ms interval (omega arith) in
      (
        t,
        rng',
        e,
        valid,
        rw same_lo (above-mono (div_ceil min_ms interval) lo min_ms interval above (omega arith)),
        rw same_hi
            (above-mono (div_ceil max_ms interval) hi max_ms interval above_max (omega arith)),
      )
    where
      above-mono : (a b m k : ℕ) → m ≤ a * k → a ≤ b → m ≤ b * k
      above-mono a b m k h le = let more = mul-le-mul_right k le in omega arith

-- `tick`, `k` times.
abbrev pub ticks : ℕ → ElectionTimer → ElectionTimer
ticks zero t = t
ticks (suc k) t = ticks k (tick t)

-- The timer expires after as many ticks as remain, and no sooner, while `u64` holds the sum.
pub ticks-is_expired :
    (k : ℕ) (t : ElectionTimer)
    → t.elapsed_ticks + k ≤ u64_max
    → (is_expired (ticks k t) ≡ true) ↔ (remaining t ≤ k)
unfolding tick is_expired remaining
ticks-is_expired zero t h = ground arith
ticks-is_expired (suc k) t h =
    let (to, from) = ticks-is_expired k (tick t) (omega arith) in
    (λ e. let s = to e in omega arith, λ le. from (omega arith))
