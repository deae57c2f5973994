-- ===== src/Timer.antt =====
-- xraft-core/src/node.rs, `ElectionTimer`: the randomised election timer, in logical ticks.
pub mod Bounds
use failover_cluster.Prelude.{
  ℕ, ◌+◌, ◌-◌, ◌≤◌, ◌/◌, max, Bool, Option, none, some, ltb, leb, ◌==◌, ◌||◌, if◌then◌else◌,
  saturating_add, saturating_sub,
}

-- What the engine uses of the `rand` crate over a generator state `R`, and what that crate
-- documents: `gen_range(lo..=hi)` lies within its bounds.
pub record Rand (R : Type 0) : Type 0 where
  pub gen_range : ℕ → ℕ → R → ℕ × R
  pub next_u64 : R → ℕ × R
  pub seed_from_u64 : ℕ → R
  pub gen_range_bounds :
      (lo hi : ℕ) (r : R) → lo ≤ hi → (lo ≤ (gen_range lo hi r).0) × ((gen_range lo hi r).0 ≤ hi)

pub record ElectionTimer : Type 0 where
  pub elapsed_ticks : ℕ
  pub timeout_ticks : ℕ
  pub min_ticks : ℕ
  pub max_ticks : ℕ

-- `a.div_ceil(b)` for `0 < b`.
unfoldable pub div_ceil : ℕ → ℕ → ℕ
div_ceil a b = (a + (b - 1)) / b

module _ {R : Type 0} ⦃rand : Rand R⦄ where
  -- Within `lo..=hi`; `gen_range` is not asked when the range is one value.
  unfoldable pub pick_in_range : ℕ → ℕ → R → ℕ × R
  pick_in_range lo hi rng = if lo == hi then (lo, rng) else rand.gen_range lo hi rng

  -- `none` is the panic of the two assertions.
  unfoldable pub new : ℕ → ℕ → R → Option (ElectionTimer × R)
  new min_ticks max_ticks rng =
      let (timeout, rng') = pick_in_range min_ticks max_ticks rng in
      if leb min_ticks 0 || ltb max_ticks min_ticks
      then none
      else some (
        record {
          elapsed_ticks = 0;
          timeout_ticks = timeout;
          min_ticks = min_ticks;
          max_ticks = max_ticks;
        },
        rng',
      )

  unfoldable pub from_config_ms : ℕ → ℕ → ℕ → R → Option (ElectionTimer × R)
  from_config_ms min_ms max_ms tick_interval_ms rng =
      let interval = max tick_interval_ms 1 in
      let min_ticks = max (div_ceil min_ms interval) 1 in
      let max_ticks = max (div_ceil max_ms interval) min_ticks in new min_ticks max_ticks rng

  unfoldable pub reset : ElectionTimer → R → ElectionTimer × R
  reset t rng =
      let (timeout, rng') = pick_in_range t.min_ticks t.max_ticks rng in
      (record t { elapsed_ticks = 0; timeout_ticks = timeout }, rng')

unfoldable pub tick : ElectionTimer → ElectionTimer
tick t = record t { elapsed_ticks = saturating_add t.elapsed_ticks 1 }

unfoldable pub is_expired : ElectionTimer → Bool
is_expired t = leb t.timeout_ticks t.elapsed_ticks

unfoldable pub remaining : ElectionTimer → ℕ
remaining t = saturating_sub t.timeout_ticks t.elapsed_ticks
