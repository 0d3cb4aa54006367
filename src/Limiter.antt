-- ===== src/Limiter.antt =====
-- The resource limiter, pkg/workflow/resource_limiter.go. Memory is an int64 that wraps; the CPU
-- share is a float64, with the processor's operations as the section's parameter. Each method holds
-- the limiter's lock.
pub mod Accounts
mod Examples
use open_research_agent.Base.{
  ℕ, Bool, true, false, ℤ, pos, ◌+ℤ◌, ◌-ℤ◌, ltb_ℤ, int64, if◌then◌else◌, Float64, FloatOps,
  float_zero,
}

pub record ResourceLimiter : Type 0 where
  pub memory_limit : ℤ  -- int64, bytes
  pub cpu_limit : Float64
  pub current_memory : ℤ  -- int64
  pub current_cpu : Float64

unfoldable pub new_resource_limiter : ℤ → Float64 → ResourceLimiter
new_resource_limiter memory_limit cpu_limit = record {
  memory_limit = memory_limit;
  cpu_limit = cpu_limit;
  current_memory = pos 0;
  current_cpu = float_zero;
}

module _ (float : FloatOps) where
  unfoldable pub can_allocate : ResourceLimiter → ℤ → Float64 → Bool
  can_allocate rl memory cpu =
      if ltb_ℤ rl.memory_limit (int64 (rl.current_memory +ℤ memory))
      then false
      else if float.lt rl.cpu_limit (float.add rl.current_cpu cpu)
      then false
      else true

  unfoldable pub allocate : ResourceLimiter → ℤ → Float64 → ResourceLimiter × Bool
  allocate rl memory cpu =
      if ltb_ℤ rl.memory_limit (int64 (rl.current_memory +ℤ memory))
      then (rl, false)
      else if float.lt rl.cpu_limit (float.add rl.current_cpu cpu)
      then (rl, false)
      else (
        record rl {
          current_memory = int64 (rl.current_memory +ℤ memory);
          current_cpu = float.add rl.current_cpu cpu;
        },
        true,
      )

  unfoldable pub release : ResourceLimiter → ℤ → Float64 → ResourceLimiter
  release rl memory cpu =
      let less_memory = int64 (rl.current_memory -ℤ memory) in
      let less_cpu = float.sub rl.current_cpu cpu in
      record rl {
        current_memory = if ltb_ℤ less_memory (pos 0) then pos 0 else less_memory;
        current_cpu = if float.lt less_cpu float_zero then float_zero else less_cpu;
      }

unfoldable pub get_usage : ResourceLimiter → ℤ × Float64
get_usage rl = (rl.current_memory, rl.current_cpu)

unfoldable pub get_limits : ResourceLimiter → ℤ × Float64
get_limits rl = (rl.memory_limit, rl.cpu_limit)

unfoldable pub reset : ResourceLimiter → ResourceLimiter
reset rl = record rl { current_memory = pos 0; current_cpu = float_zero }
