-- ===== src/Watch/Totals.antt =====
-- The totals that the metrics collector reports, pkg/workflow/metrics_collector.go.
use open_research_agent.Base.{ℕ, zero, suc, ◌+◌, ◌^◌, ◌<◌, ◌≡◌, refl, ℤ, pos, ◌+ℤ◌, int64, arith}
use open_research_agent.Pool.{WorkerPool}
use open_research_agent.Watch.{collect_metrics}

-- The two counters of the telemetry after `n` ticks at which the pool is `p`.
abbrev pub ticks : ℕ → WorkerPool → ℤ × ℤ
ticks zero p = (pos 0, pos 0)
ticks (suc n) p = collect_metrics p (ticks n p)

-- `c`, taken `n` times.
abbrev pub times : ℕ → ℕ → ℕ
times zero c = 0
times (suc n) c = times n c + c

int64-sum : (a b : ℕ) → a + b < 2 ^ 63 → int64 (pos a +ℤ pos b) ≡ pos (a + b)
unfolding int64
int64-sum a b h = ground arith

-- A counter of the telemetry is given the whole number of tasks again at every tick: after `n` ticks of
-- a pool that has completed `c` tasks and failed `f`, and is idle, it stands at that many times that number.
pub collect_metrics_repeats :
    (n c f : ℕ) (p : WorkerPool)
    → p.metrics.tasks_completed ≡ pos c
    → p.metrics.tasks_failed ≡ pos f
    → times n c < 2 ^ 63
    → times n f < 2 ^ 63
    → ticks n p ≡ (pos (times n c), pos (times n f))
unfolding collect_metrics
collect_metrics_repeats zero c f p e d h k = refl
collect_metrics_repeats (suc n) c f p e d h k =
    rw
      (
        collect_metrics_repeats n c f p e d (omega arith) (omega arith),
        e,
        d,
        int64-sum (times n c) c h,
        int64-sum (times n f) f k,
      )
      refl
