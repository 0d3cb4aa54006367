-- ===== src/Researcher/Retries.antt =====
-- The retries of the task processor.
use open_research_agent.Base.{ℕ, zero, suc, ◌<◌, ◌≡◌, ◌⊎◌}
use open_research_agent.Researcher.Executor.{Research}
use open_research_agent.Researcher.Processor.{AllFailed, slept_before, IsFinal}

-- The outcome of the last of `attempts` attempts.
abbrev pub IsLast : (ℕ → Research) → ℕ → Research → Type 0
IsLast research zero outcome = Unit
IsLast research (suc n) outcome = outcome ≡ research n

-- What the loop returns: the outcome of the first attempt that is no error, or the error of the last
-- attempt, with the time slept before it.
abbrev pub Settles : (ℕ → Research) → ℕ → Research × ℕ → Type 0
Settles research attempts (outcome, slept) =
    ((n : ℕ) × (n < attempts)
      × (outcome ≡ research n)
      × IsFinal outcome
      × AllFailed research n
      × (slept ≡ slept_before (suc n)))
    ⊎ (AllFailed research attempts
        × IsLast research attempts outcome
        × (slept ≡ slept_before attempts))
