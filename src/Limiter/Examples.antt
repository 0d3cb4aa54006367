-- ===== src/Limiter/Examples.antt =====
-- The limiter on concrete requests.
use open_research_agent.Base.{◌+◌, ◌-◌, ◌*◌, ◌/◌, List, [], ◌∷◌, pos, pos_part, ltb, FloatOps}
use open_research_agent.Limiter.{ResourceLimiter, new_resource_limiter}
use open_research_agent.Limiter.Accounts.{Ledger, Request, takes, gives}

-- Whole percentages in place of floats.
abbrev percent : FloatOps
percent = record {
  add = λ a b. a + b;
  sub = λ a b. a - b;
  mul = λ a b. a * b;
  div = λ a b. a / b;
  lt = ltb;
  of_int = pos_part;
}

abbrev fresh : Ledger
fresh = record { limiter = new_resource_limiter (pos 100) 80; held = [] }

abbrev requests : List Request
requests = takes 60 10 ∷ takes 50 10 ∷ takes 40 10 ∷ gives 1 10 ∷ []

abbrev busy : ResourceLimiter
busy = record { memory_limit = pos 100; cpu_limit = 80; current_memory = pos 1; current_cpu = 0 }
