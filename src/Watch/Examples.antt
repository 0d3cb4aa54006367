-- ===== src/Watch/Examples.antt =====
-- A pool that has lost workers.
use open_research_agent.Base.{pos}
use open_research_agent.Pool.{WorkerPool, WorkerPoolConfig, empty_pool, with_defaults}

abbrev small : WorkerPoolConfig
small = record { max_workers = pos 5; queue_size = pos 0; worker_timeout = pos 0 }

abbrev idle : WorkerPool
idle = empty_pool (with_defaults small)
