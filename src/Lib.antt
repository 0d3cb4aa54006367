-- ===== src/Lib.antt =====
-- A model of the core of the open research agent, a Go program that splits a research request into
-- tasks, researches them with a language model and gathers the results into a report.
--
-- The program loads its configuration (pkg/config/config.go), makes a client of the language model
-- (pkg/llm/ollama.go) and a tool registry (pkg/tools/registry.go), and runs the workflow graph
-- (pkg/workflow/graph.go), which takes the workflow state (pkg/state/state.go) through its phases one
-- task at a time. For parallel work there is a pool of workers (pkg/workflow/worker_pool.go), watched
-- by a health monitor and a metrics collector, with a supervisor (pkg/workflow/supervisor.go) that
-- orders the pending tasks, distributes them to workers and follows their progress. A worker asks its
-- circuit breaker (pkg/workflow/circuit_breaker.go) before each task and tells it the outcome; a
-- limiter (pkg/workflow/resource_limiter.go) accounts for memory and CPU. The researcher pool
-- (pkg/workflow/researcher_pool.go) is a second pool, whose workers are made of a task processor, an
-- executor, a health manager and metrics.
--
-- Which file models what:
--   Base: the helpers. int and int64 are integers that wrap by `int64`, int32 by `int32`; a Go map is
--     an association list (Base/GoMap); an instant is a number of nanoseconds with 0 for the zero
--     time; a float64 is its bit pattern, and the arithmetic on it is a parameter (Base/Float).
--   Domain: the structs of pkg/domain/models.go and pkg/domain/interfaces.go.
--   Config: pkg/config/config.go, its types in Config/Data and its functions in Config/Loading. YAML,
--     the environment, the file and the parsers of numbers and durations are parameters.
--   Llm: pkg/llm/ollama.go, with JSON and HTTP as a parameter, the `Transport`; Llm/Instrumented is
--     pkg/llm/instrumented.go, around what any client answers.
--   Observability: pkg/observability. Observability/Recording is metrics.go, Observability/Spans
--     instrumentation.go, Observability/Setup telemetry.go and Observability/Logging logging.go. The
--     OpenTelemetry SDK is a parameter; a call with telemetry passes `Observations` on, the list of
--     what the SDK has been told so far, with the latest first.
--   Tools: pkg/tools/registry.go.
--   Graph: pkg/workflow/graph.go as the program builds it, its data and messages in Graph/Data and its
--     nodes in Graph/Nodes: `execute` is Execute, one function per node, and `client n` is what the
--     n-th call of the language model does. Graph/Telemetry has the same nodes in their spans, for a
--     graph without a pool,
--     Graph/Assembly NewResearchGraphWithTelemetry, Graph/Arrivals processWorkerResults, and
--     Graph/Pooled the rounds with a pool and a supervisor, with the workers' part as an argument.
--   Breaker: pkg/workflow/circuit_breaker.go, a function for each method; its histories are `run`.
--   Limiter: pkg/workflow/resource_limiter.go.
--   State: the methods of GraphState in pkg/state/state.go; State/Pending has the two queries that
--     range over the task map, with the order of the visit as an argument.
--   Distribute: the distributors of pkg/workflow/supervisor.go; Distribute/Capacity has the
--     cost-based one, with `sort.Slice` as a parameter.
--   Monitor: the progress monitor of pkg/workflow/supervisor.go.
--   Pool: pkg/workflow/worker_pool.go, its data in Pool/Data and what goroutines do in Pool/Steps.
--     They interleave here: `advance` is one action of one goroutine, with at most one operation on
--     tasksQueued, queueDepth, tasksProcessing and activeWorkers, and `Reach` the states that actions
--     lead to. The time that is summed up, the other two counters and the send after them belong to
--     the action beside them. `Start` launches a worker before it counts it, so that the workers are
--     those counted and one more; the list of their values, which only the health monitor reads, is
--     left out.
--   Watch: pkg/workflow/health_monitor.go and pkg/workflow/metrics_collector.go, over that pool.
--   Store: the memory store of pkg/state/store.go and the snapshot of pkg/state/state.go, over a heap
--     of metadata maps; Store/Files is the file store.
--   Supervisor: DistributeTasks, HandleTaskCompletion and the prioritizer of
--     pkg/workflow/supervisor.go, over the monitor and the answer of a distributor;
--     Supervisor/Rebalance has RebalanceTasks and AdaptStrategy.
--   Worker: pkg/workflow/worker.go. The answer of the language model, the clock and the size of the
--     heap are arguments of `process_task`; a client may also panic.
--   Researcher: the files of the researcher pool. Researcher/Tracker is pkg/workflow/pool_metrics.go
--     and pkg/workflow/pool_task_tracker.go, Researcher/Metrics pkg/workflow/worker_metrics.go,
--     Researcher/Health pkg/workflow/worker_health.go, Researcher/Executor
--     pkg/workflow/research_executor.go with its messages in Researcher/Prompts, Researcher/Processor
--     pkg/workflow/task_processor.go, and Researcher/Pool pkg/workflow/researcher_pool.go with the
--     loop of pkg/workflow/researcher_worker.go, as actions that interleave. Researcher/Stats is the
--     worker's constructor with the statistics of pool and workers.
--   Program: `run` and `runCLI` of cmd/ora/main.go, over Config, Llm and Graph; Program/Main has them
--     with their spans and metrics, initObservability and main from its span on.
--
-- But for the two pools, each method holds its object's lock from start to end, so a call is one step
-- and an interleaving of goroutines is a list of calls. `time.Now()` is an argument. A loop over a
-- list is structural recursion. The loop of Execute and the retries of the task processor run by the
-- number of rounds that the source bounds them with, and the restarts of the health monitor by their
-- count: no fuel runs out. A map has fewer than 2^63 entries where a count of them is an int.
--
-- Not modelled: the log output but for the logger itself, the globals and the resource of the
-- OpenTelemetry SDK, a streamed response that neither the service nor the timeout of the HTTP client
-- ends, the flags, signals and printing of cmd/ora, the supervisor node with a worker pool and no
-- supervisor, which no constructor builds, the start and stop of the pool in Execute, the tickers, and
-- goroutine scheduling below the level of calls.
mod Base
pub mod Domain
pub mod Breaker
pub mod Limiter
pub mod State
pub mod Distribute
pub mod Config
pub mod Observability
pub mod Graph
pub mod Monitor
pub mod Store
pub mod Pool
pub mod Llm
pub mod Tools
pub mod Worker
pub mod Watch
pub mod Researcher
pub mod Program
pub mod Supervisor
