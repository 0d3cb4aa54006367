-- ===== src/Graph/Assembly.antt =====
-- The building of a workflow with telemetry, a worker pool and a supervisor, pkg/workflow/graph.go.
use open_research_agent.Base.{
  ℕ, ◌*◌, ◌≡◌, refl, ◌⊎◌, inl, inr, List, true, false, Bool-cases, pos, ltb_ℤ, leb_ℤ, arith, some,
  none, Option, if◌then◌else◌, is_none, minute,
}
use open_research_agent.Domain.{Bytes}
use open_research_agent.Observability.{
  Telemetry, Metrics, MetricsSetup, metrics_ready, metrics_failed, metrics_panicked, new_metrics,
  StructuredLogger, new_structured_logger,
}
use open_research_agent.Observability.Shutdown.{new_metrics-nil_meter}
use open_research_agent.Pool.{WorkerPool, PoolError, new_worker_pool}
use open_research_agent.Supervisor.{Supervisor, new_supervisor}
use open_research_agent.Graph.Data.{
  Config, ResearchGraph, Setup, SetupError, built, not_built, new_research_graph,
}

pub record FullGraph : Type 0 where
  pub graph : ResearchGraph
  pub telemetry : Option Telemetry
  pub metrics : Option Metrics
  pub logger : Option StructuredLogger
  pub worker_pool : Option WorkerPool
  pub supervisor : Option Supervisor

pub data FullSetup : Type 0 where
  full_built : FullGraph → FullSetup
  graph_refused : SetupError → FullSetup
  metrics_refused : Bytes → FullSetup
  pool_refused : PoolError → FullSetup
  full_panicked : FullSetup

abbrev pub full_then : FullSetup → (FullGraph → FullSetup) → FullSetup
full_then (full_built g) next = next g
full_then (graph_refused err) next = graph_refused err
full_then (metrics_refused err) next = metrics_refused err
full_then (pool_refused err) next = pool_refused err
full_then full_panicked next = full_panicked

abbrev pub with_metrics_of : List Bytes → FullGraph → Telemetry → MetricsSetup → FullSetup
with_metrics_of log_output g telemetry (metrics_ready metrics) = full_built (record g {
  telemetry = some telemetry;
  metrics = some metrics;
  logger = some (new_structured_logger log_output "research_graph");
})
with_metrics_of log_output g telemetry (metrics_failed err) = metrics_refused err
with_metrics_of log_output g telemetry metrics_panicked = full_panicked

unfoldable pub add_telemetry : List Bytes → Option Telemetry → FullGraph → FullSetup
add_telemetry log_output none g = full_built g
add_telemetry log_output (some telemetry) g =
    with_metrics_of log_output g telemetry (new_metrics telemetry.meter)

abbrev pub with_pool : FullGraph → PoolError ⊎ WorkerPool → FullSetup
with_pool g (inl err) = pool_refused err
with_pool g (inr pool) =
    full_built (record g { worker_pool = some pool; supervisor = some new_supervisor })

unfoldable pub add_pool : Option ℕ → FullGraph → FullSetup
add_pool llm_client g =
    if ltb_ℤ (pos 1) g.graph.config.research_config.max_concurrency
    then with_pool g (
        new_worker_pool
          (some (record {
            max_workers = g.graph.config.research_config.max_concurrency;
            queue_size = pos 50;
            worker_timeout = pos (2 * minute);
          }))
          llm_client)
    else full_built g

abbrev pub from_graph : Setup → FullSetup
from_graph (built graph) = full_built (record {
  graph = graph;
  telemetry = none;
  metrics = none;
  logger = none;
  worker_pool = none;
  supervisor = none;
})
from_graph (not_built err) = graph_refused err

unfoldable pub new_research_graph_with_telemetry :
    List Bytes → Option Config → Option ℕ → Option ℕ → Option Telemetry → FullSetup
unfolding new_research_graph add_telemetry add_pool
new_research_graph_with_telemetry log_output cfg llm_client tools telemetry =
    full_then
      (full_then (from_graph (new_research_graph cfg llm_client tools))
        (add_telemetry log_output telemetry))
      (add_pool llm_client)

-- What is built, by whether telemetry is given and by the configured concurrency.
abbrev pub IsAssembled : Config → Option Telemetry → FullSetup → Type 0
IsAssembled cfg telemetry (full_built g) =
    (g.graph.config ≡ cfg)
    × (is_none g.metrics ≡ is_none telemetry)
    × (is_none g.logger ≡ is_none telemetry)
    × (is_none g.supervisor ≡ is_none g.worker_pool)
    × (is_none g.worker_pool ≡ leb_ℤ cfg.research_config.max_concurrency (pos 1))
IsAssembled cfg telemetry (metrics_refused err) = is_none telemetry ≡ false
IsAssembled cfg telemetry full_panicked =
    (t : Telemetry) × (telemetry ≡ some t) × (is_none t.meter ≡ true)
IsAssembled cfg telemetry outcome = false ≡ true

-- The graph on which the telemetry and then the pool are put.
abbrev bare : Config → ℕ → ℕ → FullGraph
bare cfg client tools = record {
  graph = record { config = cfg; llm_client = client; tools = tools };
  telemetry = none;
  metrics = none;
  logger = none;
  worker_pool = none;
  supervisor = none;
}

module _ (cfg : Config) (client tools : ℕ) where
  pool-IsAssembled :
      (given : Option Telemetry) (telemetry : Option Telemetry) (metrics : Option Metrics)
      (logger : Option StructuredLogger)
      → is_none metrics ≡ is_none given
      → is_none logger ≡ is_none given
      → IsAssembled cfg given (
          add_pool (some client) (record (bare cfg client tools) {
            telemetry = telemetry;
            metrics = metrics;
            logger = logger;
          }))
  unfolding add_pool new_worker_pool
  pool-IsAssembled given telemetry metrics logger m l =
      elim (Bool-cases (ltb_ℤ (pos 1) cfg.research_config.max_concurrency)) [
        | inl e ↦ rw (e, IsAssembled) (refl, m, l, refl, ground arith)
        | inr e ↦ rw (e, IsAssembled) (refl, m, l, refl, ground arith)
      ]

  with_metrics_of-IsAssembled :
      (log_output : List Bytes) (t : Telemetry) (setup : MetricsSetup)
      → new_metrics t.meter ≡ setup
      → IsAssembled cfg (some t) (
          full_then
            (with_metrics_of log_output (bare cfg client tools) t setup)
            (add_pool (some client)))
  with_metrics_of-IsAssembled log_output t (metrics_ready metrics) e =
      pool-IsAssembled (some t) (some t) (some metrics)
        (some (new_structured_logger log_output "research_graph")) refl refl
  with_metrics_of-IsAssembled log_output t (metrics_failed err) e = refl
  with_metrics_of-IsAssembled log_output t metrics_panicked e =
      (t, refl, (new_metrics-nil_meter t.meter).0 e)

  -- A workflow that is built has metrics and a logger exactly when telemetry is given, and a worker
  -- pool and a supervisor, always both, exactly when more than one worker is configured. Nothing but
  -- the metrics can fail, and their creation panics when the telemetry has no meter.
  pub new_research_graph_with_telemetry-IsAssembled :
      (log_output : List Bytes) (telemetry : Option Telemetry)
      → IsAssembled cfg telemetry (
          new_research_graph_with_telemetry log_output
            (some cfg)
            (some client)
            (some tools)
            telemetry)
  unfolding new_research_graph_with_telemetry new_research_graph add_telemetry
  new_research_graph_with_telemetry-IsAssembled log_output none =
      pool-IsAssembled none none none none refl refl
  new_research_graph_with_telemetry-IsAssembled log_output (some t) =
      with_metrics_of-IsAssembled log_output t (new_metrics t.meter) refl
