-- ===== src/Graph.antt =====
-- The research workflow, pkg/workflow/graph.go, as `NewResearchGraph` builds it: without telemetry,
-- worker pool and supervisor, which is how the program builds it (cmd/ora/main.go). A node takes the
-- readings of its clock by number, and `client n` is what the n-th call of the language model's
-- client does, whatever that depends on. What `fmt.Sprintf` makes of an identifier is a parameter.
mod Data
mod Nodes
pub mod Rounds
pub mod Runs
pub mod Queries
pub mod Telemetry
pub mod Watching
pub mod Planning
pub mod Looping
pub mod Transparency
pub mod Assembly
pub mod Arrivals
pub mod Pooled
mod Examples
pub use open_research_agent.Graph.Data.{
  ResearchConfig, LlmConfig, Config, ResearchGraph, SetupError, config_required, client_required,
  tools_required, Setup, built, not_built, GraphError, clarification_failed, planning_failed,
  research_failed, Run, NodeResult, done, node_failed, node_panicked, and_then, message, options,
}
pub use open_research_agent.Graph.Nodes.{
  Executed, reported, stopped, execution_panicked, is_compression, is_complete, finding_of,
}
unfoldable pub use open_research_agent.Graph.Data.{
  new_research_graph, clarify_messages, planning_messages, research_messages,
}
unfoldable pub use open_research_agent.Graph.Nodes.{
  initial_state, start_node, generate_summary, supervisor_node, compression_node,
  report_generation_node, end_node, parse_tasks_from_response, clarify_with, clarify_node,
  add_tasks, plan_with, planning_node, make_result, research_with, research_next, researcher_node,
  research_loop, plan_and_research, run_nodes, extract_report, conclude, execute,
}
