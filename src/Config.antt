-- ===== src/Config.antt =====
-- The configuration of the program, pkg/config/config.go.
mod Data
pub mod Loading
pub mod Validity
pub mod Saving
mod Examples
pub use open_research_agent.Config.Data.{
  Config, OllamaConfig, ResearchConfig, ToolsConfig, ApiConfig, ObservabilityConfig, TracingConfig,
  StorageConfig,
}
unfoldable pub use open_research_agent.Config.Data.{default_config}
