-- ===== src/Program/Exits.antt =====
-- How the process ends, cmd/ora/main.go.
use open_research_agent.Base.{
  ℕ, suc, ◌≡◌, refl, subst, [], ◌∷◌, Bool, true, false, some, none, Option, String, if◌then◌else◌,
  ◌==◌, length, codes, Float64, FloatOps, Instant,
}
use open_research_agent.Domain.{Bytes}
use open_research_agent.Config.{Config}
use open_research_agent.Llm.{
  OllamaClient, Transport, Reply, reply, no_reply, new_ollama_client, check_health,
}
use open_research_agent.Graph.{ResearchGraph, Setup, built, not_built, new_research_graph}
use open_research_agent.Observability.{
  emit, span_ended, error_recorded, timed_metrics, phrase_of, phrase, Observations, Observed,
  start_span, with_metrics, record_research_request, record_research_complete,
}
use open_research_agent.Observability.Closing.{HasOpen}
use open_research_agent.Program.{
  Formats, Finished, printed, run_failed, run_panicked, RunError, no_input, research_query, run_cli,
  run_mode, if_healthy, run_program, ollama_options, workflow_config,
}
use open_research_agent.Program.Main.{
  if_metrics, finish_cli, observed_query, observed_cli, observed_mode, observed_healthy,
  observed_run, Exit, leave_main, run_main, get_mode,
}

-- A run with its spans has the result of the run without, and leaves `n` spans open.
record Leaves (n : ℕ) (plain : Finished) (seen : Observed Finished) : Type 0 where
  same_result : seen.result ≡ plain
  spans_left : HasOpen n seen.observations

if-Leaves :
    (n : ℕ) (test : Bool) (plain other : Finished) (seen missed : Observed Finished)
    → Leaves n plain seen
    → Leaves n other missed
    → Leaves n (if test then plain else other) (if test then seen else missed)
if-Leaves n true plain other seen missed h k = h
if-Leaves n false plain other seen missed h k = k

if-Leaves_same :
    (n : ℕ) (test : Bool) (plain : Finished) (seen missed : Observed Finished)
    → Leaves n plain seen
    → Leaves n plain missed
    → Leaves n plain (if test then seen else missed)
if-Leaves_same n true plain seen missed h k = h
if-Leaves_same n false plain seen missed h k = k

-- The exit of the process by what the run comes to, with `n` spans open before.
abbrev pub Exits : ℕ → Finished → Exit → Type 0
Exits n (printed report) exit =
    (exit.exit_code ≡ 0) × (exit.shut_down ≡ true) × HasOpen n exit.observations
Exits n (run_failed err) exit =
    (exit.exit_code ≡ 1) × (exit.shut_down ≡ false) × HasOpen (suc n) exit.observations
Exits n run_panicked exit =
    (exit.exit_code ≡ 2) × (exit.shut_down ≡ true) × HasOpen n exit.observations

if-HasOpen :
    (n : ℕ) (test : Bool) (p q : Observations)
    → HasOpen n p
    → HasOpen n q
    → HasOpen n (if test then p else q)
if-HasOpen n true p q h k = h
if-HasOpen n false p q h k = k

ended-HasOpen : (n : ℕ) (o : Observations) → HasOpen (suc n) o → HasOpen n (emit span_ended o)
ended-HasOpen n o h = rw h refl

module _ (elapsed : ℕ → Float64) (describe : Bool → RunError → Bytes) (metrics : Bool) where
  finish_cli-HasOpen :
      (n : ℕ) (outcome : Finished) (o : Observations)
      → HasOpen (suc n) o
      → HasOpen n (finish_cli elapsed describe metrics outcome o)
  unfolding finish_cli record_research_complete
  finish_cli-HasOpen n (printed report) o h =
      ended-HasOpen n
        (if_metrics metrics
          (timed_metrics elapsed (λ seconds. record_research_complete seconds "success")) o)
        (if-HasOpen (suc n) metrics
          (timed_metrics elapsed (λ seconds. record_research_complete seconds "success") o) o h h)
  finish_cli-HasOpen n (run_failed err) o h =
      let failed = emit (error_recorded (describe false err)) o in
      let counted =
        timed_metrics elapsed (λ seconds. record_research_complete seconds "failed") failed in
      ended-HasOpen n (if metrics then counted else failed)
        (if-HasOpen (suc n) metrics counted failed (rw h refl) (rw h refl))
  finish_cli-HasOpen n run_panicked o h = rw h refl

  module _ (float : FloatOps) (fmt : Formats) (transport : ℕ → Transport) where
    query-Leaves :
        (clock : ℕ → ℕ → Instant) (c : OllamaClient) (graph : ResearchGraph) (query : Bytes) (n : ℕ)
        (o : Observations)
        → HasOpen n o
        → Leaves n
            (research_query float fmt transport clock c graph query)
            (observed_query elapsed describe metrics float fmt transport clock c graph query o)
    unfolding observed_query record_research_request
    query-Leaves clock c graph query n o h =
        let outcome = research_query float fmt transport clock c graph query in
        let counted = if_metrics metrics (with_metrics (record_research_request "cli")) o in
        let begun =
          start_span (codes "research_execution")
            (("request.id", phrase_of (fmt.request_id (clock 0 8)))
              ∷ ("request.query", phrase query)
              ∷ [])
            counted in
        let before : HasOpen n counted =
          if-HasOpen n metrics (with_metrics (record_research_request "cli") o) o h h in
        if-Leaves_same n (length query == 0) outcome (record { result = outcome; observations = o })
          (record {
            result = outcome;
            observations = finish_cli elapsed describe metrics outcome begun;
          })
          (record { same_result = refl; spans_left = h })
          (record {
            same_result = refl;
            spans_left = finish_cli-HasOpen n outcome begun (rw before refl);
          })

    cli-Leaves :
        (clock : ℕ → ℕ → Instant) (c : OllamaClient) (graph : ResearchGraph) (stdin : Option Bytes)
        (query : Bytes) (n : ℕ) (o : Observations)
        → HasOpen n o
        → Leaves n
            (run_cli float fmt transport clock c graph stdin query)
            (observed_cli elapsed describe metrics float fmt transport clock c graph stdin query o)
    unfolding run_cli observed_cli
    cli-Leaves clock c graph none query n o h =
        if-Leaves n (length query == 0) (run_failed no_input)
          (research_query float fmt transport clock c graph query)
          (record { result = run_failed no_input; observations = o })
          (observed_query elapsed describe metrics float fmt transport clock c graph query o)
          (record { same_result = refl; spans_left = h }) (query-Leaves clock c graph query n o h)
    cli-Leaves clock c graph (some line) query n o h =
        query-Leaves clock c graph (if length query == 0 then fmt.trim_space line else query) n o h

    mode-Leaves :
        (clock : ℕ → ℕ → Instant) (c : OllamaClient) (api_mode : Bool) (stdin : Option Bytes)
        (query : Bytes) (setup : Setup) (n : ℕ) (o : Observations)
        → HasOpen (suc n) o
        → Leaves n (run_mode float fmt transport clock c api_mode stdin query setup) (
            observed_mode elapsed describe metrics float fmt transport clock c api_mode stdin query
              setup o)
    unfolding observed_mode
    mode-Leaves clock c api_mode stdin query (not_built err) n o h = record {
      same_result = refl;
      spans_left = rw h refl;
    }
    mode-Leaves clock c true stdin query (built graph) n o h = record {
      same_result = refl;
      spans_left = rw h refl;
    }
    mode-Leaves clock c false stdin query (built graph) n o h =
        cli-Leaves clock c graph stdin query n (emit span_ended o) (rw h refl)

    healthy-Leaves :
        (health : Reply (Unit {0})) (plain : Finished) (next : Observations → Observed Finished)
        (n : ℕ) (o : Observations)
        → HasOpen (suc (suc n)) o
        → ((p : Observations) → HasOpen (suc n) p → Leaves n plain (next p))
        → Leaves n
            (if_healthy float fmt transport health plain)
            (observed_healthy elapsed describe metrics float fmt transport health next o)
    unfolding observed_healthy
    healthy-Leaves (reply _) plain next n o h k = k (emit span_ended o) (rw h refl)
    healthy-Leaves (no_reply err) plain next n o h k = record {
      same_result = refl;
      spans_left = rw h refl;
    }

    run-Leaves :
        (clock : ℕ → ℕ → Instant) (first : Transport) (cfg : Config) (api_mode : Bool)
        (stdin : Option Bytes) (query : Bytes) (n : ℕ) (o : Observations)
        → HasOpen n o
        → Leaves n (run_program float fmt transport clock first cfg api_mode stdin query) (
            observed_run elapsed describe metrics float fmt transport clock first cfg api_mode stdin
              query o)
    unfolding run_program observed_run
    run-Leaves clock first cfg api_mode stdin query n o h =
        let c =
          new_ollama_client float (fmt.base_url_of cfg.ollama.base_url) cfg.ollama.model
            (some (ollama_options cfg)) in
        let setup = new_research_graph (some (workflow_config cfg)) (some 0) (some 1) in
        healthy-Leaves (check_health float first c)
          (run_mode float fmt transport clock c api_mode stdin query setup)
          (observed_mode elapsed describe metrics float fmt transport clock c api_mode stdin query
            setup)
          n
          (start_span (codes "ollama_health_check") []
            (start_span (codes "initialize_components") [] o))
          (rw h refl) (mode-Leaves clock c api_mode stdin query setup n)

    leave_main-Exits :
        (n : ℕ) (outcome plain : Finished) (o : Observations)
        → outcome ≡ plain
        → HasOpen (suc n) o
        → Exits n plain (leave_main elapsed describe metrics float fmt transport outcome o)
    unfolding leave_main
    leave_main-Exits n (printed report) plain o e h =
        subst
          (λ x.
            Exits n x (leave_main elapsed describe metrics float fmt transport (printed report) o))
          e (refl, refl, rw h refl)
    leave_main-Exits n (run_failed err) plain o e h =
        subst
          (λ x.
            Exits n x (leave_main elapsed describe metrics float fmt transport (run_failed err) o))
          e (refl, refl, rw h refl)
    leave_main-Exits n run_panicked plain o e h =
        subst
          (λ x. Exits n x (leave_main elapsed describe metrics float fmt transport run_panicked o))
          e (refl, refl, rw h refl)

    -- The process ends by what the run comes to, which the spans and metrics do not change. After a
    -- report it exits with 0 and after a panic with 2, with every span ended and the telemetry shut
    -- down. After an error it exits with 1, its main span not ended and the telemetry not shut down.
    pub run_main-Exits :
        (clock : ℕ → ℕ → Instant) (first : Transport) (version : String) (cfg : Config)
        (api_mode : Bool) (stdin : Option Bytes) (query : Bytes) (n : ℕ) (o : Observations)
        → HasOpen n o
        → Exits n (run_program float fmt transport clock first cfg api_mode stdin query) (
            run_main elapsed describe metrics float fmt transport clock first version cfg api_mode
              stdin query o)
    unfolding run_main
    run_main-Exits clock first version cfg api_mode stdin query n o h =
        let begun =
          start_span (codes "main")
            (("version", phrase_of version) ∷ ("mode", phrase_of (get_mode api_mode)) ∷ []) o in
        let seen =
          observed_run elapsed describe metrics float fmt transport clock first cfg api_mode stdin
            query begun in
        let left = run-Leaves clock first cfg api_mode stdin query (suc n) begun (rw h refl) in
        leave_main-Exits n seen.result
          (run_program float fmt transport clock first cfg api_mode stdin query) seen.observations
          left.same_result left.spans_left
