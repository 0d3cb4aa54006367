-- ===== src/Graph/Watching.antt =====
-- What a node of the workflow with telemetry keeps, pkg/workflow/graph.go: lemmas on one node and on two
-- in a row.
use open_research_agent.Base.{
  Instant, List, ℕ, suc, ◌≡◌, refl, sym, ap, ◌∙◌, subst, [], ◌∷◌, ◌++◌, ℤ, String, codes, Float64,
  Bool, true, false, if◌then◌else◌,
}
use open_research_agent.State.{GraphState}
use open_research_agent.Worker.{ChatOutcome}
use open_research_agent.Domain.{Message, ChatOptions}
use open_research_agent.Observability.{
  instrument_llm_call, phrase_of, Observations, Observed, Verdict, succeeded, failed_with, panicked,
  LlmCall, call_answered, call_failed, call_panicked, start_span, instrument_workflow_node,
  finish_call, finish_llm_call,
}
use open_research_agent.Observability.Closing.{
  finish_llm_call-HasOpen, HasOpen, finish_call-HasOpen,
}
use open_research_agent.Graph.{Run, NodeResult, done, node_failed, node_panicked, and_then}
use open_research_agent.Graph.Telemetry.{
  observed_call, call_of, verdict_of, observed_then, observed_step,
}

-- `n` spans are open, and the gauges of the active requests and tasks stand at `a` and `b`.
pub record Stands (n : ℕ) (a b : ℤ) (o : Observations) : Type 0 where
  pub spans_open : HasOpen n o
  pub requests_active : o.metrics.active_research_count ≡ a
  pub tasks_active : o.metrics.active_task_count ≡ b

-- A gauge is as it was, unless the node panicked.
abbrev pub Restores : NodeResult → ℤ → ℤ → Type 0
Restores (done r) b active = active ≡ b
Restores (node_failed err r) b active = active ≡ b
Restores (node_panicked r) b active = Unit

-- A node with telemetry has the result of the node without, and leaves the spans and gauges so.
pub record Watches (n : ℕ) (a b : ℤ) (plain : NodeResult) (seen : Observed NodeResult)
    : Type 0 where
  pub same_result : seen.result ≡ plain
  pub spans_left : HasOpen n seen.observations
  pub requests_left : seen.observations.metrics.active_research_count ≡ a
  pub tasks_left : Restores seen.result b seen.observations.metrics.active_task_count

module _ (elapsed : ℕ → Float64) (n : ℕ) (a b : ℤ) where
  pub done-Watches :
      (r : Run) (o : Observations)
      → Stands n a b o
      → Watches n a b (done r) (record { result = done r; observations = o })
  done-Watches r o s = record {
    same_result = refl;
    spans_left = s.spans_open;
    requests_left = s.requests_active;
    tasks_left = s.tasks_active;
  }

  pub if-Watches :
      (test : Bool) (plain other : NodeResult) (seen missed : Observed NodeResult)
      → Watches n a b plain seen
      → Watches n a b other missed
      → Watches n a b (if test then plain else other) (if test then seen else missed)
  if-Watches true plain other seen missed w v = w
  if-Watches false plain other seen missed w v = v

  then-Watches :
      (plain result : NodeResult) (p : Observations) (f : Run → NodeResult)
      (k : Run → Observations → Observed NodeResult)
      → Watches n a b plain (record { result = result; observations = p })
      → ((r : Run) (o : Observations) → Stands n a b o → Watches n a b (f r) (k r o))
      → Watches n a b
          (and_then plain f)
          (observed_then (record { result = result; observations = p }) k)
  then-Watches plain (done r) p f k w next =
      subst (λ x. Watches n a b (and_then x f) (k r p)) w.same_result
        (next r p (record {
          spans_open = w.spans_left;
          requests_active = w.requests_left;
          tasks_active = w.tasks_left;
        }))
  then-Watches plain (node_failed err r) p f k w next =
      subst
        (λ x.
          Watches n a b (and_then x f) (record { result = node_failed err r; observations = p }))
        w.same_result
        (record {
          same_result = refl;
          spans_left = w.spans_left;
          requests_left = w.requests_left;
          tasks_left = w.tasks_left;
        })
  then-Watches plain (node_panicked r) p f k w next =
      subst
        (λ x. Watches n a b (and_then x f) (record { result = node_panicked r; observations = p }))
        w.same_result
        (record {
          same_result = refl;
          spans_left = w.spans_left;
          requests_left = w.requests_left;
          tasks_left = w.tasks_left;
        })

  pub follow-Watches :
      (plain : NodeResult) (seen : Observed NodeResult) (f : Run → NodeResult)
      (k : Run → Observations → Observed NodeResult)
      → Watches n a b plain seen
      → ((r : Run) (o : Observations) → Stands n a b o → Watches n a b (f r) (k r o))
      → Watches n a b (and_then plain f) (observed_then seen k)
  follow-Watches plain seen f k w next = then-Watches plain seen.result seen.observations f k w next

  finish_call-metrics :
      (status_key duration_key : String) (verdict : Verdict) (o : Observations)
      → (finish_call elapsed status_key duration_key verdict o).metrics ≡ o.metrics
  finish_call-metrics status_key duration_key succeeded o = refl
  finish_call-metrics status_key duration_key (failed_with err) o = refl
  finish_call-metrics status_key duration_key panicked o = refl

  pub finish_llm_call-metrics :
      (call : LlmCall) (o : Observations) → (finish_llm_call elapsed call o).metrics ≡ o.metrics
  finish_llm_call-metrics (call_answered prompts completions) o = refl
  finish_llm_call-metrics (call_failed err) o = refl
  finish_llm_call-metrics call_panicked o = refl

  pub node-Watches :
      (name phase : String) (plain : NodeResult) (fn : Observations → Observed NodeResult)
      (o : Observations)
      → ((p : Observations) → Stands (suc n) a b p → Watches (suc n) a b plain (fn p))
      → Stands n a b o
      → Watches n a b plain (instrument_workflow_node elapsed verdict_of name phase fn o)
  unfolding instrument_workflow_node
  node-Watches name phase plain fn o inner s =
      let begun : Observations =
        start_span (codes "workflow.node." ++ codes name)
          (("node.name", phrase_of name) ∷ ("phase", phrase_of phase) ∷ []) o in
      let seen : Observed NodeResult = fn begun in
      let w : Watches (suc n) a b plain seen = inner begun (record {
        spans_open = rw s.spans_open refl;
        requests_active = s.requests_active;
        tasks_active = s.tasks_active;
      }) in
      let kept =
        finish_call-metrics "status" "duration.seconds" (verdict_of seen.result)
          seen.observations in
      record {
        same_result = w.same_result;
        spans_left =
            finish_call-HasOpen elapsed n "status" "duration.seconds" (verdict_of seen.result)
              seen.observations w.spans_left;
        requests_left = ap (λ m. m.active_research_count) kept ∙ w.requests_left;
        tasks_left =
            subst (λ m. Restores seen.result b m.active_task_count) (sym kept) w.tasks_left;
      }

  pub step-Watches :
      (name phase : String) (change : GraphState → GraphState) (r : Run) (o : Observations)
      → Stands n a b o
      → Watches n a b
          (done (record r { state = change r.state }))
          (observed_step elapsed name phase change r o)
  unfolding observed_step
  step-Watches name phase change r o s =
      let stepped = done (record r { state = change r.state }) in
      node-Watches name phase stepped (λ p. record { result = stepped; observations = p }) o
        (λ p t. record {
          same_result = refl;
          spans_left = t.spans_open;
          requests_left = t.requests_active;
          tasks_left = t.tasks_active;
        })
        s

  -- A call of the client in its span answers as the client does, and leaves the metrics.
  pub call-Stands :
      (client : ℕ → List Message → ChatOptions → ChatOutcome) (planned_id : Instant → String)
      (result_id : String → Instant → String) (model : String) (calls : ℕ) (messages : List Message)
      (opts : ChatOptions) (o : Observations)
      → Stands n a b o
      → Stands n a b
          (observed_call elapsed client planned_id result_id model calls messages opts
            o).observations
  unfolding observed_call instrument_llm_call
  call-Stands client planned_id result_id model calls messages opts o s =
      let begun : Observations =
        start_span (codes "llm.chat")
          (("llm.model", phrase_of model) ∷ ("llm.provider", phrase_of "ollama") ∷ []) o in
      let outcome = call_of (client calls messages opts) in
      let kept = finish_llm_call-metrics outcome begun in
      record {
        spans_open = finish_llm_call-HasOpen elapsed n outcome begun (rw s.spans_open refl);
        requests_active = ap (λ m. m.active_research_count) kept ∙ s.requests_active;
        tasks_active = ap (λ m. m.active_task_count) kept ∙ s.tasks_active;
      }
