-- ===== src/Graph/Rounds.antt =====
-- The loop of the workflow, from a state with the one planned task.
use open_research_agent.Base.{
  ℕ, zero, suc, ◌*◌, ◌<◌, ◌≡◌, refl, ◌∙◌, inl, inr, List, [], ◌∷◌, map, false, Bool-cases, pos,
  pos_part, leb_ℤ, int64, arith, none, String, eq_refl, float_0_7, Instant,
}
use open_research_agent.Base.GoMap.{lookup, insert}
use open_research_agent.Domain.{
  ResearchResult, ResearchTask, Message, ChatOptions, Bytes, pending, in_progress, research,
  compression, complete,
}
use open_research_agent.State.{
  GraphState, set_phase, get_phase, update_task, task_or_fresh, add_result, increment_iteration,
  get_task_stats, count_tasks, count_status,
}
use open_research_agent.State.Pending.{get_next_pending_task, scan_next}
use open_research_agent.Worker.{ChatOutcome, answered, chat_failed, chat_panicked}
use open_research_agent.Graph.{
  research_failed, Run, NodeResult, done, node_failed, node_panicked, and_then, options,
  research_messages, generate_summary, supervisor_node, make_result, research_with, research_next,
  researcher_node, research_loop,
}

-- The tasks, the results, the request and the calls of two runs agree.
record SameWork (r q : Run) : Type 0 where
  same_tasks : q.state.tasks ≡ r.state.tasks
  same_results : q.state.results ≡ r.state.results
  same_calls : q.calls ≡ r.calls

abbrev pub IsComplete : Run → Type 0
IsComplete q = get_phase q.state ≡ complete

-- What a run has produced: the number of calls, the texts of the results and their summaries.
pub record Produced (calls : ℕ) (contents : List Bytes) (q : Run) : Type 0 where
  pub calls_made : q.calls ≡ calls
  pub contents_kept : map (λ (x : ResearchResult). x.content) q.state.results ≡ contents
  pub summaries_kept :
      map (λ (x : ResearchResult). x.summary) q.state.results ≡ map generate_summary contents

abbrev pub planned_task : String → Instant → ResearchTask
planned_task id now = record {
  id = id;
  topic = "Main research topic from query";
  parent_id = "";
  status = pending;
  priority = pos 1;
  assigned_worker = "";
  results = [];
  created_at = now;
  completed_at = none;
  metadata = [];
}

-- The state with the one planned task and no result.
abbrev pub planned_state : ResearchTask → GraphState → GraphState
planned_state task s = record s { tasks = (task.id, task) ∷ []; results = [] }

abbrev pub research_answer : (ℕ → List Message → ChatOptions → ChatOutcome) → ChatOutcome
research_answer client = client 2 (research_messages (planned_task "" 0)) (options float_0_7 2000)

-- The outcomes from the research on, by the client's answer.
abbrev pub EndsResearch : (Run → Type 0) → String → ChatOutcome → NodeResult → Type 0
EndsResearch IsEnd id (answered response) outcome =
    (q : Run) × (outcome ≡ done q) × Produced 3 (response.content ∷ []) q × IsEnd q
EndsResearch IsEnd id (chat_failed err) outcome =
    (q : Run) × (outcome ≡ node_failed (research_failed id err) q) × (q.calls ≡ 3)
EndsResearch IsEnd id chat_panicked outcome =
    (q : Run) × (outcome ≡ node_panicked q) × (q.calls ≡ 3)

-- The outcomes from the loop on, by the number of rounds it may make.
abbrev pub EndsRounds :
    (ℕ → List Message → ChatOptions → ChatOutcome)
    → (Run → Type 0)
    → ℕ
    → String
    → NodeResult
    → Type 0
EndsRounds client IsEnd zero id outcome = (q : Run) × (outcome ≡ done q) × Produced 2 [] q × IsEnd q
EndsRounds client IsEnd (suc n) id outcome = EndsResearch IsEnd id (research_answer client) outcome

module _ (client : ℕ → List Message → ChatOptions → ChatOutcome) (planned_id : Instant → String)
    (result_id : String → Instant → String) where
  -- When no task is pending or in progress, the loop ends at once, however many rounds are left.
  research_loop-SameWork :
      (clock : ℕ → ℕ → Instant) (left i : ℕ) (r : Run)
      → (get_task_stats r.state).pending ≡ pos 0
      → (get_task_stats r.state).in_progress ≡ pos 0
      → (q : Run) × (research_loop client planned_id result_id clock left i r ≡ done q)
        × SameWork r q
  unfolding research_loop supervisor_node set_phase
  research_loop-SameWork clock zero i r p g =
      (r, refl, record { same_tasks = refl; same_results = refl; same_calls = refl })
  research_loop-SameWork clock (suc left) i r p g =
      let s : GraphState = set_phase (clock (2 * i) 0) compression r.state in
      elim (Bool-cases (leb_ℤ r.state.max_iterations r.state.iterations)) [
        | inl e ↦ rw e (
          record { state = s; calls = r.calls },
          refl,
          record { same_tasks = refl; same_results = refl; same_calls = refl },
        )
        | inr e ↦
            rw (e, p, g)
              (
                record { state = s; calls = r.calls },
                refl,
                record { same_tasks = refl; same_results = refl; same_calls = refl },
              )
      ]

  supervisor_node-planned :
      (clock : ℕ → Instant) (id : String) (created : Instant) (s : GraphState)
      → 0 < pos_part s.max_iterations
      → s.iterations ≡ pos 0
      → supervisor_node clock (planned_state (planned_task id created) s)
        ≡ planned_state
            (planned_task id created)
            (record s { current_phase = research; updated_at = clock 1; iterations = pos 1 })
  unfolding supervisor_node set_phase increment_iteration get_task_stats count_tasks count_status
      int64
  supervisor_node-planned clock id created s h z =
      let more : leb_ℤ s.max_iterations (pos 0) ≡ false = ground arith in rw (z, more) refl

  -- The researcher node finds the planned task and asks about it.
  researcher_node-planned :
      (clock : ℕ → Instant) (id : String) (created : Instant) (s : GraphState)
      → researcher_node client planned_id result_id clock
          (record { state = planned_state (planned_task id created) s; calls = 2 })
        ≡ research_with client planned_id result_id clock
            (planned_task id created)
            (record {
              state =
                  planned_state
                    (record (planned_task id created) { status = in_progress })
                    (record s { updated_at = clock 0 });
              calls = 2;
            })
            (research_answer client)
  unfolding researcher_node research_next get_next_pending_task scan_next update_task task_or_fresh
      lookup insert research_messages
  researcher_node-planned clock id created s = rw (eq_refl id) refl

  abbrev Settled : Run → Type 0
  Settled q =
      ((get_task_stats q.state).pending ≡ pos 0) × ((get_task_stats q.state).in_progress ≡ pos 0)

  research_with-EndsResearch :
      (clock : ℕ → Instant) (id : String) (created : Instant) (s : GraphState) (a : ChatOutcome)
      → EndsResearch Settled id a (
          research_with client planned_id result_id clock
            (planned_task id created)
            (record {
              state = planned_state (record (planned_task id created) { status = in_progress }) s;
              calls = 2;
            })
            a)
  unfolding research_with make_result update_task task_or_fresh lookup insert add_result
      get_task_stats count_tasks count_status int64
  research_with-EndsResearch clock id created s (answered response) = rw (eq_refl id) (
    _,
    refl,
    record { calls_made = refl; contents_kept = refl; summaries_kept = refl },
    (refl, refl),
  )
  research_with-EndsResearch clock id created s (chat_failed err) = (_, refl, refl)
  research_with-EndsResearch clock id created s chat_panicked = (_, refl, refl)

  and_loop-EndsResearch :
      (clock : ℕ → ℕ → Instant) (left i : ℕ) (id : String) (a : ChatOutcome) (o : NodeResult)
      → EndsResearch Settled id a o
      → EndsResearch
          (λ q. Unit)
          id
          a
          (and_then o (λ q. research_loop client planned_id result_id clock left i q))
  and_loop-EndsResearch clock left i id (answered response) o (q, e, p, (s, t)) =
      let (q', e', same) = research_loop-SameWork clock left i q s t in
      rw e (
        q',
        e',
        record {
          calls_made = same.same_calls ∙ p.calls_made;
          contents_kept = rw (same.same_results) p.contents_kept;
          summaries_kept = rw (same.same_results) p.summaries_kept;
        },
        tt,
      )
  and_loop-EndsResearch clock left i id (chat_failed err) o (q, e, c) = rw e (q, refl, c)
  and_loop-EndsResearch clock left i id chat_panicked o (q, e, c) = rw e (q, refl, c)

  first_round-EndsResearch :
      (clock : ℕ → ℕ → Instant) (left : ℕ) (id : String) (created : Instant) (s : GraphState)
      → 0 < pos_part s.max_iterations
      → s.iterations ≡ pos 0
      → EndsResearch
          (λ q. Unit)
          id
          (research_answer client)
          (research_loop client planned_id result_id clock
            (suc left)
            0
            (record { state = planned_state (planned_task id created) s; calls = 2 }))
  unfolding research_loop
  first_round-EndsResearch clock left id created s h z =
      let t : GraphState = record s {
        current_phase = research;
        updated_at = clock 0 1;
        iterations = pos 1;
      } in
      rw (supervisor_node-planned (clock 0) id created s h z) (
        rw (researcher_node-planned (clock 1) id created t) (
          and_loop-EndsResearch clock left 1 id (research_answer client) _ (
            research_with-EndsResearch (clock 1) id created (record t { updated_at = clock 1 0 })
              (research_answer client))))

  pub rounds-EndsRounds :
      (clock : ℕ → ℕ → Instant) (n : ℕ) (id : String) (created : Instant) (s : GraphState)
      → pos_part s.max_iterations ≡ n
      → s.iterations ≡ pos 0
      → EndsRounds client
          (λ q. Unit)
          n
          id
          (research_loop client planned_id result_id clock n 0
            (record { state = planned_state (planned_task id created) s; calls = 2 }))
  unfolding research_loop
  rounds-EndsRounds clock zero id created s h z =
      (_, refl, record { calls_made = refl; contents_kept = refl; summaries_kept = refl }, tt)
  rounds-EndsRounds clock (suc n) id created s h z =
      first_round-EndsResearch clock n id created s (omega arith) z
