-- ===== src/Researcher/Executor.antt =====
-- The research executor, pkg/workflow/research_executor.go. What the tools and the language model
-- answer, `strings.TrimSpace`, the format of the result's identifier and float operations are
-- parameters. The answers to the prompts are arguments; Researcher/Prompts has the prompts.
use open_research_agent.Base.{
  ℕ, zero, suc, ◌≤◌, ◌<◌, ◌≡◌, refl, ◌⊎◌, inl, inr, List, [], ◌∷◌, ◌++◌, Bool, true, false, ◌||◌,
  Bool-cases, pos, arith, String, if◌then◌else◌, ltb, ◌==◌, length, length-append, codes, Float64,
  FloatOps, Instant, float_0_05, float_0_1, float_0_2, float_0_5, float_0_95,
}
use open_research_agent.Domain.{ResearchTask, ResearchResult, Bytes, boolean, texts}
use open_research_agent.Worker.{ChatOutcome, answered, chat_failed, chat_panicked, first_bytes}

-- What a tool does: it is not registered, it fails, or its result prints as a text.
pub data ToolAnswer : Type 0 where
  unavailable tool_failed : ToolAnswer
  printed : Bytes → ToolAnswer

-- `executeWebSearch`: the results and the tools that were used.
unfoldable pub execute_web_search : ToolAnswer → Bytes × List String
execute_web_search unavailable = ([], [])
execute_web_search tool_failed = ([], [])
execute_web_search (printed result) = (result, "web_search" ∷ [])

-- `generateSummary`.
unfoldable pub tool_summary : ToolAnswer → Bytes
tool_summary (printed result) = result
tool_summary _ = []

-- `strings.Split(content, "\n")`: the line that is being read, and the rest.
abbrev pub split_lines : Bytes → Bytes → List Bytes
split_lines line [] = line ∷ []
split_lines line (c ∷ content) =
    if c == 10 then line ∷ split_lines [] content else split_lines (line ++ c ∷ []) content

-- `strings.Join(parts, " ")`.
abbrev pub join_words : List Bytes → Bytes
join_words [] = []
join_words (part ∷ []) = part
join_words (part ∷ next ∷ parts) = part ++ 32 ∷ join_words (next ∷ parts)

abbrev pub starts_with : Bytes → Bytes → Bool
starts_with [] content = true
starts_with (p ∷ part) [] = false
starts_with (p ∷ part) (c ∷ content) =
    let rest = starts_with part content in if p == c then rest else false

-- `strings.Contains`.
abbrev pub contains : Bytes → Bytes → Bool
contains [] part = starts_with part []
contains (c ∷ content) part =
    let later = contains content part in if starts_with part (c ∷ content) then true else later

-- `confidence += amount` under a test.
abbrev pub add_if : FloatOps → Bool → Float64 → Float64 → Float64
add_if float test amount confidence = if test then float.add confidence amount else confidence

-- What an attempt at a task's research meets.
pub record Consulted : Type 0 where
  pub search : ToolAnswer
  pub chat : ChatOutcome
  pub summarize : ToolAnswer
  pub at : Instant

pub data Research : Type 0 where
  found : ResearchResult → Research
  not_found : String → Research
  research_panicked : Research

module _ (float : FloatOps) where
  unfoldable pub calculate_confidence : Bytes → Bytes → Bytes → List String → Float64
  calculate_confidence search_results analysis summary tools_used =
      let searched = add_if float (ltb 0 (length search_results)) float_0_2 float_0_5 in
      let long = add_if float (ltb 500 (length analysis)) float_0_1 searched in
      let summarized = add_if float (ltb 100 (length summary)) float_0_1 long in
      let tooled =
        add_if float (ltb 0 (length tools_used))
          (float.mul float_0_05 (float.of_int (pos (length tools_used)))) summarized in
      let structured =
        add_if float (contains analysis (codes "1.") || contains analysis (0xe2 ∷ 0x80 ∷ 0xa2 ∷ []))
          float_0_05 tooled in
      if float.lt float_0_95 structured then float_0_95 else structured

  module _ (trim_space : Bytes → Bytes) (result_id : String → Instant → String) where
    -- The loop over the first three lines.
    unfoldable pub summary_lines : ℕ → List Bytes → List Bytes
    summary_lines zero lines = []
    summary_lines (suc n) [] = []
    summary_lines (suc n) (line ∷ lines) =
        let rest = summary_lines n lines in
        if ltb 0 (length (trim_space line)) then trim_space line ∷ rest else rest

    unfoldable pub create_basic_summary : Bytes → Bytes
    unfolding summary_lines
    create_basic_summary content =
        let result = join_words (summary_lines 3 (split_lines [] content)) in
        if ltb 500 (length result) then first_bytes 497 result ++ codes "..." else result

    -- The summary that `ExecuteResearch` settles on.
    unfoldable pub summary_of : Bytes → ToolAnswer → Bytes
    unfolding tool_summary create_basic_summary
    summary_of analysis tool =
        if length (tool_summary tool) == 0 then create_basic_summary analysis else tool_summary tool

    unfoldable pub make_result : ResearchTask → Consulted → Bytes → ResearchResult
    unfolding execute_web_search summary_of calculate_confidence
    make_result task c analysis =
        let (search_results, tools_used) = execute_web_search c.search in
        let summary = summary_of analysis c.summarize in
        record {
          id = result_id task.id c.at;
          task_id = task.id;
          source = "research_executor";
          content = analysis;
          summary = summary;
          confidence = calculate_confidence search_results analysis summary tools_used;
          metadata =
              ("has_search_results", boolean (ltb 0 (length search_results)))
              ∷ ("tools_used", texts tools_used)
              ∷ [];
          timestamp = c.at;
        }

    unfoldable pub attempt_research : ResearchTask → Consulted → ChatOutcome → Research
    unfolding make_result
    attempt_research task c (answered response) = found (make_result task c response.content)
    attempt_research task c (chat_failed err) = not_found err
    attempt_research task c chat_panicked = research_panicked

    unfoldable pub execute_research : ResearchTask → Consulted → Research
    unfolding attempt_research
    execute_research task c = attempt_research task c c.chat

length-first_bytes_le : (n : ℕ) (content : Bytes) → length (first_bytes n content) ≤ n
length-first_bytes_le zero content = omega arith
length-first_bytes_le (suc n) [] = omega arith
length-first_bytes_le (suc n) (c ∷ content) = omega (arith, length-first_bytes_le n content)

-- A text of more than 500 bytes is cut to 500 of them, the dots included.
shortened :
    (result : Bytes)
    → length (if ltb 500 (length result) then first_bytes 497 result ++ codes "..." else result)
      ≤ 500
shortened result = elim (Bool-cases (ltb 500 (length result))) [
  | inl e ↦ rw e (
      omega (
        arith,
        length-append {0} (first_bytes 497 result) (codes "..."),
        length-first_bytes_le 497 result,
      ))
  | inr e ↦ rw e (not_above (length result) e)
]
  where
    not_above : (n : ℕ) → ltb 500 n ≡ false → n ≤ 500
    not_above n h = ground arith

-- A summary is the text of the summarize tool, where that is not empty, and otherwise has 500 bytes
-- at most, whatever the analysis is.
pub summary_of_bounds :
    (float : FloatOps) (trim_space : Bytes → Bytes) (result_id : String → Instant → String)
    (analysis : Bytes) (tool : ToolAnswer)
    → ((0 < length (tool_summary tool))
        × (summary_of float trim_space result_id analysis tool ≡ tool_summary tool))
      ⊎ ((length (tool_summary tool) ≡ 0)
          × (length (summary_of float trim_space result_id analysis tool) ≤ 500))
unfolding summary_of create_basic_summary
summary_of_bounds float trim_space result_id analysis tool =
    elim (Bool-cases (length (tool_summary tool) == 0)) [
      | inl e ↦ inr (
        ground arith,
        rw e (
            shortened
              (join_words (summary_lines float trim_space result_id 3 (split_lines [] analysis)))),
      )
      | inr e ↦ inl (ground arith, rw e refl)
    ]
