-- ===== src/Distribute/Examples.antt =====
-- The distributors on concrete tasks.
use open_research_agent.Base.{
  ℕ, ◌+◌, ◌-◌, ◌*◌, ◌/◌, ◌≤◌, ◌≡◌, refl, List, [], ◌∷◌, map, pos, pos_part, int64, arith, none,
  String, ltb, FloatOps,
}
use open_research_agent.Domain.{ResearchTask, pending}
use open_research_agent.Base.GoMap
use open_research_agent.Distribute
use open_research_agent.Distribute.{
  TaskAssignment, Distribution, assigned, index_panic, distribute_balanced, distribute_round_robin,
  assign_to, assignment,
}
use open_research_agent.Distribute.Balance.{Tallies, distribute_balanced-IsLevel, IsLevel, Covers}
use open_research_agent.Distribute.Rotation.{distribute_round_robin-Rotates, Rotates}
use open_research_agent.Distribute.Capacity
use open_research_agent.Distribute.Capacity.{
  CostPair, distribute_by_cost, distribute_by_cost_capacity, to_worker, of_task,
}

abbrev sample : String → ResearchTask
sample id = record {
  id = id;
  topic = "";
  parent_id = "";
  status = pending;
  priority = pos 1;
  assigned_worker = "";
  results = [];
  created_at = 5;
  completed_at = none;
  metadata = [];
}

abbrev samples : List ResearchTask
samples = sample "a" ∷ sample "b" ∷ sample "c" ∷ []

abbrev whole : FloatOps
whole = record {
  add = λ a b. a + b;
  sub = λ a b. a - b;
  mul = λ a b. a * b;
  div = λ a b. a / b;
  lt = ltb;
  of_int = pos_part;
}

distribute_balanced-IsLevel_example :
    let (loads', d) = distribute_balanced 9 [] samples ("w0" ∷ "w1" ∷ []) in
    ((m' : ℕ) × IsLevel m' loads' ("w0" ∷ "w1" ∷ []))
    × ((done : List TaskAssignment) × (d ≡ assigned done)
        × Covers samples ("w0" ∷ "w1" ∷ []) done
        × Tallies [] loads' done)
distribute_balanced-IsLevel_example =
    distribute_balanced-IsLevel 9 [] samples "w0" ("w1" ∷ []) 0 (omega arith)
      (unfold Distribute.load_of GoMap.lookup in omega arith)

distribute_round_robin-Rotates_example :
    (given : List TaskAssignment) × (distribute_round_robin 9 (pos 0) samples ("w0" ∷ "w1" ∷ [])
      ≡ (pos 3, assigned given))
    × Rotates 9 ("w0" ∷ "w1" ∷ []) 1 samples given
distribute_round_robin-Rotates_example =
    distribute_round_robin-Rotates 9 "w0" ("w1" ∷ []) 0 samples (omega arith)

distribute_by_cost_capacity_example :
    (done : List TaskAssignment) × ((distribute_by_cost whole
        (λ less pairs. pairs)
        9
        []
        samples
        ("w0" ∷ [])).1
      ≡ assigned done)
    × (to_worker "w0" done ≤ 3)
    × (of_task "w0" done ≤ 1)
distribute_by_cost_capacity_example =
    distribute_by_cost_capacity whole (λ less pairs. pairs) 9 [] samples "w0" [] "w0"

-- Three tasks fill the one worker.
cost_assigned :
    (distribute_by_cost whole (λ less pairs. pairs) 9 [] (sample "d" ∷ samples) ("w0" ∷ [])).1
    ≡ assigned (map (λ t. assignment 9 t "w0" 0) (sample "d" ∷ sample "a" ∷ sample "b" ∷ []))
unfolding distribute_by_cost GoMap.lookup GoMap.insert int64 Distribute.Capacity.estimate_task_cost
    Distribute.Capacity.get_worker_cost
cost_assigned = refl
