-- ===== src/Store/Examples.antt =====
-- The store on concrete states.
use open_research_agent.Base.{
  false, ◌≡◌, refl, ◌⊎◌, ◌↔◌, List, [], ◌∷◌, true, pos, some, none, String, str_eq, if◌then◌else◌,
  codes,
}
use open_research_agent.Base.GoMap
use open_research_agent.Domain.{ResearchRequest, reporting}
use open_research_agent.State.{GraphState, new_graph_state}
use open_research_agent.Store
use open_research_agent.Store.{
  MemoryStore, MapHeap, request_id_required, save, load, update, delete, as_map, as_phase,
  from_snapshot, get_snapshot, StateFilter, list_states,
}
use mathlib.Core.List.{Memᴰ}
use open_research_agent.Store.Filter.{list_states_iff, IsAsked}
use open_research_agent.Store.Copies.{load-save, without_runtime}
use open_research_agent.Store.Keys.{Call, saves, updates, deletes, run, load_own_state}

abbrev request : String → ResearchRequest
request id = record {
  id = id;
  query = codes "what is go";
  context = [];
  max_depth = pos 1;
  timestamp = 1;
  metadata = [];
}

abbrev state_of : String → GraphState
state_of id = new_graph_state (request id) none 7 1

abbrev no_maps : MapHeap
no_maps address = []

load-save_example :
    ((str_eq (state_of "a").request.id "" ≡ true)
      × (save 5 (state_of "a") [] ≡ ([], some request_id_required)))
    ⊎ ((str_eq (state_of "a").request.id "" ≡ false)
        × ((save 5 (state_of "a") []).1 ≡ none)
        × (load "a" (save 5 (state_of "a") []).0 ≡ (
            if str_eq (state_of "a").request.id "a"
            then some (record (without_runtime (state_of "a")) { updated_at = 5 })
            else load "a" [])))
load-save_example = load-save 5 "a" (state_of "a") []

abbrev history : List Call
history =
    saves 3 (state_of "a")
    ∷ updates 4 "a" (("phase", as_phase reporting) ∷ [])
    ∷ saves 5 (state_of "b")
    ∷ deletes "b"
    ∷ []

abbrev stored : GraphState
stored = record (without_runtime (state_of "a")) { updated_at = 4; current_phase = reporting }

load_own_state_example : stored.request.id ≡ "a"
load_own_state_example = load_own_state history no_maps "a" stored (
    unfold load run Store.Keys.step save update delete Store.update_stored Store.apply_updates
      Store.apply_value GoMap.lookup GoMap.insert GoMap.erase get_snapshot from_snapshot
      new_graph_state in
    refl)

abbrev only_a : StateFilter
only_a = record { request_ids = "a" ∷ []; phase = []; start_time = some 1; end_time = none }

list_states_iff_example :
    Memᴰ stored (list_states only_a (("b", state_of "b") ∷ ("a", stored) ∷ []))
    ↔ IsAsked only_a (("b", state_of "b") ∷ ("a", stored) ∷ []) stored
list_states_iff_example = list_states_iff only_a (("b", state_of "b") ∷ ("a", stored) ∷ []) stored

listed_a : list_states only_a (("b", state_of "b") ∷ ("a", stored) ∷ []) ≡ stored ∷ []
unfolding list_states Store.passes new_graph_state get_snapshot from_snapshot
listed_a = refl
