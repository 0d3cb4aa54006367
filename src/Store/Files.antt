-- ===== src/Store/Files.antt =====
-- The file store of pkg/state/store.go, a placeholder: it checks and encodes what it is given, and
-- writes, reads and deletes nothing. The error of the encoding as JSON is
-- a parameter.
use open_research_agent.Base.{
  ◌≡◌, refl, ◌⊎◌, inl, inr, List, [], ◌∷◌, some, none, Option, String, str_eq, if◌then◌else◌,
  Instant,
}
use open_research_agent.Domain.{Bytes}
use open_research_agent.State.{GraphState, set_phase}
use open_research_agent.Store.{
  GraphStateSnapshot, get_snapshot, StateFilter, UpdateValue, as_phase, as_int,
}

pub record FileStore : Type 0 where
  pub base_dir : String

pub data FileError : Type 0 where
  id_required : FileError
  not_marshalled : Bytes → FileError
  state_not_found : String → FileError

unfoldable pub new_file_store : String → FileStore
new_file_store base_dir = record { base_dir = base_dir }

module _ (marshal : GraphStateSnapshot → Option Bytes) (f : FileStore) where
  unfoldable pub file_save : GraphState → Option FileError
  unfolding get_snapshot
  file_save s =
      if str_eq s.request.id ""
      then some id_required
      else elim (marshal (get_snapshot s)) [ some encoded ↦ none | none ↦ some (not_marshalled []) ]

  unfoldable pub file_load : String → FileError ⊎ GraphState
  file_load request_id = inl (state_not_found request_id)

  -- One entry of the updates; the order of the range does not matter for these two keys.
  abbrev pub apply_entry : Instant → String → UpdateValue → GraphState → GraphState
  apply_entry now key (as_phase phase) s = if str_eq key "phase" then set_phase now phase s else s
  apply_entry now key (as_int n) s =
      if str_eq key "iterations" then record s { iterations = n } else s
  apply_entry now key _ s = s

  abbrev pub apply_entries : Instant → List (String × UpdateValue) → GraphState → GraphState
  apply_entries now [] s = s
  apply_entries now ((key, value) ∷ updates) s =
      apply_entries now updates (apply_entry now key value s)

  abbrev pub update_loaded :
      Instant → List (String × UpdateValue) → FileError ⊎ GraphState → Option FileError
  update_loaded now updates (inl err) = some err
  update_loaded now updates (inr s) = file_save (apply_entries now updates s)

  unfoldable pub file_update : Instant → String → List (String × UpdateValue) → Option FileError
  unfolding file_load file_save
  file_update now request_id updates = update_loaded now updates (file_load request_id)

  unfoldable pub file_delete : String → Option FileError
  file_delete request_id = none

  unfoldable pub file_list : StateFilter → FileError ⊎ List GraphState
  file_list filter = inr []

  -- What was just saved cannot be loaded, and cannot be updated.
  file_load-file_save :
      (s : GraphState)
      → file_save s ≡ none
      → (file_load s.request.id ≡ inl (state_not_found s.request.id))
        × ((now : Instant) (updates : List (String × UpdateValue))
            → file_update now s.request.id updates ≡ some (state_not_found s.request.id))
  unfolding file_load file_update
  file_load-file_save s saved = (refl, λ now updates. refl)
