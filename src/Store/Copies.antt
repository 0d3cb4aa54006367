-- ===== src/Store/Copies.antt =====
-- What the store gives back, and what a copy shares with the state that it was made from.
use open_research_agent.Base.{
  ℕ, ◌≡◌, refl, ◌⊎◌, inl, inr, [], ◌∷◌, true, false, Bool-cases, arith, some, none, String, str_eq,
  eq_refl, if◌then◌else◌,
}
use open_research_agent.Base.GoMap.{lookup, insert, IsMap, lookup-insert, lookup-erase}
use open_research_agent.Domain.{Dynamic}
use open_research_agent.State.{GraphState}
use open_research_agent.Store.{
  MemoryStore, MapHeap, update_stored, apply_updates, apply_value, request_id_required, save, load,
  update, delete, as_map, get_snapshot, from_snapshot,
}

-- A state as the store keeps it: all but the runtime fields.
abbrev pub without_runtime : GraphState → GraphState
without_runtime s = record s { llm_client = none; tools = none; config = none }

load-insert :
    (request_id other : String) (s : GraphState) (m : MemoryStore)
    → load other (insert request_id s m)
      ≡ (if str_eq request_id other then some (without_runtime s) else load other m)
unfolding load get_snapshot from_snapshot
load-insert request_id other s m = elim (Bool-cases (str_eq request_id other)) [
  | inl e ↦ rw (lookup-insert request_id other s m, load) (rw e refl)
  | inr e ↦ rw (lookup-insert request_id other s m, load) (rw e refl)
]

-- A saved state is loaded as it was, without its runtime fields and with the time of the save; no
-- other state changes; and a state without a request identifier is refused.
pub load-save :
    (now : ℕ) (other : String) (s : GraphState) (m : MemoryStore)
    → ((str_eq s.request.id "" ≡ true) × (save now s m ≡ (m, some request_id_required)))
      ⊎ ((str_eq s.request.id "" ≡ false)
          × ((save now s m).1 ≡ none)
          × (load other (save now s m).0 ≡ (
              if str_eq s.request.id other
              then some (record (without_runtime s) { updated_at = now })
              else load other m)))
unfolding save get_snapshot from_snapshot
load-save now other s m = elim (Bool-cases (str_eq s.request.id "")) [
  | inl e ↦ inl (e, rw e refl)
  | inr e ↦ inr (
    e,
    rw e refl,
    rw e (load-insert s.request.id other (record (without_runtime s) { updated_at = now }) m),
  )
]

-- A deleted state is not found, and no other is lost.
pub load-delete :
    (request_id other : String) (m : MemoryStore)
    → IsMap m
    → load other (delete request_id m) ≡ (if str_eq request_id other then none else load other m)
unfolding load delete
load-delete request_id other m h = elim (Bool-cases (str_eq request_id other)) [
  | inl e ↦ rw (lookup-erase request_id other m h, load) (rw e refl)
  | inr e ↦ rw (lookup-erase request_id other m h, load) (rw e refl)
]

-- The copy that the store keeps shares the metadata map with the state that was saved: metadata that
-- is written through the store appears in the state of the caller.
pub save_shares_metadata :
    (now later : ℕ) (key : String) (value : Dynamic) (s : GraphState) (m : MemoryStore)
    (heap : MapHeap)
    → str_eq s.request.id "" ≡ false
    → let (m', heap', err) =
        update later s.request.id
          (("metadata", as_map ((key, value) ∷ [])) ∷ [])
          ((save now s m).0, heap) in
      (err ≡ none) × (lookup key (heap' s.metadata) ≡ some value)
unfolding save update update_stored apply_updates apply_value get_snapshot from_snapshot
save_shares_metadata now later key value s m heap h = rw h (
    rw (lookup-insert s.request.id s.request.id (record (without_runtime s) { updated_at = now }) m)
      (rw (eq_refl s.request.id)
        (refl, ground (arith, lookup-insert key key value (heap s.metadata), eq_refl key))))
