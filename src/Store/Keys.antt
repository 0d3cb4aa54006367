-- ===== src/Store/Keys.antt =====
-- What holds of the store after any history of calls.
use open_research_agent.Base.{
  ℕ, ◌≡◌, refl, ap, ◌∙◌, inl, inr, List, [], ◌∷◌, Bool-cases, Option-cases, arith, some, none, All,
  Option, String, str_eq, eq_iff, Instant,
}
use open_research_agent.Base.GoMap
use open_research_agent.Base.GoMap.{
  lookup, insert, erase, IsMap, lookup-insert, insert-IsMap, lookup-erase,
}
use open_research_agent.Domain.{ResearchRequest}
use open_research_agent.State.{GraphState}
use open_research_agent.Store.{
  MemoryStore, MapHeap, UpdateValue, as_phase, as_int, as_error, as_map, as_other, save, load,
  update, update_stored, delete, apply_value, apply_updates, get_snapshot, from_snapshot,
}

-- A call that changes the store.
pub data Call : Type 0 where
  saves : Instant → GraphState → Call
  updates : Instant → String → List (String × UpdateValue) → Call
  deletes : String → Call

unfoldable pub step : Call → MemoryStore × MapHeap → MemoryStore × MapHeap
step (saves now s) (m, heap) = ((save now s m).0, heap)
step (updates now request_id values) (m, heap) =
    let (m', heap', err) = update now request_id values (m, heap) in (m', heap')
step (deletes request_id) (m, heap) = (delete request_id m, heap)

unfoldable pub run : List Call → MemoryStore × MapHeap → MemoryStore × MapHeap
run [] mh = mh
run (c ∷ cs) mh = run cs (step c mh)

abbrev pub IsOwn : String × GraphState → Type 0
IsOwn (k, s) = s.request.id ≡ k

-- An identifier stands once in the store, before a state of that identifier.
abbrev pub IsIndexed : MemoryStore → Type 0
IsIndexed m = IsMap m × All IsOwn m

insert-IsOwn :
    (k : String) (s : GraphState) (m : MemoryStore)
    → s.request.id ≡ k
    → All IsOwn m
    → All IsOwn (insert k s m)
unfolding insert
insert-IsOwn k s [] h a = (h, tt)
insert-IsOwn k s ((j, other) ∷ m) h a = ground (arith, insert-IsOwn k s m h a.1)

erase-IsOwn : (k : String) (m : MemoryStore) → All IsOwn m → All IsOwn (erase k m)
unfolding erase
erase-IsOwn k [] a = tt
erase-IsOwn k ((j, other) ∷ m) a = ground (arith, erase-IsOwn k m a.1)

lookup-IsOwn :
    (k : String) (m : MemoryStore) (s : GraphState)
    → All IsOwn m
    → lookup k m ≡ some s
    → s.request.id ≡ k
unfolding lookup
lookup-IsOwn k [] s a e = cc
lookup-IsOwn k ((j, other) ∷ m) s a e = ground (arith, eq_iff j k, lookup-IsOwn k m s a.1)

request-apply_value :
    (key : String) (value : UpdateValue) (s : GraphState) (heap : MapHeap)
    → (apply_value key value (s, heap)).0.request ≡ s.request
unfolding apply_value
request-apply_value key (as_phase phase) s heap = ground arith
request-apply_value key (as_int n) s heap = ground arith
request-apply_value key (as_error err) s heap = ground arith
request-apply_value key (as_map entries) s heap = refl
request-apply_value key as_other s heap = refl

request-apply_updates :
    (values : List (String × UpdateValue)) (s : GraphState) (heap : MapHeap)
    → (apply_updates values (s, heap)).0.request ≡ s.request
unfolding apply_updates
request-apply_updates [] s heap = refl
request-apply_updates ((key, value) ∷ values) s heap =
    let (s', heap') = apply_value key value (s, heap) in
    request-apply_updates values s' heap' ∙ request-apply_value key value s heap

update_stored-IsIndexed :
    (now : ℕ) (o : Option GraphState) (k : String) (values : List (String × UpdateValue))
    (m : MemoryStore) (heap : MapHeap)
    → lookup k m ≡ o
    → IsIndexed m
    → IsIndexed (update_stored now o k values (m, heap)).0
unfolding update_stored
update_stored-IsIndexed now none k values m heap e v = v
update_stored-IsIndexed now (some s) k values m heap e v = (
  GoMap.insert-IsMap k _ m v.0,
  insert-IsOwn k _ m
      (ap (λ (r : ResearchRequest). r.id) (request-apply_updates values s heap)
        ∙ lookup-IsOwn k m s v.1 e)
      v.1,
)

step-IsIndexed :
    (c : Call) (m : MemoryStore) (heap : MapHeap) → IsIndexed m → IsIndexed (step c (m, heap)).0
unfolding step
step-IsIndexed (saves now s) m heap v =
    unfold save get_snapshot from_snapshot in
    (elim (Bool-cases (str_eq s.request.id "")) [
      | inl e ↦ rw e v
      | inr e ↦
          rw e (GoMap.insert-IsMap s.request.id _ m v.0, insert-IsOwn s.request.id _ m refl v.1)
    ])
step-IsIndexed (updates now k values) m heap v =
    unfold update in update_stored-IsIndexed now (lookup k m) k values m heap refl v
step-IsIndexed (deletes k) m heap v =
    unfold delete in (GoMap.erase-IsMap k m v.0, erase-IsOwn k m v.1)

run-IsIndexed :
    (cs : List Call) (m : MemoryStore) (heap : MapHeap)
    → IsIndexed m
    → IsIndexed (run cs (m, heap)).0
unfolding run
run-IsIndexed [] m heap v = v
run-IsIndexed (c ∷ cs) m heap v =
    let (m', heap') = step c (m, heap) in run-IsIndexed cs m' heap' (step-IsIndexed c m heap v)

-- After any history of saves, updates and deletions of a new store, the state that is loaded for an
-- identifier is one of a request with that identifier: no update moves a state to another request.
pub load_own_state :
    (cs : List Call) (heap : MapHeap) (k : String) (s : GraphState)
    → load k (run cs ([], heap)).0 ≡ some s
    → s.request.id ≡ k
unfolding load get_snapshot from_snapshot
load_own_state cs heap k s e =
    let v : IsIndexed (run cs ([], heap)).0 = run-IsIndexed cs [] heap (tt, tt) in
    elim (Option-cases (lookup k (run cs ([], heap)).0)) [
      | inl absent ↦ cc (absent, e)
      | inr (t, found) ↦
          let own = lookup-IsOwn k (run cs ([], heap)).0 t v.1 found in
          ground (arith, own, found, e)
    ]
