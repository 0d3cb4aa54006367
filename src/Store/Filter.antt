-- ===== src/Store/Filter.antt =====
-- What `List` returns.
use open_research_agent.Base.{
  ℕ, ◌≤◌, Option, arith, some, none, ◌≡◌, refl, ap, ◌∙◌, subst, ◌⊎◌, inl, inr, ◌↔◌, List, [], ◌∷◌,
  map, Bool, true, false, Bool-cases, String, str_eq, eq_iff, if◌then◌else◌, any_of,
}
use mathlib.Core.List.{Memᴰ}
use open_research_agent.State.{GraphState}
use open_research_agent.Store.{
  StateFilter, passes, is_missed, list_states, phase_name, starts_before, ends_after, get_snapshot,
  from_snapshot,
}
use open_research_agent.Store.Copies.{without_runtime}

-- A filter without entries asks for nothing; else one of them is the name.
abbrev pub AsksFor : List String → String → Type 0
AsksFor names name = (names ≡ []) ⊎ Memᴰ name names

-- A time that the filter does not give bounds nothing.
abbrev pub Bounds : (ℕ → Type 0) → Option ℕ → Type 0
Bounds P none = Unit
Bounds P (some t) = P t

-- What a filter asks of a state, read off its fields.
pub record Fits (filter : StateFilter) (s : GraphState) : Type 0 where
  pub request_asked : AsksFor filter.request_ids s.request.id
  pub phase_asked : AsksFor (map phase_name filter.phase) (phase_name s.current_phase)
  pub not_before : Bounds (λ t. t ≤ s.created_at) filter.start_time
  pub not_after : Bounds (λ t. s.created_at ≤ t) filter.end_time

any_of-Memᴰ :
    (name : String) (names : List String) → any_of (str_eq name) names ≡ true → Memᴰ name names
any_of-Memᴰ name [] h = cc
any_of-Memᴰ name (other ∷ names) h = elim (Bool-cases (str_eq name other)) [
  | inl e ↦ Memᴰ.head ((eq_iff name other).0 e)
  | inr e ↦ Memᴰ.tail (any_of-Memᴰ name names (rw e at h))
]

asks-AsksFor :
    (names : List String) (name : String) → is_missed names name ≡ false → AsksFor names name
asks-AsksFor [] name h = inl refl
asks-AsksFor (first ∷ names) name h = elim (Bool-cases (any_of (str_eq name) (first ∷ names))) [
  | inl e ↦ inr (any_of-Memᴰ name (first ∷ names) e)
  | inr e ↦ absurd (ground arith)
]

Memᴰ-any_of :
    (name : String) (names : List String) → Memᴰ name names → any_of (str_eq name) names ≡ true
Memᴰ-any_of name [] m = elim m [ ]
Memᴰ-any_of name (other ∷ names) (Memᴰ.head e) = rw ((eq_iff name other).1 e) refl
Memᴰ-any_of name (other ∷ names) (Memᴰ.tail m) =
    let later = Memᴰ-any_of name names m in ground arith

AsksFor-asks :
    (names : List String) (name : String) → AsksFor names name → is_missed names name ≡ false
AsksFor-asks names name (inl e) = rw e refl
AsksFor-asks names name (inr m) = let found = Memᴰ-any_of name names m in ground arith

passes_tests :
    (filter : StateFilter) (s : GraphState)
    → (passes filter s ≡ true) ↔ (
        (is_missed filter.request_ids s.request.id ≡ false)
        × (is_missed (map phase_name filter.phase) (phase_name s.current_phase) ≡ false)
        × (starts_before filter.start_time s.created_at ≡ false)
        × (ends_after filter.end_time s.created_at ≡ false))
unfolding passes
passes_tests filter s =
    by_tests (is_missed filter.request_ids s.request.id)
      (is_missed (map phase_name filter.phase) (phase_name s.current_phase))
      (starts_before filter.start_time s.created_at) (ends_after filter.end_time s.created_at)
  where
    by_tests :
        (a b c d : Bool)
        → ((if a
              then false
              else if b
              then false
              else if c
              then false
              else if d
              then false
              else true)
            ≡ true)
          ↔ ((a ≡ false) × (b ≡ false) × (c ≡ false) × (d ≡ false))
    by_tests a b c d = (λ h. ground arith, λ h. ground arith)

starts_before_iff : (o : Option ℕ) (n : ℕ) → (starts_before o n ≡ false) ↔ Bounds (λ t. t ≤ n) o
starts_before_iff none n = (λ h. tt, λ h. refl)
starts_before_iff (some t) n = (λ h. ground arith, λ h. ground arith)

ends_after_iff : (o : Option ℕ) (n : ℕ) → (ends_after o n ≡ false) ↔ Bounds (λ t. n ≤ t) o
ends_after_iff none n = (λ h. tt, λ h. refl)
ends_after_iff (some t) n = (λ h. ground arith, λ h. ground arith)

passes_iff : (filter : StateFilter) (s : GraphState) → (passes filter s ≡ true) ↔ Fits filter s
passes_iff filter s = (only, every)
  where
    only : passes filter s ≡ true → Fits filter s
    only h =
        let (r, p, b, a) = (passes_tests filter s).0 h in
        record {
          request_asked = asks-AsksFor filter.request_ids s.request.id r;
          phase_asked = asks-AsksFor (map phase_name filter.phase) (phase_name s.current_phase) p;
          not_before = (starts_before_iff filter.start_time s.created_at).0 b;
          not_after = (ends_after_iff filter.end_time s.created_at).0 a;
        }

    every : Fits filter s → passes filter s ≡ true
    every f = (passes_tests filter s).1 (
      AsksFor-asks filter.request_ids s.request.id f.request_asked,
      AsksFor-asks (map phase_name filter.phase) (phase_name s.current_phase) f.phase_asked,
      (starts_before_iff filter.start_time s.created_at).1 f.not_before,
      (ends_after_iff filter.end_time s.created_at).1 f.not_after,
    )

-- `t` is the copy of a state of the store that the filter asks for.
abbrev pub IsAsked : StateFilter → List (String × GraphState) → GraphState → Type 0
IsAsked filter range t =
    (k : String) × (s : GraphState) × Memᴰ (k, s) range × Fits filter s × (t ≡ without_runtime s)

IsAsked-head :
    (filter : StateFilter) (k : String) (s t : GraphState) (range : List (String × GraphState))
    → IsAsked filter ((k, s) ∷ range) t
    → (Fits filter s × (t ≡ without_runtime s)) ⊎ IsAsked filter range t
IsAsked-head filter k s t range (j, u, Memᴰ.head same, f, e) = inl (
  subst (λ (x : String × GraphState). Fits filter x.1) same f,
  e ∙ ap (λ (x : String × GraphState). without_runtime x.1) same,
)
IsAsked-head filter k s t range (j, u, Memᴰ.tail n, f, e) = inr (j, u, n, f, e)

IsAsked-tail :
    (filter : StateFilter) (k : String) (s t : GraphState) (range : List (String × GraphState))
    → IsAsked filter range t
    → IsAsked filter ((k, s) ∷ range) t
IsAsked-tail filter k s t range (j, u, n, f, e) = (j, u, Memᴰ.tail n, f, e)

-- One round of the loop, by the answer of the tests.
round_passed :
    (filter : StateFilter) (k : String) (s t : GraphState) (range : List (String × GraphState))
    (listed : List GraphState)
    → Fits filter s
    → Memᴰ t listed ↔ IsAsked filter range t
    → Memᴰ t (without_runtime s ∷ listed) ↔ IsAsked filter ((k, s) ∷ range) t
round_passed filter k s t range listed f rest = (only, every)
  where
    only : Memᴰ t (without_runtime s ∷ listed) → IsAsked filter ((k, s) ∷ range) t
    only (Memᴰ.head e) = (k, s, Memᴰ.head refl, f, e)
    only (Memᴰ.tail m) = IsAsked-tail filter k s t range (rest.0 m)

    every : IsAsked filter ((k, s) ∷ range) t → Memᴰ t (without_runtime s ∷ listed)
    every a = elim (IsAsked-head filter k s t range a) [
      | inl (fits, e) ↦ Memᴰ.head e
      | inr later ↦ Memᴰ.tail (rest.1 later)
    ]

round_missed :
    (filter : StateFilter) (k : String) (s t : GraphState) (range : List (String × GraphState))
    (listed : List GraphState)
    → passes filter s ≡ false
    → Memᴰ t listed ↔ IsAsked filter range t
    → Memᴰ t listed ↔ IsAsked filter ((k, s) ∷ range) t
round_missed filter k s t range listed h rest =
    (λ m. IsAsked-tail filter k s t range (rest.0 m), every)
  where
    every : IsAsked filter ((k, s) ∷ range) t → Memᴰ t listed
    every a = elim (IsAsked-head filter k s t range a) [
      | inl (fits, e) ↦ absurd (let yes = (passes_iff filter s).1 fits in cc (h, yes))
      | inr later ↦ rest.1 later
    ]

-- In whatever order the store is visited, `List` returns the states that the filter asks for, without
-- their runtime fields, and no other: those of a request that it names and in a phase that it names,
-- where it names any, and that were created between its times.
pub list_states_iff :
    (filter : StateFilter) (range : List (String × GraphState)) (t : GraphState)
    → Memᴰ t (list_states filter range) ↔ IsAsked filter range t
unfolding list_states get_snapshot from_snapshot
list_states_iff filter [] t = (λ m. elim m [ ], λ (k, s, m, f, e). elim m [ ])
list_states_iff filter ((k, s) ∷ range) t =
    let rest = list_states_iff filter range t in
    elim (Bool-cases (passes filter s)) [
      | inl e ↦ rw e (
          round_passed filter k s t range (list_states filter range) ((passes_iff filter s).0 e)
            rest)
      | inr e ↦ rw e (round_missed filter k s t range (list_states filter range) e rest)
    ]
