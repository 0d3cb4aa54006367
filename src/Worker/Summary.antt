-- ===== src/Worker/Summary.antt =====
-- The summary that a worker makes of a text.
use open_research_agent.Base.{
  ℕ, zero, suc, ◌≤◌, ◌<◌, ◌≡◌, refl, sym, ap, ◌∙◌, ◌⊎◌, inl, inr, [], ◌∷◌, ◌++◌, true, false,
  Bool-cases, arith, some, none, Option, ltb, leb, length, get_elem?, codes,
}
use open_research_agent.Domain.{Bytes}
use open_research_agent.Worker.{generate_summary, last_break, cut_at, first_bytes, breaks_at}

-- No byte from `i` on and before `n` is a place to break.
abbrev pub Unbroken : Bytes → ℕ → ℕ → Type 0
Unbroken content i zero = Unit
Unbroken content i (suc n) = ((n < i) ⊎ (breaks_at content n ≡ false)) × Unbroken content i n

-- What the scan finds among the first `n` bytes: the last place to break, or that there is none.
abbrev FoundBreak : Bytes → ℕ → Option ℕ → Type 0
FoundBreak content n none = Unbroken content 0 n
FoundBreak content n (some i) = (i < n) × (breaks_at content i ≡ true) × Unbroken content (suc i) n

Unbroken-vacuous : (content : Bytes) (i n : ℕ) → n ≤ i → Unbroken content i n
Unbroken-vacuous content i zero h = tt
Unbroken-vacuous content i (suc n) h =
    (inl (omega arith), Unbroken-vacuous content i n (omega arith))

FoundBreak-widen :
    (content : Bytes) (n : ℕ) (o : Option ℕ)
    → breaks_at content n ≡ false
    → FoundBreak content n o
    → FoundBreak content (suc n) o
FoundBreak-widen content n none e f = (inr e, f)
FoundBreak-widen content n (some i) e (below, at_i, others) = (omega arith, at_i, (inr e, others))

last_break-FoundBreak : (content : Bytes) (n : ℕ) → FoundBreak content n (last_break content n)
unfolding last_break
last_break-FoundBreak content zero = tt
last_break-FoundBreak content (suc n) = elim (Bool-cases (breaks_at content n)) [
  | inl e ↦
      rw e (omega arith, e, (inl (omega arith), Unbroken-vacuous content (suc n) n (omega arith)))
  | inr e ↦
      rw e (FoundBreak-widen content n (last_break content n) e (last_break-FoundBreak content n))
]

first_bytes-first_bytes :
    (i n : ℕ) (content : Bytes)
    → i ≤ n
    → first_bytes i (first_bytes n content) ≡ first_bytes i content
first_bytes-first_bytes zero n content h = refl
first_bytes-first_bytes (suc i) zero content h = absurd (omega arith)
first_bytes-first_bytes (suc i) (suc n) [] h = refl
first_bytes-first_bytes (suc i) (suc n) (c ∷ content) h =
    ap (λ (cs : Bytes). c ∷ cs) (first_bytes-first_bytes i n content (omega arith))

length-first_bytes :
    (n : ℕ) (content : Bytes) → n ≤ length content → length (first_bytes n content) ≡ n
length-first_bytes zero content h = refl
length-first_bytes (suc n) [] h = absurd (omega arith)
length-first_bytes (suc n) (c ∷ content) h = ap suc (length-first_bytes n content (omega arith))

get_elem?-first_bytes :
    (i n : ℕ) (content : Bytes) → i < n → get_elem? (first_bytes n content) i ≡ get_elem? content i
get_elem?-first_bytes i zero content h = absurd (omega arith)
get_elem?-first_bytes i (suc n) [] h = refl
get_elem?-first_bytes zero (suc n) (c ∷ content) h = refl
get_elem?-first_bytes (suc i) (suc n) (c ∷ content) h =
    get_elem?-first_bytes i n content (omega arith)

breaks_at-first_bytes :
    (i n : ℕ) (content : Bytes) → i < n → breaks_at (first_bytes n content) i ≡ breaks_at content i
breaks_at-first_bytes i n content h = rw (get_elem?-first_bytes i n content h, breaks_at) refl

Unbroken-first_bytes :
    (m i j n : ℕ) (content : Bytes)
    → n ≤ m
    → i ≤ j
    → Unbroken (first_bytes m content) i n
    → Unbroken content j n
Unbroken-first_bytes m i j zero content h k u = tt
Unbroken-first_bytes m i j (suc n) content h k ((inl less), u) =
    (inl (omega arith), Unbroken-first_bytes m i j n content (omega arith) k u)
Unbroken-first_bytes m i j (suc n) content h k ((inr e), u) = (
  inr (sym (breaks_at-first_bytes n m content (omega arith)) ∙ e),
  Unbroken-first_bytes m i j n content (omega arith) k u,
)

-- A text is cut after `n` of its bytes: at the last place to break among the first 200, but for the
-- very first byte, and after 200 bytes where there is none.
abbrev pub IsCut : Bytes → ℕ → Type 0
IsCut content n =
    ((n ≡ 200) × Unbroken content 1 200)
    ⊎ ((0 < n) × (n < 200) × (breaks_at content n ≡ true) × Unbroken content (suc n) 200)

cut_at-suc : (summary : Bytes) (i : ℕ) → cut_at summary (some (suc i)) ≡ first_bytes (suc i) summary
unfolding cut_at
cut_at-suc summary i = let positive : ltb 0 (suc i) ≡ true = ground arith in rw positive refl

cut_at-IsCut :
    (content : Bytes) (o : Option ℕ)
    → FoundBreak (first_bytes 200 content) 200 o
    → (n : ℕ) × (n ≤ 200)
      × (cut_at (first_bytes 200 content) o ≡ first_bytes n content)
      × IsCut content n
unfolding cut_at
cut_at-IsCut content none f = (
  200,
  omega arith,
  refl,
  inl (refl, Unbroken-first_bytes 200 0 1 200 content (omega arith) (omega arith) f),
)
cut_at-IsCut content (some zero) (below, at_i, u) = (
  200,
  omega arith,
  refl,
  inl (refl, Unbroken-first_bytes 200 1 1 200 content (omega arith) (omega arith) u),
)
cut_at-IsCut content (some (suc i)) (below, at_i, u) = (
  suc i,
  omega arith,
  cut_at-suc (first_bytes 200 content) i
      ∙ first_bytes-first_bytes (suc i) 200 content (omega arith),
  inr (
    omega arith,
    below,
    sym (breaks_at-first_bytes (suc i) 200 content below) ∙ at_i,
    Unbroken-first_bytes 200 (suc (suc i)) (suc (suc i)) 200 content (omega arith) (omega arith) u,
  ),
)

-- The summary of a text of more than 200 bytes is a beginning of it of 200 bytes at most, cut at the
-- last place to break, and three dots; a text of at most 200 bytes is its own summary.
pub generate_summary-IsCut :
    (content : Bytes)
    → ((length content ≤ 200) × (generate_summary content ≡ content))
      ⊎ ((n : ℕ) × (200 < length content)
          × (n ≤ 200)
          × (generate_summary content ≡ first_bytes n content ++ codes "...")
          × IsCut content n)
unfolding generate_summary
generate_summary-IsCut content = elim (Bool-cases (leb (length content) 200)) [
  | inl e ↦ inl (ground arith, rw e refl)
  | inr e ↦
      let long : 200 < length content = ground arith in
      let full = length-first_bytes 200 content (omega arith) in
      let (n, few, same, cut) =
        cut_at-IsCut content (last_break (first_bytes 200 content) 200)
          (last_break-FoundBreak (first_bytes 200 content) 200) in
      inr (n, long, few, rw e (rw full (rw same refl)), cut)
]
