-- ===== src/Limiter/Accounts.antt =====
-- The limiter against the list of what its clients hold.
use open_research_agent.Base.{
  ℕ, zero, suc, ◌+◌, ◌^◌, ◌≤◌, ◌<◌, ◌≡◌, ◌⊎◌, List, [], ◌∷◌, true, false, ℤ, pos, pos_part,
  neg_part, ◌<ℤ◌, int64, arith, some, none, Option, if◌then◌else◌, get_elem?, Float64, FloatOps,
}
use open_research_agent.Limiter.{ResourceLimiter, can_allocate, allocate, release}

abbrev pub sum : List ℕ → ℕ
sum [] = 0
sum (m ∷ ms) = m + sum ms

abbrev pub remove_at : ℕ → List ℕ → List ℕ
remove_at i [] = []
remove_at zero (m ∷ ms) = ms
remove_at (suc i) (m ∷ ms) = m ∷ remove_at i ms

-- A client asks for memory and CPU, or gives back what it was granted at a place of the list.
pub data Request : Type 0 where
  takes : ℕ → Float64 → Request
  gives : ℕ → Float64 → Request

-- `held` are the amounts of memory that were granted and not given back.
pub record Ledger : Type 0 where
  pub limiter : ResourceLimiter
  pub held : List ℕ

-- The limiter has counted exactly what is held, and that is within a limit that is half of an
-- int64 at most.
pub record Balances (l : Ledger) : Type 0 where
  pub exact : l.limiter.current_memory ≡ pos (sum l.held)
  pub limit_pos : neg_part l.limiter.memory_limit ≡ 0
  pub limit_range : pos_part l.limiter.memory_limit ≤ 2 ^ 62
  pub within : sum l.held ≤ pos_part l.limiter.memory_limit

module _ (float : FloatOps) where
  -- Asks for nothing above half of an int64.
  abbrev pub IsModest : Request → Type 0
  IsModest (takes m cpu) = m < 2 ^ 62
  IsModest (gives i cpu) = Unit

  give_back : Ledger → Option ℕ → ℕ → Float64 → Ledger
  give_back l none i cpu = l
  give_back l (some m) i cpu = record {
    limiter = release float l.limiter (pos m) cpu;
    held = remove_at i l.held;
  }

  pub serve : Ledger → Request → Ledger
  serve l (takes m cpu) =
      let (rl, granted) = allocate float l.limiter (pos m) cpu in
      record { limiter = rl; held = if granted then m ∷ l.held else l.held }
  serve l (gives i cpu) = give_back l (get_elem? l.held i) i cpu

  pub serve_all : Ledger → List Request → Ledger
  serve_all l [] = l
  serve_all l (r ∷ rs) = serve_all (serve l r) rs

  -- `CanAllocate` foretells `Allocate`, which changes nothing when it refuses.
  pub allocate-can_allocate :
      (rl : ResourceLimiter) (memory : ℤ) (cpu : Float64)
      → ((allocate float rl memory cpu).1 ≡ can_allocate float rl memory cpu)
        × (((allocate float rl memory cpu).1 ≡ true) ⊎ ((allocate float rl memory cpu).0 ≡ rl))
  unfolding allocate can_allocate
  allocate-can_allocate rl memory cpu = ground arith

  -- The check adds before it compares: whenever the sum passes the int64 range, a request above the
  -- limit is granted if the CPU share allows it, and the usage becomes negative.
  pub allocate_overflow :
      (rl : ResourceLimiter) (used limit memory : ℕ) (cpu : Float64)
      → rl.current_memory ≡ pos used
      → rl.memory_limit ≡ pos limit
      → limit < 2 ^ 63
      → used < 2 ^ 63
      → memory < 2 ^ 63
      → 2 ^ 63 ≤ used + memory
      → float.lt rl.cpu_limit (float.add rl.current_cpu cpu) ≡ false
      → ((allocate float rl (pos memory) cpu).1 ≡ true)
        × (limit < used + memory)
        × ((allocate float rl (pos memory) cpu).0.current_memory <ℤ pos 0)
  unfolding allocate int64
  allocate_overflow rl used limit memory cpu u l hl hu hm over share = ground arith
