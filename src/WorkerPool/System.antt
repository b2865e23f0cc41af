-- ===== src/WorkerPool/System.antt =====
-- All goroutines over one pool, in any order: the requests, resizes and shutdowns that arrive, the
-- contexts that are cancelled, and the steps of what is there.
use pvz_service.Base.{
  ℕ, ◌^◌, ◌<◌, ◌≡◌, Bool, true, List, [], ◌∷◌, ◌++◌, ◌==◌, if◌then◌else◌, ℤ, hits, total, pos,
  negsuc,
}
use pvz_service.WorkerPool.{Calls, Pool, Thread, closing, new_pool, resizing, spawned, submitting}
use pvz_service.WorkerPool.Moves.{Acts}

pub record System (V : Type 0) : Type 0 where
  pub pool : Pool V
  pub threads : List Thread
  -- the requests so far
  pub arrived : List ℕ

-- A resize to less than 2^31 workers, so that the count fits its int32.
abbrev IsSmall : ℤ → Type 0
IsSmall (pos n) = n < 2 ^ 31
IsSmall (negsuc n) = Unit

abbrev pub marked : ℕ → (ℕ → Bool) → ℕ → Bool
marked j done k = if k == j then true else done k

-- What comes from outside.
pub data Arrival {V : Type 0} (s : System V) : System V → Type 0 where
  request :
      (j : ℕ)
      → total (hits j) s.arrived ≡ 0
      → Arrival s (record s { threads = submitting j ∷ s.threads; arrived = j ∷ s.arrived })
  resize : (n : ℤ) → IsSmall n → Arrival s (record s { threads = resizing n ∷ s.threads })
  close : Arrival s (record s { threads = closing ∷ s.threads })
  context_done :
      (j : ℕ) → Arrival s (record s { pool = record s.pool { done = marked j s.pool.done } })

-- A goroutine takes a step.
pub data Internal {V : Type 0} (c : Calls V) (s : System V) : System V → Type 0 where
  moves :
      (before after : List Thread) {next_points : List Thread} {t : Thread} {p : Pool V}
      → s.threads ≡ before ++ t ∷ after
      → Acts c s.pool t p next_points
      → Internal c s (record s { pool = p; threads = before ++ (next_points ++ after) })

abbrev pub init : {V : Type 0} → ℤ → ℤ → System V
init worker_cnt queue_size =
    let p = new_pool worker_cnt queue_size in
    record { pool = p; threads = spawned p.workers; arrived = [] }

pub data Reach {V : Type 0} (c : Calls V) (worker_cnt queue_size : ℤ) : System V → Type 0 where
  fresh_pool : Reach c worker_cnt queue_size (init worker_cnt queue_size)
  arrives :
      {s t : System V}
      → Reach c worker_cnt queue_size s
      → Arrival s t
      → Reach c worker_cnt queue_size t
  steps :
      {s t : System V}
      → Reach c worker_cnt queue_size s
      → Internal c s t
      → Reach c worker_cnt queue_size t
