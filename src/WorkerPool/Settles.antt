-- ===== src/WorkerPool/Settles.antt =====
-- A pool with a live worker, left alone, gives every request its return.
use pvz_service.Base.{
  ℕ, ◌≤◌, ◌<◌, ◌≡◌, ◌⊎◌, inl, inr, List, [], ◌∷◌, arith, ltb, ltb→lt, Bool-cases, ℤ, hits, total,
}
use pvz_service.WorkerPool.{Calls}
use pvz_service.WorkerPool.NoDeadlock.{no_deadlock}
use pvz_service.WorkerPool.Requests.{returns_of, Reach-Booked}
use pvz_service.WorkerPool.System.{Internal, Reach, System}

-- Every request that arrived has its return.
abbrev pub AllReturned : {V : Type 0} → System V → Type 0
AllReturned s = (k : ℕ) → returns_of k s.pool ≡ total (hits k) s.arrived

-- The request at which a list of numbers fails a test, if there is one.
all_or_one :
    (f g : ℕ → ℕ) (ks : List ℕ)
    → ((k : ℕ) × (f k < g k)) ⊎ ((k : ℕ) → 0 < total (hits k) ks → g k ≤ f k)
all_or_one f g [] = inr (λ k h. absurd (omega arith))
all_or_one f g (k ∷ ks) = elim (Bool-cases (ltb (f k) (g k))) [
  | inl short ↦ inl (k, ltb→lt (f k) (g k) short)
  | inr enough ↦ elim (all_or_one f g ks) [
    | inl found ↦ inl found
    | inr rest ↦ inr (λ i h. ground (arith, rest i))
  ]
]

module _ {V : Type 0} {c : Calls V} {worker_cnt queue_size : ℤ} where
  returned_or_missing :
      (s : System V)
      → Reach c worker_cnt queue_size s
      → AllReturned s ⊎ ((k : ℕ) × (returns_of k s.pool < total (hits k) s.arrived))
  returned_or_missing s r =
      elim (all_or_one (λ k. returns_of k s.pool) (λ k. total (hits k) s.arrived) s.arrived) [
        | inl found ↦ inr found
        | inr all ↦ inl (λ k. grind (arith, all k, Reach-Booked k r))
      ]

  -- When no goroutine of a reachable pool can take a step and a worker is alive, every request
  -- that arrived has exactly one return.
  pub stopped-AllReturned :
      {s : System V}
      → Reach c worker_cnt queue_size s
      → ((s' : System V) → ¬ Internal c s s')
      → 0 < s.pool.wg
      → AllReturned s
  stopped-AllReturned {s} r stuck alive = elim (returned_or_missing s r) [
    | inl all ↦ all
    | inr (k, missing) ↦ let (s', m) = no_deadlock r k alive missing in absurd (stuck s' m)
  ]
