-- ===== src/WorkerPool/NoDeadlock.antt =====
-- While a worker is alive, a request that waits never finds all goroutines of the pool stuck.
use pvz_service.Base.{
  ℕ, ◌<◌, ◌≡◌, refl, inl, inr, List, [], ◌∷◌, ◌++◌, arith, ltb, ltb→lt, Bool-cases, ℤ, hits, length,
  total, total-pos,
}
use pvz_service.WorkerPool.{
  Calls, Pool, Thread, awaiting, checking, inline, letters, running, submitting, waiting, Letter,
}
use pvz_service.WorkerPool.Moves.{
  Acts, answer, answer_inline, begin, enqueue, refuse, run_inline, submit_panics, give_up,
  receive_job, receive_response,
}
use pvz_service.WorkerPool.Requests.{has_job, channel-empty, Reach-Booked, asks, returns_of}
use pvz_service.WorkerPool.Settled.{Reach-IsKept, awaits}
use pvz_service.WorkerPool.Sound.{Reach-IsSound, is_worker, weight-le-total}
use pvz_service.WorkerPool.System.{Internal, System, moves, Reach}

-- A goroutine that has a step to take.
abbrev CanAct : {V : Type 0} → Calls V → Pool V → Thread → Type 0
CanAct {V} c p t = (p' : Pool V) × (next_points : List Thread) × Acts c p t p' next_points

abbrev pub CanStep : {V : Type 0} → Calls V → System V → Type 0
CanStep {V} c s = (s' : System V) × Internal c s s'

-- Every goroutine with a job, as its channel has room.
job-CanAct :
    {V : Type 0} (c : Calls V) (p : Pool V) (k : ℕ) (t : Thread)
    → 0 < has_job k t
    → ((j : ℕ) → 0 < has_job j t → letters j p.inbox ≡ 0)
    → CanAct c p t
job-CanAct c p k (submitting j) h room = elim (Bool-cases p.jobs_closed) [
  | inl shut ↦ (_, _, submit_panics shut)
  | inr open_ ↦ elim (Bool-cases (ltb (length p.jobs) p.queue_capacity)) [
    | inl fits ↦ (_, _, enqueue open_ (ltb→lt (length p.jobs) p.queue_capacity fits))
    | inr full ↦ (_, _, run_inline open_ (ground arith))
  ]
]
job-CanAct c p k (checking j) h room = elim (Bool-cases (p.done j)) [
  | inl over ↦ (_, _, refuse over (room j (ground arith)))
  | inr live ↦ (_, _, begin live)
]
job-CanAct c p k (running j) h room = (_, _, answer (room j (ground arith)))
job-CanAct c p k (inline j) h room = (_, _, answer_inline (room j (ground arith)))
job-CanAct c p k waiting h room = absurd (omega arith)
job-CanAct c p k _ h room = absurd (omega arith)

-- Whoever can act in its place in the list gives the system a step.
CanAct-CanStep :
    {V : Type 0} {c : Calls V} (s : System V) (before after : List Thread) (t : Thread)
    → s.threads ≡ before ++ t ∷ after
    → CanAct c s.pool t
    → CanStep c s
CanAct-CanStep s before after t e (p, next_points, m) = (_, moves before after e m)

module _ {V : Type 0} {c : Calls V} {worker_cnt queue_size : ℤ} {s : System V}
    (r : Reach c worker_cnt queue_size s) where
  room-at :
      (before after : List Thread) (t : Thread)
      → s.threads ≡ before ++ t ∷ after
      → (j : ℕ) → 0 < has_job j t
      → letters j s.pool.inbox ≡ 0
  room-at before after t e j h =
      channel-empty j r (omega (arith, weight-le-total (has_job j) before after t e))

  -- Some goroutine has the job of the request.
  held-CanStep : (k : ℕ) → 0 < total (has_job k) s.threads → CanStep c s
  held-CanStep k h =
      let (before, t, after, e, has) = total-pos (has_job k) s.threads h in
      CanAct-CanStep s before after t e (job-CanAct c s.pool k t has (room-at before after t e))

  -- A job is in the queue, and a worker is there to take it, or at a job of its own.
  queued-CanStep : (j : ℕ) (rest : List ℕ) → s.pool.jobs ≡ j ∷ rest → 0 < s.pool.wg → CanStep c s
  queued-CanStep j rest queue alive =
      let (before, t, after, e, works) =
        total-pos is_worker s.threads (omega (arith, Reach-IsSound r)) in
      CanAct-CanStep s before after t e (worker_acts t works (room-at before after t e))
    where
      worker_acts :
          (t : Thread)
          → 0 < is_worker t
          → ((i : ℕ) → 0 < has_job i t → letters i s.pool.inbox ≡ 0)
          → CanAct c s.pool t
      worker_acts waiting works room = (_, _, receive_job queue)
      worker_acts (checking i) works room = job-CanAct c s.pool i (checking i) (ground arith) room
      worker_acts (running i) works room = job-CanAct c s.pool i (running i) (ground arith) room
      worker_acts _ works room = absurd (omega arith)

  -- A response is in the channel that the goroutine waits at.
  letter-CanStep :
      (k : ℕ) (before after : List Thread)
      → s.threads ≡ before ++ awaiting k ∷ after
      → 0 < letters k s.pool.inbox
      → CanStep c s
  letter-CanStep k before after e there =
      let (earlier, l, later_ones, at, mine) =
        total-pos (λ (l : Letter V). hits k l.channel) s.pool.inbox there in
      CanAct-CanStep s before after (awaiting k) e
        (_, _, receive_response earlier later_ones l at (ground arith))

  jobs-CanStep : (k : ℕ) → 0 < total (hits k) s.pool.jobs → 0 < s.pool.wg → CanStep c s
  jobs-CanStep k there alive =
      let (j, rest, queue) = first_of s.pool.jobs there in queued-CanStep j rest queue alive
    where
      first_of :
          (jobs : List ℕ) → 0 < total (hits k) jobs → (j : ℕ) × (rest : List ℕ) × (jobs ≡ j ∷ rest)
      first_of [] h = absurd (omega arith)
      first_of (j ∷ rest) h = (j, rest, refl)

  awaiting-CanStep :
      (k : ℕ) (before after : List Thread)
      → s.threads ≡ before ++ awaiting k ∷ after
      → 0 < s.pool.wg
      → CanStep c s
  awaiting-CanStep k before after e alive =
      elim (Reach-IsKept k r
        (ground (arith, weight-le-total (awaits k) before after (awaiting k) e))) [
          | inl over ↦ CanAct-CanStep s before after (awaiting k) e (_, _, give_up over)
          | inr somewhere ↦ elim (Bool-cases (ltb 0 (total (has_job k) s.threads))) [
            | inl held ↦ held-CanStep k (ltb→lt 0 (total (has_job k) s.threads) held)
            | inr free ↦ elim (Bool-cases (ltb 0 (letters k s.pool.inbox))) [
              | inl sent ↦ letter-CanStep k before after e (ltb→lt 0 (letters k s.pool.inbox) sent)
              | inr empty ↦ jobs-CanStep k (ground arith) alive
            ]
          ]
        ]

  asking-CanStep :
      (k : ℕ) (before after : List Thread) (t : Thread)
      → s.threads ≡ before ++ t ∷ after
      → 0 < asks k t
      → 0 < s.pool.wg
      → CanStep c s
  asking-CanStep k before after (submitting j) e h alive =
      CanAct-CanStep s before after (submitting j) e
        (job-CanAct c s.pool k (submitting j) h (room-at before after (submitting j) e))
  asking-CanStep k before after (inline j) e h alive =
      CanAct-CanStep s before after (inline j) e
        (job-CanAct c s.pool k (inline j) h (room-at before after (inline j) e))
  asking-CanStep k before after (awaiting j) e h alive = awaiting-CanStep j before after e alive
  asking-CanStep k before after waiting e h alive = absurd (omega arith)
  asking-CanStep k before after _ e h alive = absurd (omega arith)

  -- While a worker is alive and a request that arrived has not returned, some goroutine of the pool
  -- can take a step: the goroutines never all wait for each other.
  pub no_deadlock :
      (k : ℕ) → 0 < s.pool.wg → returns_of k s.pool < total (hits k) s.arrived → CanStep c s
  no_deadlock k alive missing =
      let (before, t, after, e, h) =
        total-pos (asks k) s.threads (omega (arith, Reach-Booked k r)) in
      asking-CanStep k before after t e h alive
