-- ===== src/WorkerPool/Requests.antt =====
-- The requests that go through the pool: each has one goroutine at the interceptor until it has its
-- return, and its job is in one place at a time.
use pvz_service.Base.{
  ℕ, ◌+◌, ◌≤◌, ◌<◌, ◌≡◌, List, [], ◌∷◌, ◌++◌, arith, ℤ, hits, total, total-append,
}
use pvz_service.WorkerPool.{
  Calls, Letter, Pool, Return, Thread, awaiting, checking, inline, letters, running, submitting,
  new_pool, one_or,
}
use pvz_service.WorkerPool.Moves.{
  Acts, abandon, abandon_inline, answer, answer_inline, begin, cancel, close_again, close_first,
  close_jobs, enqueue, give_up, grow, join, kill_one, kill_panics, receive_job, receive_response,
  refuse, refuse_silently, resize_closed, resize_negative, resize_open, resize_same, run_inline,
  shrink, spawn_one, stop_all, stop_jobs_closed, stop_kill_closed, stop_killed, stop_one,
  stop_root_done, store_grown, store_shrunk, submit_panics,
}
use pvz_service.WorkerPool.Sound.{total-moved, total-spawned}
use pvz_service.WorkerPool.System.{
  Arrival, Internal, Reach, System, arrives, close, context_done, fresh_pool, moves, request,
  resize, steps,
}

-- The interceptor's goroutine of the request `k`.
abbrev pub asks : ℕ → Thread → ℕ
asks k (submitting j) = hits k j
asks k (inline j) = hits k j
asks k (awaiting j) = hits k j
asks k _ = 0

-- A goroutine that has the job of the request `k`.
abbrev pub has_job : ℕ → Thread → ℕ
has_job k (submitting j) = hits k j
has_job k (checking j) = hits k j
has_job k (running j) = hits k j
has_job k (inline j) = hits k j
has_job k _ = 0

abbrev pub returns_of : {V : Type 0} → ℕ → Pool V → ℕ
returns_of {V} k p = total (λ (r : Return V). hits k r.request) p.replies

-- Where the job of the request `k` is, or its response: in the queue, at a goroutine, in its channel.
abbrev pub stored_jobs : {V : Type 0} → ℕ → Pool V → ℕ
stored_jobs k p = total (hits k) p.jobs + letters k p.inbox

Acts-returns :
    {V : Type 0} {c : Calls V} {p p' : Pool V} {t : Thread} {next_points : List Thread} (k : ℕ)
    → Acts c p t p' next_points
    → returns_of k p' + total (asks k) next_points ≡ returns_of k p + asks k t
Acts-returns k (stop_killed h1) = ground arith
Acts-returns k (stop_kill_closed h1 h2) = ground arith
Acts-returns k (stop_jobs_closed h1 h2) = ground arith
Acts-returns k (stop_root_done h1) = ground arith
Acts-returns k (receive_job h1) = ground arith
Acts-returns k (refuse h1 h2) = ground arith
Acts-returns k (refuse_silently h1 h2) = ground arith
Acts-returns k (begin h1) = ground arith
Acts-returns k (answer h1) = ground arith
Acts-returns k (abandon h1) = ground arith
Acts-returns k (enqueue h1 h2) = ground arith
Acts-returns k (run_inline h1 h2) = ground arith
Acts-returns k (submit_panics h1) = ground arith
Acts-returns k (answer_inline h1) = ground arith
Acts-returns k (abandon_inline h1) = ground arith
Acts-returns k (receive_response before after l h1 h2) = ground arith
Acts-returns k (give_up h1) = ground arith
Acts-returns k resize_negative = ground arith
Acts-returns k (resize_closed h1) = ground arith
Acts-returns k (resize_open h1) = ground arith
Acts-returns k (resize_same h1) = ground arith
Acts-returns k (grow h1) = ground arith
Acts-returns k (shrink h1) = ground arith
Acts-returns k spawn_one = ground arith
Acts-returns k store_grown = ground arith
Acts-returns k (kill_one h1 h2) = ground arith
Acts-returns k (kill_panics h1) = ground arith
Acts-returns k store_shrunk = ground arith
Acts-returns k (close_again h1) = ground arith
Acts-returns k (close_first h1) = ground arith
Acts-returns k cancel = ground arith
Acts-returns k close_jobs = ground arith
Acts-returns k (stop_one h1 h2) = ground arith
Acts-returns k (stop_all h1) = ground arith
Acts-returns k (join h1) = ground arith

pub letters-removed :
    {V : Type 0} (k : ℕ) (before after : List (Letter V)) (l : Letter V)
    → letters k (before ++ l ∷ after) ≡ letters k (before ++ after) + hits k l.channel
letters-removed {V} k before after l =
    omega (arith, total-append f before (l ∷ after), total-append f before after)
  where
    f : Letter V → ℕ
    f l = hits k l.channel

-- A job is not doubled, and may be lost: when its context is done, or `Submit` panics.
Acts-jobs :
    {V : Type 0} {c : Calls V} {p p' : Pool V} {t : Thread} {next_points : List Thread} (k : ℕ)
    → Acts c p t p' next_points
    → stored_jobs k p' + total (has_job k) next_points ≤ stored_jobs k p + has_job k t
Acts-jobs k (stop_killed h1) = ground arith
Acts-jobs k (stop_kill_closed h1 h2) = ground arith
Acts-jobs k (stop_jobs_closed h1 h2) = ground arith
Acts-jobs k (stop_root_done h1) = ground arith
Acts-jobs k (receive_job h1) = ground arith
Acts-jobs k (refuse h1 h2) = ground arith
Acts-jobs k (refuse_silently h1 h2) = ground arith
Acts-jobs k (begin h1) = ground arith
Acts-jobs k (answer h1) = ground arith
Acts-jobs k (abandon h1) = ground arith
Acts-jobs {p} k (enqueue {j} h1 h2) = ground (arith, total-append (hits k) p.jobs (j ∷ []))
Acts-jobs k (run_inline h1 h2) = ground arith
Acts-jobs k (submit_panics h1) = ground arith
Acts-jobs k (answer_inline h1) = ground arith
Acts-jobs k (abandon_inline h1) = ground arith
Acts-jobs k (receive_response before after l h1 h2) =
    ground (arith, letters-removed k before after l)
Acts-jobs k (give_up h1) = ground arith
Acts-jobs k resize_negative = ground arith
Acts-jobs k (resize_closed h1) = ground arith
Acts-jobs k (resize_open h1) = ground arith
Acts-jobs k (resize_same h1) = ground arith
Acts-jobs k (grow h1) = ground arith
Acts-jobs k (shrink h1) = ground arith
Acts-jobs k spawn_one = ground arith
Acts-jobs k store_grown = ground arith
Acts-jobs k (kill_one h1 h2) = ground arith
Acts-jobs k (kill_panics h1) = ground arith
Acts-jobs k store_shrunk = ground arith
Acts-jobs k (close_again h1) = ground arith
Acts-jobs k (close_first h1) = ground arith
Acts-jobs k cancel = ground arith
Acts-jobs k close_jobs = ground arith
Acts-jobs k (stop_one h1 h2) = ground arith
Acts-jobs k (stop_all h1) = ground arith
Acts-jobs k (join h1) = ground arith

-- The books on the request `k`: it came once at most, its goroutine at the interceptor is there until
-- it has returned, and its job is in at most one place.
abbrev pub Booked : {V : Type 0} → ℕ → System V → Type 0
Booked k s =
    (returns_of k s.pool + total (asks k) s.threads ≡ total (hits k) s.arrived)
    × ((stored_jobs k s.pool + total (has_job k) s.threads ≤ total (hits k) s.arrived)
        × (total (hits k) s.arrived ≤ 1))

Internal-Booked :
    {V : Type 0} {c : Calls V} {s s' : System V} (k : ℕ)
    → Internal c s s'
    → Booked k s
    → Booked k s'
Internal-Booked k (moves before after {next_points} {t} e m) b = omega (
  arith,
  b,
  Acts-returns k m,
  Acts-jobs k m,
  total-moved (asks k) before after next_points t e,
  total-moved (has_job k) before after next_points t e,
)

Arrival-Booked : {V : Type 0} {s s' : System V} (k : ℕ) → Arrival s s' → Booked k s → Booked k s'
Arrival-Booked k (request j fresh) b = ground arith
Arrival-Booked k (resize n _) b = ground arith
Arrival-Booked k close b = ground arith
Arrival-Booked k (context_done j) b = b

-- In every reachable state of the pool each request arrived at most once, has either its goroutine
-- at the interceptor or exactly one return, and its job is in at most one place: the queue, a
-- goroutine, or its channel as a response.
pub Reach-Booked :
    {V : Type 0} {c : Calls V} {worker_cnt queue_size : ℤ} {s : System V} (k : ℕ)
    → Reach c worker_cnt queue_size s
    → Booked k s
unfolding new_pool
Reach-Booked {worker_cnt} k fresh_pool = ground (
  arith,
  total-spawned (asks k) (one_or worker_cnt),
  total-spawned (has_job k) (one_or worker_cnt),
)
Reach-Booked k (arrives r a) = Arrival-Booked k a (Reach-Booked k r)
Reach-Booked k (steps r m) = Internal-Booked k m (Reach-Booked k r)

-- A goroutine that has a job finds the job's channel empty, so that no worker ever waits to send.
pub channel-empty :
    {V : Type 0} {c : Calls V} {worker_cnt queue_size : ℤ} {s : System V} (j : ℕ)
    → Reach c worker_cnt queue_size s
    → 0 < total (has_job j) s.threads
    → letters j s.pool.inbox ≡ 0
channel-empty j r held = omega (arith, Reach-Booked j r)
