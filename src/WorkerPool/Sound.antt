-- ===== src/WorkerPool/Sound.antt =====
-- What holds of the pool and its goroutines at every point: the bounds of the two channels, and the
-- counters against the goroutines that they count.
use pvz_service.Base.{
  ℕ, zero, suc, ◌+◌, ◌*◌, ◌%◌, ◌^◌, ◌≤◌, ◌≡◌, List, [], ◌∷◌, ◌++◌, arith, ℤ, length, length-append,
  total, total-append, total-at,
}
use pvz_service.WorkerPool.{
  Calls, Pool, Thread, checking, inline, running, waiting, new_pool, spawned, one_or,
}
use pvz_service.WorkerPool.Moves.{
  Acts, abandon, abandon_inline, answer, answer_inline, begin, cancel, close_again, close_first,
  close_jobs, enqueue, give_up, grow, join, kill_one, kill_panics, receive_job, receive_response,
  refuse, refuse_silently, resize_closed, resize_negative, resize_open, resize_same, run_inline,
  shrink, spawn_one, stop_all, stop_jobs_closed, stop_kill_closed, stop_killed, stop_one,
  stop_root_done, store_grown, store_shrunk, submit_panics,
}
use pvz_service.WorkerPool.System.{
  Arrival, Internal, Reach, System, arrives, close, context_done, fresh_pool, moves, request,
  resize, steps,
}

-- A worker, and a goroutine that is at a job.
abbrev pub is_worker : Thread → ℕ
is_worker waiting = 1
is_worker (checking j) = 1
is_worker (running j) = 1
is_worker _ = 0

abbrev pub is_busy : Thread → ℕ
is_busy (checking j) = 1
is_busy (running j) = 1
is_busy (inline j) = 1
is_busy _ = 0

-- A step changes a sum over the goroutines by what the goroutine and what follows it weigh.
total-step :
    (f : Thread → ℕ) (before after next_points : List Thread) (t : Thread)
    → total f (before ++ (next_points ++ after)) + f t
      ≡ total f (before ++ t ∷ after) + total f next_points
total-step f before after next_points t = omega (
  arith,
  total-append f before (next_points ++ after),
  total-append f before (t ∷ after),
  total-append f next_points after,
)

abbrev Kept : {V : Type 0} → Pool V → ℕ → ℕ → Type 0
Kept p workers_there busy =
    ((length p.jobs ≤ p.queue_capacity) × (p.kill ≤ p.kill_capacity))
    × ((p.wg ≡ workers_there) × (p.active ≡ busy % 2 ^ 32))

Acts-Kept :
    {V : Type 0} {c : Calls V} {p p' : Pool V} {t : Thread} {next_points : List Thread}
    → Acts c p t p' next_points
    → (w b w' b' : ℕ) → (w' + is_worker t ≡ w + total is_worker next_points)
    → (b' + is_busy t ≡ b + total is_busy next_points)
    → is_worker t ≤ w
    → is_busy t ≤ b
    → Kept p w b
    → Kept p' w' b'
Acts-Kept (stop_killed h1) w b w' b' ew eb lw lb k = ground arith
Acts-Kept (stop_kill_closed h1 h2) w b w' b' ew eb lw lb k = ground arith
Acts-Kept (stop_jobs_closed h1 h2) w b w' b' ew eb lw lb k = ground arith
Acts-Kept (stop_root_done h1) w b w' b' ew eb lw lb k = ground arith
Acts-Kept (receive_job h1) w b w' b' ew eb lw lb k = ground arith
Acts-Kept (refuse h1 h2) w b w' b' ew eb lw lb k = ground arith
Acts-Kept (refuse_silently h1 h2) w b w' b' ew eb lw lb k = ground arith
Acts-Kept (begin h1) w b w' b' ew eb lw lb k = ground arith
Acts-Kept (answer h1) w b w' b' ew eb lw lb k = ground arith
Acts-Kept (abandon h1) w b w' b' ew eb lw lb k = ground arith
Acts-Kept {p} (enqueue {j} h1 h2) w b w' b' ew eb lw lb k =
    ground (arith, length-append p.jobs (j ∷ []))
Acts-Kept (run_inline h1 h2) w b w' b' ew eb lw lb k = ground arith
Acts-Kept (submit_panics h1) w b w' b' ew eb lw lb k = ground arith
Acts-Kept (answer_inline h1) w b w' b' ew eb lw lb k = ground arith
Acts-Kept (abandon_inline h1) w b w' b' ew eb lw lb k = ground arith
Acts-Kept (receive_response before after l h1 h2) w b w' b' ew eb lw lb k = ground arith
Acts-Kept (give_up h1) w b w' b' ew eb lw lb k = ground arith
Acts-Kept resize_negative w b w' b' ew eb lw lb k = ground arith
Acts-Kept (resize_closed h1) w b w' b' ew eb lw lb k = ground arith
Acts-Kept (resize_open h1) w b w' b' ew eb lw lb k = ground arith
Acts-Kept (resize_same h1) w b w' b' ew eb lw lb k = ground arith
Acts-Kept (grow h1) w b w' b' ew eb lw lb k = ground arith
Acts-Kept (shrink h1) w b w' b' ew eb lw lb k = ground arith
Acts-Kept spawn_one w b w' b' ew eb lw lb k = ground arith
Acts-Kept store_grown w b w' b' ew eb lw lb k = ground arith
Acts-Kept (kill_one h1 h2) w b w' b' ew eb lw lb k = ground arith
Acts-Kept (kill_panics h1) w b w' b' ew eb lw lb k = ground arith
Acts-Kept store_shrunk w b w' b' ew eb lw lb k = ground arith
Acts-Kept (close_again h1) w b w' b' ew eb lw lb k = ground arith
Acts-Kept (close_first h1) w b w' b' ew eb lw lb k = ground arith
Acts-Kept cancel w b w' b' ew eb lw lb k = ground arith
Acts-Kept close_jobs w b w' b' ew eb lw lb k = ground arith
Acts-Kept (stop_one h1 h2) w b w' b' ew eb lw lb k = ground arith
Acts-Kept (stop_all h1) w b w' b' ew eb lw lb k = ground arith
Acts-Kept (join h1) w b w' b' ew eb lw lb k = ground arith

-- What the sums over all goroutines become when one takes a step.
pub total-moved :
    (f : Thread → ℕ) {threads : List Thread} (before after next_points : List Thread) (t : Thread)
    → threads ≡ before ++ t ∷ after
    → total f (before ++ (next_points ++ after)) + f t ≡ total f threads + total f next_points
total-moved f before after next_points t e = rw e (total-step f before after next_points t)

pub weight-le-total :
    (f : Thread → ℕ) {threads : List Thread} (before after : List Thread) (t : Thread)
    → threads ≡ before ++ t ∷ after
    → f t ≤ total f threads
weight-le-total f before after t e = rw e (total-at f before after t)

-- The queue and the kill channel hold at most what they were made for, the wait group counts the
-- workers, and `ActiveWorkers` the goroutines that are at a job.
abbrev pub IsSound : {V : Type 0} → System V → Type 0
IsSound s = Kept s.pool (total is_worker s.threads) (total is_busy s.threads)

Internal-IsSound :
    {V : Type 0} {c : Calls V} {s s' : System V} → Internal c s s' → IsSound s → IsSound s'
Internal-IsSound (moves before after {next_points} {t} e m) k =
    Acts-Kept m _ _ _ _ (total-moved is_worker before after next_points t e)
      (total-moved is_busy before after next_points t e)
      (weight-le-total is_worker before after t e) (weight-le-total is_busy before after t e) k

Arrival-IsSound : {V : Type 0} {s s' : System V} → Arrival s s' → IsSound s → IsSound s'
Arrival-IsSound (request j fresh) k = ground arith
Arrival-IsSound (resize n _) k = ground arith
Arrival-IsSound close k = ground arith
Arrival-IsSound (context_done j) k = k

pub total-spawned : (f : Thread → ℕ) (n : ℕ) → total f (spawned n) ≡ n * f waiting
total-spawned f zero = omega arith
total-spawned f (suc n) = grind (arith, total-spawned f n)

-- Whatever arrives and in whatever order the goroutines run, the queue and the kill channel hold
-- at most what they were made for, the wait group counts the workers, and the active counter is
-- the number of goroutines at a job, modulo 2^32.
pub Reach-IsSound :
    {V : Type 0} {c : Calls V} {worker_cnt queue_size : ℤ} {s : System V}
    → Reach c worker_cnt queue_size s
    → IsSound s
unfolding new_pool
Reach-IsSound {worker_cnt} {queue_size} fresh_pool =
    ground (
      arith,
      total-spawned is_worker (one_or worker_cnt),
      total-spawned is_busy (one_or worker_cnt),
    )
Reach-IsSound (arrives r a) = Arrival-IsSound a (Reach-IsSound r)
Reach-IsSound (steps r m) = Internal-IsSound m (Reach-IsSound r)
