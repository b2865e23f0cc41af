-- ===== src/WorkerPool/Settled.antt =====
-- Every request gets its return: nothing that the pool's goroutines do can lose one.
use pvz_service.Base.{
  ℕ, ◌+◌, ◌≤◌, ◌<◌, ◌≡◌, ◌⊎◌, true, List, [], ◌∷◌, ◌++◌, arith, ℤ, hits, total, total-append,
}
use pvz_service.WorkerPool.{Calls, Pool, Thread, awaiting, new_pool, one_or}
use pvz_service.WorkerPool.Moves.{
  Acts, abandon, abandon_inline, answer, answer_inline, begin, cancel, close_again, close_first,
  close_jobs, enqueue, give_up, grow, join, kill_one, kill_panics, receive_job, receive_response,
  refuse, refuse_silently, resize_closed, resize_negative, resize_open, resize_same, run_inline,
  shrink, spawn_one, stop_all, stop_jobs_closed, stop_kill_closed, stop_killed, stop_one,
  stop_root_done, store_grown, store_shrunk, submit_panics,
}
use pvz_service.WorkerPool.Requests.{
  has_job, letters-removed, stored_jobs, Booked, Reach-Booked, asks,
}
use pvz_service.WorkerPool.Sound.{total-moved, total-spawned}
use pvz_service.WorkerPool.System.{
  Arrival, Internal, Reach, System, arrives, close, context_done, fresh_pool, moves, request,
  resize, steps,
}

abbrev pub awaits : ℕ → Thread → ℕ
awaits k (awaiting j) = hits k j
awaits k _ = 0

-- The request `k` may wait only for a job that is somewhere, or with a context that is done.
abbrev Waits : {V : Type 0} → ℕ → Pool V → ℕ → ℕ → Type 0
Waits k p waiting_there jobs_there =
    0 < waiting_there → (p.done k ≡ true) ⊎ (0 < stored_jobs k p + jobs_there)

Acts-Waits :
    {V : Type 0} {c : Calls V} {p p' : Pool V} {t : Thread} {next_points : List Thread}
    → (k : ℕ) → Acts c p t p' next_points
    → (w h w' h' : ℕ) → (w' + awaits k t ≡ w + total (awaits k) next_points)
    → (h' + has_job k t ≡ h + total (has_job k) next_points)
    → w + asks k t ≤ 1 + awaits k t
    → Waits k p w h
    → Waits k p' w' h'
Acts-Waits k (stop_killed h1) w h w' h' ew eh one q there = ground arith
Acts-Waits k (stop_kill_closed h1 h2) w h w' h' ew eh one q there = ground arith
Acts-Waits k (stop_jobs_closed h1 h2) w h w' h' ew eh one q there = ground arith
Acts-Waits k (stop_root_done h1) w h w' h' ew eh one q there = ground arith
Acts-Waits k (receive_job h1) w h w' h' ew eh one q there = ground arith
Acts-Waits k (refuse h1 h2) w h w' h' ew eh one q there = ground arith
Acts-Waits k (refuse_silently h1 h2) w h w' h' ew eh one q there = ground arith
Acts-Waits k (begin h1) w h w' h' ew eh one q there = ground arith
Acts-Waits k (answer h1) w h w' h' ew eh one q there = ground arith
Acts-Waits k (abandon h1) w h w' h' ew eh one q there = ground arith
Acts-Waits {p} k (enqueue {j} h1 h2) w h w' h' ew eh one q there =
    ground (arith, total-append (hits k) p.jobs (j ∷ []))
Acts-Waits k (run_inline h1 h2) w h w' h' ew eh one q there = ground arith
Acts-Waits k (submit_panics h1) w h w' h' ew eh one q there = ground arith
Acts-Waits k (answer_inline h1) w h w' h' ew eh one q there = ground arith
Acts-Waits k (abandon_inline h1) w h w' h' ew eh one q there = ground arith
Acts-Waits k (receive_response before after l h1 h2) w h w' h' ew eh one q there =
    ground (arith, letters-removed k before after l)
Acts-Waits k (give_up h1) w h w' h' ew eh one q there = ground arith
Acts-Waits k resize_negative w h w' h' ew eh one q there = ground arith
Acts-Waits k (resize_closed h1) w h w' h' ew eh one q there = ground arith
Acts-Waits k (resize_open h1) w h w' h' ew eh one q there = ground arith
Acts-Waits k (resize_same h1) w h w' h' ew eh one q there = ground arith
Acts-Waits k (grow h1) w h w' h' ew eh one q there = ground arith
Acts-Waits k (shrink h1) w h w' h' ew eh one q there = ground arith
Acts-Waits k spawn_one w h w' h' ew eh one q there = ground arith
Acts-Waits k store_grown w h w' h' ew eh one q there = ground arith
Acts-Waits k (kill_one h1 h2) w h w' h' ew eh one q there = ground arith
Acts-Waits k (kill_panics h1) w h w' h' ew eh one q there = ground arith
Acts-Waits k store_shrunk w h w' h' ew eh one q there = ground arith
Acts-Waits k (close_again h1) w h w' h' ew eh one q there = ground arith
Acts-Waits k (close_first h1) w h w' h' ew eh one q there = ground arith
Acts-Waits k cancel w h w' h' ew eh one q there = ground arith
Acts-Waits k close_jobs w h w' h' ew eh one q there = ground arith
Acts-Waits k (stop_one h1 h2) w h w' h' ew eh one q there = ground arith
Acts-Waits k (stop_all h1) w h w' h' ew eh one q there = ground arith
Acts-Waits k (join h1) w h w' h' ew eh one q there = ground arith

total-awaits-le-asks :
    (k : ℕ) (threads : List Thread) → total (awaits k) threads ≤ total (asks k) threads
total-awaits-le-asks k [] = omega arith
total-awaits-le-asks k (t ∷ threads) =
    omega (arith, total-awaits-le-asks k threads, awaits-le-asks k t)
  where
    awaits-le-asks : (k : ℕ) (t : Thread) → awaits k t ≤ asks k t
    awaits-le-asks k (awaiting j) = omega arith
    awaits-le-asks k _ = omega arith

asks-alone :
    (k : ℕ) {threads : List Thread} (before after : List Thread) (t : Thread)
    → threads ≡ before ++ t ∷ after
    → total (awaits k) threads + asks k t ≤ total (asks k) threads + awaits k t
asks-alone k before after t e = rw e (
    omega (
      arith,
      total-append (asks k) before (t ∷ after),
      total-append (awaits k) before (t ∷ after),
      total-awaits-le-asks k before,
      total-awaits-le-asks k after,
    ))

abbrev IsKept : {V : Type 0} → ℕ → System V → Type 0
IsKept k s = Waits k s.pool (total (awaits k) s.threads) (total (has_job k) s.threads)

Internal-IsKept :
    {V : Type 0} {c : Calls V} {s s' : System V} (k : ℕ)
    → Internal c s s'
    → Booked k s
    → IsKept k s
    → IsKept k s'
Internal-IsKept k (moves before after {next_points} {t} e m) b q =
    Acts-Waits k m _ _ _ _ (total-moved (awaits k) before after next_points t e)
      (total-moved (has_job k) before after next_points t e)
      (omega (arith, asks-alone k before after t e, b)) q

Arrival-IsKept : {V : Type 0} {s s' : System V} (k : ℕ) → Arrival s s' → IsKept k s → IsKept k s'
Arrival-IsKept k (request j fresh) q = ground arith
Arrival-IsKept k (resize n _) q = ground arith
Arrival-IsKept k close q = ground arith
Arrival-IsKept k (context_done j) q = ground arith

pub Reach-IsKept :
    {V : Type 0} {c : Calls V} {worker_cnt queue_size : ℤ} {s : System V} (k : ℕ)
    → Reach c worker_cnt queue_size s
    → IsKept k s
unfolding new_pool
Reach-IsKept {worker_cnt} k fresh_pool =
    ground (arith, total-spawned (awaits k) (one_or worker_cnt))
Reach-IsKept k (arrives r a) = Arrival-IsKept k a (Reach-IsKept k r)
Reach-IsKept k (steps r m) = Internal-IsKept k m (Reach-Booked k r) (Reach-IsKept k r)
