-- ===== src/WorkerPool/Terminates.antt =====
-- The pool's goroutines stop by themselves when nothing arrives any more, and by then every request has
-- its return.
use mathlib.Core.WellFounded.{Acc}
use pvz_service.Base.{
  ℕ, zero, suc, ◌+◌, ◌-◌, ◌*◌, ◌≤◌, ◌<◌, List, [], ◌∷◌, arith, length, length-append, total, pos,
}
use pvz_service.WorkerPool.{
  Calls, Pool, Thread, awaiting, cancelling, checking, choosing, closing, closing_jobs, inline,
  joining, killing, resizing, running, spawning, stopping, submitting, waiting,
}
use pvz_service.WorkerPool.Moves.{
  Acts, abandon, abandon_inline, answer, answer_inline, begin, cancel, close_again, close_first,
  close_jobs, enqueue, give_up, grow, join, kill_one, kill_panics, receive_job, receive_response,
  refuse, refuse_silently, resize_closed, resize_negative, resize_open, resize_same, run_inline,
  shrink, spawn_one, stop_all, stop_jobs_closed, stop_kill_closed, stop_killed, stop_one,
  stop_root_done, store_grown, store_shrunk, submit_panics,
}
use pvz_service.WorkerPool.Sound.{total-moved, weight-le-total}
use pvz_service.WorkerPool.System.{Internal, System, moves}

-- The number of workers that a resize under way asks for.
abbrev asked_for : Thread → ℕ
asked_for (resizing (pos n)) = n
asked_for (choosing n) = n
asked_for (spawning k n) = n
asked_for (killing k n) = n
asked_for _ = 0

-- The steps that a goroutine and those it starts have left, where no count of workers is above `b`.
abbrev steps_left : ℕ → Thread → ℕ
steps_left b waiting = 1
steps_left b (checking j) = 3
steps_left b (running j) = 2
steps_left b (submitting j) = 5
steps_left b (inline j) = 2
steps_left b (awaiting j) = 1
steps_left b (resizing n) = 2 * b + 3
steps_left b (choosing n) = 2 * b + 2
steps_left b (spawning k n) = 2 * k + 1
steps_left b (killing k n) = k + 1
steps_left b closing = b + 5
steps_left b cancelling = b + 4
steps_left b closing_jobs = b + 3
steps_left b (stopping i) = (b - i) + 2
steps_left b joining = 1

Acts-asked_for :
    {V : Type 0} {c : Calls V} {p p' : Pool V} {t : Thread} {next_points : List Thread}
    → Acts c p t p' next_points
    → p'.workers + total asked_for next_points ≤ p.workers + asked_for t
Acts-asked_for (stop_killed h1) = ground arith
Acts-asked_for (stop_kill_closed h1 h2) = ground arith
Acts-asked_for (stop_jobs_closed h1 h2) = ground arith
Acts-asked_for (stop_root_done h1) = ground arith
Acts-asked_for (receive_job h1) = ground arith
Acts-asked_for (refuse h1 h2) = ground arith
Acts-asked_for (refuse_silently h1 h2) = ground arith
Acts-asked_for (begin h1) = ground arith
Acts-asked_for (answer h1) = ground arith
Acts-asked_for (abandon h1) = ground arith
Acts-asked_for (enqueue h1 h2) = ground arith
Acts-asked_for (run_inline h1 h2) = ground arith
Acts-asked_for (submit_panics h1) = ground arith
Acts-asked_for (answer_inline h1) = ground arith
Acts-asked_for (abandon_inline h1) = ground arith
Acts-asked_for (receive_response before after l h1 h2) = ground arith
Acts-asked_for (give_up h1) = ground arith
Acts-asked_for resize_negative = ground arith
Acts-asked_for (resize_closed h1) = ground arith
Acts-asked_for (resize_open h1) = ground arith
Acts-asked_for (resize_same h1) = ground arith
Acts-asked_for (grow h1) = ground arith
Acts-asked_for (shrink h1) = ground arith
Acts-asked_for spawn_one = ground arith
Acts-asked_for store_grown = ground arith
Acts-asked_for (kill_one h1 h2) = ground arith
Acts-asked_for (kill_panics h1) = ground arith
Acts-asked_for store_shrunk = ground arith
Acts-asked_for (close_again h1) = ground arith
Acts-asked_for (close_first h1) = ground arith
Acts-asked_for cancel = ground arith
Acts-asked_for close_jobs = ground arith
Acts-asked_for (stop_one h1 h2) = ground arith
Acts-asked_for (stop_all h1) = ground arith
Acts-asked_for (join h1) = ground arith

Acts-steps_left :
    {V : Type 0} {c : Calls V} {p p' : Pool V} {t : Thread} {next_points : List Thread} (b : ℕ)
    → Acts c p t p' next_points
    → p.workers ≤ b
    → asked_for t ≤ b
    → 3 * length p'.jobs + total (steps_left b) next_points < 3 * length p.jobs + steps_left b t
Acts-steps_left b (stop_killed h1) low fits = ground arith
Acts-steps_left b (stop_kill_closed h1 h2) low fits = ground arith
Acts-steps_left b (stop_jobs_closed h1 h2) low fits = ground arith
Acts-steps_left b (stop_root_done h1) low fits = ground arith
Acts-steps_left b (receive_job h1) low fits = ground arith
Acts-steps_left b (refuse h1 h2) low fits = ground arith
Acts-steps_left b (refuse_silently h1 h2) low fits = ground arith
Acts-steps_left b (begin h1) low fits = ground arith
Acts-steps_left b (answer h1) low fits = ground arith
Acts-steps_left b (abandon h1) low fits = ground arith
Acts-steps_left {p} b (enqueue {j} h1 h2) low fits = ground (arith, length-append p.jobs (j ∷ []))
Acts-steps_left b (run_inline h1 h2) low fits = ground arith
Acts-steps_left b (submit_panics h1) low fits = ground arith
Acts-steps_left b (answer_inline h1) low fits = ground arith
Acts-steps_left b (abandon_inline h1) low fits = ground arith
Acts-steps_left b (receive_response before after l h1 h2) low fits = ground arith
Acts-steps_left b (give_up h1) low fits = ground arith
Acts-steps_left b resize_negative low fits = ground arith
Acts-steps_left b (resize_closed h1) low fits = ground arith
Acts-steps_left b (resize_open h1) low fits = ground arith
Acts-steps_left b (resize_same h1) low fits = ground arith
Acts-steps_left b (grow h1) low fits = ground arith
Acts-steps_left b (shrink h1) low fits = ground arith
Acts-steps_left b spawn_one low fits = ground arith
Acts-steps_left b store_grown low fits = ground arith
Acts-steps_left b (kill_one h1 h2) low fits = ground arith
Acts-steps_left b (kill_panics h1) low fits = ground arith
Acts-steps_left b store_shrunk low fits = ground arith
Acts-steps_left b (close_again h1) low fits = ground arith
Acts-steps_left b (close_first h1) low fits = ground arith
Acts-steps_left b cancel low fits = ground arith
Acts-steps_left b close_jobs low fits = ground arith
Acts-steps_left b (stop_one h1 h2) low fits = ground arith
Acts-steps_left b (stop_all h1) low fits = ground arith
Acts-steps_left b (join h1) low fits = ground arith

-- The most workers that the pool can come to count.
abbrev worker_bound : {V : Type 0} → System V → ℕ
worker_bound s = s.pool.workers + total asked_for s.threads

abbrev all_steps_left : {V : Type 0} → ℕ → System V → ℕ
all_steps_left b s = 3 * length s.pool.jobs + total (steps_left b) s.threads

Internal-fewer :
    {V : Type 0} {c : Calls V} {s s' : System V} (b : ℕ)
    → Internal c s s'
    → worker_bound s ≤ b
    → (worker_bound s' ≤ b) × (all_steps_left b s' < all_steps_left b s)
Internal-fewer b (moves before after {next_points} {t} e m) low = omega (
  arith,
  low,
  Acts-asked_for m,
  Acts-steps_left b m (omega arith) (omega (arith, weight-le-total asked_for before after t e)),
  total-moved asked_for before after next_points t e,
  total-moved (steps_left b) before after next_points t e,
)

-- `s'` comes after `s` by one step of a goroutine.
abbrev pub Follows : {V : Type 0} → Calls V → System V → System V → Type 0
Follows c s' s = Internal c s s'

ends_within :
    {V : Type 0} {c : Calls V} (fuel b : ℕ) (s : System V)
    → worker_bound s ≤ b
    → all_steps_left b s < fuel
    → Acc (Follows c) s
ends_within zero b s low short = absurd (omega arith)
ends_within (suc fuel) b s low short = Acc.intro s (λ s' m.
    ends_within fuel b s' (Internal-fewer b m low).0 (omega (arith, Internal-fewer b m low, short)))

-- From any state of the pool and its goroutines there is no endless run of their steps, in
-- whatever order they are taken: unless something arrives, all goroutines stop.
pub goroutines_stop : {V : Type 0} (c : Calls V) (s : System V) → Acc (Follows c) s
goroutines_stop c s =
    ends_within (suc (all_steps_left (worker_bound s) s)) (worker_bound s) s (omega arith)
      (omega arith)
