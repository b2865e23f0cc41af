-- ===== src/Examples/Pooling.antt =====
-- A pool with one worker and a queue of one, with one request, and calls through the interceptors.
use mathlib.Core.WellFounded.{Acc}
use mathlib.Core.Path.{subst}
use pvz_service.Base.{ℕ, ◌+◌, ◌≡◌, refl, true, false, none, some, List, [], ◌∷◌, arith, All, pos}
use pvz_service.Base.Text.{codes}
use pvz_service.Domain.Error.{as_domain_error, plain, status, error_text, invalid_argument}
use pvz_service.Db.World.{ok}
use pvz_service.Grpc.Chain.{IsStatus, foreign_error-InvalidArgument, unary_chain-IsStatus}
use pvz_service.Grpc.Middleware.{Surroundings, from_pool, unary_chain}
use pvz_service.WorkerPool.{
  returns, Calls, Pool, Reply, Thread, awaiting, gave_up, new_pool, stopping, waiting,
}
use pvz_service.WorkerPool.Honest.{ReturnIsDue, replies-ReturnIsDue}
use pvz_service.WorkerPool.Moves.{
  Acts, answer, answer_from, begin, enqueue, receive_job, receive_response, stop_jobs_closed,
  stop_kill_closed, stop_killed, stop_root_done,
}
use pvz_service.WorkerPool.Requests.{Booked, Reach-Booked}
use pvz_service.WorkerPool.Settles.{AllReturned, stopped-AllReturned}
use pvz_service.WorkerPool.Sound.{IsSound, Reach-IsSound}
use pvz_service.WorkerPool.Stuck.{close_blocks, only}
use pvz_service.WorkerPool.System.{
  Internal, Reach, System, arrives, fresh_pool, moves, request, steps,
}
use pvz_service.WorkerPool.Terminates.{Follows, goroutines_stop}

abbrev calls : Calls ℕ
calls = record {
  run = λ j. returns (some j) none;
  ctx_error = λ j. plain (codes "context deadline exceeded");
}

-- The request 7 is queued, a worker runs it, and its response is received.
abbrev served : (s : System ℕ) × Reach calls (pos 1) (pos 1) s
unfolding new_pool
served =
    let queued =
      steps (arrives fresh_pool (request 7 refl))
        (moves [] (waiting ∷ []) refl (enqueue refl (omega arith))) in
    let at_work =
      steps (steps queued (moves (awaiting 7 ∷ []) [] refl (receive_job refl)))
        (moves (awaiting 7 ∷ []) [] refl (begin refl)) in
    let responded = steps at_work (moves (awaiting 7 ∷ []) [] refl (answer refl)) in
    (
      _,
      steps responded (
          moves [] (waiting ∷ []) refl
            (receive_response [] [] (answer_from calls (codes "async_worker") 7) refl refl)),
    )

served-stuck : (s' : System ℕ) → ¬ Internal calls served.0 s'
unfolding new_pool
served-stuck s' (moves before after {next_points} {t} {p} e m) =
    idle _ _
      (subst (λ u. Acts calls served.0.pool u p next_points) (only before after t waiting e) m)
  where
    idle : (p : Pool ℕ) (ns : List Thread) → Acts calls served.0.pool waiting p ns → ⊥
    idle p ns (stop_killed h) = omega arith
    idle p ns (stop_kill_closed h k) = cc
    idle p ns (stop_jobs_closed h k) = cc
    idle p ns (stop_root_done h) = cc
    idle p ns (receive_job h) = cc

Reach-IsSound_example : IsSound served.0
Reach-IsSound_example = Reach-IsSound served.1

Reach-Booked_example : Booked 7 served.0
Reach-Booked_example = Reach-Booked 7 served.1

replies-ReturnIsDue_example :
    All (ReturnIsDue calls served.0.pool.done served.0.pool.jobs_closed) served.0.pool.replies
replies-ReturnIsDue_example = replies-ReturnIsDue served.1

goroutines_stop_example : Acc (Follows calls) served.0
goroutines_stop_example = goroutines_stop calls served.0

stopped-AllReturned_example : AllReturned served.0
unfolding new_pool
stopped-AllReturned_example = stopped-AllReturned served.1 served-stuck (omega arith)

close_blocks_example :
    (s : System ℕ) × Reach calls (pos 1) (pos 1) s
    × (s.threads ≡ stopping 2 ∷ [])
    × ((s' : System ℕ) → ¬ Internal calls s s')
close_blocks_example = close_blocks calls 0 (pos 1) 5 (omega arith) (omega arith)

-- A call whose limiter lets it in, whose request is valid, and whose deadline has passed when it ends.
abbrev late_call : Surroundings ℕ
late_call = record {
  sender = none;
  limiter = λ s w. (ok false, w);
  invalid = none;
  deadline_passed = λ w. true;
  multierr_errors = λ e. e ∷ [];
  status_text = λ code message. message;
  record_duration = λ code w. w + 1;
}

abbrev gives_up : ℕ → Reply ℕ × ℕ
gives_up w = (gave_up (plain (codes "context deadline exceeded")), w)

unary_chain-IsStatus_example : IsStatus (unary_chain late_call gives_up 3).0
unary_chain-IsStatus_example = unary_chain-IsStatus late_call gives_up 3

foreign_error-InvalidArgument_example : unary_chain late_call gives_up 3 ≡ (
  returns none (
      some (
        status
          (codes "context deadline exceeded")
          invalid_argument
          (codes "context deadline exceeded"))),
  4,
)
unfolding from_pool as_domain_error error_text
foreign_error-InvalidArgument_example =
    foreign_error-InvalidArgument late_call gives_up 3 3 3
      (gave_up (plain (codes "context deadline exceeded"))) none
      (plain (codes "context deadline exceeded")) (λ other h. cc) refl refl refl refl refl
