-- ===== src/WorkerPool.antt =====
-- internal/workerpool/pool.go and internal/workerpool/job.go: the state that the goroutines share,
-- and where each of them stands. A job is named by the number of the request that submits it, as its
-- context, its function and its channel are the request's own: `PoolInterceptor` makes them.
pub mod Moves
pub mod System
pub mod Sound
pub mod Requests
pub mod Settled
pub mod NoDeadlock
pub mod Honest
pub mod Terminates
pub mod Settles
pub mod Stuck
use pvz_service.Base.{
  ℕ, zero, suc, ◌+◌, ◌-◌, ◌*◌, ◌%◌, ◌^◌, Bool, false, Option, none, some, List, [], ◌∷◌, ◌++◌, ℤ,
  hits, total, pos, negsuc,
}
use pvz_service.Base.Text.{Text, codes}
use pvz_service.Domain.Error.{Error, plain}

-- What `job.Run` does when it is called.
pub data JobResult (V : Type 0) : Type 0 where
  returns : Option V → Option Error → JobResult V
  panics : Text → JobResult V

-- The function of each job, and the error of its context once that is done.
pub record Calls (V : Type 0) : Type 0 where
  pub run : ℕ → JobResult V
  pub ctx_error : ℕ → Error

pub record Response (V : Type 0) : Type 0 where
  pub value : Option V
  pub error : Option Error

-- What `executeJobWithPanicRecovery` sends: the result of the function, or an error for a panic.
unfoldable pub response : {V : Type 0} → Text → JobResult V → Response V
response worker_type (returns v e) = record { value = v; error = e }
response worker_type (panics r) = record {
  value = none;
  error = some (plain (worker_type ++ (codes " panic: " ++ r)));
}

-- A response in the channel of a job. The channel has room for one.
pub record Letter (V : Type 0) : Type 0 where
  pub channel : ℕ
  pub content : Response V

-- What the interceptor returns: the response, the error of the context, or nothing as `Submit`
-- panicked.
pub data Reply (V : Type 0) : Type 0 where
  answered : Response V → Reply V
  gave_up : Error → Reply V
  crashed : Reply V

pub record Return (V : Type 0) : Type 0 where
  pub request : ℕ
  pub reply : Reply V

-- The counter of the wait group is a field of its own. The int32 counters are kept modulo 2^32.
pub record Pool (V : Type 0) : Type 0 where
  pub jobs : List ℕ
  pub queue_capacity : ℕ
  pub jobs_closed : Bool
  pub kill : ℕ
  pub kill_capacity : ℕ
  pub kill_closed : Bool
  pub root_done : Bool
  pub closed : Bool
  pub wg : ℕ
  pub workers : ℕ
  pub active : ℕ
  -- the contexts that are done, the channels' contents, and what the interceptor has returned
  pub done : ℕ → Bool
  pub inbox : List (Letter V)
  pub replies : List (Return V)

-- Where a goroutine stands.
pub data Thread : Type 0 where
  -- `worker`: in its select, with a job before the test of the context, inside the job
  waiting : Thread
  checking : ℕ → Thread
  running : ℕ → Thread
  -- `PoolInterceptor`: before `Submit`, inside the job as the queue was full, in its select
  submitting : ℕ → Thread
  inline : ℕ → Thread
  awaiting : ℕ → Thread
  -- `Resize`: at its start, past the test of `closed`, with the workers left to start or to stop
  resizing : ℤ → Thread
  choosing : ℕ → Thread
  spawning : ℕ → ℕ → Thread
  killing : ℕ → ℕ → Thread
  -- `Close`: at its start, before `cancel`, before `close(p.jobs)`, with the tokens sent, before `Wait`
  closing : Thread
  cancelling : Thread
  closing_jobs : Thread
  stopping : ℕ → Thread
  joining : Thread

-- The counts of `New`, from the configuration's integers.
abbrev pub one_or : ℤ → ℕ
one_or (pos zero) = 1
one_or (pos (suc n)) = suc n
one_or (negsuc n) = 1

abbrev queue_size_or : ℕ → ℤ → ℕ
queue_size_or worker_cnt (pos zero) = worker_cnt * 4
queue_size_or worker_cnt (pos (suc n)) = suc n
queue_size_or worker_cnt (negsuc n) = worker_cnt * 4

unfoldable pub new_pool : {V : Type 0} → ℤ → ℤ → Pool V
new_pool worker_cnt queue_size =
    let cnt = one_or worker_cnt in
    record {
      jobs = [];
      queue_capacity = queue_size_or cnt queue_size;
      jobs_closed = false;
      kill = 0;
      kill_capacity = cnt * 2;
      kill_closed = false;
      root_done = false;
      closed = false;
      wg = cnt;
      workers = cnt;
      active = 0;
      done = λ _. false;
      inbox = [];
      replies = [];
    }

-- `spawn`, for the workers that `New` starts.
abbrev pub spawned : ℕ → List Thread
spawned zero = []
spawned (suc n) = waiting ∷ spawned n

-- `atomic.AddInt32(&p.active, 1)` and `atomic.AddInt32(&p.active, -1)`
abbrev pub int32_inc : ℕ → ℕ
int32_inc n = (n + 1) % 2 ^ 32

abbrev pub int32_dec : ℕ → ℕ
int32_dec n = (n + (2 ^ 32 - 1)) % 2 ^ 32

-- The responses in the channel of the job `k`.
abbrev pub letters : {V : Type 0} → ℕ → List (Letter V) → ℕ
letters {V} k inbox = total (λ (l : Letter V). hits k l.channel) inbox
