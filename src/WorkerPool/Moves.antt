-- ===== src/WorkerPool/Moves.antt =====
-- One step of one goroutine of internal/workerpool/pool.go, or of `PoolInterceptor` of
-- internal/adapter/grpc/mw/middleware.go: an access to the shared state, with the branch it takes.
-- A `select` whose cases are both ready may take either. What is left behind is the goroutine at its
-- next point, with a worker that it started, or nothing when it has ended.
use pvz_service.Base.{
  ℕ, zero, suc, ◌+◌, ◌-◌, ◌≤◌, ◌<◌, ◌≡◌, ◌≢◌, true, false, none, some, List, [], ◌∷◌, ◌++◌, length,
  pos, negsuc,
}
use pvz_service.Base.Text.{Text, codes}
use pvz_service.WorkerPool.{
  Calls, Letter, Pool, Thread, answered, awaiting, cancelling, checking, choosing, closing,
  closing_jobs, crashed, gave_up, inline, int32_dec, int32_inc, joining, killing, letters, resizing,
  response, running, spawning, stopping, submitting, waiting,
}

abbrev pub answer_from : {V : Type 0} → Calls V → Text → ℕ → Letter V
answer_from c worker_type j = record { channel = j; content = response worker_type (c.run j) }

-- The response of a worker that finds the job's context done.
abbrev refusal : {V : Type 0} → Calls V → ℕ → Letter V
refusal c j = record {
  channel = j;
  content = record { value = none; error = some (c.ctx_error j) };
}

pub data Acts {V : Type 0} (c : Calls V) (p : Pool V) : Thread → Pool V → List Thread → Type 0 where
  -- the select of `worker`
  stop_killed :
      {n : ℕ} → p.kill ≡ suc n → Acts c p waiting (record p { kill = n; wg = p.wg - 1 }) []
  stop_kill_closed :
      p.kill ≡ 0 → p.kill_closed ≡ true → Acts c p waiting (record p { wg = p.wg - 1 }) []
  stop_jobs_closed :
      p.jobs ≡ [] → p.jobs_closed ≡ true → Acts c p waiting (record p { wg = p.wg - 1 }) []
  stop_root_done : p.root_done ≡ true → Acts c p waiting (record p { wg = p.wg - 1 }) []
  receive_job :
      {j : ℕ} {rest : List ℕ}
      → p.jobs ≡ j ∷ rest
      → Acts c p waiting (record p { jobs = rest; active = int32_inc p.active }) (checking j ∷ [])
  -- the test of the job's context
  refuse :
      {j : ℕ}
      → p.done j ≡ true
      → letters j p.inbox ≡ 0
      → Acts c p
          (checking j)
          (record p { inbox = refusal c j ∷ p.inbox; active = int32_dec p.active })
          (waiting ∷ [])
  refuse_silently :
      {j : ℕ}
      → p.done j ≡ true
      → letters j p.inbox ≢ 0
      → Acts c p (checking j) (record p { active = int32_dec p.active }) (waiting ∷ [])
  begin : {j : ℕ} → p.done j ≡ false → Acts c p (checking j) p (running j ∷ [])
  -- the end of `executeJobWithPanicRecovery` in a worker
  answer :
      {j : ℕ}
      → letters j p.inbox ≡ 0
      → Acts c p
          (running j)
          (record p {
            inbox = answer_from c (codes "async_worker") j ∷ p.inbox;
            active = int32_dec p.active;
          })
          (waiting ∷ [])
  abandon :
      {j : ℕ}
      → p.done j ≡ true
      → Acts c p (running j) (record p { active = int32_dec p.active }) (waiting ∷ [])
  -- `Submit`. A send on the closed channel panics, in a select with a default case too.
  enqueue :
      {j : ℕ}
      → p.jobs_closed ≡ false
      → length p.jobs < p.queue_capacity
      → Acts c p (submitting j) (record p { jobs = p.jobs ++ j ∷ [] }) (awaiting j ∷ [])
  run_inline :
      {j : ℕ}
      → p.jobs_closed ≡ false
      → p.queue_capacity ≤ length p.jobs
      → Acts c p (submitting j) (record p { active = int32_inc p.active }) (inline j ∷ [])
  submit_panics :
      {j : ℕ}
      → p.jobs_closed ≡ true
      → Acts c p
          (submitting j)
          (record p { replies = record { request = j; reply = crashed } ∷ p.replies })
          []
  -- the end of `executeJobWithPanicRecovery` in `Submit`
  answer_inline :
      {j : ℕ}
      → letters j p.inbox ≡ 0
      → Acts c p
          (inline j)
          (record p {
            inbox = answer_from c (codes "sync_worker") j ∷ p.inbox;
            active = int32_dec p.active;
          })
          (awaiting j ∷ [])
  abandon_inline :
      {j : ℕ}
      → p.done j ≡ true
      → Acts c p (inline j) (record p { active = int32_dec p.active }) (awaiting j ∷ [])
  -- the select of `PoolInterceptor`
  receive_response :
      {j : ℕ} (before after : List (Letter V)) (l : Letter V)
      → p.inbox ≡ before ++ l ∷ after
      → l.channel ≡ j
      → Acts c p
          (awaiting j)
          (record p {
            inbox = before ++ after;
            replies = record { request = j; reply = answered l.content } ∷ p.replies;
          })
          []
  give_up :
      {j : ℕ}
      → p.done j ≡ true
      → Acts c p
          (awaiting j)
          (record p {
            replies = record { request = j; reply = gave_up (c.ctx_error j) } ∷ p.replies;
          })
          []
  -- `Resize`
  resize_negative : {n : ℕ} → Acts c p (resizing (negsuc n)) p []
  resize_closed : {n : ℕ} → p.closed ≡ true → Acts c p (resizing (pos n)) p []
  resize_open : {n : ℕ} → p.closed ≡ false → Acts c p (resizing (pos n)) p (choosing n ∷ [])
  resize_same : {n : ℕ} → n ≡ p.workers → Acts c p (choosing n) p []
  grow : {n : ℕ} → p.workers < n → Acts c p (choosing n) p (spawning (n - p.workers) n ∷ [])
  shrink : {n : ℕ} → n < p.workers → Acts c p (choosing n) p (killing (p.workers - n) n ∷ [])
  spawn_one :
      {k n : ℕ}
      → Acts c p (spawning (suc k) n) (record p { wg = p.wg + 1 }) (spawning k n ∷ waiting ∷ [])
  store_grown : {n : ℕ} → Acts c p (spawning zero n) (record p { workers = n }) []
  kill_one :
      {k n : ℕ}
      → p.kill_closed ≡ false
      → p.kill < p.kill_capacity
      → Acts c p (killing (suc k) n) (record p { kill = suc p.kill }) (killing k n ∷ [])
  kill_panics : {k n : ℕ} → p.kill_closed ≡ true → Acts c p (killing (suc k) n) p []
  store_shrunk : {n : ℕ} → Acts c p (killing zero n) (record p { workers = n }) []
  -- `Close`
  close_again : p.closed ≡ true → Acts c p closing p []
  close_first : p.closed ≡ false → Acts c p closing (record p { closed = true }) (cancelling ∷ [])
  cancel : Acts c p cancelling (record p { root_done = true }) (closing_jobs ∷ [])
  close_jobs : Acts c p closing_jobs (record p { jobs_closed = true }) (stopping 0 ∷ [])
  stop_one :
      {i : ℕ}
      → i < p.workers
      → p.kill < p.kill_capacity
      → Acts c p (stopping i) (record p { kill = suc p.kill }) (stopping (suc i) ∷ [])
  stop_all : {i : ℕ} → p.workers ≤ i → Acts c p (stopping i) p (joining ∷ [])
  join : p.wg ≡ 0 → Acts c p joining (record p { kill_closed = true }) []
