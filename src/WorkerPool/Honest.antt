-- ===== src/WorkerPool/Honest.antt =====
-- Whose result a request gets.
use mathlib.Core.Path.{subst}
use pvz_service.Base.{
  ℕ, ◌≡◌, refl, ◌⊎◌, inl, inr, Bool, true, none, some, List, [], ◌∷◌, ◌++◌, arith, ℤ, All, All-mono,
}
use pvz_service.Base.Text.{codes}
use pvz_service.WorkerPool.{
  Calls, Letter, Pool, Reply, Response, Return, Thread, answered, crashed, gave_up, response,
  new_pool,
}
use pvz_service.WorkerPool.Moves.{
  Acts, abandon, abandon_inline, answer, answer_inline, begin, cancel, close_again, close_first,
  close_jobs, enqueue, give_up, grow, join, kill_one, kill_panics, receive_job, receive_response,
  refuse, refuse_silently, resize_closed, resize_negative, resize_open, resize_same, run_inline,
  shrink, spawn_one, stop_all, stop_jobs_closed, stop_kill_closed, stop_killed, stop_one,
  stop_root_done, store_grown, store_shrunk, submit_panics,
}
use pvz_service.WorkerPool.System.{
  Arrival, Reach, System, arrives, close, context_done, fresh_pool, marked, moves, request, resize,
  steps,
}

-- What may be in the channel of the job `j`: the result of its own function, from a worker or from
-- `Submit`, or the error of its own context, once that is done.
abbrev pub IsOwn : {V : Type 0} → Calls V → (ℕ → Bool) → ℕ → Response V → Type 0
IsOwn c done j r =
    (r ≡ response (codes "async_worker") (c.run j))
    ⊎ ((r ≡ response (codes "sync_worker") (c.run j))
        ⊎ ((done j ≡ true) × (r ≡ record { value = none; error = some (c.ctx_error j) })))

abbrev pub IsDue : {V : Type 0} → Calls V → (ℕ → Bool) → Bool → ℕ → Reply V → Type 0
IsDue c done jobs_closed j (answered r) = IsOwn c done j r
IsDue c done jobs_closed j (gave_up e) = (done j ≡ true) × (e ≡ c.ctx_error j)
IsDue c done jobs_closed j crashed = jobs_closed ≡ true

abbrev LetterIsOwn : {V : Type 0} → Calls V → (ℕ → Bool) → Letter V → Type 0
LetterIsOwn c done l = IsOwn c done l.channel l.content

abbrev pub ReturnIsDue : {V : Type 0} → Calls V → (ℕ → Bool) → Bool → Return V → Type 0
ReturnIsDue c done jobs_closed r = IsDue c done jobs_closed r.request r.reply

abbrev IsHonest : {V : Type 0} → Calls V → Pool V → Type 0
IsHonest c p =
    All (LetterIsOwn c p.done) p.inbox × All (ReturnIsDue c p.done p.jobs_closed) p.replies

removed-All :
    {A : Type 0} (P : A → Type 0) (before after : List A) (x : A)
    → All P (before ++ x ∷ after)
    → P x × All P (before ++ after)
removed-All P [] after x h = h
removed-All P (y ∷ before) after x h =
    let (here, rest) = removed-All P before after x h.1 in (here, (h.0, rest))

module _ {V : Type 0} (c : Calls V) (done done' : ℕ → Bool)
    (later : (j : ℕ) → done j ≡ true → done' j ≡ true) where
  IsOwn-later : (j : ℕ) (r : Response V) → IsOwn c done j r → IsOwn c done' j r
  IsOwn-later j r (inl e) = inl e
  IsOwn-later j r (inr (inl e)) = inr (inl e)
  IsOwn-later j r (inr (inr (over, e))) = inr (inr (later j over, e))

  IsDue-later :
      (shut shut' : Bool)
      → (shut ≡ true → shut' ≡ true)
      → (j : ℕ) (y : Reply V) → IsDue c done shut j y
      → IsDue c done' shut' j y
  IsDue-later shut shut' f j (answered r) h = IsOwn-later j r h
  IsDue-later shut shut' f j (gave_up e) h = (later j h.0, h.1)
  IsDue-later shut shut' f j crashed h = f h

Acts-IsHonest :
    {V : Type 0} {c : Calls V} {p p' : Pool V} {t : Thread} {next_points : List Thread}
    → Acts c p t p' next_points
    → IsHonest c p
    → IsHonest c p'
Acts-IsHonest (stop_killed h1) h = h
Acts-IsHonest (stop_kill_closed h1 h2) h = h
Acts-IsHonest (stop_jobs_closed h1 h2) h = h
Acts-IsHonest (stop_root_done h1) h = h
Acts-IsHonest (receive_job h1) h = h
Acts-IsHonest (refuse h1 h2) h = ((inr (inr (h1, refl)), h.0), h.1)
Acts-IsHonest (refuse_silently h1 h2) h = h
Acts-IsHonest (begin h1) h = h
Acts-IsHonest (answer h1) h = ((inl refl, h.0), h.1)
Acts-IsHonest (abandon h1) h = h
Acts-IsHonest (enqueue h1 h2) h = h
Acts-IsHonest (run_inline h1 h2) h = h
Acts-IsHonest (submit_panics h1) h = (h.0, (h1, h.1))
Acts-IsHonest (answer_inline h1) h = ((inr (inl refl), h.0), h.1)
Acts-IsHonest (abandon_inline h1) h = h
Acts-IsHonest {c} {p} (receive_response {j} before after l h1 h2) h =
    let (own, rest) =
      removed-All (LetterIsOwn c p.done) before after l
        (subst (All (LetterIsOwn c p.done)) h1 h.0) in
    (rest, (subst (λ k. IsOwn c p.done k l.content) h2 own, h.1))
Acts-IsHonest (give_up h1) h = (h.0, ((h1, refl), h.1))
Acts-IsHonest resize_negative h = h
Acts-IsHonest (resize_closed h1) h = h
Acts-IsHonest (resize_open h1) h = h
Acts-IsHonest (resize_same h1) h = h
Acts-IsHonest (grow h1) h = h
Acts-IsHonest (shrink h1) h = h
Acts-IsHonest spawn_one h = h
Acts-IsHonest store_grown h = h
Acts-IsHonest (kill_one h1 h2) h = h
Acts-IsHonest (kill_panics h1) h = h
Acts-IsHonest store_shrunk h = h
Acts-IsHonest (close_again h1) h = h
Acts-IsHonest (close_first h1) h = h
Acts-IsHonest cancel h = h
Acts-IsHonest {c} {p} close_jobs h = (
  h.0,
  All-mono (ReturnIsDue c p.done p.jobs_closed) (ReturnIsDue c p.done true)
      (λ r.
        IsDue-later c p.done p.done (λ j over. over) p.jobs_closed true (λ _. refl) r.request
          r.reply)
      p.replies h.1,
)
Acts-IsHonest (stop_one h1 h2) h = h
Acts-IsHonest (stop_all h1) h = h
Acts-IsHonest (join h1) h = h

Arrival-IsHonest :
    {V : Type 0} (c : Calls V) {s s' : System V}
    → Arrival s s'
    → IsHonest c s.pool
    → IsHonest c s'.pool
Arrival-IsHonest c (request j fresh) h = h
Arrival-IsHonest c (resize n _) h = h
Arrival-IsHonest c close h = h
Arrival-IsHonest c {s} (context_done j) h = (
  All-mono (LetterIsOwn c s.pool.done) (LetterIsOwn c (marked j s.pool.done))
      (λ l. IsOwn-later c s.pool.done (marked j s.pool.done) kept l.channel l.content) s.pool.inbox
      h.0,
  All-mono (ReturnIsDue c s.pool.done s.pool.jobs_closed)
      (ReturnIsDue c (marked j s.pool.done) s.pool.jobs_closed)
      (λ r.
        IsDue-later c s.pool.done (marked j s.pool.done) kept s.pool.jobs_closed s.pool.jobs_closed
          (λ e. e) r.request r.reply)
      s.pool.replies h.1,
)
  where
    kept : (i : ℕ) → s.pool.done i ≡ true → marked j s.pool.done i ≡ true
    kept i e = ground arith

Reach-IsHonest :
    {V : Type 0} {c : Calls V} {worker_cnt queue_size : ℤ} {s : System V}
    → Reach c worker_cnt queue_size s
    → IsHonest c s.pool
unfolding new_pool
Reach-IsHonest fresh_pool = (tt, tt)
Reach-IsHonest (arrives r a) = Arrival-IsHonest _ a (Reach-IsHonest r)
Reach-IsHonest (steps r (moves _ _ _ m)) = Acts-IsHonest m (Reach-IsHonest r)

-- Whatever the interceptor has returned for a request is the result of that request's own
-- function, as a worker or Submit sends it, with an error in place of a panic; or the error of its
-- own context, which is done; or there is no result as Submit panicked, which it does only when
-- the queue is closed.
pub replies-ReturnIsDue :
    {V : Type 0} {c : Calls V} {worker_cnt queue_size : ℤ} {s : System V}
    → Reach c worker_cnt queue_size s
    → All (ReturnIsDue c s.pool.done s.pool.jobs_closed) s.pool.replies
replies-ReturnIsDue r = (Reach-IsHonest r).1
