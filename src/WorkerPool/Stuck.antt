-- ===== src/WorkerPool/Stuck.antt =====
-- `Close` of a pool that was enlarged: the kill channel is made for the first number of workers.
use mathlib.Core.Path.{subst}
use pvz_service.Base.{
  ℕ, zero, suc, ◌+◌, ◌-◌, ◌*◌, ◌^◌, ◌<◌, ◌≡◌, refl, sym, ◌∙◌, true, false, List, [], ◌∷◌, ◌++◌,
  arith, ℤ, pos,
}
use pvz_service.WorkerPool.{Calls, Pool, Thread, spawned, spawning, stopping, new_pool}
use pvz_service.WorkerPool.Moves.{
  spawn_one, stop_one, stop_root_done, Acts, stop_all, cancel, close_first, close_jobs, grow,
  resize_open, store_grown,
}
use pvz_service.WorkerPool.System.{
  Reach, System, moves, steps, Internal, arrives, close, fresh_pool, resize,
}

-- The pool is open and nobody was killed.
abbrev IsCalm : {V : Type 0} → ℕ → Pool V → Type 0
IsCalm cap p = (p.closed ≡ false) × ((p.kill ≡ 0) × (p.kill_capacity ≡ cap))

-- The root context is done, and the kill channel has `i` tokens.
abbrev IsEnding : {V : Type 0} → ℕ → ℕ → ℕ → Pool V → Type 0
IsEnding n cap i p =
    (p.root_done ≡ true) × ((p.workers ≡ n) × ((p.kill ≡ i) × (p.kill_capacity ≡ cap)))

-- A goroutine of `Close` whose next send finds the kill channel full stays where it is.
blocked :
    {V : Type 0} {c : Calls V} {p p' : Pool V} {i : ℕ} {next_points : List Thread}
    → Acts c p (stopping i) p' next_points
    → i < p.workers
    → p.kill ≡ p.kill_capacity
    → ⊥
blocked (stop_one more room) fewer full = omega arith
blocked (stop_all all) fewer full = omega arith

pub only : {A : Type 0} (before after : List A) (x y : A) → y ∷ [] ≡ before ++ x ∷ after → x ≡ y
only [] after x y e = cc
only (z ∷ []) after x y e = cc
only (z ∷ w ∷ before) after x y e = cc

module _ {V : Type 0} (c : Calls V) (worker_cnt queue_size : ℤ) (n cap : ℕ) where
  -- A reachable state with these goroutines, whose pool has a property.
  abbrev Comes : (Pool V → Type 0) → List Thread → Type 0
  Comes P threads =
      (s : System V) × Reach c worker_cnt queue_size s × P s.pool × (s.threads ≡ threads)

  grown :
      (k m : ℕ)
      → Comes (IsCalm cap) (spawning k n ∷ spawned m)
      → (l : ℕ) × Comes (IsCalm cap) (spawning 0 n ∷ spawned l)
  grown zero m h = (m, h)
  grown (suc k) m (s, r, calm, e) =
      grown k (suc m) (_, steps r (moves [] (spawned m) e spawn_one), calm, refl)

  closed_down :
      (m : ℕ)
      → Comes (IsCalm cap) (spawning 0 n ∷ spawned m)
      → Comes (IsEnding n cap 0) (stopping 0 ∷ spawned m)
  closed_down m (s, r, (open_, calm), e) =
      let stored = arrives (steps r (moves [] (spawned m) e store_grown)) close in
      let first = steps stored (moves [] (spawned m) refl (close_first open_)) in
      let cancelled_ = steps first (moves [] (spawned m) refl cancel) in
      (_, steps cancelled_ (moves [] (spawned m) refl close_jobs), (refl, (refl, calm)), refl)

  exited :
      (m : ℕ)
      → Comes (IsEnding n cap 0) (stopping 0 ∷ spawned m)
      → Comes (IsEnding n cap 0) (stopping 0 ∷ [])
  exited zero h = h
  exited (suc m) (s, r, ending, e) =
      exited m
        (_, steps r (moves (stopping 0 ∷ []) (spawned m) e (stop_root_done ending.0)), ending, refl)

  filled :
      (left i : ℕ)
      → left + i ≡ cap
      → cap < n
      → Comes (IsEnding n cap i) (stopping i ∷ [])
      → Comes (IsEnding n cap cap) (stopping cap ∷ [])
  filled zero i e more h =
      let at_end : i ≡ cap = omega arith in
      subst (λ j. Comes (IsEnding n cap j) (stopping j ∷ [])) at_end h
  filled (suc left) i e more (s, r, (root, (cnt, (tokens, room))), there) =
      filled left (suc i) (omega arith) more (
        _,
        steps r (moves [] [] there (stop_one (omega arith) (omega arith))),
        (root, (cnt, (ground arith, room))),
        refl,
      )

-- New with a positive number of workers, then Resize to more than twice as many, then Close: it
-- can come to where all workers have ended, with the kill channel full, and Close is the only
-- goroutine left and waits for good to send its next token; nothing in the pool can take a step.
pub close_blocks :
    {V : Type 0} (c : Calls V) (w : ℕ) (queue_size : ℤ) (n : ℕ)
    → suc w * 2 < n
    → n < 2 ^ 31
    → (s : System V) × Reach c (pos (suc w)) queue_size s
      × (s.threads ≡ stopping (suc w * 2) ∷ [])
      × ((s' : System V) → ¬ Internal c s s')
unfolding new_pool
close_blocks {V} c w queue_size n grows fits =
    let (s, r, (root, (cnt, (tokens, room))), e) =
      filled c (pos (suc w)) queue_size n cap cap 0 (omega arith) grows (
        exited c (pos (suc w)) queue_size n cap ended.0
          (closed_down c (pos (suc w)) queue_size n cap ended.0 ended.1)) in
    (s, r, e, λ s' m. stays s cnt tokens room e m)
  where
    cap : ℕ
    cap = suc w * 2

    ended : (l : ℕ) × Comes c (pos (suc w)) queue_size n cap (IsCalm cap) (spawning 0 n ∷ spawned l)
    ended = grown c (pos (suc w)) queue_size n cap (n - suc w) (suc w) (
      _,
      steps
          (steps (arrives fresh_pool (resize (pos n) fits))
            (moves [] (spawned (suc w)) refl (resize_open refl)))
          (moves [] (spawned (suc w)) refl (grow (omega arith))),
      (refl, (refl, refl)),
      refl,
    )

    stays :
        {s' : System V} (s : System V)
        → s.pool.workers ≡ n
        → s.pool.kill ≡ cap
        → s.pool.kill_capacity ≡ cap
        → s.threads ≡ stopping cap ∷ []
        → Internal c s s'
        → ⊥
    stays s cnt tokens room e (moves before after {next_points} {t} {p} e' m) =
        let here : t ≡ stopping cap = only before after t (stopping cap) (sym e ∙ e') in
        blocked (subst (λ u. Acts c s.pool u p next_points) here m) (omega arith) (omega arith)
