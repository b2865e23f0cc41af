-- ===== src/App/Concurrent/Counts.antt =====
-- What every order of the goroutines of one call has in common.
use pvz_service.Base.{
  ℕ, suc, ◌+◌, ◌≤◌, ◌≡◌, ap, ◌∙◌, inl, inr, none, List, [], ◌∷◌, ◌++◌, arith, length, length-append,
}
use pvz_service.Db.World.{Exec, Result, Result-cases, World, err, ok}
use pvz_service.App.Concurrent.{
  keep_first_some, Finishes, Group, Runs, cancelled, ended_with, launched, next, ran, started,
}

module _ {F A : Type 0} (fn : A → Exec F (Unit {0})) where
  -- The counter, the items left and the failures add up to the items; as long as there is no error
  -- no item is lost.
  abbrev Counted : ℕ → Group F A → Type 0
  Counted n g =
      (length g.left + g.processed ≤ n) × (g.first_error ≡ none → length g.left + g.processed ≡ n)

  length-middle :
      (before after : List A) (item : A)
      → length (before ++ item ∷ after) ≡ suc (length (before ++ after))
  length-middle before after item =
      omega (arith, length-append before (item ∷ after), length-append before after)

  ran-Counted :
      (n : ℕ) (g : Group F A) (left : List A) (out : Result (Unit {0}) × World F)
      → length g.left ≡ suc (length left)
      → Counted n g
      → Counted n (ended_with g left out)
  ran-Counted n g left (ok u, w) one c = (omega (arith, c.0), λ fine. omega (arith, c.1 fine))
  ran-Counted n g left (err e, w) one c = (omega (arith, c.0), λ fine. absurd (ground arith))

  Finishes-Counted : (n : ℕ) (g h : Group F A) → Finishes fn g h → Counted n g → Counted n h
  Finishes-Counted n g h (ran before after item g0 split) c =
      ran-Counted n g (before ++ after) (fn item g.world)
        (ap length split ∙ length-middle before after item) c
  Finishes-Counted n g h (cancelled before after item e g0 split) c =
      let one = ap length split ∙ length-middle before after item in
      (omega (arith, c.0), λ fine. absurd (keep_first_some g.first_error e fine))

  Runs-Counted :
      (items : List A) (w : World F) (g : Group F A)
      → Runs fn (launched items w) g
      → Counted (length items) g
  Runs-Counted items w g started = (omega arith, λ fine. omega arith)
  Runs-Counted items w g (next {g = h} before step) =
      Finishes-Counted (length items) h g step (Runs-Counted items w h before)

  -- When all goroutines of processConcurrently have ended, in whatever order, at most as many
  -- items are counted as processed as there were, and all of them if no error is reported.
  pub Runs-processed :
      (items : List A) (w : World F) (g : Group F A)
      → Runs fn (launched items w) g
      → g.left ≡ []
      → (g.processed ≤ length items) × (g.first_error ≡ none → g.processed ≡ length items)
  Runs-processed items w g runs all_ended =
      let c = Runs-Counted items w g runs in
      let none_left = ap length all_ended in (omega (arith, c.0), λ fine. omega (arith, c.1 fine))

  -- What every item keeps, the whole run keeps.
  Finishes-keeps :
      (P : World F → Type 0)
      → ((item : A) (w : World F) → P w → P (fn item w).1)
      → (g h : Group F A) → Finishes fn g h
      → P g.world
      → P h.world
  Finishes-keeps P keep g h (ran before after item g0 split) p =
      elim (Result-cases (fn item g.world).0) [
        | inl (u, fine) ↦ rw fine (keep item g.world p)
        | inr (e, stopped) ↦ rw stopped (keep item g.world p)
      ]
  Finishes-keeps P keep g h (cancelled before after item e g0 split) p = p

  pub Runs-keeps :
      (P : World F → Type 0)
      → ((item : A) (w : World F) → P w → P (fn item w).1)
      → (start g : Group F A) → Runs fn start g
      → P start.world
      → P g.world
  Runs-keeps P keep start g started p = p
  Runs-keeps P keep start g (next {g = h} before step) p =
      Finishes-keeps P keep h g step (Runs-keeps P keep start h before p)
