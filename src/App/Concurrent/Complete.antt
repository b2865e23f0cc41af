-- ===== src/App/Concurrent/Complete.antt =====
-- What every item of a call without an error has: nothing that a goroutine did is undone by another.
use mathlib.Core.Path.{subst}
use pvz_service.Base.{
  ℕ, ◌<◌, ◌≡◌, refl, sym, ◌⊎◌, inl, inr, none, List, [], ◌∷◌, ◌++◌, arith, ◌==◌, ==_iff, Bool-cases,
  hits, total, total-append,
}
use pvz_service.Db.World.{Exec, Result, World, err, ok}
use pvz_service.App.Concurrent.{
  keep_first_some, Finishes, Group, Runs, cancelled, ended_with, launched, next, ran, started,
}
use pvz_service.App.Concurrent.Counts.{Runs-keeps}

module _ {F : Type 0} (fn : ℕ → Exec F (Unit {0})) (P : World F → Type 0) (Q : ℕ → World F → Type 0)
    (keeps : (id : ℕ) (w : World F) → P w → P (fn id w).1)
    (makes : (id : ℕ) (w : World F) → P w → (fn id w).0 ≡ ok tt → Q id (fn id w).1)
    (stays : (k id : ℕ) (w : World F) → P w → Q k w → Q k (fn id w).1) where
  -- Every item is still to end, or has what it is to have.
  abbrev Accounted : List ℕ → Group F ℕ → Type 0
  Accounted items g =
      g.first_error ≡ none
      → (k : ℕ) → 0 < total (hits k) items
      → (0 < total (hits k) g.left) ⊎ Q k g.world

  left_or_ended :
      (k id : ℕ) (before after left : List ℕ)
      → left ≡ before ++ id ∷ after
      → 0 < total (hits k) left
      → (k ≡ id) ⊎ (0 < total (hits k) (before ++ after))
  left_or_ended k id before after left e h = elim (Bool-cases (k == id)) [
    | inl ended ↦ inl ((==_iff k id).0 ended)
    | inr other ↦ inr (
        ground
          (arith, total-append (hits k) before (id ∷ after), total-append (hits k) before after))
  ]

  ended-Accounted :
      (items before after : List ℕ) (id : ℕ) (g : Group F ℕ)
      → g.left ≡ before ++ id ∷ after
      → P g.world
      → Accounted items g
      → (r : Result (Unit {0})) (v : World F)
      → (r ≡ ok tt → ((k : ℕ) → (k ≡ id) ⊎ Q k g.world → Q k v))
      → Accounted items (ended_with g (before ++ after) (r, v))
  ended-Accounted items before after id g e p acc (err x) v f = λ no_error. absurd (ground arith)
  ended-Accounted items before after id g e p acc (ok u) v f = λ no_error k asked.
      elim (acc no_error k asked) [
        | inr there ↦ inr (f refl k (inr there))
        | inl left ↦ elim (left_or_ended k id before after g.left e left) [
          | inl it ↦ inr (f refl k (inl it))
          | inr other ↦ inl other
        ]
      ]

  Finishes-Accounted :
      (items : List ℕ) (g h : Group F ℕ)
      → Finishes fn g h
      → P g.world
      → Accounted items g
      → Accounted items h
  Finishes-Accounted items g h (cancelled before after id e g0 split) p acc =
      λ no_error. absurd (keep_first_some g.first_error e no_error)
  Finishes-Accounted items g h (ran before after id g0 split) p acc =
      ended-Accounted items before after id g split p acc (fn id g.world).0 (fn id g.world).1
        (λ fine k which. elim which [
          | inl it ↦ subst (λ i. Q i (fn id g.world).1) (sym it) (makes id g.world p fine)
          | inr there ↦ stays k id g.world p there
        ])

  Runs-Accounted :
      (items : List ℕ) (w : World F) (g : Group F ℕ)
      → P w
      → Runs fn (launched items w) g
      → Accounted items g
  Runs-Accounted items w g p started = λ no_error k asked. inl asked
  Runs-Accounted items w g p (next {g = h} before step) =
      Finishes-Accounted items h g step (Runs-keeps fn P keeps (launched items w) h before p)
        (Runs-Accounted items w h p before)

  -- When all goroutines have ended without an error, every item of the call has what its function
  -- gives it.
  pub Runs-complete :
      (items : List ℕ) (w : World F) (g : Group F ℕ)
      → P w
      → Runs fn (launched items w) g
      → g.left ≡ []
      → g.first_error ≡ none
      → (k : ℕ) → 0 < total (hits k) items
      → Q k g.world
  Runs-complete items w g p runs all_ended no_error k asked =
      elim (Runs-Accounted items w g p runs no_error k asked) [
        | inr there ↦ there
        | inl left ↦ absurd (ground arith)
      ]
