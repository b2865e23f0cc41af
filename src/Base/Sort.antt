-- ===== src/Base/Sort.antt =====
-- Sorting by a key, the greatest first: `ORDER BY … DESC`, and `sort.Slice` with `After`.
use Prim.Native.Nat.{ℕ, ◌≤◌}
use mathlib.Core.List.{List, [], ◌∷◌, Perm}
use mathlib.Core.List.Perm
use mathlib.Core.Logic.{inl, inr}
use native.Mathlib.Omega.{arith}
use pvz_service.Base.Lists.{All, All-mono}
use pvz_service.Base.Tests.{ltb, if◌then◌else◌, Bool-cases}

module _ {A : Type 0} (key : A → ℕ) where
  insert_desc : A → List A → List A
  insert_desc x [] = x ∷ []
  insert_desc x (y ∷ l) =
      let rest = insert_desc x l in if ltb (key x) (key y) then y ∷ rest else x ∷ y ∷ l

  -- Elements with one key keep their order; the code's sorts may return them in any order.
  unfoldable pub sort_desc : List A → List A
  unfolding insert_desc
  sort_desc [] = []
  sort_desc (x ∷ l) = insert_desc x (sort_desc l)

  -- No element is below a later one.
  abbrev pub IsDescending : List A → Type 0
  IsDescending [] = Unit
  IsDescending (x ∷ l) = All (λ y. key y ≤ key x) l × IsDescending l

  All-insert : (P : A → Type 0) (x : A) (l : List A) → P x → All P l → All P (insert_desc x l)
  unfolding insert_desc
  All-insert P x [] px h = (px, tt)
  All-insert P x (y ∷ l) px h = elim (Bool-cases (ltb (key x) (key y))) [
    | inl below ↦ rw below (h.0, All-insert P x l px h.1)
    | inr above ↦ rw above (px, h)
  ]

  insert-IsDescending : (x : A) (l : List A) → IsDescending l → IsDescending (insert_desc x l)
  unfolding insert_desc
  insert-IsDescending x [] h = (tt, tt)
  insert-IsDescending x (y ∷ l) h = elim (Bool-cases (ltb (key x) (key y))) [
    | inl below ↦
        rw below
          (All-insert (λ z. key z ≤ key y) x l (ground arith) h.0, insert-IsDescending x l h.1)
    | inr above ↦
        let top : key y ≤ key x = ground arith in
        rw above
          ((top, All-mono (λ z. key z ≤ key y) (λ z. key z ≤ key x) (λ z hz. omega arith) l h.0), h)
  ]

  pub sort_desc-IsDescending : (l : List A) → IsDescending (sort_desc l)
  unfolding sort_desc
  sort_desc-IsDescending [] = tt
  sort_desc-IsDescending (x ∷ l) = insert-IsDescending x (sort_desc l) (sort_desc-IsDescending l)

  insert-perm : (x : A) (l : List A) → Perm (insert_desc x l) (x ∷ l)
  unfolding insert_desc
  insert-perm x [] = Perm.refl (x ∷ [])
  insert-perm x (y ∷ l) = elim (Bool-cases (ltb (key x) (key y))) [
    | inl below ↦ rw below (Perm.trans (Perm.cons y (insert-perm x l)) (Perm.swap x y l))
    | inr above ↦ rw above (Perm.refl (x ∷ y ∷ l))
  ]

  pub sort_desc-perm : (l : List A) → Perm (sort_desc l) l
  unfolding sort_desc
  sort_desc-perm [] = Perm.refl []
  sort_desc-perm (x ∷ l) = Perm.trans (insert-perm x (sort_desc l)) (Perm.cons x (sort_desc-perm l))

  pub All-sort_desc : (P : A → Type 0) (l : List A) → All P l → All P (sort_desc l)
  unfolding sort_desc
  All-sort_desc P [] h = tt
  All-sort_desc P (x ∷ l) h = All-insert P x (sort_desc l) h.0 (All-sort_desc P l h.1)
