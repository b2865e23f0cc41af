-- ===== src/Cache/Lru/Keys.antt =====
-- The map from keys to addresses: what deletion hides, and how it counts.
use pvz_service.Base.{
  ℕ, ◌+◌, ◌≡◌, refl, ◌≢◌, inl, inr, none, some, List, [], ◌∷◌, arith, if◌then◌else◌, Bool-cases, Eq,
  length, All,
}
use pvz_service.Cache.Lru.{map_get, map_delete}

module _ {K : Type 0} ⦃e : Eq K⦄ where
  abbrev pub UniqueMap : List (K × ℕ) → Type 0
  UniqueMap [] = Unit
  UniqueMap (x ∷ m) = All (λ y. y.0 ≢ x.0) m × UniqueMap m

  pub map_get-cons :
      (j k : K) (a : ℕ) (m : List (K × ℕ))
      → map_get j ((k, a) ∷ m) ≡ (if e.beq k j then some a else map_get j m)
  unfolding map_get
  map_get-cons j k a m = refl

  pub map_get-map_delete :
      (j k : K) (m : List (K × ℕ))
      → map_get j (map_delete k m) ≡ (if e.beq k j then none else map_get j m)
  unfolding map_get map_delete
  map_get-map_delete j k [] = ground arith
  map_get-map_delete j k ((i, a) ∷ m) =
      ground (arith, map_get-map_delete j k m, e.beq_iff i k, e.beq_iff k j, e.beq_iff i j)

  map_delete_absent : (k : K) (m : List (K × ℕ)) → All (λ y. y.0 ≢ k) m → map_delete k m ≡ m
  unfolding map_delete
  map_delete_absent k [] h = refl
  map_delete_absent k (x ∷ m) h = ground (arith, map_delete_absent k m h.1, e.beq_iff x.0 k)

  pub map_delete-none : (k : K) (m : List (K × ℕ)) → map_get k m ≡ none → map_delete k m ≡ m
  unfolding map_delete map_get
  map_delete-none k [] h = refl
  map_delete-none k (x ∷ m) h = ground (arith, map_delete-none k m, e.beq_iff x.0 k)

  All-map_delete :
      (P : K × ℕ → Type 0) (k : K) (m : List (K × ℕ)) → All P m → All P (map_delete k m)
  unfolding map_delete
  All-map_delete P k [] h = tt
  All-map_delete P k (x ∷ m) h = elim (Bool-cases (e.beq x.0 k)) [
    | inl same ↦ rw same (All-map_delete P k m h.1)
    | inr other ↦ rw other (h.0, All-map_delete P k m h.1)
  ]

  pub map_delete-All-ne : (k : K) (m : List (K × ℕ)) → All (λ y. y.0 ≢ k) (map_delete k m)
  unfolding map_delete
  map_delete-All-ne k [] = tt
  map_delete-All-ne k (x ∷ m) = elim (Bool-cases (e.beq x.0 k)) [
    | inl same ↦ rw same (map_delete-All-ne k m)
    | inr other ↦ rw other (λ equal. cc (other, (e.beq_iff x.0 k).1 equal), map_delete-All-ne k m)
  ]

  pub map_delete-UniqueMap : (k : K) (m : List (K × ℕ)) → UniqueMap m → UniqueMap (map_delete k m)
  unfolding map_delete
  map_delete-UniqueMap k [] h = tt
  map_delete-UniqueMap k (x ∷ m) h = elim (Bool-cases (e.beq x.0 k)) [
    | inl same ↦ rw same (map_delete-UniqueMap k m h.1)
    | inr other ↦ rw other (All-map_delete (λ y. y.0 ≢ x.0) k m h.0, map_delete-UniqueMap k m h.1)
  ]

  pub length-map_delete :
      (k : K) (m : List (K × ℕ)) (a : ℕ)
      → UniqueMap m
      → map_get k m ≡ some a
      → length (map_delete k m) + 1 ≡ length m
  unfolding map_delete map_get
  length-map_delete k [] a u h = cc
  length-map_delete k (x ∷ m) a u h = elim (Bool-cases (e.beq x.0 k)) [
    | inl same ↦
        let key : x.0 ≡ k = (e.beq_iff x.0 k).0 same in
        rw (same, map_delete_absent k m (rw key at u.0)) (omega arith)
    | inr other ↦ rw other (omega (arith, length-map_delete k m a u.1 (rw other at h)))
  ]
