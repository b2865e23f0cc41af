-- ===== src/Grpc/Results.antt =====
-- What the mappings and the results promise.
use mathlib.Core.List.{Perm, perm_middle}
use mathlib.Core.List.Perm
use pvz_service.Base.{ℕ, ◌≡◌, refl, inl, inr, true, false, List, [], ◌∷◌, ◌++◌, Bool-cases, All}
use pvz_service.Base.Text.{text_eq}
use pvz_service.Domain.Error.{Error}
use pvz_service.Cache.Lru.{clear}
use pvz_service.Grpc.{
  PackageType, bag, bag_tape, box, box_tape, is_named, map_package_type_to_string,
  map_string_to_package_type, split_named, tape, unspecified,
}

-- A package type mapped to its text and back is the same package type.
pub package_type-round_trip :
    (pt : PackageType) → map_string_to_package_type (map_package_type_to_string pt) ≡ pt
unfolding map_string_to_package_type map_package_type_to_string text_eq
package_type-round_trip unspecified = refl
package_type-round_trip bag = refl
package_type-round_trip box = refl
package_type-round_trip tape = refl
package_type-round_trip bag_tape = refl
package_type-round_trip box_tape = refl

-- The loop of processErrors splits the requested identifiers: its two lists together are a
-- permutation of them, and the errors list has exactly those that some error text names.
pub split_named-partition :
    (errs : List Error) (ids : List ℕ)
    → let r = split_named errs ids in
      Perm (r.errors ++ r.processed) ids
      × (All (λ id. is_named errs id ≡ true) r.errors
          × All (λ id. is_named errs id ≡ false) r.processed)
unfolding split_named
split_named-partition errs [] = (Perm.refl [], (tt, tt))
split_named-partition errs (id ∷ ids) =
    let r = split_named errs ids in
    let (perm, (named, others)) = split_named-partition errs ids in
    elim (Bool-cases (is_named errs id)) [
      | inl found ↦ rw found (Perm.cons id perm, ((found, named), others))
      | inr clear ↦ rw clear (
        Perm.trans (perm_middle r.errors r.processed) (Perm.cons id perm),
        (named, (clear, others)),
      )
    ]
