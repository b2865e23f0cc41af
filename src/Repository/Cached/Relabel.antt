-- ===== src/Repository/Cached/Relabel.antt =====
-- A reading method inside a caller that labels its error, or computes with its value.
use mathlib.Core.Path.{subst}
use pvz_service.Base.{refl}
use pvz_service.Base.Text.{Text}
use pvz_service.Db.World.{Result, World, continue, err, ok, ok_injective, pure, relabel}
use pvz_service.Repository.Cached.Faithful.{IsFaithful}

module _ {F : Type 0} where
  pub relabel-IsFaithful :
      {V : Type 0} (Right : V → Type 0) (label : Text) (w : World F) (out : Result V × World F)
      → IsFaithful Right w out
      → IsFaithful Right w (relabel label out)
  relabel-IsFaithful Right label w (ok v, w1) f = f
  relabel-IsFaithful Right label w (err e, w1) f = record {
    same_db = f.same_db;
    same_pending = f.same_pending;
    coherent = f.coherent;
    right = λ v h. absurd (cc);
  }

  pub map-IsFaithful :
      {V U : Type 0} (Right : V → Type 0) (Good : U → Type 0) (f : V → U) (w : World F)
      (out : Result V × World F)
      → ((v : V) → Right v → Good (f v))
      → IsFaithful Right w out
      → IsFaithful Good w (continue out (λ v. pure (f v)))
  map-IsFaithful Right Good f w (ok v, w1) good r = record {
    same_db = r.same_db;
    same_pending = r.same_pending;
    coherent = r.coherent;
    right = λ u h. subst Good (ok_injective h) (good v (r.right v refl));
  }
  map-IsFaithful Right Good f w (err e, w1) good r = record {
    same_db = r.same_db;
    same_pending = r.same_pending;
    coherent = r.coherent;
    right = λ v h. absurd (cc);
  }
