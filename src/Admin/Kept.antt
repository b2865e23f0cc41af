-- ===== src/Admin/Kept.antt =====
-- What the requests of internal/infra/admin.go leave as it was.
use mathlib.Core.Path.{subst}
use mathlib.Core.List.{append-nil, append_assoc}
use pvz_service.Base.{
  ℕ, ◌≤◌, ◌<◌, ◌≡◌, refl, sym, ap, ◌∙◌, inl, inr, Bool, true, false, List, [], ◌∷◌, ◌++◌, arith,
  leb, Bool-cases, All,
}
use pvz_service.Base.Text.{Text, text_eq_instance, codes, text_eq}
use pvz_service.Domain.Platform.{second}
use pvz_service.Db.World.{World, time_now}
use pvz_service.Repository.Cached
use pvz_service.Repository.Cached.Coherent.{Coherent}
use pvz_service.Repository.Cached.Upkeep.{cleanup_expired-Coherent, clear_cache-Coherent}
use pvz_service.Admin.{
  Response, Request, Site, atoi, clamped, guarded, handle, handle_cache_cleanup, handle_cache_clear,
  handle_cache_stats, handle_resize, magnitude, max_int, route_cleanup, route_clear, route_resize,
  route_stats, Route, answer_with, body_stats, body_text, on_route,
}
use pvz_service.Cli.Ids.{Parsed, bad_syntax, out_of_range, parse_digits, value}

All-append : {A : Type 0} (P : A → Type 0) (l m : List A) → All P l → All P m → All P (l ++ m)
All-append P [] m h k = k
All-append P (x ∷ l) m h k = (h.0, All-append P l m h.1 k)

clamped-max_int : (r : Parsed) → clamped r ≤ max_int
clamped-max_int (value n) = ground arith
clamped-max_int bad_syntax = omega arith
clamped-max_int out_of_range = omega arith

magnitude-max_int : (s : Text) → magnitude s ≤ max_int
magnitude-max_int [] = omega arith
magnitude-max_int (c ∷ s) = clamped-max_int (parse_digits 0 (c ∷ s))

atoi-max_int : (s : Text) → atoi s ≤ max_int
unfolding atoi
atoi-max_int [] = omega arith
atoi-max_int (c ∷ s) = ground (arith, magnitude-max_int s, magnitude-max_int (c ∷ s))

module _ {F : Type 0} where
  -- The tables, the pending writes and the coherence of the caches stay, and whatever numbers the pool
  -- is resized to are positive and fit an `int`.
  pub record IsKept (before after : Site F) : Type 0 where
    pub same_db : after.world.db ≡ before.world.db
    pub same_pending : after.world.pending ≡ before.world.pending
    pub coherent : Coherent after.world.caches after.world.db
    pub resizes :
        (sizes : List ℕ) × (after.resized ≡ before.resized ++ sizes)
        × All (λ n. (0 < n) × (n ≤ max_int)) sizes

  unchanged : (s : Site F) → Coherent s.world.caches s.world.db → IsKept s s
  unchanged s c = record {
    same_db = refl;
    same_pending = refl;
    coherent = c;
    resizes = ([], sym (append-nil s.resized), tt);
  }

  handle_resize-IsKept :
      (r : Request) (s : Site F)
      → Coherent s.world.caches s.world.db
      → IsKept s (handle_resize r s).1
  unfolding handle_resize
  handle_resize-IsKept r s c = elim (Bool-cases (text_eq r.method (codes "POST"))) [
    | inr wrong ↦ rw wrong (unchanged s c)
    | inl post ↦ rw post (elim (Bool-cases (leb (atoi r.workers) 0)) [
      | inl none_asked ↦ rw none_asked (unchanged s c)
      | inr some_asked ↦ rw some_asked (record {
        same_db = refl;
        same_pending = refl;
        coherent = c;
        resizes = (atoi r.workers ∷ [], refl, ((ground arith, atoi-max_int r.workers), tt));
      })
    ])
  ]

  guarded-IsKept :
      (method : Text) (has_cache : Bool) (r : Request) (s : Site F) (answer : Response × Site F)
      → Coherent s.world.caches s.world.db
      → IsKept s answer.1
      → IsKept s (guarded method has_cache r s answer).1
  guarded-IsKept method true r s answer c h = elim (Bool-cases (text_eq r.method method)) [
    | inl right ↦ rw right h
    | inr wrong ↦ rw wrong (unchanged s c)
  ]
  guarded-IsKept method false r s answer c h = elim (Bool-cases (text_eq r.method method)) [
    | inl right ↦ rw right (unchanged s c)
    | inr wrong ↦ rw wrong (unchanged s c)
  ]

  -- An action that keeps the tables and the caches.
  in_world-IsKept :
      (s : Site F) (w : World F)
      → w.db ≡ s.world.db
      → w.pending ≡ s.world.pending
      → Coherent w.caches s.world.db
      → IsKept s (record s { world = w })
  in_world-IsKept s w same_db same_pending c = record {
    same_db = same_db;
    same_pending = same_pending;
    coherent = subst (Coherent w.caches) (sym same_db) c;
    resizes = ([], sym (append-nil s.resized), tt);
  }

  on_route-IsKept :
      (route : Route) (has_cache : Bool) (r : Request) (s : Site F)
      → Coherent s.world.caches s.world.db
      → IsKept s (on_route route has_cache r s).1
  unfolding on_route handle_cache_stats handle_cache_clear handle_cache_cleanup
      Cached.get_cache_stats Cached.clear_cache Cached.cleanup_expired time_now
  on_route-IsKept route_resize has_cache r s c = handle_resize-IsKept r s c
  on_route-IsKept route_stats has_cache r s c =
      guarded-IsKept (codes "GET") has_cache r s
        (answer_with body_stats (Cached.get_cache_stats s.world) s) c
        (in_world-IsKept s (Cached.get_cache_stats s.world).1 refl refl c)
  on_route-IsKept route_clear has_cache r s c =
      guarded-IsKept (codes "POST") has_cache r s
        (answer_with (λ _. body_text (codes "cache cleared")) (Cached.clear_cache s.world) s) c
        (in_world-IsKept s (Cached.clear_cache s.world).1 refl refl
          (clear_cache-Coherent s.world c))
  on_route-IsKept route_cleanup has_cache r s c =
      guarded-IsKept (codes "POST") has_cache r s
        (answer_with (λ _. body_text (codes "expired cache entries cleaned"))
          (Cached.cleanup_expired s.world) s)
        c
        (in_world-IsKept s (Cached.cleanup_expired s.world).1 refl refl
          (cleanup_expired-Coherent s.world c))

  handle-IsKept :
      (has_cache : Bool) (r : Request) (s : Site F)
      → Coherent s.world.caches s.world.db
      → IsKept s (handle has_cache r s).1
  unfolding handle
  handle-IsKept has_cache r s c = on_route-IsKept r.route has_cache r s c

  -- Requests one after the other.
  pub serve_all : Bool → List Request → Site F → Site F
  serve_all has_cache [] s = s
  serve_all has_cache (r ∷ requests) s = serve_all has_cache requests (handle has_cache r s).1

  IsKept-trans : (s t u : Site F) → IsKept s t → IsKept t u → IsKept s u
  IsKept-trans s t u h k =
      let (first, split_first, good_first) = h.resizes in
      let (second, split_second, good_second) = k.resizes in
      record {
        same_db = k.same_db ∙ h.same_db;
        same_pending = k.same_pending ∙ h.same_pending;
        coherent = k.coherent;
        resizes = (
          first ++ second,
          split_second ∙ (ap (λ l. l ++ second) split_first ∙ append_assoc s.resized first second),
          All-append _ first second good_first good_second,
        );
      }

  -- If the caches fit the tables, then after any requests to the admin server they still do, no
  -- table and no pending write has changed, and every number that the pool was resized to is
  -- positive and fits an int.
  pub serve_all-IsKept :
      (has_cache : Bool) (requests : List Request) (s : Site F)
      → Coherent s.world.caches s.world.db
      → IsKept s (serve_all has_cache requests s)
  unfolding serve_all
  serve_all-IsKept has_cache [] s c = unchanged s c
  serve_all-IsKept has_cache (r ∷ requests) s c =
      let here = handle-IsKept has_cache r s c in
      IsKept-trans s (handle has_cache r s).1
        (serve_all has_cache requests (handle has_cache r s).1) here
        (serve_all-IsKept has_cache requests (handle has_cache r s).1 here.coherent)
