-- ===== src/Admin.antt =====
-- The handlers of internal/infra/admin.go: the worker pool is resized, and the caches are counted,
-- emptied and swept. `http.Error` puts a line break behind its text.
pub mod Kept
use pvz_service.Base.{ℕ, ◌-◌, ◌^◌, Bool, not, List, [], ◌∷◌, ◌++◌, ltb, leb, ◌==◌, if◌then◌else◌}
use pvz_service.Base.Text.{Text, codes, text_eq}
use pvz_service.Db.World.{Result, World, err, ok}
use pvz_service.Repository.Cached
use pvz_service.Cli.Ids.{Parsed, bad_syntax, out_of_range, parse_digits, value}

pub data Route : Type 0 where
  route_resize route_stats route_clear route_cleanup : Route

-- A request: its method, and the parameter `workers` of its query.
pub record Request : Type 0 where
  pub route : Route
  pub method : Text
  pub workers : Text

pub data Body : Type 0 where
  body_text : Text → Body
  body_stats : List (Text × ℕ) → Body

pub record Response : Type 0 where
  pub status : ℕ
  pub body : Body

-- The world of the caches, and the numbers that `pool.Resize` was called with, in order.
pub record Site (F : Type 0) : Type 0 where
  pub world : World F
  pub resized : List ℕ

abbrev pub http_error : Text → ℕ → Response
http_error message status = record { status = status; body = body_text (message ++ 10 ∷ []) }

abbrev pub http_ok : Body → Response
http_ok body = record { status = 200; body = body }

-- The largest `int`.
abbrev pub max_int : ℕ
max_int = 2 ^ 63 - 1

abbrev pub clamped : Parsed → ℕ
clamped (value n) = if ltb max_int n then max_int else n
clamped bad_syntax = 0
clamped out_of_range = max_int

abbrev pub magnitude : Text → ℕ
magnitude [] = 0
magnitude (c ∷ s) = clamped (parse_digits 0 (c ∷ s))

-- The number that `strconv.Atoi` returns with or without an error, and 0 for a negative one, which
-- the handler treats alike.
unfoldable pub atoi : Text → ℕ
unfolding parse_digits
atoi [] = 0
atoi (c ∷ s) = if c == b'-' then 0 else if c == b'+' then magnitude s else magnitude (c ∷ s)

module _ {F : Type 0} where
  unfoldable pub handle_resize : Request → Site F → Response × Site F
  unfolding atoi
  handle_resize r s =
      let n = atoi r.workers in
      if not (text_eq r.method (codes "POST"))
      then (http_error (codes "use POST") 405, s)
      else if leb n 0
      then (http_error (codes "workers must be > 0") 400, s)
      else (http_ok (body_text (codes "ok")), record s { resized = s.resized ++ n ∷ [] })

  -- An action on the caches, and the answer to it.
  abbrev pub answer_with :
      {A : Type 0} → (A → Body) → Result A × World F → Site F → Response × Site F
  answer_with body (ok a, w) s = (http_ok (body a), record s { world = w })
  answer_with body (err e, w) s = (http_error (codes "encoding error") 500, record s { world = w })

  -- `has_cache` says whether the server was given a cache manager.
  abbrev pub guarded : Text → Bool → Request → Site F → Response × Site F → Response × Site F
  guarded method has_cache r s answer =
      if not (text_eq r.method method)
      then (http_error (codes "use " ++ method) 405, s)
      else if not has_cache
      then (http_error (codes "cache not available") 503, s)
      else answer

  unfoldable pub handle_cache_stats : Bool → Request → Site F → Response × Site F
  unfolding Cached.get_cache_stats
  handle_cache_stats has_cache r s =
      guarded (codes "GET") has_cache r s
        (answer_with body_stats (Cached.get_cache_stats s.world) s)

  unfoldable pub handle_cache_clear : Bool → Request → Site F → Response × Site F
  unfolding Cached.clear_cache
  handle_cache_clear has_cache r s =
      guarded (codes "POST") has_cache r s
        (answer_with (λ _. body_text (codes "cache cleared")) (Cached.clear_cache s.world) s)

  unfoldable pub handle_cache_cleanup : Bool → Request → Site F → Response × Site F
  unfolding Cached.cleanup_expired
  handle_cache_cleanup has_cache r s = guarded (codes "POST") has_cache r s (
      answer_with (λ _. body_text (codes "expired cache entries cleaned"))
        (Cached.cleanup_expired s.world) s)

  unfoldable pub on_route : Route → Bool → Request → Site F → Response × Site F
  unfolding handle_resize handle_cache_stats handle_cache_clear handle_cache_cleanup
  on_route route_resize has_cache r s = handle_resize r s
  on_route route_stats has_cache r s = handle_cache_stats has_cache r s
  on_route route_clear has_cache r s = handle_cache_clear has_cache r s
  on_route route_cleanup has_cache r s = handle_cache_cleanup has_cache r s

  -- The multiplexer that `NewAdmin` sets up.
  unfoldable pub handle : Bool → Request → Site F → Response × Site F
  unfolding on_route
  handle has_cache r s = on_route r.route has_cache r s
