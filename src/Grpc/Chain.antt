-- ===== src/Grpc/Chain.antt =====
-- What a client of the server gets, through all the interceptors.
use pvz_service.Base.{
  ◌≡◌, refl, ◌≢◌, Bool, true, false, Option, none, some, List, [], arith, if◌then◌else◌,
}
use pvz_service.Base.Text.{Text}
use pvz_service.Domain.Error.{
  Error, as_domain_error, error_text, status, GrpcCode, invalid_argument,
}
use pvz_service.Db.World.{Result, err, ok}
use pvz_service.Grpc.Middleware.{
  Handler, Surroundings, error_mapping_interceptor, from_pool, limited, mapped, metrics_interceptor,
  panic_interceptor, pool_interceptor, rate_limiter_interceptor, recovered, status_code, timed_out,
  timeout_interceptor, unary_chain, validated, validation_interceptor, sender_or_unknown,
}
use pvz_service.Grpc.{map_error_to_grpc_status, status_error}
use pvz_service.WorkerPool.{returns, panics, JobResult, Reply}

-- A call ends without a panic, and an error that it ends with is a gRPC status.
abbrev pub IsStatus : {V : Type 0} → JobResult V → Type 0
IsStatus (returns v none) = Unit
IsStatus (returns v (some e)) =
    (text : Text) × (code : GrpcCode) × (message : Text) × (e ≡ status text code message)
IsStatus (panics r) = ⊥

-- The same of a handler that may panic.
abbrev IsMapped : {V : Type 0} → JobResult V → Type 0
IsMapped (returns v e) = IsStatus (returns v e)
IsMapped (panics r) = Unit

module _ {W V : Type 0} where
  recovered-IsStatus :
      (text : GrpcCode → Text → Text) (r : JobResult V × W)
      → IsMapped r.0
      → IsStatus (recovered text r).0
  unfolding status_error
  recovered-IsStatus text (returns v e, w) h = h
  recovered-IsStatus text (panics r, w) h = (_, _, _, refl)

  mapped-IsMapped :
      (env : Surroundings W) (r : JobResult V × W)
      → IsMapped
          (mapped
            (λ e. status_error env.status_text (map_error_to_grpc_status env.multierr_errors e))
            r).0
  unfolding status_error
  mapped-IsMapped env (returns v none, w) = tt
  mapped-IsMapped env (returns v (some e), w) = (_, _, _, refl)
  mapped-IsMapped env (panics r, w) = tt

  validated-IsMapped :
      (text : GrpcCode → Text → Text) (invalid : Option Text) (handler : Handler W V) (w : W)
      → ((w : W) → IsMapped (handler w).0)
      → IsMapped (validated text invalid handler w).0
  unfolding status_error
  validated-IsMapped text (some message) handler w h = (_, _, _, refl)
  validated-IsMapped text none handler w h = h w

  limited-IsMapped :
      (text : GrpcCode → Text → Text) (handler : Handler W V) (r : Result Bool × W)
      → ((w : W) → IsMapped (handler w).0)
      → IsMapped (limited text handler r).0
  unfolding status_error
  limited-IsMapped text handler (err e, w) h = (_, _, _, refl)
  limited-IsMapped text handler (ok true, w) h = (_, _, _, refl)
  limited-IsMapped text handler (ok false, w) h = h w

timed_out-IsMapped :
    {V : Type 0} (text : GrpcCode → Text → Text) (late : Bool) (r : JobResult V)
    → IsMapped r
    → IsMapped (if late then timed_out text r else r)
unfolding status_error
timed_out-IsMapped text false r h = h
timed_out-IsMapped text true (returns v none) h = (_, _, _, refl)
timed_out-IsMapped text true (returns v (some e)) h = h
timed_out-IsMapped text true (panics r) h = tt

foreign-InvalidArgument :
    (text : GrpcCode → Text → Text) (f : Error → List Error) (e : Error)
    → f e ≢ []
    → as_domain_error e ≡ none
    → status_error text (map_error_to_grpc_status f e)
      ≡ status (text invalid_argument (error_text e)) invalid_argument (error_text e)
unfolding map_error_to_grpc_status status_error
foreign-InvalidArgument text f e some_error foreign = ground arith

module _ {W V : Type 0} (env : Surroundings W) (submit : W → Reply V × W) where
  -- Whatever the limiter, the validation, the pool and the clock do, the chain of interceptors
  -- ends without a panic, and an error that reaches the client is a gRPC status.
  pub unary_chain-IsStatus : (w : W) → IsStatus (unary_chain env submit w).0
  unfolding unary_chain panic_interceptor rate_limiter_interceptor timeout_interceptor
      validation_interceptor error_mapping_interceptor
  unary_chain-IsStatus w = recovered-IsStatus _ _ (
      limited-IsMapped _ _ (env.limiter _ w) λ w1.
        timed_out-IsMapped _ _ _
          (validated-IsMapped _ env.invalid _ w1 λ w2. mapped-IsMapped env _))

  -- In a call that the limiter lets in and whose request is valid, an error that is none of the
  -- domain's, such as the context's on a deadline or the one that stands for a panic of the
  -- handler, reaches the client as InvalidArgument whether or not the deadline has passed, if
  -- multierr finds at least one error in every error, as its documentation says; and the metrics
  -- record it by its own code.
  pub foreign_error-InvalidArgument :
      (w w1 w2 : W) (reply : Reply V) (v : Option V) (e : Error)
      → ((other : Error) → env.multierr_errors other ≢ [])
      → env.limiter (sender_or_unknown env.sender) w ≡ (ok false, w1)
      → env.invalid ≡ none
      → submit w1 ≡ (reply, w2)
      → from_pool reply ≡ returns v (some e)
      → as_domain_error e ≡ none
      → unary_chain env submit w ≡ (
        returns v (
            some (
              status
                (env.status_text invalid_argument (error_text e))
                invalid_argument
                (error_text e))),
        env.record_duration (status_code (some e)) w2,
      )
  unfolding unary_chain panic_interceptor rate_limiter_interceptor timeout_interceptor
      validation_interceptor error_mapping_interceptor metrics_interceptor pool_interceptor
  foreign_error-InvalidArgument w w1 w2 reply v e documented let_in valid ran ended foreign =
      rw
        (
          let_in,
          valid,
          ran,
          ended,
          foreign-InvalidArgument env.status_text env.multierr_errors e (documented e) foreign,
        )
        (ground arith)
