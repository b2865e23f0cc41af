-- ===== src/Grpc/Middleware.antt =====
-- internal/adapter/grpc/mw: the interceptors around a unary handler, and their chain in
-- cmd/pvz/main.go. `W` is what the limiter, the metrics and the handler act on. The interceptors for
-- logging and tracing pass on what they get, and are left out.
use pvz_service.Base.{Bool, true, false, Option, none, some, List, ◌++◌, if◌then◌else◌}
use pvz_service.Base.Text.{Text, codes}
use pvz_service.Domain.Error.{
  Error, domain, error_text, plain, status, wrap, unknown, GrpcCode, deadline_exceeded, internal,
  invalid_argument, resource_exhausted,
}
use pvz_service.Db.World.{Result, err, ok}
use pvz_service.Grpc.{map_error_to_grpc_status, status_error}
use pvz_service.WorkerPool.{Reply, answered, crashed, gave_up, panics, returns, JobResult}

-- A handler: its two results, or a panic.
abbrev pub Handler : Type 0 → Type 0 → Type 0
Handler W V = W → JobResult V × W

-- `return nil, status.Error(code, message)`, with the text of such an error as a parameter.
abbrev refused_with : {V : Type 0} → (GrpcCode → Text → Text) → GrpcCode → Text → JobResult V
refused_with text code message =
    returns none (some (status_error text (record { code = code; message = message })))

-- The deferred function of `PanicInterceptor`: the results are not set yet when the handler panics.
abbrev pub recovered : {W V : Type 0} → (GrpcCode → Text → Text) → JobResult V × W → JobResult V × W
recovered text (returns v e, w) = (returns v e, w)
recovered text (panics r, w) = (refused_with text internal (codes "internal server error"), w)

-- `codes.OK`, which is `none`, or `status.Code(err)`.
unfoldable pub status_code : Option Error → Option GrpcCode
status_code none = none
status_code (some (status text code message)) = some code
status_code (some (domain e)) = some unknown
status_code (some (plain s)) = some unknown
status_code (some (wrap s e)) = status_code (some e)

-- What `TimeoutInterceptor` makes of a result when the deadline has passed.
abbrev pub timed_out : {V : Type 0} → (GrpcCode → Text → Text) → JobResult V → JobResult V
timed_out text (returns v none) = refused_with text deadline_exceeded (codes "service timeout")
timed_out text (returns v (some e)) = returns v (some e)
timed_out text (panics r) = panics r

-- What surrounds a call: the metadata, the limiter, the error of `ValidateAll` on the request,
-- whether the deadline has passed when the handler ends, `multierr.Errors`, the text of a status
-- error, and the metrics.
pub record Surroundings (W : Type 0) : Type 0 where
  pub sender : Option Text
  pub limiter : Text → W → Result Bool × W
  pub invalid : Option Text
  pub deadline_passed : W → Bool
  pub multierr_errors : Error → List Error
  pub status_text : GrpcCode → Text → Text
  pub record_duration : Option GrpcCode → W → W

abbrev pub sender_or_unknown : Option Text → Text
sender_or_unknown (some s) = s
sender_or_unknown none = codes "unknown"

-- What `PoolInterceptor` makes of what the pool gives it.
unfoldable pub from_pool : {V : Type 0} → Reply V → JobResult V
from_pool (answered r) = returns r.value r.error
from_pool (gave_up e) = returns none (some e)
from_pool crashed = panics (codes "send on closed channel")

module _ {W V : Type 0} where
  unfoldable pub panic_interceptor : Surroundings W → Handler W V → Handler W V
  panic_interceptor env handler w = recovered env.status_text (handler w)

  abbrev pub limited : (GrpcCode → Text → Text) → Handler W V → Result Bool × W → JobResult V × W
  limited text handler (err e, w) = (refused_with text internal (error_text e), w)
  limited text handler (ok true, w) =
      (refused_with text resource_exhausted (codes "rate limited"), w)
  limited text handler (ok false, w) = handler w

  unfoldable pub rate_limiter_interceptor : Surroundings W → Handler W V → Handler W V
  rate_limiter_interceptor env handler w =
      limited env.status_text handler (env.limiter (sender_or_unknown env.sender) w)

  unfoldable pub timeout_interceptor : Surroundings W → Handler W V → Handler W V
  timeout_interceptor env handler w =
      let (outcome, w') = handler w in
      (if env.deadline_passed w' then timed_out env.status_text outcome else outcome, w')

  abbrev pub validated : (GrpcCode → Text → Text) → Option Text → Handler W V → Handler W V
  validated text (some message) handler w =
      (refused_with text invalid_argument (codes "validation failed: " ++ message), w)
  validated text none handler w = handler w

  unfoldable pub validation_interceptor : Surroundings W → Handler W V → Handler W V
  validation_interceptor env handler = validated env.status_text env.invalid handler

  -- The status of an error, from `MapErrorToGRPCStatus`.
  abbrev pub mapped : (Error → Error) → JobResult V × W → JobResult V × W
  mapped f (returns v none, w) = (returns v none, w)
  mapped f (returns v (some e), w) = (returns v (some (f e)), w)
  mapped f (panics r, w) = (panics r, w)

  unfoldable pub error_mapping_interceptor : Surroundings W → Handler W V → Handler W V
  error_mapping_interceptor env handler w =
      mapped (λ e. status_error env.status_text (map_error_to_grpc_status env.multierr_errors e))
        (handler w)

  abbrev pub measured : (Option GrpcCode → W → W) → JobResult V × W → JobResult V × W
  measured rec (returns v e, w) = (returns v e, rec (status_code e) w)
  measured rec (panics r, w) = (panics r, w)

  -- The duration and the method's name go into the record too.
  unfoldable pub metrics_interceptor : Surroundings W → Handler W V → Handler W V
  metrics_interceptor env handler w = measured env.record_duration (handler w)

  unfoldable pub pool_interceptor : (W → Reply V × W) → Handler W V
  pool_interceptor submit w = let (reply, w') = submit w in (from_pool reply, w')

  -- `grpc.ChainUnaryInterceptor(…)` of cmd/pvz/main.go
  unfoldable pub unary_chain : Surroundings W → (W → Reply V × W) → Handler W V
  unary_chain env submit = panic_interceptor env (
      rate_limiter_interceptor env (
        timeout_interceptor env (
          validation_interceptor env
            (error_mapping_interceptor env (metrics_interceptor env (pool_interceptor submit))))))
