-- ===== src/Types/Delegated.antt =====
-- src/core/types.rs and src/ws/delegated.rs: requests that are delegated to a connection, and what
-- is told of them. Deadlines are instants in nanoseconds.
use Prim.Native.String.{String}
use shared_ws.Prelude.{ℕ, ◌+◌, Bool, Option}
use shared_ws.Frame.{WsFrame}
use shared_ws.Types.Basic.{Result}

pub record WsRateLimitFeedback : Type 0 where
  pub retry_after : Option ℕ
  pub hint : Option String

pub record WsRequestMatch : Type 0 where
  pub request_id : ℕ
  pub result : Result String (Unit {0})
  pub rate_limit_feedback : Option WsRateLimitFeedback

pub data WsConfirmMode : Type 0 where
  sent confirmed : WsConfirmMode

pub record WsDelegatedRequest : Type 0 where
  pub request_id : ℕ
  pub fingerprint : ℕ
  pub frame : WsFrame
  pub confirm_deadline : ℕ
  pub confirm_mode : WsConfirmMode

-- `WsDelegatedRequest::sent` and `WsDelegatedRequest::confirmed`
unfoldable pub sent_request : ℕ → ℕ → WsFrame → ℕ → WsDelegatedRequest
sent_request request_id fingerprint frame confirm_deadline = record {
  request_id = request_id;
  fingerprint = fingerprint;
  frame = frame;
  confirm_deadline = confirm_deadline;
  confirm_mode = sent;
}

unfoldable pub confirmed_request : ℕ → ℕ → WsFrame → ℕ → WsDelegatedRequest
confirmed_request request_id fingerprint frame confirm_deadline = record {
  request_id = request_id;
  fingerprint = fingerprint;
  frame = frame;
  confirm_deadline = confirm_deadline;
  confirm_mode = confirmed;
}

pub record WsDelegatedOk : Type 0 where
  pub request_id : ℕ
  pub confirmed : Bool
  pub rate_limit_feedback : Option WsRateLimitFeedback

-- The ids are those of the requests.
pub data WsDelegatedError : Type 0 where
  not_delivered unconfirmed : ℕ → String → WsDelegatedError
  payload_mismatch : ℕ → WsDelegatedError
  too_many_pending : ℕ → WsDelegatedError
  endpoint_rejected : ℕ → String → Option WsRateLimitFeedback → WsDelegatedError

-- `WsDelegatedTimeout`, whose `after` reads the clock.
pub record WsDelegatedTimeout : Type 0 where
  pub deadline : ℕ

unfoldable pub after : ℕ → ℕ → WsDelegatedTimeout
after now d = record { deadline = now + d }
