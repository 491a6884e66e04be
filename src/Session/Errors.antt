-- ===== src/Session/Errors.antt =====
-- herdr/errors.go: the errors that the session tells apart, as trees of what wraps what. The
-- sentinels are constructors, fmt.Errorf with two %w is `joined`, and an error of another package is
-- `foreign` with its text. errors.Is and errors.As look for a node of the tree.
use herdr_client.Prelude.{String, Bool, true, false, not, ◌&&◌, ◌||◌}

pub data Op : Type 0 where
  op_validate op_encode op_dial op_write op_read op_decode op_close : Op

-- Error, the response of the server
pub record ApiError : Type 0 where
  pub method : String
  pub code : String
  pub message : String

-- UnexpectedResultError
pub record UnexpectedResult : Type 0 where
  pub method : String
  pub want : String
  pub got : String

pub data Failure : Type 0 where
  stream_closed canceled deadline_exceeded : Failure
  api_error : ApiError → Failure
  unexpected_result : UnexpectedResult → Failure
  op_error : String → Op → Failure → Failure
  joined : Failure → Failure → Failure
  foreign : String → Failure

-- errors.Is with a sentinel, and errors.As with a type: a node that passes the test
unfoldable pub has_node : (Failure → Bool) → Failure → Bool
has_node test (op_error method op e) = test (op_error method op e) || has_node test e
has_node test (joined a b) = test (joined a b) || (has_node test a || has_node test b)
has_node test e = test e

abbrev pub is_closed_node : Failure → Bool
is_closed_node stream_closed = true
is_closed_node _ = false

abbrev pub is_canceled_node : Failure → Bool
is_canceled_node canceled = true
is_canceled_node _ = false

abbrev pub is_api_node : Failure → Bool
is_api_node (api_error e) = true
is_api_node _ = false

abbrev pub is_unexpected_node : Failure → Bool
is_unexpected_node (unexpected_result e) = true
is_unexpected_node _ = false

-- errors.Is(err, ErrStreamClosed)
abbrev pub is_stream_closed : Failure → Bool
is_stream_closed e = has_node is_closed_node e

-- herdr/session.go
unfoldable pub is_retryable : Failure → Bool
is_retryable e = not (has_node is_api_node e) && not (has_node is_unexpected_node e)
