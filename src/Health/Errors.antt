-- ===== src/Health/Errors.antt =====
-- What the health monitor keeps of the errors of a connection.
use shared_ws.Prelude.{
  ℕ, ◌+◌, ◌≤◌, ◌≡◌, refl, ap, ◌∙◌, Option, List, [], ◌∷◌, min, length, arith, u64_max,
}
use shared_ws.Frame.{Bytes}
use shared_ws.Types.Basic.{ℤ}
use shared_ws.Circular.{CircularBuffer, new as empty_buffer, clear}
use shared_ws.Circular.History.{push_all, latest, push_all-new}
use shared_ws.Health.{
  Histogram, WsHealthMonitor, ServerErrorRec, InternalErrorRec, truncate_string,
  record_server_error, record_internal_error, reset_connection, max_recent_errors,
}

-- An error at its instant.
pub data ErrorEvent : Type 0 where
  server : ℕ → Option ℤ → Bytes → ErrorEvent
  internal : ℕ → Bytes → Bytes → ErrorEvent

abbrev pub server_entries : List ErrorEvent → List ServerErrorRec
server_entries [] = []
server_entries (server now code text ∷ es) =
    record { timestamp = now; code = code; text = truncate_string text } ∷ server_entries es
server_entries (internal _ _ _ ∷ es) = server_entries es

abbrev pub internal_entries : List ErrorEvent → List InternalErrorRec
internal_entries [] = []
internal_entries (internal now context text ∷ es) =
    record { timestamp = now; context = truncate_string context; text = truncate_string text }
    ∷ internal_entries es
internal_entries (server _ _ _ ∷ es) = internal_entries es

module _ {H : Type 0} where
  abbrev pub record_errors : WsHealthMonitor H → List ErrorEvent → WsHealthMonitor H
  record_errors m [] = m
  record_errors m (server now code text ∷ es) =
      record_errors (record_server_error m code text now) es
  record_errors m (internal now context text ∷ es) =
      record_errors (record_internal_error m context text now) es

  server_errors_lem :
      (m : WsHealthMonitor H) (es : List ErrorEvent)
      → (record_errors m es).server_errors ≡ push_all m.server_errors (server_entries es)
  unfolding record_server_error record_internal_error
  server_errors_lem m [] = refl
  server_errors_lem m (server now code text ∷ es) =
      server_errors_lem (record_server_error m code text now) es
  server_errors_lem m (internal now context text ∷ es) =
      server_errors_lem (record_internal_error m context text now) es

  internal_errors_lem :
      (m : WsHealthMonitor H) (es : List ErrorEvent)
      → (record_errors m es).internal_errors ≡ push_all m.internal_errors (internal_entries es)
  unfolding record_server_error record_internal_error
  internal_errors_lem m [] = refl
  internal_errors_lem m (server now code text ∷ es) =
      internal_errors_lem (record_server_error m code text now) es
  internal_errors_lem m (internal now context text ∷ es) =
      internal_errors_lem (record_internal_error m context text now) es

  error_count_lem :
      (m : WsHealthMonitor H) (es : List ErrorEvent)
      → m.error_count ≤ u64_max
      → (record_errors m es).error_count ≡ min u64_max (m.error_count + length es)
  unfolding record_server_error record_internal_error
  error_count_lem m [] h = omega arith
  error_count_lem m (server now code text ∷ es) h =
      omega (arith, error_count_lem (record_server_error m code text now) es (omega arith))
  error_count_lem m (internal now context text ∷ es) h =
      omega (arith, error_count_lem (record_internal_error m context text now) es (omega arith))

push_all-clear :
    {A : Type 0} (b : CircularBuffer A) (xs : List A)
    → b.capacity ≡ max_recent_errors
    → push_all (clear b) xs
      ≡ record { buffer = latest max_recent_errors xs; capacity = max_recent_errors }
unfolding clear empty_buffer
push_all-clear b xs e =
    ap (λ c. push_all (record { buffer = []; capacity = c }) xs) e
    ∙ push_all-new max_recent_errors xs

-- After a connection is reset, on a monitor whose buffers have the capacity that it gave them, any
-- errors are counted up to `u64::MAX`, and of the server's and of the internal ones the latest 100
-- each are kept, oldest first, with their texts truncated.
pub record_errors-reset_connection :
    {H : Type 0} (histogram : Histogram H) (m : WsHealthMonitor H) (now : ℕ) (es : List ErrorEvent)
    → m.server_errors.capacity ≡ max_recent_errors
    → m.internal_errors.capacity ≡ max_recent_errors
    → ((record_errors (reset_connection histogram m now) es).error_count ≡ min u64_max (length es))
      × ((record_errors (reset_connection histogram m now) es).server_errors ≡ record {
        buffer = latest max_recent_errors (server_entries es);
        capacity = max_recent_errors;
      })
      × ((record_errors (reset_connection histogram m now) es).internal_errors ≡ record {
        buffer = latest max_recent_errors (internal_entries es);
        capacity = max_recent_errors;
      })
unfolding reset_connection
record_errors-reset_connection histogram m now es s i =
    let fresh = reset_connection histogram m now in
    (
      omega (arith, error_count_lem fresh es (omega arith)),
      server_errors_lem fresh es ∙ push_all-clear m.server_errors (server_entries es) s,
      internal_errors_lem fresh es ∙ push_all-clear m.internal_errors (internal_entries es) i,
    )
