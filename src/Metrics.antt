-- ===== src/Metrics.antt =====
-- internal/metrics/metrics.go: responseWriter and Middleware. The calls on the writer behind it
-- and on the Prometheus vectors are recorded in the order in which they happen, the last one
-- first. A handler is the calls that it makes, and whether it panics after them.
use tsbridge.Prelude.{ℕ, String, List, [], ◌∷◌, Bool, true, false, if◌then◌else◌, ◌≡◌, refl, arith}
pub mod Recorded

pub data ResponseCall : Type 0 where
  send_header : ℕ → ResponseCall
  send_body : List ℕ → ResponseCall
  send_flush : ResponseCall
  -- The connection is taken over; what is then written to it is no call on the writer.
  take_over : ResponseCall

pub data Observation : Type 0 where
  requests_total : String → ℕ → Observation
  request_duration : String → ℕ → Observation
  errors_total : String → String → Observation

pub record ResponseWriter : Type 0 where
  pub sent : List ResponseCall
  pub status_code : ℕ
  pub written : Bool

unfoldable pub write_header : ℕ → ResponseWriter → ResponseWriter
write_header code rw =
    if rw.written
    then rw
    else record { sent = send_header code ∷ rw.sent; status_code = code; written = true }

unfoldable pub write : List ℕ → ResponseWriter → ResponseWriter
unfolding write_header
write b rw =
    let opened = if rw.written then rw else write_header 200 rw in
    record opened { sent = send_body b ∷ opened.sent }

-- `flusher`: the writer behind is an http.Flusher.
unfoldable pub flush : Bool → ResponseWriter → ResponseWriter
flush flusher rw = if flusher then record rw { sent = send_flush ∷ rw.sent } else rw

-- `hijacker`: the writer behind is an http.Hijacker. Without one the handler gets an error.
unfoldable pub hijack : Bool → ResponseWriter → ResponseWriter
hijack hijacker rw = if hijacker then record rw { sent = take_over ∷ rw.sent } else rw

unfoldable pub respond : Bool → Bool → List ResponseCall → ResponseWriter → ResponseWriter
unfolding write_header write flush hijack
respond flusher hijacker [] rw = rw
respond flusher hijacker (send_header code ∷ calls) rw =
    respond flusher hijacker calls (write_header code rw)
respond flusher hijacker (send_body b ∷ calls) rw = respond flusher hijacker calls (write b rw)
respond flusher hijacker (send_flush ∷ calls) rw = respond flusher hijacker calls (flush flusher rw)
respond flusher hijacker (take_over ∷ calls) rw =
    respond flusher hijacker calls (hijack hijacker rw)

unfoldable pub record_error : String → String → List Observation → List Observation
record_error service error_type seen = errors_total service error_type ∷ seen

-- The deferred function, where the handler has panicked.
unfoldable pub recovered : Bool → ResponseWriter → ResponseWriter
unfolding write_header
recovered panics rw = if panics then (if rw.written then rw else write_header 500 rw) else rw

unfoldable pub middleware :
    Bool
    → Bool
    → String
    → ℕ
    → List ResponseCall
    → Bool
    → List Observation
    → ResponseWriter × List Observation
unfolding respond recovered record_error
middleware flusher hijacker service duration calls panics seen =
    let wrapped =
      recovered panics (
        respond flusher hijacker calls
          (record { sent = []; status_code = 200; written = false })) in
    let errors = if panics then record_error service "panic" seen else seen in
    (
      wrapped,
      requests_total service wrapped.status_code ∷ request_duration service duration ∷ errors,
    )
