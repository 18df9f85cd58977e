-- ===== src/Metrics/Recorded.antt =====
-- internal/metrics/metrics.go: the status that is counted and the one that is sent.
use tsbridge.Prelude.{ℕ, String, List, [], ◌∷◌, Bool, true, false, if◌then◌else◌, ◌≡◌, refl, arith}
use tsbridge.Metrics.{
  ResponseCall, send_header, send_body, send_flush, take_over, Observation, requests_total,
  request_duration, errors_total, ResponseWriter, write_header, write, flush, hijack, respond,
  recovered, record_error, middleware,
}

-- The statuses that calls of WriteHeader pass on.
abbrev pub header_codes : List ResponseCall → List ℕ
header_codes [] = []
header_codes (send_header code ∷ calls) = code ∷ header_codes calls
header_codes (send_body b ∷ calls) = header_codes calls
header_codes (send_flush ∷ calls) = header_codes calls
header_codes (take_over ∷ calls) = header_codes calls

-- The status of a handler's first call of WriteHeader or Write; if there is none, a panic decides.
abbrev pub answered : Bool → List ResponseCall → List ℕ
answered panics [] = if panics then 500 ∷ [] else []
answered panics (send_header code ∷ calls) = code ∷ []
answered panics (send_body b ∷ calls) = 200 ∷ []
answered panics (send_flush ∷ calls) = answered panics calls
answered panics (take_over ∷ calls) = answered panics calls

abbrev pub counted : List ℕ → ℕ
counted [] = 200
counted (code ∷ codes) = code

-- What a writer has sent and what it has recorded.
abbrev Records : List ℕ → ℕ → ResponseWriter → Type 0
Records codes code rw = (header_codes rw.sent ≡ codes) × (rw.status_code ≡ code)

-- Once the header is out, nothing changes the status.
respond-Records :
    (flusher hijacker panics : Bool) (calls : List ResponseCall) (rw : ResponseWriter)
    → rw.written ≡ true
    → Records
        (header_codes rw.sent)
        rw.status_code
        (recovered panics (respond flusher hijacker calls rw))
unfolding respond recovered write_header write flush hijack
respond-Records flusher hijacker panics [] rw h = ground arith
respond-Records flusher hijacker panics (send_header code ∷ calls) rw h =
    ground (arith, respond-Records flusher hijacker panics calls (write_header code rw))
respond-Records flusher hijacker panics (send_body b ∷ calls) rw h =
    ground (arith, respond-Records flusher hijacker panics calls (write b rw))
respond-Records flusher hijacker panics (send_flush ∷ calls) rw h =
    ground (arith, respond-Records flusher hijacker panics calls (flush flusher rw))
respond-Records flusher hijacker panics (take_over ∷ calls) rw h =
    ground (arith, respond-Records flusher hijacker panics calls (hijack hijacker rw))

respond-answered :
    (flusher hijacker panics : Bool) (calls : List ResponseCall) (rw : ResponseWriter)
    → rw.written ≡ false
    → rw.status_code ≡ 200
    → header_codes rw.sent ≡ []
    → Records
        (answered panics calls)
        (counted (answered panics calls))
        (recovered panics (respond flusher hijacker calls rw))
unfolding respond recovered write_header write flush hijack
respond-answered flusher hijacker panics [] rw h g e = ground arith
respond-answered flusher hijacker panics (send_header code ∷ calls) rw h g e =
    ground (arith, respond-Records flusher hijacker panics calls (write_header code rw))
respond-answered flusher hijacker panics (send_body b ∷ calls) rw h g e =
    ground (arith, respond-Records flusher hijacker panics calls (write b rw))
respond-answered flusher hijacker panics (send_flush ∷ calls) rw h g e =
    ground (arith, respond-answered flusher hijacker panics calls (flush flusher rw))
respond-answered flusher hijacker panics (take_over ∷ calls) rw h g e =
    ground (arith, respond-answered flusher hijacker panics calls (hijack hijacker rw))

-- For all calls of WriteHeader, Write, Flush and Hijack that a handler makes on its writer, and
-- whether it panics after them or not: WriteHeader of the writer behind is called at most once, with
-- the status of the first WriteHeader, 200 where a Write comes first, or 500 where the handler
-- panics before both; that status, or 200 without such a call, is the one counted, once, and a panic
-- is counted once as an error. What the writer behind sends by itself when it is flushed, and what
-- is written to a connection that has been taken over, is not counted.
pub middleware-answered :
    (flusher hijacker : Bool) (service : String) (duration : ℕ) (calls : List ResponseCall)
    (panics : Bool) (seen : List Observation)
    → (header_codes (middleware flusher hijacker service duration calls panics seen).0.sent
        ≡ answered panics calls)
      × ((middleware flusher hijacker service duration calls panics seen).1
          ≡ requests_total service (counted (answered panics calls))
            ∷ request_duration service duration
            ∷ (if panics then errors_total service "panic" ∷ seen else seen))
unfolding middleware record_error
middleware-answered flusher hijacker service duration calls panics seen = ground (
  arith,
  respond-answered flusher hijacker panics calls
      (record { sent = []; status_code = 200; written = false }) refl refl refl,
)
