-- ===== src/Tests/Measured.antt =====
-- A response behind the metrics.
use tsbridge.Prelude.{List, [], ◌∷◌, true, false, ◌≡◌, refl}
use tsbridge.Metrics.{
  ResponseCall, send_header, send_body, send_flush, take_over, requests_total, request_duration,
  errors_total, write_header, write, flush, hijack, respond, recovered, middleware,
}
use tsbridge.Metrics.Recorded.{header_codes, middleware-answered}

-- Early hints, then the response, then a panic.
abbrev hinted : List ResponseCall
hinted = send_flush ∷ send_header 103 ∷ send_header 200 ∷ send_body (72 ∷ 105 ∷ []) ∷ []

-- The status of the response is lost.
early_hints : (middleware true true "web" 5 hinted false []).0.status_code ≡ 103
unfolding middleware respond write_header write flush hijack recovered
early_hints = refl

-- An upgraded connection is counted with the status 200.
upgraded :
    (middleware true true "web" 5 (take_over ∷ []) false []).1
    ≡ requests_total "web" 200 ∷ request_duration "web" 5 ∷ []
unfolding middleware respond write_header write flush hijack recovered
upgraded = refl

middleware-answered_example :
    (header_codes (middleware true true "web" 5 hinted true []).0.sent ≡ 103 ∷ [])
    × ((middleware true true "web" 5 hinted true []).1
        ≡ requests_total "web" 103 ∷ request_duration "web" 5 ∷ errors_total "web" "panic" ∷ [])
middleware-answered_example = middleware-answered true true "web" 5 hinted true []
