-- ===== src/Docker/Backoff.antt =====
-- internal/docker/docker.go: watchLoop and processEventStream.
use tsbridge.Prelude.{
  ℕ, suc, ◌*◌, ◌^◌, List, [], ◌∷◌, Bool, true, false, map, ltb, if◌then◌else◌, ◌≡◌, refl, arith, ap,
  ◌∙◌,
}
use native.Mathlib.Nat.{pow-suc}
use tsbridge.Constants.{docker_max_reconnect_backoff}

-- One second.
abbrev initial_backoff : ℕ
initial_backoff = 1000000000

-- Back to the start once a stream has been established.
unfoldable pub reset_backoff : Bool → ℕ → ℕ
reset_backoff established backoff = if established then initial_backoff else backoff

unfoldable pub next_backoff : ℕ → ℕ
next_backoff backoff =
    if ltb docker_max_reconnect_backoff (backoff * 2)
    then docker_max_reconnect_backoff
    else backoff * 2

-- The waits of the loop, for each stream that ends whether it was established.
unfoldable pub waits : ℕ → List Bool → List ℕ
unfolding reset_backoff next_backoff
waits backoff [] = []
waits backoff (established ∷ streams) =
    let wait = reset_backoff established backoff in wait ∷ waits (next_backoff wait) streams

unfoldable pub watch_loop : List Bool → List ℕ
unfolding waits
watch_loop streams = waits initial_backoff streams

-- The doubling of `unit` once for every stream that fails, up to the limit.
abbrev pub capped_doubling : ℕ → ℕ
capped_doubling failures =
    if ltb docker_max_reconnect_backoff (initial_backoff * 2 ^ failures)
    then docker_max_reconnect_backoff
    else initial_backoff * 2 ^ failures

-- The consecutive streams before each wait, that one included, that were not established.
abbrev pub failures_before : ℕ → List Bool → List ℕ
failures_before n [] = []
failures_before n (true ∷ streams) = 0 ∷ failures_before 1 streams
failures_before n (false ∷ streams) = n ∷ failures_before (suc n) streams

pow_suc : (n : ℕ) → initial_backoff * 2 ^ suc n ≡ initial_backoff * 2 ^ n * 2
pow_suc n = omega (arith, pow-suc 2 n)

next_backoff-capped : (n : ℕ) → next_backoff (capped_doubling n) ≡ capped_doubling (suc n)
unfolding next_backoff
next_backoff-capped n = ground (arith, pow_suc n)

waits-capped :
    (n : ℕ) (streams : List Bool)
    → waits (capped_doubling n) streams ≡ map capped_doubling (failures_before n streams)
unfolding waits reset_backoff
waits-capped n [] = refl
waits-capped n (true ∷ streams) = ap (λ (w : List ℕ). initial_backoff ∷ w) (waits-capped 1 streams)
waits-capped n (false ∷ streams) =
    ap (λ (w : List ℕ). capped_doubling n ∷ w)
      (ap (λ (b : ℕ). waits b streams) (next_backoff-capped n) ∙ waits-capped (suc n) streams)

-- The wait after a stream that ends is one second, doubled once for every stream since the last
-- established one, and at most five minutes.
pub watch_loop-capped :
    (streams : List Bool) → watch_loop streams ≡ map capped_doubling (failures_before 0 streams)
unfolding watch_loop
watch_loop-capped streams = waits-capped 0 streams
