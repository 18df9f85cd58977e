-- ===== src/Config/ResolvedTwice.antt =====
-- About resolving all secrets of settings that have been resolved before.
use tsbridge.Prelude.{
  String, ◌&&◌, ◌≡◌, ◌≢◌, ◌⊎◌, refl, arith, str_eq, str_eq_iff, Bool-cases, inl, inr, ap, sym,
  subst, ◌∙◌,
}
use tsbridge.Errors.{ok, Result-cases}
use tsbridge.Config.Credentials.{Os, getenv}
use tsbridge.Config.Validate.{is_set}
use tsbridge.Config.Process.{
  resolve_client_id, resolve_client_secret, resolve_auth_key, unsetenv, resolve_state_dir,
  resolve_secrets,
}
use tsbridge.Config.{Tailscale}
use tsbridge.Config.Settled.{
  IsSettled, unsetenv-IsSettled, resolve_client_id-settles, resolve_client_id-settled,
  resolve_client_secret-settles, resolve_client_secret-settled, resolve_auth_key-settles,
  resolve_auth_key-settled,
}

resolve_state_dir-settles :
    (os : Os) (ts out : Tailscale)
    → resolve_state_dir os ts ≡ ok out
    → (d : String) × (e : String) × ((d ≢ "") ⊎ (e ≡ ""))
      × (out ≡ record ts { state_dir = d; state_dir_env = e })
unfolding resolve_state_dir
resolve_state_dir-settles os ts out h =
    elim (Bool-cases (str_eq ts.state_dir "" && is_set ts.state_dir_env)) [
      | inr unchanged ↦ (
        ts.state_dir,
        ts.state_dir_env,
        ground (arith, str_eq_iff ts.state_dir "", str_eq_iff ts.state_dir_env ""),
        ground arith,
      )
      | inl looked_up ↦ (getenv os ts.state_dir_env, "", inr refl, ground arith)
    ]

resolve_state_dir-settled :
    (os : Os) (ts : Tailscale)
    → (ts.state_dir ≢ "") ⊎ (ts.state_dir_env ≡ "")
    → resolve_state_dir os ts ≡ ok ts
unfolding resolve_state_dir
resolve_state_dir-settled os ts h =
    ground (arith, str_eq_iff ts.state_dir "", str_eq_iff ts.state_dir_env "")

-- The three secrets and the state directory in a row.
resolve_all-IsSettled :
    (os cleared : Os) (ts ts1 ts2 ts3 out : Tailscale)
    → resolve_client_id os ts ≡ ok ts1
    → resolve_client_secret os ts1 ≡ ok ts2
    → resolve_auth_key os ts2 ≡ ok ts3
    → resolve_state_dir cleared ts3 ≡ ok out
    → IsSettled os out
resolve_all-IsSettled os cleared ts ts1 ts2 ts3 out one two three four =
    let (v1, e1, f1, s1, is1) = resolve_client_id-settles os ts ts1 one in
    let (v2, e2, f2, s2, is2) = resolve_client_secret-settles os ts1 ts2 two in
    let (v3, e3, f3, s3, is3) = resolve_auth_key-settles os ts2 ts3 three in
    let (v4, e4, s4, is4) = resolve_state_dir-settles cleared ts3 out four in
    subst (λ (o : Tailscale). IsSettled os o)
      (sym (
        is4
        ∙ ap (λ (t : Tailscale). record t { state_dir = v4; state_dir_env = e4 })
            (is3
              ∙ ap
                  (λ (t : Tailscale). record t {
                    auth_key = v3;
                    auth_key_env = e3;
                    auth_key_file = f3;
                  })
                  (is2
                    ∙ ap
                        (λ (t : Tailscale). record t {
                          oauth_client_secret = v2;
                          oauth_client_secret_env = e2;
                          oauth_client_secret_file = f2;
                        })
                        is1))))
      (record { client_id = s1; client_secret = s2; auth_key = s3; state_dir = s4 })

-- Settings that have been resolved are settled in the environment that is left.
pub resolve_secrets-IsSettled :
    (os : Os) (ts out : Tailscale)
    → (resolve_secrets os ts).1 ≡ ok out
    → IsSettled (resolve_secrets os ts).0 out
unfolding resolve_secrets
resolve_secrets-IsSettled os ts out h = elim (Result-cases (resolve_client_id os ts)) [
  | inl (e, failed) ↦ absurd (ground arith)
  | inr (ts1, one) ↦ elim (Result-cases (resolve_client_secret os ts1)) [
    | inl (e, failed) ↦ absurd (ground arith)
    | inr (ts2, two) ↦ elim (Result-cases (resolve_auth_key os ts2)) [
      | inl (e, failed) ↦ absurd (ground arith)
      | inr (ts3, three) ↦
          let first = unsetenv "TS_AUTHKEY" os in
          let cleared = unsetenv "TS_AUTH_KEY" first in
          let left : (resolve_secrets os ts).0 ≡ cleared = ground arith in
          let all_settled =
            resolve_all-IsSettled os cleared ts ts1 ts2 ts3 out one two three (ground arith) in
          subst (λ (o : Os). IsSettled o out) (sym left)
            (unsetenv-IsSettled "TS_AUTH_KEY" first out
              (unsetenv-IsSettled "TS_AUTHKEY" os out all_settled))
    ]
  ]
]

-- Settled settings resolve to themselves and stay settled.
pub resolve_secrets-settled :
    (os : Os) (ts : Tailscale)
    → IsSettled os ts
    → resolve_secrets os ts ≡ (unsetenv "TS_AUTH_KEY" (unsetenv "TS_AUTHKEY" os), ok ts)
unfolding resolve_secrets
resolve_secrets-settled os ts s = ground (
  arith,
  resolve_client_id-settled os ts s.client_id,
  resolve_client_secret-settled os ts s.client_secret,
  resolve_auth_key-settled os ts s.auth_key,
  resolve_state_dir-settled (unsetenv "TS_AUTH_KEY" (unsetenv "TS_AUTHKEY" os)) ts s.state_dir,
)
