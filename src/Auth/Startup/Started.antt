-- ===== src/Auth/Startup/Started.antt =====
-- internal/auth/jwt.go: the middleware of a start that succeeds.
use oms_go.Prelude.{◌≡◌, inl, inr, subst, Bool-cases, String, str_eq, eq_iff}
use oms_go.Prelude.Int.{pos, ltb_ℤ}
use oms_go.Prelude.Exec.{ok, >>=-eq-ok, answer-injective}
use oms_go.Auth.{mode_locked, mode_dev, mode_jwt}
use oms_go.Auth.Jwt.{Config}
use oms_go.Auth.Startup.{
  Client, is_https, probe_jwks, keys_url, with_keys, new_jwt_identity_middleware,
  new_identity_middleware,
}
use oms_go.Http.{HttpRequest, Handler, Middleware}
use oms_go.Auth.Startup.Admits.{Verdict, locked-Verdict, dev-Verdict, jwt-Verdict}

-- What the middleware of one start does with every request.
abbrev pub Guards :
    {S R E Token P : Type 0} → Client S R E Token → Config → String → Middleware S P → Type 0
Guards {S} {P = P} client cfg url m =
    (next : Handler S P) (r : HttpRequest) (s : S) → Verdict client cfg url next r s (m next r s)

module _ {S R E Token P : Type 0} (client : Client S R E Token) (cfg : Config) (m : Middleware S P)
    (s t : S) where
  jwt-Guards :
      cfg.mode ≡ mode_jwt
      → new_jwt_identity_middleware client {P = P} cfg s ≡ (ok m, t)
      → (url : String) × Guards client cfg url m
  unfolding new_jwt_identity_middleware with_keys
  jwt-Guards jwt h = elim (Bool-cases (ltb_ℤ (pos 0) cfg.http_timeout)) [
    | inr bad ↦ absurd (cc (rw bad at h))
    | inl good ↦
        let (url, s₁, e₁, h₁) =
          >>=-eq-ok (keys_url client cfg) (with_keys client cfg) s (rw good at h) in
        elim (Bool-cases (is_https client url)) [
          | inr bad ↦ absurd (cc (rw bad at h₁))
          | inl https ↦
              let (_, s₂, e₂, h₂) =
                >>=-eq-ok (probe_jwks client cfg.http_timeout url) _ s₁ (rw https at h₁) in
              (
                url,
                λ next r u.
                    subst (λ (k : Middleware S P). Verdict client cfg url next r u (k next r u))
                      (answer-injective h₂).0 (jwt-Verdict client cfg url next r u jwt https),
              )
        ]
  ]

  -- A start that succeeds has settled on one URL for the keys (in the modes other than "jwt" it does not
  -- matter), and its middleware serves exactly the requests that are to be served: if there are an
  -- identity and a state for which the configuration admits the request, then the next handler gets the
  -- request with such an identity, in such a state; otherwise the answer is 401 and the next handler is
  -- not called. Admitted is in the mode "dev" who the headers name, in the mode "jwt" who the verified
  -- token of the Authorization header grants, where the URL of the keys is HTTPS, and in the locked mode
  -- nobody.
  pub new_identity_middleware-Guards :
      new_identity_middleware client {P = P} cfg s ≡ (ok m, t)
      → (url : String) × Guards client cfg url m
  unfolding new_identity_middleware
  new_identity_middleware-Guards h = elim (Bool-cases (str_eq cfg.mode mode_locked)) [
    | inl locked ↦ (
      "",
      λ next r u.
          subst (λ (k : Middleware S P). Verdict client cfg "" next r u (k next r u))
            (answer-injective (rw locked at h)).0
            (locked-Verdict client cfg "" next r u ((eq_iff cfg.mode mode_locked).0 locked)),
    )
    | inr unlocked ↦ elim (Bool-cases (str_eq cfg.mode mode_dev)) [
      | inl dev ↦ (
        "",
        λ next r u.
            subst (λ (k : Middleware S P). Verdict client cfg "" next r u (k next r u))
              (answer-injective (rw dev at (rw unlocked at h))).0
              (dev-Verdict client cfg "" next r u ((eq_iff cfg.mode mode_dev).0 dev)),
      )
      | inr other ↦ elim (Bool-cases (str_eq cfg.mode mode_jwt)) [
        | inl jwt ↦
            jwt-Guards ((eq_iff cfg.mode mode_jwt).0 jwt)
              (rw jwt at (rw other at (rw unlocked at h)))
        | inr unknown ↦ absurd (cc (rw unknown at (rw other at (rw unlocked at h))))
      ]
    ]
  ]
