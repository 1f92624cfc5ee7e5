-- ===== src/Auth/Startup/Admits.antt =====
-- internal/auth/jwt.go and middleware.go: whom the middleware of a configuration lets through.
use oms_go.Prelude.{◌≡◌, refl, sym, ap, ◌∙◌, subst, true, Option, none, some, String, eq_iff}
use oms_go.Prelude.Exec.{Result, ok, err, Exec}
use oms_go.Auth.{Mode, mode_locked, mode_dev, mode_jwt, Identity, AuthError, identity_from_headers}
use oms_go.Auth.Jwt.{Config, Claims, JwtError, bearer_token, identity_from_jwt}
use oms_go.Auth.Jwt.Granted.{Granted, identity_from_jwt_iff}
use oms_go.Auth.Guards.{
  admit, identity_middleware, admit_claims, admit_verified, admit_bearer, jwt_middleware,
}
use oms_go.Auth.Startup.{Client, is_https}
use oms_go.Http.{HttpRequest, with_identity, Answer, unauthorized, Handler}

dev_or_jwt : {m : Mode} → m ≡ mode_dev → ¬ (m ≡ mode_jwt)
dev_or_jwt dev jwt = let same = (eq_iff mode_dev mode_jwt).1 (sym dev ∙ jwt) in cc

module _ {S R E Token : Type 0} (client : Client S R E Token) (cfg : Config) (url : String) where
  -- A request that comes in the state s is to be served for an identity, from another state on: that
  -- of its own headers in the dev mode, and else that of its bearer's verified token.
  pub data Admits (r : HttpRequest) (s : S) : Identity → S → Type 0 where
    trusted :
        (i : Identity)
        → cfg.mode ≡ mode_dev
        → identity_from_headers client.parse_uuid r.headers ≡ ok i
        → Admits r s i s
    bearer :
        (i : Identity) (raw : String) (token : Token) (claims : Claims) (t : S)
        → cfg.mode ≡ mode_jwt
        → is_https client url ≡ true
        → bearer_token (r.headers "Authorization") ≡ ok raw
        → client.verify cfg.issuer url cfg.audience cfg.allowed_algorithms raw s ≡ (ok token, t)
        → client.claims_of token ≡ some claims
        → Granted client.json client.parse_uuid claims cfg i
        → Admits r s i t

  -- Where a request that comes in the state s may be refused: the verifier may have been asked.
  pub data Refuses (s : S) : S → Type 0 where
    unasked : Refuses s s
    asked :
        (raw : String)
        → Refuses s (client.verify cfg.issuer url cfg.audience cfg.allowed_algorithms raw s).1

  pub data Verdict {P : Type 0} (next : Handler S P) (r : HttpRequest) (s : S)
      : Answer P × S → Type 0 where
    served : (i : Identity) (t : S) → Admits r s i t → Verdict next r s (next (with_identity i r) t)
    refused :
        (t : S)
        → Refuses s t
        → ((i : Identity) (u : S) → ¬ Admits r s i u)
        → Verdict next r s (unauthorized, t)

  module _ {P : Type 0} (next : Handler S P) (r : HttpRequest) (s : S) where
    pub locked-Verdict :
        cfg.mode ≡ mode_locked
        → Verdict next r s (identity_middleware client.parse_uuid mode_locked next r s)
    unfolding identity_middleware
    locked-Verdict locked = refused s unasked nobody
      where
        nobody : (i : Identity) (u : S) → ¬ Admits r s i u
        nobody _ _ (trusted i m e) = absurd (cc)
        nobody _ _ (bearer i raw token claims t m h b v c g) = absurd (cc)

    pub dev-Verdict :
        cfg.mode ≡ mode_dev
        → Verdict next r s (identity_middleware client.parse_uuid mode_dev next r s)
    unfolding identity_middleware admit
    dev-Verdict dev = go (identity_from_headers client.parse_uuid r.headers) refl
      where
        go :
            (a : Result AuthError Identity)
            → identity_from_headers client.parse_uuid r.headers ≡ a
            → Verdict next r s (admit a next r s)
        go (ok i) e = served i s (trusted i dev e)
        go (err x) e = refused s unasked nobody
          where
            nobody : (i : Identity) (u : S) → ¬ Admits r s i u
            nobody _ _ (trusted i m e') = absurd (cc)
            nobody _ _ (bearer i raw token claims t m h b v c g) = absurd (dev_or_jwt dev m)

    pub jwt-Verdict :
        cfg.mode ≡ mode_jwt
        → is_https client url ≡ true
        → Verdict next r s (
            jwt_middleware
              (client.verify cfg.issuer url cfg.audience cfg.allowed_algorithms)
              client.claims_of
              client.json
              client.parse_uuid
              cfg
              next
              r
              s)
    unfolding jwt_middleware admit admit_claims admit_verified admit_bearer
    jwt-Verdict jwt https = with_bearer (bearer_token (r.headers "Authorization")) refl
      where
        verify : String → Exec S E Token
        verify = client.verify cfg.issuer url cfg.audience cfg.allowed_algorithms

        not_trusted :
            (i : Identity) (u : S)
            → Admits r s i u
            → (raw : String) × (token : Token) × (claims : Claims) × (bearer_token
                  (r.headers "Authorization")
                ≡ ok raw)
              × (verify raw s ≡ (ok token, u))
              × (client.claims_of token ≡ some claims)
              × (identity_from_jwt client.json client.parse_uuid claims cfg ≡ ok i)
        not_trusted _ _ (trusted i m e) = absurd (dev_or_jwt m jwt)
        not_trusted _ _ (bearer i raw token claims t m h b v c g) = (
          raw,
          token,
          claims,
          b,
          v,
          c,
          (identity_from_jwt_iff client.json client.parse_uuid claims cfg i).1 g,
        )

        with_identity_of :
            (raw : String) (token : Token) (claims : Claims) (t : S)
            → bearer_token (r.headers "Authorization") ≡ ok raw
            → verify raw s ≡ (ok token, t)
            → client.claims_of token ≡ some claims
            → (a : Result JwtError Identity)
            → identity_from_jwt client.json client.parse_uuid claims cfg ≡ a
            → Verdict next r s (admit a next r t)
        with_identity_of raw token claims t b v c (ok i) e = served i t (
            bearer i raw token claims t jwt https b v c
              ((identity_from_jwt_iff client.json client.parse_uuid claims cfg i).0 e))
        with_identity_of raw token claims t b v c (err x) e =
            refused t (subst (Refuses s) (ap (λ (a : Result E Token × S). a.1) v) (asked raw))
              (λ i u a. let (raw', token', claims', b', v', c', e') = not_trusted i u a in cc)

        with_claims :
            (raw : String) (token : Token) (t : S)
            → bearer_token (r.headers "Authorization") ≡ ok raw
            → verify raw s ≡ (ok token, t)
            → (o : Option Claims) → client.claims_of token ≡ o
            → Verdict next r s
                (admit_claims verify client.claims_of client.json client.parse_uuid cfg o next r t)
        with_claims raw token t b v (some claims) c =
            with_identity_of raw token claims t b v c
              (identity_from_jwt client.json client.parse_uuid claims cfg) refl
        with_claims raw token t b v none c =
            refused t (subst (Refuses s) (ap (λ (a : Result E Token × S). a.1) v) (asked raw))
              (λ i u a. let (raw', token', claims', b', v', c', e') = not_trusted i u a in cc)

        with_token :
            (raw : String)
            → bearer_token (r.headers "Authorization") ≡ ok raw
            → (a : Result E Token × S) → verify raw s ≡ a
            → Verdict next r s (
                admit_verified verify client.claims_of client.json client.parse_uuid cfg a.0 next r
                  a.1)
        with_token raw b (ok token, t) v = with_claims raw token t b v (client.claims_of token) refl
        with_token raw b (err x, t) v =
            refused t (subst (Refuses s) (ap (λ (a : Result E Token × S). a.1) v) (asked raw))
              (λ i u a. let (raw', token', claims', b', v', c', e') = not_trusted i u a in cc)

        with_bearer :
            (a : Result JwtError String)
            → bearer_token (r.headers "Authorization") ≡ a
            → Verdict next r s
                (admit_bearer verify client.claims_of client.json client.parse_uuid cfg a next r s)
        with_bearer (ok raw) b = with_token raw b (verify raw s) refl
        with_bearer (err x) b =
            refused s unasked
              (λ i u a. let (raw', token', claims', b', v', c', e') = not_trusted i u a in cc)
