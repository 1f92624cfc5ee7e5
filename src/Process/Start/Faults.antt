-- ===== src/Process/Start/Faults.antt =====
-- internal/auth/jwt.go: the errors of `NewIdentityMiddleware`.
use oms_go.Prelude.{
  ◌≡◌, ◌≢◌, refl, subst, Bool, true, false, not, String, List, [], ◌∷◌, str_eq, ◌==◌, arith,
  if◌then◌else◌,
}
use oms_go.Prelude.Int.{ℤ}
use oms_go.Prelude.Exec.{Result, ok, err, Exec, lift, handle, ◌>>=◌, >>=-cases, handle-cases}
use oms_go.Auth.Jwt
use oms_go.Auth.Startup.{
  Client, Decode, DiscoveryDocument, StartError, unsupported_mode, timeout_not_positive,
  issuer_mismatch, missing_jwks_uri, not_https, no_keys, unexpected_status, failed, or_failed,
  limited_round_trip, fetch_metadata_document, has_keys, probe_jwks, discovered, is_https,
  with_keys,
}
use oms_go.Http.{status_ok}

-- The errors that a configuration from `LoadConfig` leaves to the other side of the network.
abbrev pub IsRemote : {E : Type 0} → Jwt.Config → StartError E → Type 0
IsRemote cfg (unsupported_mode m) = ⊥
IsRemote cfg timeout_not_positive = ⊥
IsRemote cfg issuer_mismatch = Unit
IsRemote cfg missing_jwks_uri = Unit
IsRemote cfg not_https = cfg.oidc_discovery_url ≢ ""
IsRemote cfg no_keys = Unit
IsRemote cfg (unexpected_status n) = Unit
IsRemote cfg (failed e) = Unit

abbrev pub Errs : {S E A : Type 0} → (E → Type 0) → Result E A × S → Type 0
Errs P (ok a, s) = Unit
Errs P (err e, s) = P e

-- Every error of the call has P.
pub record Faults {S E A : Type 0} (P : E → Type 0) (call : Exec S E A) : Type 0 where
  pub at : (s : S) → Errs P (call s)

module _ {S E : Type 0} (P : E → Type 0) where
  pub Faults-err : {A : Type 0} (e : E) → P e → Faults {S = S} {A = A} P (lift (err e))
  Faults-err e p = record { at = λ s. p }

  pub Faults-ok : {A : Type 0} (a : A) → Faults {S = S} P (lift (ok a))
  Faults-ok a = record { at = λ s. tt }

  pub Faults-bind :
      {A B : Type 0} (call : Exec S E A) (rest : A → Exec S E B)
      → Faults P call
      → ((x : A) → Faults P (rest x))
      → Faults P (call >>= rest)
  Faults-bind call rest first each = record {
    at = λ s.
        >>=-cases (Errs P) call rest s (λ a t e. (each a).at t)
          (λ x t e. subst (Errs P) e (first.at s));
  }

  pub Faults-if :
      {A : Type 0} (test : Bool) (m k : Exec S E A)
      → (test ≡ true → Faults P m)
      → (test ≡ false → Faults P k)
      → Faults P (if test then m else k)
  Faults-if true m k p q = p refl
  Faults-if false m k p q = q refl

-- An error that is passed on as another one.
pub Faults-handle :
    {S E F A : Type 0} (P : F → Type 0) (Q : E → Type 0) (call : Exec S E A)
    (handler : E → Exec S F A)
    → Faults Q call
    → ((e : E) → Q e → Faults P (handler e))
    → Faults P (handle call handler)
Faults-handle P Q call handler tried each = record {
  at = λ s.
      handle-cases (Errs P) call handler s (λ a t e. tt)
        (λ x t e. (each x (subst (Errs Q) e (tried.at s))).at t);
}

pub any_error : {S E A : Type 0} (call : Exec S E A) → Faults (λ _. Unit {0}) call
any_error {S} {E} {A} call = record { at = λ s. by_answer (call s) }
  where
    by_answer : (x : Result E A × S) → Errs (λ _. Unit {0}) x
    by_answer (ok a, t) = tt
    by_answer (err e, t) = tt

module _ {S R E Token : Type 0} (client : Client S R E Token) (cfg : Jwt.Config) where
  abbrev pub Remote : StartError E → Type 0
  Remote = IsRemote cfg

  or_failed-Faults : {A : Type 0} (r : Result E A) → Faults {S = S} Remote (or_failed client r)
  unfolding or_failed
  or_failed-Faults (ok a) = Faults-ok Remote a
  or_failed-Faults (err e) = Faults-err Remote (failed e) tt

  pub fetch-Faults :
      {A : Type 0} (decode : Decode R E A) (d : ℤ) (url : String)
      → Faults Remote (fetch_metadata_document client decode d url)
  unfolding fetch_metadata_document limited_round_trip
  fetch-Faults decode d url =
      Faults-bind Remote _ _
        (record {
          at = λ s.
              (Faults-bind Remote _ _ (or_failed-Faults (client.round_trip d url s).0)
                  (λ response. Faults-ok Remote _)).at
                (client.round_trip d url s).1;
        })
        (λ response.
          Faults-if Remote (not (response.0 == status_ok)) _ _ (λ _. Faults-err Remote _ tt)
            (λ _. or_failed-Faults _))

  has_keys-Faults : (keys : List (List _)) → Faults {S = S} Remote (has_keys client keys)
  unfolding has_keys
  has_keys-Faults [] = Faults-err Remote no_keys tt
  has_keys-Faults (k ∷ ks) = Faults-ok Remote tt

  pub with_keys-Faults :
      {P : Type 0} (url : String)
      → (is_https client url ≡ false → cfg.oidc_discovery_url ≢ "")
      → Faults Remote (with_keys client {P = P} cfg url)
  unfolding with_keys probe_jwks
  with_keys-Faults url found =
      Faults-if Remote (not (is_https client url)) _ _
        (λ bad. Faults-err Remote not_https (found (ground arith)))
        (λ _.
          Faults-bind Remote _ _
            (Faults-bind Remote _ _ (fetch-Faults client.decode_keys cfg.http_timeout url)
              has_keys-Faults)
            (λ _. Faults-ok Remote _))

  pub discovered-Faults : (d : DiscoveryDocument) → Faults {S = S} Remote (discovered client cfg d)
  unfolding discovered
  discovered-Faults d =
      Faults-if Remote (not (str_eq d.issuer cfg.issuer)) _ _
        (λ _. Faults-err Remote issuer_mismatch tt)
        (λ _.
          Faults-if Remote (str_eq d.jwks_url "") _ _ (λ _. Faults-err Remote missing_jwks_uri tt)
            (λ _. Faults-ok Remote _))
