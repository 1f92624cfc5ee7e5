-- ===== src/Auth/Jwt/Granted.antt =====
-- internal/auth/jwt.go: the identities that `identityFromJWT` grants.
use oms_go.Prelude.{
  ◌≡◌, ◌↔◌, ◌⊎◌, inl, inr, refl, ap, ◌∙◌, Bool, Bool-cases, true, false, Option, none, some, String,
  str_eq, eq_iff,
}
use oms_go.Prelude.Text.{trim_space}
use oms_go.Prelude.Text.Blank.{IsBlank, trim_space-empty_iff}
use oms_go.Prelude.Exec.{Result, ok, err, or_fail, some_or_fail, and_then-eq-ok}
use oms_go.Db.Models.{Uuid}
use oms_go.Auth.{Role, role_customer, role_admin, role_system, Identity}
use oms_go.Auth.Jwt.{
  Config, Claims, Json, JwtError, missing_subject, string_claim, subject_of, resolve_role,
  identity_of, identity_from_jwt,
}
use oms_go.Auth.Jwt.Roles.{role_of_three}

or_fail-ok : {E F A : Type 0} (e : F) (r : Result E A) {a : A} → or_fail e r ≡ ok a → r ≡ ok a
or_fail-ok e (ok x) h = let same = h in cc
or_fail-ok e (err x) h = absurd (cc)

some_or_fail-ok :
    {F A : Type 0} (e : F) (o : Option A) {a : A} → some_or_fail e o ≡ ok a → o ≡ some a
some_or_fail-ok e none h = absurd (cc)
some_or_fail-ok e (some x) h = cc

module _ (json : Json) (parse_uuid : String → Option Uuid) (claims : Claims) (cfg : Config) where
  -- What the claims must say for an identity.
  pub data Granted (i : Identity) : Type 0 where
    customer :
        (subject id_value : String) (id : Uuid)
        → string_claim json claims cfg.subject_claim ≡ ok subject
        → ¬ IsBlank subject
        → resolve_role json (claims cfg.role_claim) cfg ≡ ok role_customer
        → string_claim json claims cfg.customer_id_claim ≡ ok id_value
        → parse_uuid id_value ≡ some id
        → i ≡ record {
          role = role_customer;
          customer_id = some id;
          subject = some subject;
          subject_id = none;
        }
        → Granted i
    privileged :
        (subject : String) (role : Role) (id : Uuid)
        → string_claim json claims cfg.subject_claim ≡ ok subject
        → ¬ IsBlank subject
        → resolve_role json (claims cfg.role_claim) cfg ≡ ok role
        → (role ≡ role_admin) ⊎ (role ≡ role_system)
        → parse_uuid subject ≡ some id
        → i
          ≡ record { role = role; customer_id = none; subject = some subject; subject_id = some id }
        → Granted i

  subject_of-ok :
      (subject : String)
      → subject_of json claims cfg ≡ ok subject
      → (string_claim json claims cfg.subject_claim ≡ ok subject) × (¬ IsBlank subject)
  unfolding subject_of
  subject_of-ok subject h =
      let (s, read, rest) =
        and_then-eq-ok (or_fail missing_subject (string_claim json claims cfg.subject_claim)) _ h in
      elim (Bool-cases (str_eq (trim_space s) "")) [
        | inl blank ↦ absurd (cc (rw blank at rest))
        | inr full ↦
            let same : s ≡ subject = cc (rw full at rest) in
            (
              or_fail-ok missing_subject (string_claim json claims cfg.subject_claim) read
                  ∙ ap ok same,
              rw same at (not_blank s full),
            )
      ]
    where
      not_blank : (s : String) → str_eq (trim_space s) "" ≡ false → ¬ IsBlank s
      not_blank s f b = cc ((eq_iff (trim_space s) "").1 ((trim_space-empty_iff s).1 b), f)

  identity_of-Granted :
      (subject : String) (role : Role) (i : Identity)
      → string_claim json claims cfg.subject_claim ≡ ok subject
      → ¬ IsBlank subject
      → resolve_role json (claims cfg.role_claim) cfg ≡ ok role
      → identity_of json parse_uuid claims cfg subject role ≡ ok i
      → Granted i
  unfolding identity_of
  identity_of-Granted subject role i s b r h = elim (role_of_three json cfg _ role r) [
    | inl c ↦
        let (value, read, rest) =
          and_then-eq-ok
            (or_fail JwtError.missing_customer_id (string_claim json claims cfg.customer_id_claim))
            _ (rw c at h) in
        let (id, parsed, made) =
          and_then-eq-ok (some_or_fail JwtError.invalid_customer_id (parse_uuid value)) _ rest in
        customer subject value id s b (r ∙ ap ok c) (or_fail-ok _ _ read)
          (some_or_fail-ok _ _ parsed) (identity_eq made)
    | inr (inl a) ↦
        let (id, parsed, made) =
          and_then-eq-ok (some_or_fail JwtError.subject_not_uuid (parse_uuid subject)) _
            (rw a at h) in
        privileged subject role_admin id s b (r ∙ ap ok a) (inl refl) (some_or_fail-ok _ _ parsed)
          (identity_eq made)
    | inr (inr a) ↦
        let (id, parsed, made) =
          and_then-eq-ok (some_or_fail JwtError.subject_not_uuid (parse_uuid subject)) _
            (rw a at h) in
        privileged subject role_system id s b (r ∙ ap ok a) (inr refl) (some_or_fail-ok _ _ parsed)
          (identity_eq made)
  ]
    where
      identity_eq : {j k : Identity} → ◌≡◌ {A = Result JwtError Identity} (ok j) (ok k) → k ≡ j
      identity_eq e = cc

  sound : (i : Identity) → identity_from_jwt json parse_uuid claims cfg ≡ ok i → Granted i
  unfolding identity_from_jwt
  sound i h =
      let (subject, named, rest) = and_then-eq-ok (subject_of json claims cfg) _ h in
      let (role, resolved, last) =
        and_then-eq-ok (resolve_role json (claims cfg.role_claim) cfg) _ rest in
      let (read, full) = subject_of-ok subject named in
      identity_of-Granted subject role i read full resolved last

  subject_of_complete :
      (subject : String)
      → string_claim json claims cfg.subject_claim ≡ ok subject
      → ¬ IsBlank subject
      → subject_of json claims cfg ≡ ok subject
  unfolding subject_of
  subject_of_complete subject s b = rw (s, full (str_eq (trim_space subject) "") refl)
    where
      full : (t : Bool) → str_eq (trim_space subject) "" ≡ t → t ≡ false
      full false e = refl
      full true e =
          absurd (b ((trim_space-empty_iff subject).0 ((eq_iff (trim_space subject) "").0 e)))

  complete : (i : Identity) → Granted i → identity_from_jwt json parse_uuid claims cfg ≡ ok i
  unfolding identity_from_jwt identity_of
  complete i (customer subject value id s b r read parsed e) =
      rw (subject_of_complete subject s b, r, read, parsed, e)
  complete i (privileged subject role id s b r (inl a) parsed e) =
      rw (subject_of_complete subject s b, r, e, a, parsed)
  complete i (privileged subject role id s b r (inr a) parsed e) =
      rw (subject_of_complete subject s b, r, e, a, parsed)

  -- `identityFromJWT` grants an identity exactly in two cases, each with a subject claim that is not
  -- blank: a customer, with the uuid of the customer id claim; or an administrator or the system, with
  -- the subject's uuid. The role is the one that `resolveRole` answers with.
  pub identity_from_jwt_iff :
      (i : Identity) → (identity_from_jwt json parse_uuid claims cfg ≡ ok i) ↔ Granted i
  identity_from_jwt_iff i = (sound i, complete i)
