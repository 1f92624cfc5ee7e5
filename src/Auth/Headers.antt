-- ===== src/Auth/Headers.antt =====
-- internal/auth/middleware.go: the identities that the headers of the dev mode name.
use oms_go.Prelude.{
  ℕ, List, [], ◌∷◌, arith, ==_iff, subst, ◌≡◌, ◌≢◌, ◌↔◌, refl, sym, ap, inl, inr, Bool-cases,
  Option-cases, true, false, Option, none, some, String, str_eq, eq_iff,
}
use oms_go.Prelude.Exec.{ok}
use oms_go.Prelude.Text.{codes, trim_space}
use oms_go.Prelude.Text.Words.{upper, upper_codes, codes_eq}
use oms_go.Db.Models.{Uuid}
use oms_go.Auth.{
  Role, role_customer, Identity, role_named, with_customer, bare, for_role, identity_from_headers,
}

-- The identity of a role, with a customer or without one.
abbrev pub as_role : Role → Option Uuid → Identity
as_role role customer_id = record {
  role = role;
  customer_id = customer_id;
  subject = none;
  subject_id = none;
}

-- A text that is the name of a role once its letters are made capitals.
pub data Spells (value : String) : Role → Type 0 where
  as_customer : upper_codes value ≡ codes "CUSTOMER" → Spells value "CUSTOMER"
  as_admin : upper_codes value ≡ codes "ADMIN" → Spells value "ADMIN"
  as_system : upper_codes value ≡ codes "SYSTEM" → Spells value "SYSTEM"

codes_eq_sound : (as' bs : List ℕ) → codes_eq as' bs ≡ true → as' ≡ bs
codes_eq_sound [] [] h = refl
codes_eq_sound [] (b ∷ bs) h = absurd (cc)
codes_eq_sound (a ∷ as') [] h = absurd (cc)
codes_eq_sound (a ∷ as') (b ∷ bs) h =
    let rest : codes_eq as' bs ≡ true = ground arith in
    cc ((==_iff a b).0 (ground arith), codes_eq_sound as' bs rest)

role_named-Spells : (value : String) (r : Role) → role_named value ≡ some r → Spells value r
unfolding role_named
role_named-Spells value r h = elim (Bool-cases (codes_eq (upper_codes value) (codes "CUSTOMER"))) [
  | inl c ↦ subst (Spells value) (the (rw c at h)) (as_customer (codes_eq_sound _ _ c))
  | inr c ↦ elim (Bool-cases (codes_eq (upper_codes value) (codes "ADMIN"))) [
    | inl a ↦ subst (Spells value) (the (rw (c, a) at h)) (as_admin (codes_eq_sound _ _ a))
    | inr a ↦ elim (Bool-cases (codes_eq (upper_codes value) (codes "SYSTEM"))) [
      | inl s ↦ subst (Spells value) (the (rw (c, a, s) at h)) (as_system (codes_eq_sound _ _ s))
      | inr s ↦ absurd (cc (rw (c, a, s) at h))
    ]
  ]
]
  where
    the : {k : Role} → ◌≡◌ {A = Option Role} (some k) (some r) → k ≡ r
    the e = cc

Spells-role_named : (value : String) (r : Role) → Spells value r → role_named value ≡ some r
unfolding role_named
Spells-role_named value _ (as_customer e) = rw e refl
Spells-role_named value _ (as_admin e) = rw e refl
Spells-role_named value _ (as_system e) = rw e refl

Spells-full : (value : String) (r : Role) → Spells value r → str_eq value "" ≡ false
unfolding upper
Spells-full value r h = elim (Bool-cases (str_eq value "")) [
  | inl e ↦ absurd (nothing r (subst (λ v. Spells v r) ((eq_iff value "").0 e) h))
  | inr f ↦ f
]
  where
    nothing : (r : Role) → ¬ Spells "" r
    nothing _ (as_customer e) = cc
    nothing _ (as_admin e) = cc
    nothing _ (as_system e) = cc

module _ (parse_uuid : String → Option Uuid) (headers : String → String) where
  abbrev role_text : String
  role_text = trim_space (headers "X-OMS-Role")

  abbrev customer_text : String
  customer_text = trim_space (headers "X-OMS-Customer-ID")

  pub data Names (i : Identity) : Type 0 where
    for_customer :
        (role : Role) (id : Uuid)
        → Spells (trim_space (headers "X-OMS-Role")) role
        → trim_space (headers "X-OMS-Customer-ID") ≢ ""
        → parse_uuid (trim_space (headers "X-OMS-Customer-ID")) ≡ some id
        → i ≡ as_role role (some id)
        → Names i
    alone :
        (role : Role)
        → Spells (trim_space (headers "X-OMS-Role")) role
        → role ≢ "CUSTOMER"
        → trim_space (headers "X-OMS-Customer-ID") ≡ ""
        → i ≡ as_role role none
        → Names i

  with_customer-ok :
      (role : Role) (o : Option Uuid) (i : Identity)
      → with_customer parse_uuid role o ≡ ok i
      → (id : Uuid) × (o ≡ some id) × (i ≡ as_role role (some id))
  unfolding with_customer
  with_customer-ok role none i h = absurd (cc)
  with_customer-ok role (some id) i h = (id, refl, cc)

  for_role-Names :
      (role : Role) (i : Identity)
      → Spells role_text role
      → for_role parse_uuid role customer_text ≡ ok i
      → Names i
  unfolding for_role bare
  for_role-Names role i named h = elim (Bool-cases (str_eq customer_text "")) [
    | inl unset ↦ elim (Bool-cases (str_eq role role_customer)) [
      | inl customer ↦ absurd (cc (rw (customer, unset) at h))
      | inr other ↦
          alone role named (λ e. cc ((eq_iff role role_customer).1 e, other))
            ((eq_iff customer_text "").0 unset) (cc (rw (other, unset) at h))
    ]
    | inr set ↦
        let (id, parsed, same) =
          with_customer-ok role (parse_uuid customer_text) i (with_text role i set h) in
        for_customer role id named (λ e. cc ((eq_iff customer_text "").1 e, set)) parsed same
  ]
    where
      with_text :
          (role : Role) (i : Identity)
          → str_eq customer_text "" ≡ false
          → for_role parse_uuid role customer_text ≡ ok i
          → with_customer parse_uuid role (parse_uuid customer_text) ≡ ok i
      with_text role i set h = elim (Bool-cases (str_eq role role_customer)) [
        | inl customer ↦ rw (customer, set) at h
        | inr other ↦ rw (other, set) at h
      ]

  sound : (i : Identity) → identity_from_headers parse_uuid headers ≡ ok i → Names i
  unfolding identity_from_headers
  sound i h = elim (Bool-cases (str_eq role_text "")) [
    | inl empty ↦ absurd (cc (rw empty at h))
    | inr full ↦ elim (Option-cases (role_named role_text)) [
      | inl unknown ↦ absurd (cc (rw (full, unknown) at h))
      | inr (role, named) ↦
          for_role-Names role i (role_named-Spells role_text role named) (rw (full, named) at h)
    ]
  ]

  complete : (i : Identity) → Names i → identity_from_headers parse_uuid headers ≡ ok i
  unfolding identity_from_headers for_role with_customer bare
  complete i (for_customer role id named set parsed same) =
      let given : str_eq customer_text "" ≡ false = different customer_text set in
      elim (Bool-cases (str_eq role role_customer)) [
        | inl customer ↦
            rw (Spells-full role_text role named, Spells-role_named role_text role named)
              (rw (customer, given, parsed) (ap ok (sym same)))
        | inr other ↦
            rw (Spells-full role_text role named, Spells-role_named role_text role named)
              (rw (other, given, parsed) (ap ok (sym same)))
      ]
    where
      different : (s : String) → s ≢ "" → str_eq s "" ≡ false
      different s n = elim (Bool-cases (str_eq s "")) [
        | inl e ↦ absurd (n ((eq_iff s "").0 e))
        | inr f ↦ f
      ]
  complete i (alone role named other unset same) =
      let none_given : str_eq customer_text "" ≡ true = (eq_iff customer_text "").1 unset in
      elim (Bool-cases (str_eq role role_customer)) [
        | inl customer ↦ absurd (other ((eq_iff role role_customer).0 customer))
        | inr f ↦
            rw (Spells-full role_text role named, Spells-role_named role_text role named)
              (rw (f, none_given) (ap ok (sym same)))
      ]

  -- The headers, trimmed, give an identity exactly in two cases: X-OMS-Role is CUSTOMER, ADMIN or SYSTEM, in
  -- any case of letters, and X-OMS-Customer-ID is a uuid and not empty; or X-OMS-Role is ADMIN or SYSTEM,
  -- and X-OMS-Customer-ID is empty. The identity has this role, this customer, if any, and no subject.
  pub identity_from_headers_iff :
      (i : Identity) → (identity_from_headers parse_uuid headers ≡ ok i) ↔ Names i
  identity_from_headers_iff i = (sound i, complete i)
