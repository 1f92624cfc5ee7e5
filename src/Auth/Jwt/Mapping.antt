-- ===== src/Auth/Jwt/Mapping.antt =====
-- internal/auth/jwt.go: the role that the configuration gives to a value, in its own words.
use oms_go.Prelude.{
  ◌≡◌, ◌≢◌, subst, inl, inr, Bool-cases, false, Option, some, String, str_eq, eq_iff,
}
use oms_go.Auth.{Role}
use oms_go.Auth.Jwt.{Config, oms_role}

-- The role that the configuration gives to a value: where two of its names are the same, the first.
pub data Maps (cfg : Config) (v : String) : Role → Type 0 where
  customer : v ≡ cfg.role_customer_value → Maps cfg v "CUSTOMER"
  admin : v ≢ cfg.role_customer_value → v ≡ cfg.role_admin_value → Maps cfg v "ADMIN"
  system :
      v ≢ cfg.role_customer_value
      → v ≢ cfg.role_admin_value
      → v ≡ cfg.role_system_value
      → Maps cfg v "SYSTEM"

module _ (cfg : Config) (v : String) where
  unlike : (k : String) → str_eq v k ≡ false → v ≢ k
  unlike k f e = cc ((eq_iff v k).1 e, f)

  alike : (k : String) → v ≢ k → str_eq v k ≡ false
  alike k n = elim (Bool-cases (str_eq v k)) [ inl e ↦ absurd (n ((eq_iff v k).0 e)) | inr f ↦ f ]

  pub oms_role-Maps : (r : Role) → oms_role cfg v ≡ some r → Maps cfg v r
  unfolding oms_role
  oms_role-Maps r h = elim (Bool-cases (str_eq v cfg.role_customer_value)) [
    | inl c ↦ subst (Maps cfg v) (the (rw c at h)) (customer ((eq_iff v _).0 c))
    | inr c ↦ elim (Bool-cases (str_eq v cfg.role_admin_value)) [
      | inl a ↦ subst (Maps cfg v) (the (rw (c, a) at h)) (admin (unlike _ c) ((eq_iff v _).0 a))
      | inr a ↦ elim (Bool-cases (str_eq v cfg.role_system_value)) [
        | inl s ↦
            subst (Maps cfg v) (the (rw (c, a, s) at h))
              (system (unlike _ c) (unlike _ a) ((eq_iff v _).0 s))
        | inr s ↦ absurd (cc (rw (c, a, s) at h))
      ]
    ]
  ]
    where
      the : {k : Role} → ◌≡◌ {A = Option Role} (some k) (some r) → k ≡ r
      the e = cc

  pub Maps-oms_role : (r : Role) → Maps cfg v r → oms_role cfg v ≡ some r
  unfolding oms_role
  Maps-oms_role _ (customer e) = rw ((eq_iff v _).1 e)
  Maps-oms_role _ (admin n e) = rw (alike _ n, (eq_iff v _).1 e)
  Maps-oms_role _ (system n m e) = rw (alike _ n, alike _ m, (eq_iff v _).1 e)
