-- ===== src/Auth/Jwt/RoleClaim.antt =====
-- internal/auth/jwt.go: the texts of the role claim, in their own words.
use oms_go.Prelude.{
  ℕ, ◌≡◌, subst, inl, inr, refl, Option-cases, Option, none, some, String, List, [], ◌∷◌,
}
use oms_go.Prelude.Exec.{ok}
use oms_go.Auth.Jwt.{Raw, Json, role_values}

module _ (json : Json) where
  -- What the claim holds: one text, or else an array of them.
  pub data Values : Option Raw → List String → Type 0 where
    one_text :
        (b : ℕ) (bs : Raw) (v : String)
        → json.as_string (b ∷ bs) ≡ some v
        → Values (some (b ∷ bs)) (v ∷ [])
    texts :
        (b : ℕ) (bs : Raw) (values : List String)
        → json.as_string (b ∷ bs) ≡ none
        → json.as_strings (b ∷ bs) ≡ some values
        → Values (some (b ∷ bs)) values

  -- The same, as the code's helper has it.
  abbrev pub Reads : Option Raw → List String → Type 0
  Reads none values = ⊥
  Reads (some []) values = ⊥
  Reads (some (b ∷ bs)) values = role_values json (b ∷ bs) (json.as_string (b ∷ bs)) ≡ ok values

  pub role_values-Values :
      (b : ℕ) (bs : Raw) (values : List String)
      → role_values json (b ∷ bs) (json.as_string (b ∷ bs)) ≡ ok values
      → Values (some (b ∷ bs)) values
  unfolding role_values
  role_values-Values b bs values h = elim (Option-cases (json.as_string (b ∷ bs))) [
    | inr (v, e) ↦
        let same : v ∷ [] ≡ values = cc (rw e at h) in
        subst (Values (some (b ∷ bs))) same (one_text b bs v e)
    | inl e ↦ elim (Option-cases (json.as_strings (b ∷ bs))) [
      | inr (vs, k) ↦
          let same : vs ≡ values = cc (rw (e, k) at h) in
          subst (Values (some (b ∷ bs))) same (texts b bs vs e k)
      | inl k ↦ absurd (cc (rw (e, k) at h))
    ]
  ]

  pub Values-Reads :
      (raw : Option Raw) (values : List String) → Values raw values → Reads raw values
  unfolding role_values
  Values-Reads _ _ (one_text b bs v e) = rw e refl
  Values-Reads _ _ (texts b bs values e k) = rw (e, k) refl
