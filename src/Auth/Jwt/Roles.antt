-- ===== src/Auth/Jwt/Roles.antt =====
-- internal/auth/jwt.go: `resolveRole` and the values of the role claim.
use mathlib.Core.List.{Memᴰ}
use oms_go.Prelude.{
  ◌≡◌, ◌∙◌, ◌↔◌, ◌⊎◌, inl, inr, refl, ap, Bool-cases, Option-cases, false, Option, none, some,
  String, List, [], ◌∷◌, str_eq, eq_iff, All, arith,
}
use oms_go.Prelude.Exec.{ok, and_then-eq-ok}
use oms_go.Auth.Jwt.Mapping.{Maps, customer, admin, system, oms_role-Maps, Maps-oms_role}
use oms_go.Auth.Jwt.RoleClaim.{Values, Reads, role_values-Values, Values-Reads}
use oms_go.Auth.{Role, role_customer, role_admin, role_system}
use oms_go.Auth.Jwt.{
  Config, Raw, Json, oms_role, match_role, match_roles, some_role, role_values, resolve_role,
}

abbrev NoOther : Config → Role → String → Type 0
NoOther cfg role v = (oms_role cfg v ≡ none) ⊎ (oms_role cfg v ≡ some role)

-- One of the values names the role, and none of them names another.
pub record Names (cfg : Config) (values : List String) (role : Role) : Type 0 where
  pub no_other : (v : String) → Memᴰ v values → (other : Role) → Maps cfg v other → other ≡ role
  pub named : (v : String) × Memᴰ v values × Maps cfg v role

-- The same, as the code's switch has it.
record Matches (cfg : Config) (values : List String) (role : Role) : Type 0 where
  no_other : (v : String) → Memᴰ v values → NoOther cfg role v
  named : (v : String) × Memᴰ v values × (oms_role cfg v ≡ some role)

module _ (cfg : Config) (values : List String) (role : Role) where
  Matches-Names : Matches cfg values role → Names cfg values role
  Matches-Names m = record {
    no_other = λ v k other maps. elim (m.no_other v k) [
      | inl unknown ↦ absurd (cc (Maps-oms_role cfg v other maps, unknown))
      | inr this ↦ cc (Maps-oms_role cfg v other maps, this)
    ];
    named = (m.named.0, m.named.1, oms_role-Maps cfg m.named.0 role m.named.2);
  }

  Names-Matches : Names cfg values role → Matches cfg values role
  Names-Matches n = record {
    no_other = λ v k. elim (Option-cases (oms_role cfg v)) [
      | inl unknown ↦ inl unknown
      | inr (other, known) ↦
          inr (known ∙ ap some (n.no_other v k other (oms_role-Maps cfg v other known)))
    ];
    named = (n.named.0, n.named.1, Maps-oms_role cfg n.named.0 role n.named.2);
  }

module _ (cfg : Config) where
  oms_role-ne-nil : (v : String) (r : Role) → oms_role cfg v ≡ some r → str_eq r "" ≡ false
  unfolding oms_role
  oms_role-ne-nil v r h = elim (Bool-cases (str_eq v cfg.role_customer_value)) [
    | inl c ↦ full role_customer r refl (rw c at h)
    | inr c ↦ elim (Bool-cases (str_eq v cfg.role_admin_value)) [
      | inl a ↦ full role_admin r refl (rw (c, a) at h)
      | inr a ↦ elim (Bool-cases (str_eq v cfg.role_system_value)) [
        | inl s ↦ full role_system r refl (rw (c, a, s) at h)
        | inr s ↦ absurd (cc (rw (c, a, s) at h))
      ]
    ]
  ]
    where
      full :
          (k r : Role)
          → str_eq k "" ≡ false
          → ◌≡◌ {A = Option Role} (some k) (some r)
          → str_eq r "" ≡ false
      full k r e q = let same : k ≡ r = cc in rw same at e

  -- One round from a role that was matched.
  round-kept :
      (m : Role) (o : Option Role) (k : Role)
      → str_eq m "" ≡ false
      → match_role m o ≡ ok k
      → (k ≡ m) × ((o ≡ none) ⊎ (o ≡ some m))
  unfolding match_role
  round-kept m none k h e = (ground arith, inl refl)
  round-kept m (some r) k h e = (ground (arith, eq_iff m r), inr (ground (arith, eq_iff m r)))

  round-same : (m : Role) (o : Option Role) → (o ≡ none) ⊎ (o ≡ some m) → match_role m o ≡ ok m
  unfolding match_role
  round-same m o (inl e) = rw e
  round-same m o (inr e) = rw e (ground (arith, eq_iff m m))

  kept :
      (m r : Role) (vs : List String)
      → str_eq m "" ≡ false
      → match_roles cfg m vs ≡ ok r
      → (r ≡ m) × All (NoOther cfg m) vs
  unfolding match_roles
  kept m r [] h e = (ground arith, tt)
  kept m r (v ∷ vs) h e =
      let (k, one, rest) = and_then-eq-ok (match_role m (oms_role cfg v)) _ e in
      let (same, other) = round-kept m (oms_role cfg v) k h one in
      let (last, all) = kept m r vs h (rw same at rest) in (last, (other, all))

  keeps : (m : Role) (vs : List String) → All (NoOther cfg m) vs → match_roles cfg m vs ≡ ok m
  unfolding match_roles
  keeps m [] a = refl
  keeps m (v ∷ vs) a = rw (round-same m (oms_role cfg v) a.0) (keeps m vs a.1)

  All-mem :
      (m : Role) (vs : List String)
      → All (NoOther cfg m) vs
      → (v : String) → Memᴰ v vs
      → NoOther cfg m v
  All-mem m (v ∷ vs) a x (Memᴰ.head e) = rw e a.0
  All-mem m (v ∷ vs) a x (Memᴰ.tail n) = All-mem m vs a.1 x n
  All-mem m [] a x n = elim n [ ]

  mem-All :
      (m : Role) (vs : List String)
      → ((v : String) → Memᴰ v vs → NoOther cfg m v)
      → All (NoOther cfg m) vs
  mem-All m [] f = tt
  mem-All m (v ∷ vs) f = (f v (Memᴰ.head refl), mem-All m vs (λ x n. f x (Memᴰ.tail n)))

  found :
      (r : Role) (vs : List String)
      → str_eq r "" ≡ false
      → match_roles cfg "" vs ≡ ok r
      → Matches cfg vs r
  unfolding match_roles match_role
  found r [] h e = absurd (cc)
  found r (v ∷ vs) h e = elim (Option-cases (oms_role cfg v)) [
    | inl unknown ↦
        let later = found r vs h (rw (unknown, match_role) at e) in
        record {
          no_other =
              λ x m. elim m [ Memᴰ.head q ↦ inl (rw q unknown) | Memᴰ.tail n ↦ later.no_other x n ];
          named = (later.named.0, Memᴰ.tail later.named.1, later.named.2);
        }
    | inr (k, known) ↦
        let (last, all) = kept k r vs (oms_role-ne-nil v k known) (rw (known, match_role) at e) in
        record {
          no_other = λ x m. elim m [
            | Memᴰ.head q ↦ inr (rw (q, last) known)
            | Memᴰ.tail n ↦ rw last (All-mem k vs all x n)
          ];
          named = (v, Memᴰ.head refl, rw last known);
        }
  ]

  -- From no role yet, the values that name the role lead to it.
  finds :
      (r : Role) (vs : List String)
      → ((v : String) → Memᴰ v vs → NoOther cfg r v)
      → (v : String) → Memᴰ v vs
      → oms_role cfg v ≡ some r
      → match_roles cfg "" vs ≡ ok r
  unfolding match_roles match_role
  finds r [] f v m known = elim m [ ]
  finds r (w ∷ vs) f v m known = elim (f w (Memᴰ.head refl)) [
    | inr this ↦ rw this (keeps r vs (mem-All r vs (λ x n. f x (Memᴰ.tail n))))
    | inl other ↦ elim m [
      | Memᴰ.head e ↦ absurd (cc (ap (oms_role cfg) e, other, known))
      | Memᴰ.tail n ↦ rw other (finds r vs (λ x k. f x (Memᴰ.tail k)) v n known)
    ]
  ]

module _ (json : Json) (cfg : Config) where
  some_role-ok : (m r : Role) → some_role m ≡ ok r → (m ≡ r) × (str_eq r "" ≡ false)
  unfolding some_role
  some_role-ok m r h = elim (Bool-cases (str_eq m "")) [
    | inl empty ↦ absurd (cc (rw empty at h))
    | inr full ↦ let same : m ≡ r = cc (rw full at h) in (same, rw same at full)
  ]

  sound :
      (raw : Option Raw) (r : Role)
      → resolve_role json raw cfg ≡ ok r
      → (values : List String) × Values json raw values × Names cfg values r
  unfolding resolve_role
  sound none r h = absurd (cc)
  sound (some []) r h = absurd (cc)
  sound (some (b ∷ bs)) r h =
      let (values, read, rest) =
        and_then-eq-ok (role_values json (b ∷ bs) (json.as_string (b ∷ bs))) _ h in
      let (m, matched, last) = and_then-eq-ok (match_roles cfg "" values) some_role rest in
      let (same, full) = some_role-ok m r last in
      (
        values,
        role_values-Values json b bs values read,
        Matches-Names cfg values r (found cfg r values full (rw same at matched)),
      )

  complete :
      (raw : Option Raw) (r : Role) (values : List String)
      → Reads json raw values
      → Matches cfg values r
      → resolve_role json raw cfg ≡ ok r
  unfolding resolve_role some_role
  complete none r values read n = absurd read
  complete (some []) r values read n = absurd read
  complete (some (b ∷ bs)) r values read n =
      let (v, m, known) = n.named in
      rw (read, finds cfg r values n.no_other v m known, oms_role-ne-nil cfg v r known)

  -- `resolveRole` answers with a role exactly if the claim holds a text or else an array of texts, one of
  -- which is the configured name of the role, and none the configured name of another role. A value that
  -- is the name of two roles is that of the first, in the order customer, admin, system.
  pub resolve_role_iff :
      (raw : Option Raw) (r : Role)
      → (resolve_role json raw cfg ≡ ok r)
        ↔ ((values : List String) × Values json raw values × Names cfg values r)
  resolve_role_iff raw r = (
    sound raw r,
    λ (values, read, n).
        complete raw r values (Values-Reads json raw values read) (Names-Matches cfg values r n),
  )

-- The roles that `resolveRole` answers with.
pub role_of_three :
    (json : Json) (cfg : Config) (raw : Option Raw) (r : Role)
    → resolve_role json raw cfg ≡ ok r
    → (r ≡ role_customer) ⊎ ((r ≡ role_admin) ⊎ (r ≡ role_system))
role_of_three json cfg raw r h =
    let (values, read, names) = (resolve_role_iff json cfg raw r).0 h in one_of r names.named.2
  where
    one_of :
        {v : String} (r : Role)
        → Maps cfg v r
        → (r ≡ role_customer) ⊎ ((r ≡ role_admin) ⊎ (r ≡ role_system))
    one_of _ (customer e) = inl refl
    one_of _ (admin n e) = inr (inl refl)
    one_of _ (system n m e) = inr (inr refl)
