-- ===== src/Prelude/Exec.antt =====
-- Calls that change a state and may fail: Go's `(A, error)` with what the callee has done to the state.
-- What was done before a failure stays done, so the state comes back beside the error too.
use mathlib.Core.Option.{Option, none, some}
use mathlib.Core.Path.{◌≡◌, refl, ap, ◌∙◌}

pub data Result (E A : Type 0) : Type 0 where
  ok : A → Result E A
  err : E → Result E A

pub ok-injective : {E A : Type 0} {a b : A} → ◌≡◌ {A = Result E A} (ok a) (ok b) → a ≡ b
ok-injective h = cc

abbrev pub Exec : Type 0 → Type 0 → Type 0 → Type 0
Exec S E A = S → Result E A × S

module _ {S E A : Type 0} where
  abbrev pub pure : A → Exec S E A
  pure a s = (ok a, s)

  abbrev pub raise : E → Exec S E A
  raise e s = (err e, s)

  abbrev pub lift : Result E A → Exec S E A
  lift r s = (r, s)

abbrev pub continue : {S E A B : Type 0} → Result E A → (A → Exec S E B) → Exec S E B
continue (ok a) f s = f a s
continue (err e) f s = (err e, s)

infixl 5 ◌>>=◌ ◌>>◌
unfoldable pub ◌>>=◌ : {S E A B : Type 0} → Exec S E A → (A → Exec S E B) → Exec S E B
◌>>=◌ m f s = let (r, s') = m s in continue r f s'

abbrev pub ◌>>◌ : {S E A B : Type 0} → Exec S E A → Exec S E B → Exec S E B
m >> k = m >>= λ _. k

-- `if err != nil { return handler(err) }`.
abbrev pub recover : {S E F A : Type 0} → Result E A → (E → Exec S F A) → Exec S F A
recover (ok a) handler s = (ok a, s)
recover (err e) handler s = handler e s

unfoldable pub handle : {S E F A : Type 0} → Exec S E A → (E → Exec S F A) → Exec S F A
handle m handler s = let (r, s') = m s in recover r handler s'

-- A successful sequence has succeeded in both parts.
pub >>=-eq-ok :
    {S E A B : Type 0} (m : Exec S E A) (f : A → Exec S E B) (s : S) {b : B} {u : S}
    → (m >>= f) s ≡ (ok b, u)
    → (a : A) × (t : S) × (m s ≡ (ok a, t)) × (f a t ≡ (ok b, u))
unfolding ◌>>=◌
>>=-eq-ok {S} {E} {A} m f s {b} {u} h = go (m s) refl h
  where
    go :
        (r : Result E A × S)
        → m s ≡ r
        → continue r.0 f r.1 ≡ (ok b, u)
        → (a : A) × (t : S) × (m s ≡ (ok a, t)) × (f a t ≡ (ok b, u))
    go (ok a, t) e k = (a, t, e, k)
    go (err x, t) e k = absurd (cc)

-- Where the handler only fails, a success is the call's own.
pub handle-eq-ok :
    {S E F A : Type 0} (m : Exec S E A) (f : E → Exec S F A) (s : S) {a : A} {u : S}
    → ((e : E) (t : S) → (b : F) × ((f e t).0 ≡ err b))
    → handle m f s ≡ (ok a, u)
    → m s ≡ (ok a, u)
unfolding handle
handle-eq-ok {S} {E} {F} {A} m f s {a} {u} fails h = go (m s) refl h
  where
    go : (r : Result E A × S) → m s ≡ r → recover r.0 f r.1 ≡ (ok a, u) → m s ≡ (ok a, u)
    go (ok x, t) e k = e ∙ λ i. (answer i, (ap (λ (z : Result F A × S). z.1) k) i)
      where
        answer : ◌≡◌ {A = Result E A} (ok x) (ok a)
        answer = let same = ap (λ (z : Result F A × S). z.0) k in cc
    go (err x, t) e k =
        let (b, failed) = fails x t in let same = ap (λ (z : Result F A × S). z.0) k in absurd (cc)

-- The same without a state: `a, err := …; if err != nil { return err }`.
abbrev pub and_then : {E A B : Type 0} → Result E A → (A → Result E B) → Result E B
and_then (ok a) f = f a
and_then (err e) f = err e

-- `if err != nil { return other }`.
abbrev pub or_fail : {E F A : Type 0} → F → Result E A → Result F A
or_fail e (ok a) = ok a
or_fail e (err _) = err e

-- A value and its `ok` flag, or an error that says no more than that there is none.
abbrev pub some_or_fail : {F A : Type 0} → F → Option A → Result F A
some_or_fail e none = err e
some_or_fail e (some a) = ok a

pub and_then-eq-ok :
    {E A B : Type 0} (r : Result E A) (f : A → Result E B) {b : B}
    → and_then r f ≡ ok b
    → (a : A) × (r ≡ ok a) × (f a ≡ ok b)
and_then-eq-ok (ok a) f h = (a, refl, h)
and_then-eq-ok (err e) f h = absurd (cc)

-- The value and the state of a success.
pub answer-injective :
    {S E A : Type 0} {a b : A} {s t : S}
    → ◌≡◌ {A = Result E A × S} (ok a, s) (ok b, t)
    → (a ≡ b) × (s ≡ t)
answer-injective {S} {E} {A} h =
    let same : ◌≡◌ {A = Result E A} (ok _) (ok _) = ap (λ (z : Result E A × S). z.0) h in
    ((cc), ap (λ (z : Result E A × S). z.1) h)

-- What holds of both ways that a call may come back holds of a sequence, and of a call with a handler.
pub >>=-cases :
    {S E A B : Type 0} (Q : Result E B × S → Type 0) (m : Exec S E A) (f : A → Exec S E B) (s : S)
    → ((a : A) (t : S) → m s ≡ (ok a, t) → Q (f a t))
    → ((e : E) (t : S) → m s ≡ (err e, t) → Q (err e, t))
    → Q ((m >>= f) s)
unfolding ◌>>=◌
>>=-cases {S} {E} {A} Q m f s good bad = go (m s) refl
  where
    go : (r : Result E A × S) → m s ≡ r → Q (continue r.0 f r.1)
    go (ok a, t) e = good a t e
    go (err x, t) e = bad x t e

pub handle-cases :
    {S E F A : Type 0} (Q : Result F A × S → Type 0) (m : Exec S E A) (f : E → Exec S F A) (s : S)
    → ((a : A) (t : S) → m s ≡ (ok a, t) → Q (ok a, t))
    → ((e : E) (t : S) → m s ≡ (err e, t) → Q (f e t))
    → Q (handle m f s)
unfolding handle
handle-cases {S} {E} {F} {A} Q m f s good bad = go (m s) refl
  where
    go : (r : Result E A × S) → m s ≡ r → Q (recover r.0 f r.1)
    go (ok a, t) e = good a t e
    go (err x, t) e = bad x t e

-- Where an error is passed on as another one, an error is the call's own.
pub handle-eq-err :
    {S E F A : Type 0} (m : Exec S E A) (g : E → F) (s : S) {x : F} {u : S}
    → handle m (λ e. raise (g e)) s ≡ (err x, u)
    → (e : E) × (m s ≡ (err e, u))
unfolding handle
handle-eq-err {S} {E} {F} {A} m g s {x} {u} h = go (m s) refl h
  where
    go :
        (r : Result E A × S)
        → m s ≡ r
        → recover r.0 (λ e. raise (g e)) r.1 ≡ (err x, u)
        → (e : E) × (m s ≡ (err e, u))
    go (ok a, t) e k = let same = ap (λ (z : Result F A × S). z.0) k in absurd (cc)
    go (err y, t) e k = (y, e ∙ λ i. (err y, (ap (λ (z : Result F A × S). z.1) k) i))
