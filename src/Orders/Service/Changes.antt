-- ===== src/Orders/Service/Changes.antt =====
-- Calls that read, calls that fail, and calls that make one change of the tables at most: one rule for each
-- way in which service.go puts calls together.
use oms_go.Prelude.{
  ◌≡◌, refl, sym, ◌∙◌, subst, Option, none, some, List, [], ◌∷◌, Bool-cases, inl, inr,
}
use oms_go.Prelude.Exec.{Result, ok, err, Exec, lift, continue, recover, handle, ◌>>=◌, ◌>>◌}
use oms_go.Db.Tables.{Tables, DbError, no_rows, pg_error, connection}
use oms_go.Db.World.{World}
use oms_go.Orders.Errors.{OrderStatus, Error, FieldError}
use oms_go.Orders.StateMachine.Graph.{
  Transition, Verdict, accepted, from_unknown, to_unknown, refused,
}
use oms_go.Orders.Transaction.Outcomes.{Outcome, changed, nothing}
use oms_go.Orders.Service.{
  check, or_not_found, or_conflict, from_db, invalid, is_idempotency_conflict_error,
}

-- The tables stay.
pub record Reads {E A : Type 0} (call : Exec World E A) : Type 0 where
  pub same : (w : World) → (call w).1.tables ≡ w.tables

-- The tables stay, and the answer is an error.
pub record Fails {E A : Type 0} (call : Exec World E A) : Type 0 where
  pub fails : (w : World) → (e : E) × ((call w).0 ≡ err e) × ((call w).1.tables ≡ w.tables)

-- From tables where `Valid` holds, one change at most.
pub record Changes (Valid : Tables → Type 0) (Change : Tables → Tables → Type 0) {E A : Type 0}
    (call : Exec World E A) : Type 0 where
  pub outcome : (w : World) → Valid w.tables → Outcome Change (call w).0 w.tables (call w).1.tables

module _ {E : Type 0} where
  pub Reads-lift : {A : Type 0} (answer : Result E A) → Reads (lift answer)
  Reads-lift answer = record { same = λ w. refl }

  Reads-continue :
      {A B : Type 0} (first : Result E A) (rest : A → Exec World E B)
      → ((x : A) → Reads (rest x))
      → Reads (continue first rest)
  Reads-continue (ok x) rest each = each x
  Reads-continue (err e) rest each = Reads-lift (err e)

  pub Reads-bind :
      {A B : Type 0} (call : Exec World E A) (rest : A → Exec World E B)
      → Reads call
      → ((x : A) → Reads (rest x))
      → Reads (call >>= rest)
  unfolding ◌>>=◌
  Reads-bind call rest first each = record {
    same = λ w. (Reads-continue (call w).0 rest each).same (call w).1 ∙ first.same w;
  }

  Reads-recover :
      {F A : Type 0} (answer : Result E A) (handler : E → Exec World F A)
      → ((e : E) → Reads (handler e))
      → Reads (recover answer handler)
  Reads-recover (ok x) handler each = record { same = λ w. refl }
  Reads-recover (err e) handler each = each e

  pub Reads-handle :
      {F A : Type 0} (call : Exec World E A) (handler : E → Exec World F A)
      → Reads call
      → ((e : E) → Reads (handler e))
      → Reads (handle call handler)
  unfolding handle
  Reads-handle call handler tried each = record {
    same = λ w. (Reads-recover (call w).0 handler each).same (call w).1 ∙ tried.same w;
  }

pub Reads-of_Fails : {E A : Type 0} {call : Exec World E A} → Fails call → Reads call
Reads-of_Fails f = record { same = λ w. let (e, failed, kept) = f.fails w in kept }

module _ {E : Type 0} where
  Fails-continue :
      {A B : Type 0} (first : Result E A) (rest : A → Exec World E B)
      → ((x : A) → Fails (rest x))
      → Fails (continue first rest)
  Fails-continue (ok x) rest each = each x
  Fails-continue (err e) rest each = record { fails = λ w. (e, refl, refl) }

  pub Fails-bind :
      {A B : Type 0} (call : Exec World E A) (rest : A → Exec World E B)
      → Reads call
      → ((x : A) → Fails (rest x))
      → Fails (call >>= rest)
  unfolding ◌>>=◌
  Fails-bind call rest first each = record {
    fails = λ w.
        let (e, failed, kept) = (Fails-continue (call w).0 rest each).fails (call w).1 in
        (e, failed, kept ∙ first.same w);
  }

module _ (Valid : Tables → Type 0) (Change : Tables → Tables → Type 0) {E : Type 0} where
  -- A call that reads first.
  pub Changes-after :
      {A B : Type 0} (call : Exec World E A) (rest : A → Exec World E B)
      → Reads call
      → ((x : A) → Changes Valid Change (rest x))
      → Changes Valid Change (call >>= rest)
  unfolding ◌>>=◌
  Changes-after {A} {B} call rest first each = record {
    outcome = λ w v. go w v (call w).0 (call w).1 (first.same w);
  }
    where
      go :
          (w : World)
          → Valid w.tables
          → (r : Result E A) (w1 : World) → w1.tables ≡ w.tables
          → Outcome Change (continue r rest w1).0 w.tables (continue r rest w1).1.tables
      go w v (ok x) w1 same =
          subst (λ t. Outcome Change (rest x w1).0 t (rest x w1).1.tables) same
            ((each x).outcome w1 (subst Valid (sym same) v))
      go w v (err e) w1 same = nothing e refl same

  -- A call that reads afterwards.
  pub Changes-before :
      {A B : Type 0} (call : Exec World E A) (rest : A → Exec World E B)
      → Changes Valid Change call
      → ((x : A) → Reads (rest x))
      → Changes Valid Change (call >>= rest)
  unfolding ◌>>=◌
  Changes-before {A} {B} call rest first each = record {
    outcome = λ w v. go w.tables (call w).0 (call w).1 (first.outcome w v);
  }
    where
      go :
          (t : Tables) (r : Result E A) (w1 : World)
          → Outcome Change r t w1.tables
          → Outcome Change (continue r rest w1).0 t (continue r rest w1).1.tables
      go t (ok x) w1 (changed c) = changed (subst (Change t) (sym ((each x).same w1)) c)
      go t (err e) w1 (changed c) = changed c
      go t (ok x) w1 (nothing e q same) = absurd (cc)
      go t (err x) w1 (nothing e q same) = nothing x refl same

  -- An error is passed on as another one.
  pub Changes-handle :
      {F A : Type 0} (call : Exec World E A) (handler : E → Exec World F A)
      → Changes Valid Change call
      → ((e : E) → Fails (handler e))
      → Changes Valid Change (handle call handler)
  unfolding handle
  Changes-handle {F} {A} call handler tried each = record {
    outcome = λ w v. go w.tables (call w).0 (call w).1 (tried.outcome w v);
  }
    where
      go :
          (t : Tables) (r : Result E A) (w1 : World)
          → Outcome Change r t w1.tables
          → Outcome Change (recover r handler w1).0 t (recover r handler w1).1.tables
      go t (ok x) w1 (changed c) = changed c
      go t (err e) w1 (changed c) =
          changed (subst (Change t) (sym ((Reads-of_Fails (each e)).same w1)) c)
      go t (ok x) w1 (nothing e q same) = absurd (cc)
      go t (err x) w1 (nothing e q same) =
          let (y, failed, kept) = (each x).fails w1 in nothing y failed (kept ∙ same)

  -- The rest of a block that is reached with the value of a computation.
  pub Changes-lift :
      {A B : Type 0} (answer : Result E A) (rest : A → Exec World E B)
      → ((x : A) → answer ≡ ok x → Changes Valid Change (rest x))
      → Changes Valid Change (lift answer >>= rest)
  unfolding ◌>>=◌
  Changes-lift (ok x) rest each = record { outcome = λ w v. (each x refl).outcome w v }
  Changes-lift (err e) rest each = record { outcome = λ w v. nothing e refl refl }

module _ {E A : Type 0} where
  -- `return …, err`.
  pub Fails-raise : (e : E) → Fails {A = A} (λ (w : World). (err e, w))
  Fails-raise e = record { fails = λ w. (e, refl, refl) }

pub Reads-check : (o : Option Error) → Reads (check {S = World} o)
unfolding check
Reads-check none = record { same = λ w. refl }
Reads-check (some e) = record { same = λ w. refl }

pub Reads-invalid : (es : List FieldError) → Reads (invalid {S = World} es)
unfolding invalid
Reads-invalid [] = record { same = λ w. refl }
Reads-invalid (e ∷ es) = record { same = λ w. refl }

pub Reads-or_not_found : {A : Type 0} (e : DbError) → Reads (or_not_found {S = World} {A = A} e)
unfolding or_not_found
Reads-or_not_found no_rows = record { same = λ w. refl }
Reads-or_not_found (pg_error c n) = record { same = λ w. refl }
Reads-or_not_found connection = record { same = λ w. refl }

pub Fails-or_conflict : {A : Type 0} (e : DbError) → Fails (or_conflict {S = World} {A = A} e)
unfolding or_conflict
Fails-or_conflict e = elim (Bool-cases (is_idempotency_conflict_error e)) [
  | inl c ↦ rw c (Fails-raise _)
  | inr c ↦ rw c (Fails-raise _)
]

pub Reads-from_db : {A : Type 0} (m : Exec World DbError A) → Reads m → Reads (from_db m)
Reads-from_db m k = Reads-handle m _ k (λ e. record { same = λ w. refl })

module _ (Valid : Tables → Type 0) (Change : Tables → Tables → Type 0) where
  pub Changes-from_db :
      {A : Type 0} (m : Exec World DbError A)
      → Changes Valid Change m
      → Changes Valid Change (from_db m)
  Changes-from_db m k = Changes-handle Valid Change m _ k (λ e. Fails-raise _)

  pub Changes-validated :
      {A : Type 0} (from to : OrderStatus) (o : Option Error) (m : Exec World Error A)
      → Verdict from to o
      → (Transition from to → Changes Valid Change m)
      → Changes Valid Change (check o >> m)
  unfolding check ◌>>=◌
  Changes-validated from to o m (accepted t e) k = rw e (k t)
  Changes-validated from to o m (from_unknown _ e) k =
      rw e (record { outcome = λ w v. nothing _ refl refl })
  Changes-validated from to o m (to_unknown _ _ e) k =
      rw e (record { outcome = λ w v. nothing _ refl refl })
  Changes-validated from to o m (refused _ _ _ e) k =
      rw e (record { outcome = λ w v. nothing _ refl refl })
