-- ===== src/Orders/Service/SafeCalls.antt =====
-- Invariants of calls, one rule for each way in which service.go puts calls together.
use oms_go.Prelude.{
  Option, none, some, List, [], ◌∷◌, Bool, true, false, Bool-cases, inl, inr, if◌then◌else◌,
}
use oms_go.Prelude.Exec.{Result, ok, err, Exec, lift, continue, recover, handle, ◌>>=◌, ◌>>◌}
use oms_go.Db.Tables.{DbError, no_rows, pg_error, connection}
use oms_go.Orders.Errors.{OrderStatus, Error, FieldError}
use oms_go.Orders.StateMachine.Graph.{
  Transition, Verdict, accepted, from_unknown, to_unknown, refused,
}
use oms_go.Orders.Service.{
  check, or_not_found, or_conflict, from_db, invalid, is_idempotency_conflict_error,
}

-- Where P holds, it holds after the call too, with or without an error.
pub record Safe {S E A : Type 0} (P : S → Type 0) (call : Exec S E A) : Type 0 where
  pub after : (w : S) → P w → P (call w).1

module _ {S E : Type 0} (P : S → Type 0) where
  -- A value or an error, without a look at the state.
  pub Safe-lift : {A : Type 0} (answer : Result E A) → Safe P (lift answer)
  Safe-lift answer = record { after = λ w holds. holds }

  Safe-continue :
      {A B : Type 0} (first : Result E A) (rest : A → Exec S E B)
      → ((x : A) → Safe P (rest x))
      → Safe P (continue first rest)
  Safe-continue (ok x) rest each = each x
  Safe-continue (err e) rest each = Safe-lift (err e)

  pub Safe-bind :
      {A B : Type 0} (call : Exec S E A) (rest : A → Exec S E B)
      → Safe P call
      → ((x : A) → Safe P (rest x))
      → Safe P (call >>= rest)
  unfolding ◌>>=◌
  Safe-bind call rest first each = record {
    after = λ w holds. (Safe-continue (call w).0 rest each).after (call w).1 (first.after w holds);
  }

  Safe-recover :
      {F A : Type 0} (answer : Result E A) (handler : E → Exec S F A)
      → ((e : E) → Safe P (handler e))
      → Safe P (recover answer handler)
  Safe-recover (ok x) handler each = record { after = λ w holds. holds }
  Safe-recover (err e) handler each = each e

  pub Safe-handle :
      {F A : Type 0} (call : Exec S E A) (handler : E → Exec S F A)
      → Safe P call
      → ((e : E) → Safe P (handler e))
      → Safe P (handle call handler)
  unfolding handle
  Safe-handle call handler tried each = record {
    after =
        λ w holds. (Safe-recover (call w).0 handler each).after (call w).1 (tried.after w holds);
  }

module _ {S E : Type 0} (P : S → Type 0) where
  pub Safe-if :
      {A : Type 0} (test : Bool) (m k : Exec S E A)
      → Safe P m
      → Safe P k
      → Safe P (if test then m else k)
  Safe-if true m k p q = p
  Safe-if false m k p q = q

module _ {S : Type 0} (P : S → Type 0) where
  pub Safe-check : (o : Option Error) → Safe P (check o)
  unfolding check
  Safe-check none = record { after = λ w holds. holds }
  Safe-check (some e) = record { after = λ w holds. holds }

  pub Safe-invalid : (es : List FieldError) → Safe P (invalid es)
  unfolding invalid
  Safe-invalid [] = record { after = λ w holds. holds }
  Safe-invalid (e ∷ es) = record { after = λ w holds. holds }

  -- The rest of a block after a transition that was let through.
  pub Safe-validated :
      {A : Type 0} (from to : OrderStatus) (o : Option Error) (m : Exec S Error A)
      → Verdict from to o
      → (Transition from to → Safe P m)
      → Safe P (check o >> m)
  unfolding check ◌>>=◌
  Safe-validated from to o m (accepted t e) k = rw e (k t)
  Safe-validated from to o m (from_unknown _ e) k = rw e (record { after = λ w holds. holds })
  Safe-validated from to o m (to_unknown _ _ e) k = rw e (record { after = λ w holds. holds })
  Safe-validated from to o m (refused _ _ _ e) k = rw e (record { after = λ w holds. holds })

  pub Safe-or_not_found : {A : Type 0} (e : DbError) → Safe P (or_not_found {A = A} e)
  unfolding or_not_found
  Safe-or_not_found no_rows = record { after = λ w holds. holds }
  Safe-or_not_found (pg_error c n) = record { after = λ w holds. holds }
  Safe-or_not_found connection = record { after = λ w holds. holds }

  pub Safe-or_conflict : {A : Type 0} (e : DbError) → Safe P (or_conflict {A = A} e)
  unfolding or_conflict
  Safe-or_conflict e = elim (Bool-cases (is_idempotency_conflict_error e)) [
    | inl c ↦ rw c (record { after = λ w holds. holds })
    | inr c ↦ rw c (record { after = λ w holds. holds })
  ]

  pub Safe-from_db : {A : Type 0} (m : Exec S DbError A) → Safe P m → Safe P (from_db m)
  Safe-from_db m k = Safe-handle P m _ k (λ e. record { after = λ w holds. holds })
