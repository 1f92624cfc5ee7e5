-- ===== src/Orders/StateMachine/Graph.antt =====
-- The transition diagram as a relation on texts, and what the tests of state_machine.go decide.
use oms_go.Prelude.{
  ◌≡◌, refl, sym, ◌↔◌, ◌⊎◌, inl, inr, Bool, true, false, Option, none, some, List, [], ◌∷◌, arith,
  str_eq, eq_iff, Bool-cases,
}
use oms_go.Orders.Errors.{OrderStatus, Error, unknown_status, invalid_transition}
use oms_go.Orders.StateMachine.{
  status_pending, status_processing, status_shipped, status_delivered, status_cancelled,
  valid_statuses, allowed_transitions, has_key, next_of, is_valid_status, can_transition,
  validate_transition,
}

pub data IsStatus (s : OrderStatus) : Type 0 where
  pending : s ≡ status_pending → IsStatus s
  processing : s ≡ status_processing → IsStatus s
  shipped : s ≡ status_shipped → IsStatus s
  delivered : s ≡ status_delivered → IsStatus s
  cancelled : s ≡ status_cancelled → IsStatus s

pub data Transition (from to : OrderStatus) : Type 0 where
  process : from ≡ status_pending → to ≡ status_processing → Transition from to
  cancel : from ≡ status_pending → to ≡ status_cancelled → Transition from to
  ship : from ≡ status_processing → to ≡ status_shipped → Transition from to
  deliver : from ≡ status_shipped → to ≡ status_delivered → Transition from to

-- `k` is among the texts, as a sum that computes at a written list.
abbrev OneOf : OrderStatus → List OrderStatus → Type 0
OneOf k [] = ⊥
OneOf k (s ∷ rest) = (k ≡ s) ⊎ OneOf k rest

OneOf-of_has_key :
    (k : OrderStatus) (keys : List OrderStatus) → has_key k keys ≡ true → OneOf k keys
unfolding has_key
OneOf-of_has_key k [] h = cc
OneOf-of_has_key k (s ∷ rest) h = elim (Bool-cases (str_eq s k)) [
  | inl same ↦ inl (sym ((eq_iff s k).0 same))
  | inr other ↦ inr (OneOf-of_has_key k rest (rw other at h))
]

is_valid_status_sound : (s : OrderStatus) → is_valid_status s ≡ true → IsStatus s
unfolding is_valid_status
is_valid_status_sound s h = elim (OneOf-of_has_key s valid_statuses h) [
  | inl e ↦ pending e
  | inr (inl e) ↦ processing e
  | inr (inr (inl e)) ↦ shipped e
  | inr (inr (inr (inl e))) ↦ delivered e
  | inr (inr (inr (inr (inl e)))) ↦ cancelled e
  | inr (inr (inr (inr (inr e)))) ↦ absurd e
]

is_valid_status_complete : (s : OrderStatus) → IsStatus s → is_valid_status s ≡ true
unfolding is_valid_status
is_valid_status_complete s (pending e) = rw e
is_valid_status_complete s (processing e) = rw e
is_valid_status_complete s (shipped e) = rw e
is_valid_status_complete s (delivered e) = rw e
is_valid_status_complete s (cancelled e) = rw e

pub is_valid_status_iff : (s : OrderStatus) → (is_valid_status s ≡ true) ↔ IsStatus s
is_valid_status_iff s = (is_valid_status_sound s, is_valid_status_complete s)

can_row :
    (from to : OrderStatus) (next : List OrderStatus)
    → next_of from allowed_transitions ≡ some next
    → can_transition from to ≡ true
    → has_key to next ≡ true
unfolding can_transition
can_row from to next row h = ground arith

-- Where `from` is known, so is the row of `allowedTransitions` that is searched.
row_of :
    (from to : OrderStatus) (next : List OrderStatus)
    → next_of from allowed_transitions ≡ some next
    → can_transition from to ≡ true
    → OneOf to next
row_of from to next row h = OneOf-of_has_key to next (can_row from to next row h)

can_transition-valid :
    (from to : OrderStatus) → can_transition from to ≡ true → is_valid_status from ≡ true
unfolding can_transition
can_transition-valid from to h = ground arith

-- A status without a row has no successor.
no_row :
    (from to : OrderStatus)
    → next_of from allowed_transitions ≡ none
    → can_transition from to ≡ false
unfolding can_transition
no_row from to row = ground arith

can_transition_sound :
    (from to : OrderStatus) → IsStatus from → can_transition from to ≡ true → Transition from to
unfolding next_of
can_transition_sound from to (pending e) h =
    elim (row_of from to (status_processing ∷ status_cancelled ∷ []) (rw e refl) h) [
      | inl p ↦ process e p
      | inr (inl p) ↦ cancel e p
      | inr (inr p) ↦ absurd p
    ]
can_transition_sound from to (processing e) h =
    elim (row_of from to (status_shipped ∷ []) (rw e refl) h) [
      | inl p ↦ ship e p
      | inr p ↦ absurd p
    ]
can_transition_sound from to (shipped e) h =
    elim (row_of from to (status_delivered ∷ []) (rw e refl) h) [
      | inl p ↦ deliver e p
      | inr p ↦ absurd p
    ]
can_transition_sound from to (delivered e) h = let stuck = no_row from to (rw e refl) in absurd (cc)
can_transition_sound from to (cancelled e) h = let stuck = no_row from to (rw e refl) in absurd (cc)

can_transition_complete :
    (from to : OrderStatus) → Transition from to → can_transition from to ≡ true
unfolding can_transition
can_transition_complete from to (process p q) = rw (p, q)
can_transition_complete from to (cancel p q) = rw (p, q)
can_transition_complete from to (ship p q) = rw (p, q)
can_transition_complete from to (deliver p q) = rw (p, q)

-- `CanTransition` holds exactly along the four edges of the diagram, for all texts.
pub can_transition_iff :
    (from to : OrderStatus) → (can_transition from to ≡ true) ↔ Transition from to
can_transition_iff from to = (
  λ h. can_transition_sound from to (is_valid_status_sound from (can_transition-valid from to h)) h,
  can_transition_complete from to,
)

-- What a transition deserves, read off the diagram.
pub data Verdict (from to : OrderStatus) (r : Option Error) : Type 0 where
  accepted : Transition from to → r ≡ none → Verdict from to r
  from_unknown : ¬ IsStatus from → r ≡ some (unknown_status from) → Verdict from to r
  to_unknown : IsStatus from → ¬ IsStatus to → r ≡ some (unknown_status to) → Verdict from to r
  refused :
      IsStatus from
      → IsStatus to
      → ¬ Transition from to
      → r ≡ some (invalid_transition (some (from, to)))
      → Verdict from to r

not_of {ℓ} : {A : Type ℓ} {b : Bool} → (b ≡ true) ↔ A → b ≡ false → ¬ A
not_of e h a = let t = e.1 a in cc

-- `ValidateTransition` answers nil for an edge of the diagram, the first unknown text otherwise, and
-- an invalid transition if both texts are statuses.
pub validate_transition-Verdict :
    (from to : OrderStatus) → Verdict from to (validate_transition from to)
unfolding validate_transition
validate_transition-Verdict from to = elim (Bool-cases (is_valid_status from)) [
  | inr bad ↦ from_unknown (not_of (is_valid_status_iff from) bad) (rw bad)
  | inl ok_from ↦ elim (Bool-cases (is_valid_status to)) [
    | inr bad ↦
        to_unknown ((is_valid_status_iff from).0 ok_from) (not_of (is_valid_status_iff to) bad)
          (rw (ok_from, bad))
    | inl ok_to ↦ elim (Bool-cases (can_transition from to)) [
      | inl edge ↦ accepted ((can_transition_iff from to).0 edge) (rw (ok_from, ok_to, edge))
      | inr none_such ↦
          refused ((is_valid_status_iff from).0 ok_from) ((is_valid_status_iff to).0 ok_to)
            (not_of (can_transition_iff from to) none_such) (rw (ok_from, ok_to, none_such))
    ]
  ]
]
