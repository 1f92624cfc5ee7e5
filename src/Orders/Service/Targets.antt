-- ===== src/Orders/Service/Targets.antt =====
-- internal/orders/service.go: `expectedStatusForTarget` and the diagram.
use oms_go.Prelude.{◌≡◌, sym, ◌↔◌, false, Option, str_eq, eq_iff, Bool-cases, inl, inr}
use oms_go.Prelude.Exec.{Result, ok}
use oms_go.Orders.Errors.{OrderStatus, Error}
use oms_go.Orders.StateMachine.{
  status_pending, status_processing, status_shipped, status_delivered, status_cancelled,
}
use oms_go.Orders.StateMachine.Graph.{
  Transition, process, cancel, ship, deliver, accepted, from_unknown, to_unknown, refused, Verdict,
  validate_transition-Verdict,
}
use oms_go.Orders.Service.{expected_status_for_target, refusal}

answer : {a b : OrderStatus} → ◌≡◌ {A = Result Error OrderStatus} (ok a) (ok b) → a ≡ b
answer e = cc

pending-ne-processing : ¬ (◌≡◌ {A = OrderStatus} status_pending status_processing)
pending-ne-processing e = cc ((eq_iff status_pending status_processing).1 e)

pending-ne-shipped : ¬ (◌≡◌ {A = OrderStatus} status_pending status_shipped)
pending-ne-shipped e = cc ((eq_iff status_pending status_shipped).1 e)

-- An edge from pending leads to a status that has its own case in the switch.
no_other_edge :
    (target : OrderStatus)
    → str_eq target status_processing ≡ false
    → str_eq target status_cancelled ≡ false
    → ¬ Transition status_pending target
no_other_edge target p c (process _ e) = let t = (eq_iff target status_processing).1 e in cc
no_other_edge target p c (cancel _ e) = let t = (eq_iff target status_cancelled).1 e in cc
no_other_edge target p c (ship e _) = absurd (pending-ne-processing e)
no_other_edge target p c (deliver e _) = absurd (pending-ne-shipped e)

refused_of :
    (target : OrderStatus) (o : Option Error) (s : OrderStatus)
    → ¬ Transition status_pending target
    → Verdict status_pending target o
    → refusal o ≡ ok s
    → ⊥
unfolding refusal
refused_of target o s no_edge (accepted t e) h = no_edge t
refused_of target o s no_edge (from_unknown _ e) h = cc (rw e at h)
refused_of target o s no_edge (to_unknown _ _ e) h = cc (rw e at h)
refused_of target o s no_edge (refused _ _ _ e) h = cc (rw e at h)

target_sound :
    (s target : OrderStatus) → expected_status_for_target target ≡ ok s → Transition s target
unfolding expected_status_for_target
target_sound s target h = elim (Bool-cases (str_eq target status_processing)) [
  | inl p ↦ process (sym (answer (rw p at h))) ((eq_iff _ _).0 p)
  | inr p ↦ elim (Bool-cases (str_eq target status_shipped)) [
    | inl q ↦ ship (sym (answer (rw (p, q) at h))) ((eq_iff _ _).0 q)
    | inr q ↦ elim (Bool-cases (str_eq target status_delivered)) [
      | inl r ↦ deliver (sym (answer (rw (p, q, r) at h))) ((eq_iff _ _).0 r)
      | inr r ↦ elim (Bool-cases (str_eq target status_cancelled)) [
        | inl c ↦ cancel (sym (answer (rw (p, q, r, c) at h))) ((eq_iff _ _).0 c)
        | inr c ↦ absurd (
            refused_of target _ s (no_other_edge target p c)
              (validate_transition-Verdict status_pending target) (rw (p, q, r, c) at h))
      ]
    ]
  ]
]

target_complete :
    (s target : OrderStatus) → Transition s target → expected_status_for_target target ≡ ok s
unfolding expected_status_for_target
target_complete s target (process p q) = rw (p, q)
target_complete s target (cancel p q) = rw (p, q)
target_complete s target (ship p q) = rw (p, q)
target_complete s target (deliver p q) = rw (p, q)

-- `expectedStatusForTarget` answers with a status exactly if the diagram has an edge from it to the
-- target: every target has at most one predecessor, and without one there is an error.
pub expected_status_for_target_iff :
    (s target : OrderStatus) → (expected_status_for_target target ≡ ok s) ↔ Transition s target
expected_status_for_target_iff s target = (target_sound s target, target_complete s target)
