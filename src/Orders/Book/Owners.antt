-- ===== src/Orders/Book/Owners.antt =====
-- The changes of the book that concern one customer.
use oms_go.Prelude.{◌≡◌, refl, ◌∙◌, Bool-cases, inl, inr, Option, none, some, ◌==◌, ==_iff, ap}
use oms_go.Db.Models.{Uuid}
use oms_go.Orders.StateMachine.{status_pending, status_cancelled}
use oms_go.Orders.Book.{Entry, Book, with_status, put, Places, Cancels}

-- What a customer's own requests do to an entry: a new one of theirs appears and is pending, or one of
-- theirs that was pending is cancelled.
pub data Own (c : Uuid) (before after : Option Entry) : Type 0 where
  kept : after ≡ before → Own c before after
  opened :
      (e : Entry)
      → e.customer_id ≡ c
      → e.status ≡ status_pending
      → before ≡ none
      → after ≡ some e
      → Own c before after
  withdrawn :
      (e : Entry)
      → e.customer_id ≡ c
      → e.status ≡ status_pending
      → before ≡ some e
      → after ≡ some (with_status status_cancelled e)
      → Own c before after

pub Places-Own :
    (c : Uuid) (e : Entry) {b b' : Book}
    → e.customer_id ≡ c
    → e.status ≡ status_pending
    → Places e b b'
    → (j : Uuid) → Own c (b j) (b' j)
unfolding put
Places-Own c e {b} {b'} owner pending p j = elim (Bool-cases (j == p.id)) [
  | inl same ↦
      opened e owner pending (ap b ((==_iff j p.id).0 same) ∙ p.unused) (p.placed j ∙ rw same refl)
  | inr other ↦ kept (p.placed j ∙ rw other refl)
]

pub Cancels-Own : (k c : Uuid) {b b' : Book} → Cancels k c b b' → (j : Uuid) → Own c (b j) (b' j)
unfolding put
Cancels-Own k c {b} {b'} x j = elim (Bool-cases (j == k)) [
  | inl same ↦
      withdrawn x.entry x.owner x.moves.at (ap b ((==_iff j k).0 same) ∙ x.moves.there)
        (x.moves.moved j ∙ rw same refl)
  | inr other ↦ kept (x.moves.moved j ∙ rw other refl)
]
