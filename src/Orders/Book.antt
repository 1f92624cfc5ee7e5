-- ===== src/Orders/Book.antt =====
-- What the orders' tables promise to a client, whichever rows hold it: a book that has at most one entry
-- for each order id, without its times, and the changes that an entry can see.
pub mod Entries
pub mod Updates
pub mod Owners
use oms_go.Prelude.{ℕ, ◌≡◌, ◌⊎◌, Option, none, some, String, List, [], ◌∷◌, ◌==◌, if◌then◌else◌}
use oms_go.Prelude.Int.{ℤ}
use oms_go.Db.Models.{Uuid, Order}
use oms_go.Db.Tables.{Tables}
use oms_go.Orders.Errors.{OrderStatus}
use oms_go.Orders.StateMachine.{status_pending, status_processing, status_cancelled}
use oms_go.Orders.StateMachine.Graph.{Transition}

pub record Entry : Type 0 where
  pub customer_id : Uuid
  pub idempotency_key : String
  pub status : OrderStatus
  pub total_cents : ℤ
  pub currency : String

abbrev pub Book : Type 0
Book = Uuid → Option Entry

abbrev pub entry_of : Order → Entry
entry_of o = record {
  customer_id = o.customer_id;
  idempotency_key = o.idempotency_key;
  status = o.status;
  total_cents = o.total_cents;
  currency = o.currency;
}

unfoldable pub book_of : List Order → Book
book_of [] k = none
book_of (o ∷ os) k = if o.id == k then some (entry_of o) else book_of os k

unfoldable pub book : Tables → Book
unfolding book_of
book t = book_of t.orders

abbrev pub with_status : OrderStatus → Entry → Entry
with_status s e = record e { status = s }

unfoldable pub put : Uuid → Entry → Book → Book
put k e b j = if j == k then some e else b j

-- An entry for a new id, with a key that the customer has not used.
pub record Places (e : Entry) (b b' : Book) : Type 0 where
  pub id : Uuid
  pub unused : b id ≡ none
  pub new_key :
      (j : Uuid) (x : Entry)
      → b j ≡ some x
      → x.customer_id ≡ e.customer_id
      → ¬ (x.idempotency_key ≡ e.idempotency_key)
  pub placed : (j : Uuid) → b' j ≡ put id e b j

-- One entry goes from one status to another.
pub record Moves (k : Uuid) (e : Entry) (from to : OrderStatus) (b b' : Book) : Type 0 where
  pub there : b k ≡ some e
  pub at : e.status ≡ from
  pub moved : (j : Uuid) → b' j ≡ put k (with_status to e) b j

-- The customer's pending entry is cancelled.
pub record Cancels (k c : Uuid) (b b' : Book) : Type 0 where
  pub entry : Entry
  pub owner : entry.customer_id ≡ c
  pub moves : Moves k entry status_pending status_cancelled b b'

-- An entry goes to the status, along an edge of the diagram.
pub record Advances (k : Uuid) (to : OrderStatus) (b b' : Book) : Type 0 where
  pub entry : Entry
  pub from : OrderStatus
  pub edge : Transition from to
  pub moves : Moves k entry from to b b'

-- Some pending entries go to processing.
pub record Processes (b b' : Book) : Type 0 where
  pub each :
      (j : Uuid)
      → (b' j ≡ b j)
        ⊎ ((e : Entry) × (b j ≡ some e)
            × (e.status ≡ status_pending)
            × (b' j ≡ some (with_status status_processing e)))
