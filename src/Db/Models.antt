-- ===== src/Db/Models.antt =====
-- internal/db/models.go: a row of each table. A UUID is its 16 bytes read as one number, so that the
-- order of uuids in SQL is that of numbers; a timestamp is a number of microseconds. Columns that
-- the schema declares NOT NULL are plain values, the others are options (`Valid` is false).
use oms_go.Prelude.{ℕ, String, Option}
use oms_go.Prelude.Int.{ℤ}

abbrev pub Uuid : Type 0
Uuid = ℕ

abbrev pub Timestamp : Type 0
Timestamp = ℕ

pub record Order : Type 0 where
  pub id : Uuid
  pub customer_id : Uuid
  pub status : String
  pub idempotency_key : String
  pub total_cents : ℤ
  pub currency : String
  pub created_at : Timestamp
  pub updated_at : Timestamp

pub record OrderEvent : Type 0 where
  pub id : Uuid
  pub order_id : Uuid
  pub actor_type : String
  pub actor_id : Option Uuid
  pub from_status : Option String
  pub to_status : Option String
  pub action : String
  pub reason : Option String
  pub ip_address : Option String
  pub created_at : Timestamp

pub record OrderItem : Type 0 where
  pub id : Uuid
  pub order_id : Uuid
  pub product_id : Uuid
  pub sku : String
  pub quantity : ℤ
  pub unit_price_cents : ℤ
  pub created_at : Timestamp
