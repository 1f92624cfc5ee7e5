-- ===== src/Db/Updates/Updated.antt =====
-- What an UPDATE that answered has found and done.
use mathlib.Core.List.{Memᴰ}
use oms_go.Prelude.{
  ◌≡◌, refl, sym, ap, ◌∙◌, ℕ, arith, Bool, true, ◌&&◌, List, [], ◌∷◌, any, not, String, Bool-cases,
  inl, inr,
}
use oms_go.Prelude.Exec.{ok-injective, ok, err}
use oms_go.Prelude.Int.{ℤ, pos, negsuc}
use oms_go.Db.Models.{Uuid, Timestamp, Order}
use oms_go.Db.Tables.{Tables, Reply, no_rows}
use oms_go.Db.Checks.{scan_one, is_status}
use oms_go.Db.Keys.{mem-returning}
use oms_go.Db.Updates.{
  set_status, update_orders, returning, update_one, status_matches, is_picked,
  UpdateOrderStatusIfCurrentStatusMatchesParams, update_order_status_if_current_status_matches,
  worker_pick_and_move_pending_orders_to_processing,
}

-- Some row fitted, every row that fits was changed, and the answer is one of those rows.
pub record Updated (p : Order → Bool) (f : Order → Order) (t : Tables) (o : Order) (t' : Tables)
    : Type 0 where
  pub row : Order
  pub there : Memᴰ row t.orders
  pub fits : p row ≡ true
  pub answer : o ≡ f row
  pub changed : t' ≡ record t { orders = update_orders p f t.orders }

module _ (p : Order → Bool) (now : Timestamp) (s : String) (t : Tables) {o : Order}
    {t' : Tables} where
  answered :
      (x row : Order)
      → Memᴰ row t.orders
      → p row ≡ true
      → x ≡ set_status now s row
      → ◌≡◌ {A = Reply Order × Tables}
          (ok x, record t { orders = update_orders p (set_status now s) t.orders })
          (ok o, t')
      → Updated p (set_status now s) t o t'
  answered x row m q e k = record {
    row = row;
    there = m;
    fits = q;
    answer = ok-injective (ap (λ (r : Reply Order × Tables). r.0) (sym k)) ∙ e;
    changed = ap (λ (r : Reply Order × Tables). r.1) (sym k);
  }

  from_rows :
      (os : List Order)
      → returning p (set_status now s) t.orders ≡ os
      → update_one p (set_status now s) t ≡ (ok o, t')
      → Updated p (set_status now s) t o t'
  unfolding update_one
  from_rows [] e h = absurd (no_answer (rw (e, scan_one) at h))
    where
      no_answer :
          ◌≡◌ {A = Reply Order × Tables}
            (err no_rows, record t { orders = update_orders p (set_status now s) t.orders })
            (ok o, t')
          → ⊥
      no_answer k = cc
  from_rows (x ∷ os) e h =
      let (row, m, q, same) = mem-returning p now s t.orders (rw e (Memᴰ.head refl)) in
      answered x row m q same (rw (e, scan_one) at h)

  pub update_one-ok :
      update_one p (set_status now s) t ≡ (ok o, t') → Updated p (set_status now s) t o t'
  update_one-ok h = from_rows (returning p (set_status now s) t.orders) refl h

module _ (now : Timestamp) (arg : UpdateOrderStatusIfCurrentStatusMatchesParams) (t : Tables) where
  pub update_order_status_if_current_status_matches-ok :
      {o : Order} {t' : Tables}
      → update_order_status_if_current_status_matches now arg t ≡ (ok o, t')
      → Updated (status_matches arg) (set_status now arg.status_2) t o t'
  unfolding update_order_status_if_current_status_matches
  update_order_status_if_current_status_matches-ok h =
      elim (Bool-cases (any (status_matches arg) t.orders && not (is_status arg.status_2))) [
        | inl bad ↦ absurd (cc (rw bad at h))
        | inr good ↦ update_one-ok (status_matches arg) now arg.status_2 t (rw good at h)
      ]

-- The worker's statement answers with the rows that it picked, as they are afterwards.
pub worker_pick-ok :
    (now : Timestamp) (locked : Uuid → Bool) (limit : ℤ) (t : Tables) {os : List Order}
    {t' : Tables}
    → worker_pick_and_move_pending_orders_to_processing now locked limit t ≡ (ok os, t')
    → (n : ℕ) × (os
        ≡ returning (is_picked locked n t.orders) (set_status now "PROCESSING") t.orders)
      × (t' ≡ record t {
        orders = update_orders (is_picked locked n t.orders) (set_status now "PROCESSING") t.orders;
      })
unfolding worker_pick_and_move_pending_orders_to_processing
worker_pick-ok now locked (pos n) t h = (n, ground arith, ground arith)
worker_pick-ok now locked (negsuc n) t h = cc
