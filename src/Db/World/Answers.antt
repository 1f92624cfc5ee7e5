-- ===== src/Db/World/Answers.antt =====
-- What an answer over the connection says of the tables.
use oms_go.Prelude.{◌≡◌, refl, Bool}
use oms_go.Prelude.Exec.{ok}
use oms_go.Db.Models.{Uuid, Timestamp}
use oms_go.Db.Tables.{Tables, Statement}
use oms_go.Db.World.{World, Fault, fine, lost, unconfirmed, run_query}

pub run_query-ok :
    {A : Type 0} (q : Timestamp → (Uuid → Bool) → Statement A) (w : World) {a : A} {w' : World}
    → run_query q w ≡ (ok a, w')
    → q w.now (w.locked_at w.step) w.tables ≡ (ok a, w'.tables)
unfolding run_query
run_query-ok {A} q w {a} {w'} h = go (w.fault_at w.step) refl
  where
    go :
        (f : Fault)
        → w.fault_at w.step ≡ f
        → q w.now (w.locked_at w.step) w.tables ≡ (ok a, w'.tables)
    go fine e = let k = rw (e, run_query) at h in λ i. ((k i).0, (k i).1.tables)
    go lost e = cc (rw (e, run_query) at h)
    go unconfirmed e = cc (rw (e, run_query) at h)

-- A statement that only reads leaves the tables as they were, whatever fails.
pub run_query-reads :
    {A : Type 0} (q : Timestamp → (Uuid → Bool) → Statement A) (w : World)
    → ((now : Timestamp) (locked : Uuid → Bool) (t : Tables) → (q now locked t).1 ≡ t)
    → (run_query q w).1.tables ≡ w.tables
unfolding run_query
run_query-reads q w reads = go (w.fault_at w.step) refl
  where
    go : (f : Fault) → w.fault_at w.step ≡ f → (run_query q w).1.tables ≡ w.tables
    go fine e = rw (e, run_query) (reads w.now (w.locked_at w.step) w.tables)
    go lost e = rw (e, run_query)
    go unconfirmed e = rw (e, run_query)
