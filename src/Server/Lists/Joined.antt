-- ===== src/Server/Lists/Joined.antt =====
-- internal/orders/handler.go: the rows of a full page, and those that its cursor asks for.
use mathlib.Core.List.{Memᴰ, map-append}
use mathlib.Core.Path.{fun_ext}
use oms_go.Prelude.{
  ℕ, suc, ◌+◌, ◌≡◌, refl, sym, ap, ◌∙◌, subst, Bool-cases, ◌⊎◌, inl, inr, true, ◌&&◌, Option, none,
  some, String, List, [], ◌∷◌, ◌++◌, map, length, ==_iff, arith,
}
use oms_go.Prelude.Int.{ℤ, pos, negsuc}
use oms_go.Prelude.Sort.{where_rows, order_by, take}
use oms_go.Prelude.Sort.Mem.{map-mem, mem-take, mem-order_by, mem-where_rows}
use oms_go.Prelude.Sort.Order.{where-and}
use oms_go.Db.Models.{Uuid, Timestamp, Order}
use oms_go.Db.Keys.{DistinctIds}
use oms_go.Db.Selects.{past_cursor, newest_orders}
use oms_go.Db.Selects.Pages.{past}
use oms_go.Db.Selects.Pages.Cursor.{page-continues}
use oms_go.Orders.Interface.{OrderDetails, ListOrdersInput}
use oms_go.Orders.Backend.Listed.{is_wanted}
use oms_go.Orders.Handler.{Texts}
use oms_go.Orders.Handler.Cursor.{Key, encode_cursor}
use oms_go.Orders.Handler.Endpoints.{is_full, last, cursor_of, list_response}

-- Behind the cursor of a wanted row, the old cursor says nothing more.
wanted_past :
    (customer_id : Uuid) (status : Option String) (at : Option Timestamp) (id : Option Uuid)
    (c o : Order)
    → past_cursor at id c ≡ true
    → is_wanted customer_id status (some c.created_at) (some c.id) o
      ≡ (is_wanted customer_id status at id o && past c o)
unfolding is_wanted
wanted_past customer_id none none id c o h = ground arith
wanted_past customer_id none (some at) none c o h = ground arith
wanted_past customer_id none (some at) (some id) c o h = ground arith
wanted_past customer_id (some s) none id c o h = ground arith
wanted_past customer_id (some s) (some at) none c o h = ground arith
wanted_past customer_id (some s) (some at) (some id) c o h = ground arith

wanted-past_cursor :
    (customer_id : Uuid) (status : Option String) (at : Option Timestamp) (id : Option Uuid)
    (c : Order)
    → is_wanted customer_id status at id c ≡ true
    → past_cursor at id c ≡ true
unfolding is_wanted
wanted-past_cursor customer_id none at id c h = ground arith
wanted-past_cursor customer_id (some s) at id c h = ground arith

-- A cursor is that of the last row of a full page.
pub data FullPage (texts : Texts) (limit : ℤ) (details : List OrderDetails) (cursor : String)
    : Type 0 where
  full :
      (pre : List OrderDetails) (d : OrderDetails)
      → details ≡ pre ++ d ∷ []
      → limit ≡ pos (suc (length pre))
      → cursor ≡ encode_cursor texts d.order.created_at d.order.id
      → FullPage texts limit details cursor

last-cases :
    (ds : List OrderDetails)
    → (last ds ≡ none)
      ⊎ ((pre : List OrderDetails) × (d : OrderDetails) × (ds ≡ pre ++ d ∷ []) × (last ds ≡ some d))
last-cases [] = inl refl
last-cases (d ∷ []) = inr ([], d, refl, refl)
last-cases (d ∷ e ∷ ds) = elim (last-cases (e ∷ ds)) [
  | inl nothing ↦ inl nothing
  | inr (pre, x, same, found) ↦ inr (d ∷ pre, x, ap (λ xs. d ∷ xs) same, found)
]

length-snoc : {A : Type 0} (xs : List A) (x : A) → length (xs ++ x ∷ []) ≡ suc (length xs)
length-snoc [] x = refl
length-snoc (y ∷ xs) x = ap suc (length-snoc xs x)

full_limit : (limit : ℤ) (n : ℕ) → is_full limit n ≡ true → limit ≡ pos n
full_limit (pos k) n h = ap pos (sym ((==_iff n k).0 h))
full_limit (negsuc k) n h = absurd (cc)

pub next_cursor-FullPage :
    (texts : Texts) (limit : ℤ) (details : List OrderDetails) (cursor : String)
    → (list_response texts limit details).next_cursor ≡ some cursor
    → FullPage texts limit details cursor
unfolding list_response cursor_of
next_cursor-FullPage texts limit details cursor h =
    elim (Bool-cases (is_full limit (length details))) [
      | inr short ↦ absurd (no_cursor (rw short at h))
      | inl filled ↦ elim (last-cases details) [
        | inl nothing ↦ absurd (no_cursor (rw (filled, nothing) at h))
        | inr (pre, d, same, found) ↦
            full pre d same
              (full_limit limit (length details) filled
                ∙ ap pos (ap length same ∙ length-snoc pre d))
              (sym (the_cursor (rw (filled, found) at h)))
      ]
    ]
  where
    no_cursor : ¬ (◌≡◌ {A = Option String} none (some cursor))
    no_cursor e = cc

    the_cursor : {a : String} → ◌≡◌ {A = Option String} (some a) (some cursor) → a ≡ cursor
    the_cursor e = cc

last-mem : {A : Type 0} (pre : List A) (x : A) → Memᴰ x (pre ++ x ∷ [])
last-mem [] x = Memᴰ.head refl
last-mem (y ∷ pre) x = Memᴰ.tail (last-mem pre x)

-- The rows of a page that ends with x, and the rows that the cursor of x asks for.
continued :
    (c : Uuid) (s : Option String) (at : Option Timestamp) (id : Option Uuid) (os pre : List Order)
    (x : Order) (m : ℕ)
    → DistinctIds os
    → take (suc (length pre)) (order_by newest_orders (where_rows (is_wanted c s at id) os))
      ≡ pre ++ x ∷ []
    → pre
        ++ x
          ∷ take m (
              order_by newest_orders
                (where_rows (is_wanted c s (some x.created_at) (some x.id)) os))
      ≡ take (suc (length pre + m)) (order_by newest_orders (where_rows (is_wanted c s at id) os))
continued c s at id os pre x m d h =
    ap (λ rows. pre ++ x ∷ take m (order_by newest_orders rows))
      (ap (λ p. where_rows p os) (fun_ext (λ o. wanted_past c s at id x o beyond))
        ∙ where-and (is_wanted c s at id) (past x) os)
    ∙ sym (page-continues (is_wanted c s at id) os m pre x d h)
  where
    beyond : past_cursor at id x ≡ true
    beyond =
        let found =
          mem-order_by newest_orders _
            (mem-take (suc (length pre)) _ (subst (Memᴰ x) (sym h) (last-mem pre x))) in
        wanted-past_cursor c s at id x (mem-where_rows _ os found).1

abbrev pub order_of : OrderDetails → Order
order_of d = d.order

snoc-append : {A : Type 0} (xs : List A) (y : A) (zs : List A) → (xs ++ y ∷ []) ++ zs ≡ xs ++ y ∷ zs
snoc-append [] y zs = refl
snoc-append (x ∷ xs) y zs = ap (λ l. x ∷ l) (snoc-append xs y zs)

length-map : {A B : Type 0} (f : A → B) (xs : List A) → length (map f xs) ≡ length xs
length-map f [] = refl
length-map f (x ∷ xs) = ap suc (length-map f xs)

pub some-injective : {A : Type 0} {a b : A} → ◌≡◌ {A = Option A} (some a) (some b) → a ≡ b
some-injective e = cc

pub pos-injective : {a b : ℕ} → pos a ≡ pos b → a ≡ b
pos-injective e = cc

-- What the service lists, row by row.
abbrev pub wanted_page : ListOrdersInput → ℕ → List Order → List Order
wanted_page input k os = take k (
    order_by newest_orders (
      where_rows (is_wanted input.customer_id input.status input.cursor_created_at input.cursor_id)
        os))

-- The second page begins where the first has ended.
pub joined :
    (p q : ListOrdersInput) (os : List Order) (pre : List OrderDetails) (x : OrderDetails)
    (listed more : List OrderDetails)
    → DistinctIds os
    → listed ≡ pre ++ x ∷ []
    → map order_of listed ≡ wanted_page p (suc (length pre)) os
    → map order_of more ≡ wanted_page q (suc (length pre)) os
    → q.customer_id ≡ p.customer_id
    → q.status ≡ p.status
    → ◌≡◌ {A = Key} (q.cursor_created_at, q.cursor_id) (some x.order.created_at, some x.order.id)
    → map order_of (listed ++ more) ≡ wanted_page p (suc (length pre) + suc (length pre)) os
joined p q os pre x listed more d ends first second customer status key =
    map-append order_of listed more
    ∙ (ap (λ l. l ++ map order_of more) rows
        ∙ (snoc-append (map order_of pre) x.order (map order_of more)
            ∙ (ap (λ l. map order_of pre ++ x.order ∷ l) (second ∙ next)
                ∙ (continued p.customer_id p.status p.cursor_created_at p.cursor_id os
                      (map order_of pre) x.order (suc (length pre)) d start
                    ∙ ap (λ n. wanted_page p n os) lengths))))
  where
    rows : map order_of listed ≡ map order_of pre ++ x.order ∷ []
    rows = ap (map order_of) ends ∙ map-append order_of pre (x ∷ [])

    start : wanted_page p (suc (length (map order_of pre))) os ≡ map order_of pre ++ x.order ∷ []
    start = ap (λ n. wanted_page p (suc n) os) (length-map order_of pre) ∙ (sym first ∙ rows)

    next :
        wanted_page q (suc (length pre)) os
        ≡ take (suc (length pre)) (
            order_by newest_orders (
              where_rows
                (is_wanted p.customer_id p.status (some x.order.created_at) (some x.order.id))
                os))
    next = λ i. take (suc (length pre)) (
        order_by newest_orders
          (where_rows (is_wanted (customer i) (status i) (key i).0 (key i).1) os))

    lengths :
        suc (length (map order_of pre) + suc (length pre)) ≡ suc (length pre) + suc (length pre)
    lengths = omega (arith, length-map order_of pre)

pub last_row-mem :
    (p : ListOrdersInput) (k : ℕ) (os : List Order) (pre : List OrderDetails) (x : OrderDetails)
    (listed : List OrderDetails)
    → listed ≡ pre ++ x ∷ []
    → map order_of listed ≡ wanted_page p k os
    → Memᴰ x.order os
last_row-mem p k os pre x listed ends page =
    (mem-where_rows _ os (
      mem-order_by newest_orders _ (
        mem-take k _ (
          subst (Memᴰ x.order) page
            (map-mem order_of listed (subst (Memᴰ x) (sym ends) (last-mem pre x))))))).0
