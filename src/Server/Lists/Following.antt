-- ===== src/Server/Lists/Following.antt =====
-- internal/orders/handler.go over the service and the repository: a list, and the list that its cursor
-- asks for.
use mathlib.Core.List.{Memᴰ}
use oms_go.Prelude.{
  ℕ, suc, ◌+◌, ◌≡◌, sym, ap, ◌∙◌, Option, some, String, List, ◌++◌, map, length, str_eq,
  if◌then◌else◌,
}
use oms_go.Prelude.Int.{pos}
use oms_go.Prelude.Exec.{ok-injective, ok}
use oms_go.Prelude.Sort.{where_rows, order_by, take}
use oms_go.Auth.{customer_id_from_context}
use oms_go.Db.Models.{Uuid, Order}
use oms_go.Db.Keys.{DistinctIds}
use oms_go.Db.Selects.{newest_orders}
use oms_go.Db.World.{World}
use oms_go.Http.{HttpRequest, write_json}
use oms_go.Orders.Interface.{OrderDetails, ListOrdersInput}
use oms_go.Orders.Backend.Listed.{is_wanted}
use oms_go.Orders.Handler.{
  Texts, OrderListResponse, list_payload, map_order_response, parse_list_limit, parse_status,
}
use oms_go.Orders.Handler.Cursor.{Reads, parse_cursor, parse_cursor-encode_cursor}
use oms_go.Orders.Handler.Endpoints.{Decoders, get_orders, list_response, serve_route}
use oms_go.Server.{handler_service}
use oms_go.Server.Lists.Joined.{
  FullPage, full, next_cursor-FullPage, some-injective, pos-injective, wanted_page, joined,
  last_row-mem,
}
use oms_go.Server.Lists.{Paged, serve_route-Paged}

abbrev pub with_cursor : String → HttpRequest → HttpRequest
with_cursor cursor r = record r {
  query = λ name. if str_eq name "cursor" then cursor else r.query name;
}

-- Both answers show one page of twice the limit.
pub record Followed (texts : Texts) (r : HttpRequest) (w : World) (first second : OrderListResponse)
    : Type 0 where
  pub input : ListOrdersInput
  pub limit : ℕ
  pub details : List OrderDetails
  pub more : List OrderDetails
  pub of_identity : customer_id_from_context r.identity ≡ some input.customer_id
  pub of_limit : parse_list_limit (r.query "limit") ≡ ok (pos limit)
  pub of_status : parse_status (r.query "status") ≡ ok input.status
  pub of_cursor :
      parse_cursor texts (r.query "cursor") ≡ ok (input.cursor_created_at, input.cursor_id)
  pub first_shows : first.orders ≡ map (map_order_response texts) details
  pub second_shows : second.orders ≡ map (map_order_response texts) more
  pub together :
      map (λ (d : OrderDetails). d.order) (details ++ more)
      ≡ take (limit + limit) (
          order_by newest_orders (
            where_rows
              (is_wanted input.customer_id input.status input.cursor_created_at input.cursor_id)
              w.tables.orders))

module _ (texts : Texts) (r : HttpRequest) (w : World) where
  followed :
      {s₁ s₂ : ℕ} {first second : OrderListResponse} {cursor : String} {w' u u' : World}
      → ((o : Order) → Memᴰ o w.tables.orders → Reads texts o.created_at o.id)
      → DistinctIds w.tables.orders
      → u.tables ≡ w.tables
      → first.next_cursor ≡ some cursor
      → Paged texts r w s₁ first w'
      → Paged texts (with_cursor cursor r) u s₂ second u'
      → Followed texts r w first second
  unfolding list_response
  followed {first = first} {second} {cursor} reads d same next p q = at_page (
      next_cursor-FullPage texts p.input.limit p.listed cursor
        (sym (ap (λ (l : OrderListResponse). l.next_cursor) p.written) ∙ next))
    where
      at_page : FullPage texts p.input.limit p.listed cursor → Followed texts r w first second
      at_page (full pre x ends limit shown) = record {
        input = p.input;
        limit = suc (length pre);
        details = p.listed;
        more = q.listed;
        of_identity = p.of_identity;
        of_limit = p.of_limit ∙ ap ok limit;
        of_status = p.of_status;
        of_cursor = p.of_cursor;
        first_shows = ap (λ (l : OrderListResponse). l.orders) p.written;
        second_shows = ap (λ (l : OrderListResponse). l.orders) q.written;
        together =
            let limits = ok-injective (sym q.of_limit ∙ p.of_limit) ∙ limit in
            let page =
              p.in_tables.page
              ∙ ap (λ k. wanted_page p.input k w.tables.orders)
                  (pos-injective (sym p.in_tables.of_limit ∙ limit)) in
            let next_page = q.in_tables.page ∙ λ i.
            wanted_page q.input (pos-injective (sym q.in_tables.of_limit ∙ limits) i)
              (same i).orders in
            joined p.input q.input w.tables.orders pre x p.listed q.listed d ends page next_page
              (some-injective (sym q.of_identity ∙ p.of_identity))
              (ok-injective (sym q.of_status ∙ p.of_status))
              (ok-injective (
                sym q.of_cursor
                ∙ (ap (parse_cursor texts) shown
                    ∙ parse_cursor-encode_cursor texts x.order.created_at x.order.id (
                        reads x.order
                          (last_row-mem p.input _ w.tables.orders pre x p.listed ends page)))));
      }

module _ (parse_addr : String → Option String) (parse_uuid : String → Option Uuid) (texts : Texts)
    (decoders : Decoders) (r : HttpRequest) (w : World) where
  -- With orders of distinct ids, and packages that read back what they write of their times and ids: when
  -- the route of the list answers with a list and a cursor, and the same request with this cursor, sent
  -- while the tables are as they were, with a second list, then the two lists, one after the other, are the
  -- page of twice the limit, of the customer, the status and the cursor of the first request: no order is
  -- left out, and none is shown twice.
  pub serve_route-Followed :
      {s₁ s₂ : ℕ} {first second : OrderListResponse} {cursor : String} {w' : World} (u : World)
      {u' : World}
      → ((o : Order) → Memᴰ o w.tables.orders → Reads texts o.created_at o.id)
      → DistinctIds w.tables.orders
      → serve_route texts decoders (some (handler_service parse_addr parse_uuid)) get_orders r w
        ≡ (write_json s₁ (list_payload first), w')
      → first.next_cursor ≡ some cursor
      → u.tables ≡ w.tables
      → serve_route texts decoders
          (some (handler_service parse_addr parse_uuid))
          get_orders
          (with_cursor cursor r)
          u
        ≡ (write_json s₂ (list_payload second), u')
      → Followed texts r w first second
  serve_route-Followed {cursor = cursor} u reads d h next same k =
      followed texts r w reads d same next
        (serve_route-Paged parse_addr parse_uuid texts decoders r w h)
        (serve_route-Paged parse_addr parse_uuid texts decoders (with_cursor cursor r) u k)
