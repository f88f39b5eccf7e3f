-- ===== src/B01/Orders.antt =====
-- `create_order` and `_selected_orders` of app/b01/main.py.
use black_soil_loop_server.Prelude.{
  ◌+◌, String, Bool, true, false, not, ◌&&◌, Option, none, some, List, [], ◌∷◌, ◌++◌, ◌==◌, str_eq,
  if◌then◌else◌, any, select, opt_eq,
}
use black_soil_loop_server.Models.{
  RowId, Role, OrderStatus, is_draft, Topic, ObjectType, TransportOrderCreate, Body, User,
  TransportOrder,
}
use black_soil_loop_server.Errors.{ErrorCode, error}
use black_soil_loop_server.Table.{order_by}
use black_soil_loop_server.Db.{Db}
use black_soil_loop_server.Tx.{Tx, ok, pure, raise_if, gets, ◌>>=◌, ◌>>◌}
use black_soil_loop_server.Env.{Env}
use black_soil_loop_server.Auth.Roles.{require_roles, planners}
use black_soil_loop_server.Services.Journal.{add_outbox}

abbrev pub is_enterprise_admin : Role → Bool
is_enterprise_admin Role.enterprise_admin = true
is_enterprise_admin _ = false

unfoldable pub add_order : TransportOrderCreate → Tx TransportOrder
add_order p db =
    let order : TransportOrder = record {
      id = db.next_id;
      order_no = p.order_no;
      scenario_code = p.scenario_code;
      enterprise_id = p.enterprise_id;
      product_id = p.product_id;
      store_id = p.store_id;
      origin_latitude = p.origin_latitude;
      origin_longitude = p.origin_longitude;
      destination_latitude = p.destination_latitude;
      destination_longitude = p.destination_longitude;
      departure_at = p.departure_at;
      quantity = p.quantity;
      unit = p.unit;
      weight_kg = p.weight_kg;
      volume_m3 = p.volume_m3;
      temperature_zone = p.temperature_zone;
      status = OrderStatus.draft;
      object_version = 1;
    } in
    ok (order, record db { orders = db.orders ++ order ∷ []; next_id = db.next_id + 1 })

unfoldable pub create_order : Env → TransportOrderCreate → User → Tx TransportOrder
create_order env payload user = do
  require_roles planners user
  taken ← gets (λ db. any (λ o. str_eq o.order_no payload.order_no) db.orders)
  raise_if taken (error ErrorCode.order_no_exists 409)
  raise_if
      (is_enterprise_admin user.role
        && not (opt_eq user.enterprise_id (some payload.enterprise_id)))
      (error ErrorCode.forbidden 403)
  order ← add_order payload
  add_outbox env Topic.order_created ObjectType.transport_order order.id order.object_version
      (Body.order_created order.order_no)
  pure order

-- The filter of a preview request: the ids, or else the scenario, or else every draft.
abbrev pub is_selected : List RowId → Option String → TransportOrder → Bool
is_selected (id ∷ ids) scenario_code order = any (λ i. i == order.id) (id ∷ ids)
is_selected [] (some code) order =
    if str_eq code "" then is_draft order.status else str_eq order.scenario_code code
is_selected [] none order = is_draft order.status

unfoldable pub selected_orders : List RowId → Option String → Db → List TransportOrder
selected_orders order_ids scenario_code db =
    order_by (λ o. o.departure_at) (select (is_selected order_ids scenario_code) db.orders)
