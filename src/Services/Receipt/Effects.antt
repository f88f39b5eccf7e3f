-- ===== src/Services/Receipt/Effects.antt =====
-- What a signature that succeeds has been checked for, and what it writes.
use black_soil_loop_server.Prelude.{
  ◌+◌, String, ◌≡◌, refl, Bool, some, List, arith, inl, inr, ◌==◌, if◌then◌else◌, all, ◌∙◌, select,
  ap,
}
use black_soil_loop_server.Models.{
  RowId, TaskStatus, ReceiptStatus, ReceiptLine, Body, User, TransportTask, TaskStop, EventAction,
  EventKey, is_signed,
}
use black_soil_loop_server.Table.{put}
use black_soil_loop_server.Db.{Db, task_key, stop_key}
use black_soil_loop_server.Tx.{ok, >>-eq-ok, Result-cases}
use black_soil_loop_server.Env.{Env}
use black_soil_loop_server.Services.Events.{add_task_event}
use black_soil_loop_server.Services.Inventory.{receive_lines}
use black_soil_loop_server.Services.Receipt.{
  sign_stop, all_signed, add_receipt, complete_event, announce, record_signature,
}
use black_soil_loop_server.Services.Receipt.Apart.{
  receive_lines-Apart, add_receipt-Apart, add_task_event-Apart, complete_event-Apart, closing-Apart,
}

-- The booking of a receipt's lines, on a state whose stock is that of the database.
pub record Booking (env : Env) (store_id : RowId) (status : ReceiptStatus) (key : String)
    (lines : List ReceiptLine) (db db' : Db) : Type 0 where
  pub receipt_id : RowId
  pub start : Db
  pub booked : Db
  pub balances : start.balances ≡ db.balances
  pub movements : start.movements ≡ db.movements
  pub next_id : start.next_id ≡ db.next_id + 1
  pub lines_booked : receive_lines env store_id receipt_id status key lines start ≡ ok (tt, booked)
  pub balances_after : db'.balances ≡ booked.balances
  pub movements_after : db'.movements ≡ booked.movements

-- The status of the task after the signature of a stop.
abbrev pub signed_status : RowId → TaskStop → List TaskStop → TaskStatus
signed_status task_id stop stops =
    if all (λ s. is_signed s.status)
      (select (λ s. s.task_id == task_id) (put (sign_stop stop) stops))
    then TaskStatus.completed
    else TaskStatus.store_signed

pub record Recorded (env : Env) (task : TransportTask) (store_id : RowId) (stop : TaskStop)
    (status : ReceiptStatus) (lines : List ReceiptLine) (key : String) (db db' : Db) : Type 0 where
  pub to : TaskStatus
  pub to_status : to ≡ signed_status task.id stop db.stops
  pub stops : db'.stops ≡ put (sign_stop stop) db.stops
  pub tasks :
      db'.tasks
      ≡ put (record task { status = to; object_version = task.object_version + 1 }) db.tasks
  pub booking : Booking env store_id status key lines db db'

announce-writes :
    (env : Env) (task : TransportTask) (user : User) (store_id : RowId) (status : ReceiptStatus)
    (key : String) (receipt_id : RowId) (signed : Bool) (body : Body) (db db' : Db)
    → announce env task user store_id status key receipt_id signed db ≡ ok (body, db')
    → (db'.tasks
        ≡ put
            (record task {
              status = (if signed then TaskStatus.completed else TaskStatus.store_signed);
              object_version = task.object_version + 1;
            })
            db.tasks)
      × (db'.stops ≡ db.stops)
      × (db'.balances ≡ db.balances)
      × (db'.movements ≡ db.movements)
unfolding announce
announce-writes env task user store_id status key rid signed body db db' h =
    let mid : Db = record db {
      tasks =
          put
            (record task {
              status = (if signed then TaskStatus.completed else TaskStatus.store_signed);
              object_version = task.object_version + 1;
            })
            db.tasks;
    } in
    let (db₁, event, h₃) =
      >>-eq-ok
        (add_task_event task.id task.status TaskStatus.store_signed (EventAction.receipt status)
          user.id (EventKey.state key) (Body.receipt_ref rid (some store_id)) env.now)
        _ mid h in
    let (db₂, last, h₄) = >>-eq-ok (complete_event env signed task.id user.id key rid) _ db₁ h₃ in
    let ((t₂, s₂), b₂, m₂) =
      add_task_event-Apart task.id task.status TaskStatus.store_signed (EventAction.receipt status)
        user.id (EventKey.state key) (Body.receipt_ref rid (some store_id)) env.now mid db₁ event in
    let ((t₃, s₃), b₃, m₃) = complete_event-Apart env signed task.id user.id key rid db₁ db₂ last in
    let ((t₄, s₄), b₄, m₄) = closing-Apart env _ _ _ _ _ _ _ _ _ _ _ _ _ _ _ _ _ body db₂ db' h₄ in
    (t₄ ∙ t₃ ∙ t₂, s₄ ∙ s₃ ∙ s₂, b₄ ∙ b₃ ∙ b₂, m₄ ∙ m₃ ∙ m₂)

announce-Recorded :
    (env : Env) (task : TransportTask) (user : User) (store_id : RowId) (stop : TaskStop)
    (status : ReceiptStatus) (lines : List ReceiptLine) (key : String) (body : Body) (rid : RowId)
    (db start booked db' : Db)
    → add_receipt env task.id store_id status lines key user.id db ≡ ok (rid, start)
    → receive_lines env store_id rid status key lines start ≡ ok (tt, booked)
    → announce env task user store_id status key rid
        (all_signed task.id (record booked { stops = put (sign_stop stop) booked.stops }))
        (record booked { stops = put (sign_stop stop) booked.stops })
      ≡ ok (body, db')
    → Recorded env task store_id stop status lines key db db'
unfolding all_signed
announce-Recorded env task user store_id stop status lines key body rid db start booked db' received
      done h =
    let ((t₀, s₀), b₀, m₀, n₀) =
      add_receipt-Apart env task.id store_id status lines key user.id rid db start received in
    let (t₁, s₁) = receive_lines-Apart env store_id rid status key lines start booked done in
    let (t, s, b, m) =
      announce-writes env task user store_id status key rid
        (all_signed task.id (record booked { stops = put (sign_stop stop) booked.stops })) body
        (record booked { stops = put (sign_stop stop) booked.stops }) db' h in
    let stops : booked.stops ≡ db.stops = s₁ ∙ s₀ in
    let tasks : booked.tasks ≡ db.tasks = t₁ ∙ t₀ in
    record {
      to = signed_status task.id stop db.stops;
      to_status = refl;
      stops = s ∙ ap (put (sign_stop stop)) stops;
      tasks = rw (← stops, ← tasks) t;
      booking = record {
        receipt_id = rid;
        start = start;
        booked = booked;
        balances = b₀;
        movements = m₀;
        next_id = n₀;
        lines_booked = done;
        balances_after = b;
        movements_after = m;
      };
    }

pub record_signature-Recorded :
    (env : Env) (task : TransportTask) (user : User) (store_id : RowId) (stop : TaskStop)
    (status : ReceiptStatus) (lines : List ReceiptLine) (key : String) (body : Body) (db db' : Db)
    → record_signature env task user store_id stop status lines key db ≡ ok (body, db')
    → Recorded env task store_id stop status lines key db db'
unfolding record_signature
record_signature-Recorded env task user store_id stop status lines key body db db' h =
    elim (Result-cases (add_receipt env task.id store_id status lines key user.id db)) [
      | inr (x, taken) ↦ absurd (ground arith)
      | inl (rid, start, received) ↦
          elim (Result-cases (receive_lines env store_id rid status key lines start)) [
            | inr (x, clash) ↦ absurd (ground arith)
            | inl (u, booked, done) ↦
                announce-Recorded env task user store_id stop status lines key body rid db start
                  booked db' received done (ground arith)
          ]
    ]
