-- ===== src/Services/Receipt/Consistency.antt =====
-- The stops of a task after a signature, beside its status.
use black_soil_loop_server.Prelude.{
  ℕ, ◌+◌, String, ◌≡◌, refl, sym, ◌∙◌, true, not, ◌&&◌, ◌||◌, some, List, [], ◌∷◌, arith, inl, inr,
  Bool-cases, ◌==◌, ==_iff, or_else, all, select, find-true,
}
use black_soil_loop_server.Models.{
  RowId, TaskStatus, ReceiptStatus, ReceiptLine, Body, User, TransportTask, TaskStop, is_signed,
}
use black_soil_loop_server.Table.{get, put}
use black_soil_loop_server.Table.Laws.{Unique, put-Unique, all-put, all-select, put-cases}
use black_soil_loop_server.Db.{Db, task_key, stop_key}
use black_soil_loop_server.Tx.{ok}
use black_soil_loop_server.Env.{Env}
use black_soil_loop_server.Services.Transition.Consistency.{
  allows, in_step, IsConsistent, in_step-other,
}
use black_soil_loop_server.Services.Receipt.{awaits_signature, stop_of, sign_stop, sign}
use black_soil_loop_server.Services.Receipt.Effects.{signed_status}
use black_soil_loop_server.Services.Receipt.Signed.{sign-Signed}

-- The two statuses that await a signature allow what a store's signature allows.
in_step-store_signed :
    (id : RowId) (from : TaskStatus) (stops : List TaskStop)
    → awaits_signature from ≡ true
    → in_step id from stops ≡ true
    → in_step id TaskStatus.store_signed stops ≡ true
unfolding allows
in_step-store_signed id from [] u h = refl
in_step-store_signed id from (s ∷ stops) u h = ground (arith, in_step-store_signed id from stops)

in_step-completed :
    (id : RowId) (stops : List TaskStop)
    → all (λ s. not (s.task_id == id) || is_signed s.status) stops ≡ true
    → in_step id TaskStatus.completed stops ≡ true
unfolding allows
in_step-completed id [] h = refl
in_step-completed id (s ∷ stops) h = ground (arith, in_step-completed id stops)

in_step-signed :
    (id : RowId) (stop : TaskStop) (from : TaskStatus) (stops : List TaskStop)
    → awaits_signature from ≡ true
    → in_step id from stops ≡ true
    → in_step id (signed_status id stop stops) (put (sign_stop stop) stops) ≡ true
unfolding allows
in_step-signed id stop from stops u h =
    elim (Bool-cases (
      all (λ s. is_signed s.status) (select (λ s. s.task_id == id) (put (sign_stop stop) stops)))) [
        | inl signed ↦ rw signed (
            in_step-completed id (put (sign_stop stop) stops) (
              sym (
                all-select (λ s. is_signed s.status) (λ s. s.task_id == id)
                  (put (sign_stop stop) stops))
              ∙ signed))
        | inr open_stops ↦ rw open_stops (
            all-put (λ s. not (s.task_id == id) || allows TaskStatus.store_signed s.status)
              (sign_stop stop) stops (in_step-store_signed id from stops u h) (ground arith))
      ]

stop_of-of_task :
    (task_id store_id : RowId) (db : Db) (stop : TaskStop)
    → stop_of task_id store_id db ≡ some stop
    → stop.task_id ≡ task_id
unfolding stop_of
stop_of-of_task task_id store_id db stop h = (==_iff _ _).0 (
    ground (arith, find-true (λ s. s.task_id == task_id && s.store_id == store_id) db.stops stop h))

-- A signature that succeeds on the stored task, where the keys of the stops are unique and every
-- task is consistent with its stops, keeps both, for this task and for all others: a task that
-- it completes has only signed stops.
pub sign-IsConsistent :
    (env : Env) (task : TransportTask) (user : User) (status : ReceiptStatus)
    (lines : List ReceiptLine) (qr_token : String) (version : ℕ) (key : String) (body : Body)
    (db db' : Db)
    → Unique db.stops
    → get task.id db.tasks ≡ some task
    → IsConsistent db
    → sign env task user status lines qr_token version key db ≡ ok (body, db')
    → Unique db'.stops × IsConsistent db'
sign-IsConsistent env task user status lines qr_token version key body db db' u stored h done =
    let w = sign-Signed env task user status lines qr_token version key body db db' done in
    let r = w.recorded in
    let mine = stop_of-of_task task.id (or_else user.store_id task.store_id) db w.stop w.at_store in
    (
      rw r.stops (put-Unique (sign_stop w.stop) db.stops u),
      λ id row found.
          elim (put-cases (record task { status = r.to; object_version = task.object_version + 1 })
            id db.tasks row task stored (rw r.tasks at found)) [
              | inl (same, new) ↦
                  rw (r.stops, ← same, new, r.to_status)
                    (in_step-signed task.id w.stop task.status db.stops w.awaited
                      (h task.id task stored))
              | inr (ne, old) ↦ rw r.stops (
                  in_step-other id row.status (sign_stop w.stop) db.stops (λ e. ne (sym mine ∙ e))
                    (h id row old))
            ],
    )
