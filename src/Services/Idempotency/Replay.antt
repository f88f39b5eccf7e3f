-- ===== src/Services/Idempotency/Replay.antt =====
-- A key that is sent again.
use text.Mathlib.TextPositions.{eq_refl}
use black_soil_loop_server.Prelude.{
  ℕ, String, ◌≡◌, ◌≢◌, refl, inl, inr, Bool, true, false, none, some, List, [], ◌∷◌, ◌++◌, str_eq,
  arith, eq_iff, find, any, find-append, find-append_new, Option-cases, Bool-cases,
}
use black_soil_loop_server.Models.{Scope, Payload, Body, IdempotencyRecord}
use black_soil_loop_server.Db.{Db}
use black_soil_loop_server.Tx.{Tx, ok, err, pure, >>=-eq-ok, >>=-ok, ◌>>◌}
use black_soil_loop_server.Env.{Env}
use black_soil_loop_server.Services.Idempotency.{
  scope_eq, has_key, idempotency_conflict, binding, load_idempotent, save_idempotent, answer, once,
}

scope_eq_refl : (s : Scope) → scope_eq s s ≡ true
scope_eq_refl (Scope.task_action a) = ground arith
scope_eq_refl (Scope.receipt a b) = ground arith
scope_eq_refl (Scope.stockout a) = ground arith
scope_eq_refl (Scope.daily_report a) = ground arith
scope_eq_refl (Scope.telemetry a) = ground arith
scope_eq_refl (Scope.task_location a) = ground arith
scope_eq_refl (Scope.task_exception a) = ground arith
scope_eq_refl (Scope.publish_plan a) = ground arith
scope_eq_refl (Scope.cancel_plan a) = ground arith

find-none_of_any {ℓ} :
    {A : Type ℓ} (p : A → Bool) (xs : List A) → any p xs ≡ false → find p xs ≡ none
find-none_of_any p [] h = refl
find-none_of_any p (x ∷ xs) h = ground (arith, find-none_of_any p xs)

-- The key of the scope is bound to the hash and to the answer.
pub record Answered (scope : Scope) (key hash : String) (body : Body) (db : Db) : Type 0 where
  pub row : IdempotencyRecord
  pub found : find (has_key scope key) db.records ≡ some row
  pub same_hash : row.request_hash ≡ hash
  pub same_body : row.response_body ≡ body

has_key_self :
    (scope : Scope) (key : String) (row : IdempotencyRecord)
    → row.scope ≡ scope
    → row.key ≡ key
    → has_key scope key row ≡ true
unfolding has_key
has_key_self scope key row p q = rw (p, q, scope_eq_refl scope, eq_refl)

module _ (env : Env) (scope : Scope) (key : String) (payload : Payload) where
  save-Answered :
      (body : Body) (status : ℕ) (db db' : Db)
      → save_idempotent env scope key payload body status db ≡ ok (tt, db')
      → Answered scope key (env.stable_hash payload) body db'
  unfolding save_idempotent
  save-Answered body status db db' h = elim (Bool-cases (any (has_key scope key) db.records)) [
    | inl taken ↦ absurd (ground arith)
    | inr free ↦ record {
      row = binding env scope key payload db.next_id body status;
      found = ground (
        arith,
        find-append_new (has_key scope key) db.records
            (binding env scope key payload db.next_id body status ∷ [])
            (find-none_of_any (has_key scope key) db.records free),
        has_key_self scope key (binding env scope key payload db.next_id body status) refl refl,
      );
      same_hash = refl;
      same_body = refl;
    }
  ]

  -- A bound key is answered without work, and nothing changes.
  pub once-Answered :
      (status : ℕ) (work : Tx Body) (body : Body) (db : Db)
      → Answered scope key (env.stable_hash payload) body db
      → once env scope key payload status work db ≡ ok (body, db)
  unfolding once load_idempotent answer
  once-Answered status work body db a = ground (
    arith,
    a.found,
    a.same_hash,
    a.same_body,
    eq_iff a.row.request_hash (env.stable_hash payload),
  )

  work-binds :
      (status : ℕ) (work : Tx Body) (body : Body) (db db' : Db)
      → answer env scope key payload none status work db ≡ ok (body, db')
      → Answered scope key (env.stable_hash payload) body db'
  unfolding answer
  work-binds status work body db db' h =
      let (response, db₁, worked, rest) =
        >>=-eq-ok work (λ r. save_idempotent env scope key payload r status >> pure r) db h in
      let (_, db₂, saved, last) =
        >>=-eq-ok (save_idempotent env scope key payload response status) (λ _. pure response) db₁
          rest in
      ground (arith, save-Answered response status db₁ db₂ saved)

  cached-binds :
      (status : ℕ) (work : Tx Body) (body : Body) (row : IdempotencyRecord) (db db' : Db)
      → find (has_key scope key) db.records ≡ some row
      → once env scope key payload status work db ≡ ok (body, db')
      → Answered scope key (env.stable_hash payload) body db'
  unfolding once load_idempotent answer
  cached-binds status work body row db db' found h =
      elim (Bool-cases (str_eq row.request_hash (env.stable_hash payload))) [
        | inl same ↦ record {
          row = row;
          found = ground arith;
          same_hash = (eq_iff _ _).0 same;
          same_body = ground arith;
        }
        | inr other ↦ absurd (ground arith)
      ]

  load-free :
      (db : Db)
      → find (has_key scope key) db.records ≡ none
      → load_idempotent env scope key payload db ≡ ok (none, db)
  unfolding load_idempotent
  load-free db free = ground arith

  once-free :
      (status : ℕ) (work : Tx Body) (db : Db)
      → find (has_key scope key) db.records ≡ none
      → once env scope key payload status work db ≡ answer env scope key payload none status work db
  unfolding once
  once-free status work db free =
      >>=-ok (load_idempotent env scope key payload)
        (λ cached. answer env scope key payload cached status work) db (load-free db free)

  -- A call that succeeds has bound its key to its answer.
  pub once-binds :
      (status : ℕ) (work : Tx Body) (body : Body) (db db' : Db)
      → once env scope key payload status work db ≡ ok (body, db')
      → Answered scope key (env.stable_hash payload) body db'
  once-binds status work body db db' h = elim (Option-cases (find (has_key scope key) db.records)) [
    | inl free ↦ work-binds status work body db db' (rw (once-free status work db free) at h)
    | inr (row, found) ↦ cached-binds status work body row db db' found h
  ]

  -- Bound to another request, the key is refused.
  pub once-conflict :
      (hash : String) (status : ℕ) (work : Tx Body) (body : Body) (db : Db)
      → Answered scope key hash body db
      → hash ≢ env.stable_hash payload
      → once env scope key payload status work db ≡ err (idempotency_conflict scope)
  unfolding once load_idempotent answer
  once-conflict hash status work body db a ne =
      ground (arith, a.found, a.same_hash, eq_iff a.row.request_hash (env.stable_hash payload))

-- Rows that are added later do not take a binding away.
pub Answered-append :
    (scope : Scope) (key hash : String) (body : Body) (db db' : Db) (later : List IdempotencyRecord)
    → Answered scope key hash body db
    → db'.records ≡ db.records ++ later
    → Answered scope key hash body db'
Answered-append scope key hash body db db' later a e = record {
  row = a.row;
  found = ground (arith, find-append (has_key scope key) db.records later a.row a.found);
  same_hash = a.same_hash;
  same_body = a.same_body;
}
