-- ===== src/Scheduler/Expiry.antt =====
-- What the scheduled jobs leave.
use black_soil_loop_server.Prelude.{
  ◌≡◌, List, [], ◌∷◌, none, is_some, ◌≤◌, true, some, ◌+◌, ◌⊎◌, ◌<◌,
}
use black_soil_loop_server.Models.{Instant, UserSession, TransportPlan}
use black_soil_loop_server.Db.{Db}

-- What becomes of a session: a live one that ends by `now` is revoked at `now`, another is kept.
abbrev pub SessionSwept : Instant → UserSession → UserSession → Type 0
SessionSwept now s s' =
    ((s.revoked_at ≡ none) × (s.expires_at ≤ now) × (s' ≡ record s { revoked_at = some now }))
    ⊎ (((is_some s.revoked_at ≡ true) ⊎ (now < s.expires_at)) × (s' ≡ s))

-- What becomes of a plan: a code that has expired is cleared under the next version, another is kept.
abbrev pub PlanSwept : Instant → TransportPlan → TransportPlan → Type 0
PlanSwept now p p' =
    ((is_some p.published_qr_token ≡ true)
      × ((expires_at : Instant) × (p.qr_expires_at ≡ some expires_at) × (expires_at ≤ now))
      × (p' ≡ record p { published_qr_token = none; object_version = p.object_version + 1 }))
    ⊎ (((p.published_qr_token ≡ none)
          ⊎ (p.qr_expires_at ≡ none)
          ⊎ ((expires_at : Instant) × (p.qr_expires_at ≡ some expires_at) × (now < expires_at)))
        × (p' ≡ p))

-- Two lists, row by row.
abbrev pub RowByRow : {A : Type 0} → (A → A → Type 0) → List A → List A → Type 0
RowByRow r [] [] = Unit
RowByRow r (x ∷ xs) (y ∷ ys) = r x y × RowByRow r xs ys
RowByRow r [] (y ∷ ys) = ⊥
RowByRow r (x ∷ xs) [] = ⊥

-- What becomes of the database: sessions and plans as above, and else only the runs and the next id differ.
pub record Swept (now : Instant) (db db' : Db) : Type 0 where
  pub sessions : RowByRow (SessionSwept now) db.sessions db'.sessions
  pub plans : RowByRow (PlanSwept now) db.plans db'.plans
  pub others : db' ≡ record db {
    sessions = db'.sessions;
    plans = db'.plans;
    runs = db'.runs;
    next_id = db'.next_id;
  }
