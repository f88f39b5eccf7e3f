-- ===== src/Models/Iam.antt =====
-- Schema `iam`: users and their sessions. Timestamps that only the ORM writes (`created_at`,
-- `updated_at`) are left out of every table.
use black_soil_loop_server.Prelude.{ℕ, String, Bool, Option}
use black_soil_loop_server.Models.Enums.{RowId, Instant, Role}

pub record User : Type 0 where
  pub id : RowId
  pub username : String
  pub display_name : String
  pub password_hash : String
  pub role : Role
  pub enterprise_id : Option RowId
  pub store_id : Option RowId
  pub driver_id : Option RowId
  pub wechat_openid : Option String
  pub active : Bool
  pub session_version : ℕ
  pub object_version : ℕ

pub record UserSession : Type 0 where
  pub id : RowId
  pub user_id : RowId
  pub refresh_token_hash : String
  pub session_version : ℕ
  pub expires_at : Instant
  pub last_activity_at : Instant
  pub revoked_at : Option Instant
