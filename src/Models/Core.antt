-- ===== src/Models/Core.antt =====
-- Schema `core`: the master data that the planning algorithms read.
use black_soil_loop_server.Prelude.{ℕ, String, Bool, Option}
use black_soil_loop_server.Prelude.Int.{ℤ}
use black_soil_loop_server.Models.Enums.{RowId, TemperatureZone}

pub record Vehicle : Type 0 where
  pub id : RowId
  pub driver_id : Option RowId
  pub plate_no : String
  pub temperature_zone : TemperatureZone
  pub max_weight_kg : ℕ
  pub max_volume_m3 : ℕ
  pub enabled : Bool
  pub object_version : ℕ

pub record Warehouse : Type 0 where
  pub id : RowId
  pub enterprise_id : RowId
  pub code : String
  pub name : String
  pub temperature_zone : TemperatureZone
  pub latitude : ℤ
  pub longitude : ℤ
  pub capacity_m3 : ℕ
  pub used_m3 : ℕ
  pub object_version : ℕ

pub record Enterprise : Type 0 where
  pub id : RowId
  pub code : String
  pub name : String
  pub enabled : Bool
  pub object_version : ℕ

pub record Store : Type 0 where
  pub id : RowId
  pub enterprise_id : RowId
  pub code : String
  pub name : String
  pub channel : String
  pub latitude : ℤ
  pub longitude : ℤ
  pub enabled : Bool
  pub object_version : ℕ

pub record Product : Type 0 where
  pub id : RowId
  pub code : String
  pub name : String
  pub category : String
  pub unit : String
  pub temperature_zone : TemperatureZone
  pub object_version : ℕ
