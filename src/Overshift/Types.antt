-- ===== src/Overshift/Types.antt =====
-- The data of overshift/src: error.rs, migration.rs, schema.rs and plan.rs.
use surql_parser.Prelude.{ℕ, Option, List, Text}

pub data Error : Type 0 where
  manifest : Text → Error
  migration : Text → Error
  schema : Text → Error
  lock : Text → Error
  validation : Text → Error
  checksum_mismatch : ℕ → Text → Text → Text → Error
  database : Error

pub data Result {ℓ} (A : Type ℓ) : Type ℓ where
  ok : A → Result A
  err : Error → Result A

pub record Migration : Type 0 where
  pub version : ℕ
  pub name : Text
  pub content : Text
  pub checksum : Text
  pub down_content : Option Text

pub record AppliedMigration : Type 0 where
  pub version : ℕ
  pub applied_at : Text
  pub checksum : Text
  pub instance_id : Text

pub record SchemaModule : Type 0 where
  pub name : Text
  pub content : Text
  pub files : List Text

pub record Plan : Type 0 where
  pub pending_migrations : List Migration
  pub schema_modules : List SchemaModule
  pub functions_to_validate : List Text

pub record ApplyResult : Type 0 where
  pub applied_migrations : ℕ
  pub applied_modules : ℕ

pub record RollbackResult : Type 0 where
  pub rolled_back : List Text
  pub target_version : ℕ
  pub errors : List Text
