-- ===== src/Persistence/Records.antt =====
-- The records that the repository hands out (src/platval/persistence/repository.py).
use pc_platform_validation_t.Base.{nat_eq, string_eq, option_eq, ℕ, String, List}
use pc_platform_validation_t.Models.Status.{ResultStatus, status_eq}
use pc_platform_validation_t.Models.Results.{Timestamp}
use pc_platform_validation_t.Runner.Run.{RunExecution}

pub record ArtifactRecord : Type 0 where
  pub kind : String
  pub relative_path : String
  pub sha256 : String
  pub size_bytes : ℕ

pub record RunSummary : Type 0 where
  pub run_id : String
  pub plan_name : String
  pub started_at : Timestamp
  pub overall_status : ResultStatus
  pub platform_fingerprint : String

pub record StoredRun (F : Type 0) : Type 0 where
  pub execution : RunExecution F
  pub artifacts : List ArtifactRecord

pub record BaselineRecord : Type 0 where
  pub name : String
  pub source_run_id : String
  pub created_at : Timestamp
  pub platform_fingerprint : String
  pub plan_hash : String
  pub plan_name : String
