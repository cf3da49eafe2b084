-- ===== src/Persistence/Artifacts/Derived.antt =====
-- What `write_derived_artifact` leaves where it raises (src/platval/persistence/artifacts.py).
use pc_platform_validation_t.Base.Action.{Action}
use pc_platform_validation_t.Persistence.Files.{Files}
use pc_platform_validation_t.Persistence.Database.{Database}
