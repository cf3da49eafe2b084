-- ===== src/Models/Platform.antt =====
-- Platform identity (src/platval/models/platform.py).
use pc_platform_validation_t.Base.{nat_eq, string_eq, option_eq, ℕ, String, Bool, Option, List}
use pc_platform_validation_t.Base.Dict.{Dict}

pub record CacheDescriptor : Type 0 where
  pub level : ℕ
  pub kind : String
  pub size_bytes : ℕ
  pub line_size_bytes : Option ℕ

pub record StorageVolume : Type 0 where
  pub filesystem : Option String
  pub capacity_bytes : ℕ
  pub free_bytes : ℕ

pub record PlatformIdentity : Type 0 where
  pub tool_version : String
  pub operating_system : String
  pub operating_system_version : String
  pub operating_system_build : Option String
  pub python_version : String
  pub architecture : String
  pub cpu_vendor : Option String
  pub cpu_brand : Option String
  pub logical_processor_count : ℕ
  pub physical_processor_count : Option ℕ
  pub caches : List CacheDescriptor
  pub total_memory_bytes : ℕ
  pub storage_volume : StorageVolume
  pub power_plan_name : Option String
  pub native_probe_version : Option String
  pub capability_flags : Dict String Bool
  pub sanitized_platform_fingerprint : String
