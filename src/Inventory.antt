-- ===== src/Inventory.antt =====
-- The inventory snapshot (src/platval/inventory/collector.py).
use pc_platform_validation_t.Base.{nat_eq, string_eq, option_eq, String, List}
use pc_platform_validation_t.Models.Platform.{PlatformIdentity}
use pc_platform_validation_t.Collectors.{CollectorCapability}

pub record InventorySnapshot : Type 0 where
  pub platform : PlatformIdentity
  pub capabilities : List CollectorCapability
  pub limitations : List String
