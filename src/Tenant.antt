-- ===== src/Tenant.antt =====
-- worker.go: `PortMapping` and `TenantConfig`. Strings that are only compared or passed on, such as
-- an image's name or a word of a command, stand as numbers.
use herd.Common.{ℕ, List, Map}
use herd.Common.Int.{ℤ}
use herd.Network.Ports.Defs.{Protocol, Interface}

pub record PortMapping : Type 0 where
  pub host_interface : Interface
  pub host_port : ℕ
  pub guest_port : ℕ
  pub protocol : Protocol

pub record TenantConfig : Type 0 where
  pub image : ℕ
  pub command : List ℕ
  pub env : Map ℕ
  pub idle_timeout_seconds : ℤ
  pub ttl_seconds : ℤ
  pub health_interval : ℕ
  pub vcpus : ℤ
  pub memory_mb : ℤ
  pub port_mappings : List PortMapping
