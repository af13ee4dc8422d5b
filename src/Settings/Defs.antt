-- ===== src/Settings/Defs.antt =====
-- internal/config/config.go: `Config`, `applyDefaults`, `Validate` and `Load` behind the YAML decoder.
-- Of the CPU limit, a float, only the sign is read; it stands as an integer.
use herd.Common.{
  ℕ, ◌&&◌, ◌||◌, not, Bool, false, List, [], ◌∷◌, Option, none, some, ◌⊎◌, inl, inr, ◌==◌,
  if◌then◌else◌,
}
use herd.Common.Int.{ℤ, pos, negsuc, ltb_ℤ}
use herd.Common.Text.{Text, codes, text_eq, is_empty}

pub record CloudConfig : Type 0 where
  pub enabled : Bool
  pub endpoint : Text
  pub machine_token : Text
  pub node_key : Text
  pub node_key_path : Text
  pub node_id : Text
  pub interface : Text

pub record BinaryConfig : Type 0 where
  pub firecracker_path : Text
  pub jailer_path : Text
  pub kernel_image_path : Text
  pub guest_agent_path : Text

pub record JailerConfig : Type 0 where
  pub uid_pool_start : ℤ
  pub uid_pool_size : ℤ
  pub chroot_base_dir : Text

pub record StorageConfig : Type 0 where
  pub state_dir : Text
  pub snapshotter_name : Text
  pub namespace : Text

pub record NetworkConfig : Type 0 where
  pub control_bind : Text
  pub data_bind : Text
  pub ephemeral_port_start : ℤ
  pub ephemeral_port_end : ℤ

pub record ResourceConfig : Type 0 where
  pub max_global_vms : ℤ
  pub max_global_memory_mb : ℤ
  pub cpu_limit_cores : ℤ

pub record TelemetryConfig : Type 0 where
  pub log_format : Text
  pub metrics_path : Text

pub record Config : Type 0 where
  pub network : NetworkConfig
  pub storage : StorageConfig
  pub resources : ResourceConfig
  pub binaries : BinaryConfig
  pub jailer : JailerConfig
  pub telemetry : TelemetryConfig
  pub cloud : CloudConfig

-- The parsers of the standard library: net.SplitHostPort, strconv.Atoi, and whether net.ParseIP
-- reads a loopback address.
pub record Parsers : Type 0 where
  pub split_host_port : Text → Option (Text × Text)
  pub atoi : Text → Option ℤ
  pub is_loopback_ip : Text → Bool

-- What `Validate` complains of, in the order of its checks.
pub data Problem : Type 0 where
  control_bind_required control_bind_invalid data_bind_required data_bind_invalid : Problem
  port_start_range port_end_range port_order : Problem
  max_vms max_memory cpu_limit log_format : Problem
  firecracker_path jailer_path kernel_image_path guest_agent_path : Problem
  uid_pool_start uid_pool_size chroot_base_dir metrics_path : Problem

abbrev pub or_default : Text → Text → Text
or_default t d = if is_empty t then d else t

abbrev pub port_or : ℤ → ℕ → ℤ
port_or (pos n) d = if n == 0 then pos d else pos n
port_or (negsuc n) d = negsuc n

-- `applyDefaults`; `home` is what GetTargetHomeDir found, and `join` is filepath.Join with
-- .herd/node.key.
unfoldable pub apply_defaults : (Text → Text) → Text → Config → Config
apply_defaults join home c = record c {
  telemetry = record {
    log_format = or_default c.telemetry.log_format (codes "json");
    metrics_path = or_default c.telemetry.metrics_path (codes "/metrics");
  };
  network = record (c.network) {
    ephemeral_port_start = port_or c.network.ephemeral_port_start 10000;
    ephemeral_port_end = port_or c.network.ephemeral_port_end 39999;
  };
  cloud = record (c.cloud) {
    node_key_path =
        or_default c.cloud.node_key_path
          (if is_empty home then codes "/etc/herd/node.key" else join home);
  };
}

abbrev pub is_port : ℤ → Bool
is_port n = not (ltb_ℤ n (pos 1) || ltb_ℤ (pos 65535) n)

abbrev pub port_ok : Option ℤ → Bool
port_ok none = false
port_ok (some n) = is_port n

-- `validateDataBind`
unfoldable pub validate_data_bind : Parsers → Text → Bool
validate_data_bind p bind = elim (p.split_host_port bind) [
  | none ↦ false
  | some (host, port) ↦
      port_ok (p.atoi port) && (text_eq host (codes "localhost") || p.is_loopback_ip host)
]

abbrev pub starts_with_slash : Text → Bool
starts_with_slash [] = false
starts_with_slash (c ∷ t) = c == b'/'

-- The first check that fails.
unfoldable pub first_problem : List (Bool × Problem) → Option Problem
first_problem [] = none
first_problem ((bad, x) ∷ checks) = if bad then some x else first_problem checks

-- `Validate`; `none` is the nil error.
unfoldable pub validate : Parsers → Config → Option Problem
validate p c = first_problem (
    (is_empty c.network.control_bind, control_bind_required)
    ∷ (not (validate_data_bind p c.network.control_bind), control_bind_invalid)
    ∷ (is_empty c.network.data_bind, data_bind_required)
    ∷ (not (validate_data_bind p c.network.data_bind), data_bind_invalid)
    ∷ (not (is_port c.network.ephemeral_port_start), port_start_range)
    ∷ (not (is_port c.network.ephemeral_port_end), port_end_range)
    ∷ (ltb_ℤ c.network.ephemeral_port_end c.network.ephemeral_port_start, port_order)
    ∷ (ltb_ℤ c.resources.max_global_vms (pos 1), max_vms)
    ∷ (ltb_ℤ c.resources.max_global_memory_mb (pos 1), max_memory)
    ∷ (ltb_ℤ c.resources.cpu_limit_cores (pos 0), cpu_limit)
    ∷ (
      not (text_eq c.telemetry.log_format (codes "json"))
          && not (text_eq c.telemetry.log_format (codes "text")),
      log_format,
    )
    ∷ (is_empty c.binaries.firecracker_path, firecracker_path)
    ∷ (is_empty c.binaries.jailer_path, jailer_path)
    ∷ (is_empty c.binaries.kernel_image_path, kernel_image_path)
    ∷ (is_empty c.binaries.guest_agent_path, guest_agent_path)
    ∷ (ltb_ℤ c.jailer.uid_pool_start (pos 65536), uid_pool_start)
    ∷ (ltb_ℤ c.jailer.uid_pool_size (pos 1), uid_pool_size)
    ∷ (is_empty c.jailer.chroot_base_dir, chroot_base_dir)
    ∷ (not (starts_with_slash c.telemetry.metrics_path), metrics_path)
    ∷ [])

-- `Load` behind the decoder.
unfoldable pub load : Parsers → (Text → Text) → Text → Config → Problem ⊎ Config
load p join home c =
    let d = apply_defaults join home c in elim (validate p d) [ none ↦ inr d | some x ↦ inl x ]
