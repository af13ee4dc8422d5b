-- ===== src/Settings/Tests.antt =====
-- A configuration that names no ports, and parsers that answer for its two addresses.
use herd.Common.{◌≡◌, refl, false, [], none, some}
use herd.Common.Int.{pos}
use herd.Common.Text.{Text, codes, text_eq}
use herd.Settings.Defs.{
  Config, Parsers, apply_defaults, validate, validate_data_bind, first_problem,
}

abbrev parsers : Parsers
parsers = record {
  split_host_port = λ t. some (codes "localhost", t);
  atoi = λ t. some (pos 8080);
  is_loopback_ip = λ t. false;
}

abbrev decoded : Config
decoded = record {
  network = record {
    control_bind = codes "localhost:8080";
    data_bind = codes "localhost:8081";
    ephemeral_port_start = pos 0;
    ephemeral_port_end = pos 0;
  };
  storage = record { state_dir = codes "/s"; snapshotter_name = []; namespace = [] };
  resources = record {
    max_global_vms = pos 4;
    max_global_memory_mb = pos 1024;
    cpu_limit_cores = pos 2;
  };
  binaries = record {
    firecracker_path = codes "/f";
    jailer_path = codes "/j";
    kernel_image_path = codes "/k";
    guest_agent_path = codes "/g";
  };
  jailer = record {
    uid_pool_start = pos 300000;
    uid_pool_size = pos 4;
    chroot_base_dir = codes "/srv";
  };
  telemetry = record { log_format = []; metrics_path = [] };
  cloud = record {
    enabled = false;
    endpoint = [];
    machine_token = [];
    node_key = [];
    node_key_path = [];
    node_id = [];
    interface = [];
  };
}

abbrev join : Text → Text
join t = t

abbrev loaded : Config
loaded = unfold apply_defaults in apply_defaults join [] decoded

accepts : validate parsers loaded ≡ none
unfolding validate first_problem validate_data_bind text_eq apply_defaults
accepts = refl
