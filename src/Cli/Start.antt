-- ===== src/Cli/Start.antt =====
-- cmd/herd/start.go: buildPool, and runDaemon up to the loop that waits. What the configuration file
-- decodes to, containerd and the listener are parameters; the servers are left out.
use herd.Common.{ℕ, Bool, not, List, [], ◌∷◌, Option, none, some, ◌⊎◌, inl, inr, if◌then◌else◌}
use herd.Common.Int.{pos_part}
use herd.Common.Text.{Text, is_empty}
use herd.Pool.State as Workers
use herd.Pool.State.{with_max_workers, default_config, new}
use herd.Uid.Defs as Uids
use herd.Uid.Defs.{new_pool}
use herd.Network.Ports.Defs.{PortManager, new_port_manager}
use herd.Network.Ipam.Defs.{Subnet, Ipam, new_ipam}
use herd.Network.Bindings.Defs.{Addr, get_interface_ip}
use herd.Storage.Manager.{Parents, new_manager}
use herd.Settings.Defs.{Config, Problem, Parsers, load}
use herd.Lifecycle.Defs.{Manager}
use herd.Daemon.Defs.{Platform, enforce_runtime_policy}

-- What `net.ParseCIDR` makes of 10.200.0.0/16.
abbrev pub guest_block : Subnet
guest_block = record { ip = 10 ∷ 200 ∷ 0 ∷ 0 ∷ []; mask = 255 ∷ 255 ∷ 0 ∷ 0 ∷ [] }

-- The pool and what its factory holds.
pub record Parts : Type 0 where
  pub pool : Workers.Pool
  pub parents : Parents
  pub ipam : Ipam
  pub uids : Uids.Pool
  pub ports : PortManager

-- `no_uids` has what `uid.NewPool` answered, also where that is a panic or a pool that is not described.
pub data BuildError : Type 0 where
  no_socket_path no_containerd panicked : BuildError
  no_uids : Uids.Error → BuildError

-- The absolute path of the socket in a state directory, if there is one, and whether containerd is
-- reached there.
pub record Containerd : Type 0 where
  pub abs_socket : Text → Option Text
  pub connects : Text → Bool

-- `limit` is the largest capacity for which `make` gives a channel.
unfoldable pub build_pool : ℕ → Containerd → Config → BuildError ⊎ Parts
build_pool limit k cfg = elim (k.abs_socket cfg.storage.state_dir) [
  | none ↦ inl no_socket_path
  | some sock ↦
      if not (k.connects sock)
      then inl no_containerd
      else elim (new_pool limit cfg.jailer.uid_pool_start cfg.jailer.uid_pool_size) [
        | inl e ↦ inl (no_uids e)
        | inr uids ↦ elim (with_max_workers (pos_part cfg.resources.max_global_vms)) [
          | none ↦ inl panicked
          | some option ↦ inr (record {
            pool = new (option default_config);
            parents = new_manager;
            ipam = new_ipam guest_block;
            uids = uids;
            ports =
                new_port_manager (pos_part cfg.network.ephemeral_port_start)
                  (pos_part cfg.network.ephemeral_port_end);
          })
        ]
      ]
]

-- The `log.Fatal` that ends a start.
pub data Fatal : Type 0 where
  bad_platform not_read no_listener : Fatal
  bad_config : Problem → Fatal
  no_pool : BuildError → Fatal

-- What runs: the configuration, the parts, the manager of the leases, and the address to report.
pub record Running : Type 0 where
  pub config : Config
  pub parts : Parts
  pub leases : Manager
  pub interface_ip : Text

-- What a start meets: the decoded configuration file, the home directory and the path below it, the
-- addresses of an interface, the limit of `make` for channels, and whether the address of the
-- control plane can be listened on.
pub record Env : Type 0 where
  pub platform : Platform
  pub decoded : Option Config
  pub parsers : Parsers
  pub join : Text → Text
  pub home : Text
  pub chan_limit : ℕ
  pub containerd : Containerd
  pub addresses : Text → Option (List Addr)
  pub listens : Text → Bool

-- The interface that the flag names, or else the configuration.
abbrev pub interface_or : Text → Config → Text
interface_or flag cfg = if is_empty flag then cfg.cloud.interface else flag

unfoldable pub report_ip : Env → Text → Text
report_ip env name =
    if is_empty name
    then []
    else elim (get_interface_ip env.addresses name) [ none ↦ [] | some ip ↦ ip ]

-- With a configuration that `Load` returned; `flag` is --interface.
unfoldable pub run_loaded : Env → Text → Config → Fatal ⊎ Running
run_loaded env flag cfg = elim (build_pool env.chan_limit env.containerd cfg) [
  | inl e ↦ inl (no_pool e)
  | inr parts ↦
      if env.listens cfg.network.control_bind
      then inr (record {
        config = cfg;
        parts = parts;
        leases = [];
        interface_ip = report_ip env (interface_or flag cfg);
      })
      else inl no_listener
]

abbrev pub run_read : Env → Text → Problem ⊎ Config → Fatal ⊎ Running
run_read env flag (inl x) = inl (bad_config x)
run_read env flag (inr cfg) = run_loaded env flag cfg

abbrev pub run_decoded : Env → Text → Option Config → Fatal ⊎ Running
run_decoded env flag none = inl not_read
run_decoded env flag (some c) = run_read env flag (load env.parsers env.join env.home c)

-- `runDaemon`, up to its servers.
unfoldable pub run_daemon : Env → Text → Fatal ⊎ Running
run_daemon env flag = elim (enforce_runtime_policy env.platform) [
  | none ↦ inl bad_platform
  | some warnings ↦ run_decoded env flag env.decoded
]
