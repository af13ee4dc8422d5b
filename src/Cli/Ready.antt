-- ===== src/Cli/Ready.antt =====
-- What the daemon starts with.
use herd.Common.{
  ℕ, ◌≡◌, ◌≢◌, ◌≤◌, refl, inl, inr, ◌⊎◌, false, Bool-cases, [], Option, none, some, Option-cases,
  ltb, arith,
}
use herd.Common.Int.{pos_part}
use herd.Common.Text.{Text}
use herd.Pool.State.{with_max_workers, default_config, new}
use herd.Uid.Defs as Uids
use herd.Uid.Leases.{IsSound}
use herd.Network.Ipam.Defs.{new_ipam}
use herd.Network.Ipam.Allocation.{IsReady, new_ipam-IsReady}
use herd.Network.Ports.Defs.{new_port_manager}
use herd.Settings.Defs.{Config, Problem, validate, load}
use herd.Settings.Validation.{
  UidsFit, IsBounded, validate-IsBounded, validate-new_pool, load-validate,
}
use herd.Daemon.Defs.{enforce_runtime_policy}
use herd.Cli.Start.{
  Parts, BuildError, no_uids, panicked, Containerd, build_pool, Fatal, no_pool, Running, Env,
  run_loaded, run_read, run_decoded, run_daemon,
}

-- Neither the panic of `WithMaxWorkers` nor an error or a panic of `uid.NewPool`.
abbrev pub Excused : BuildError → Type 0
Excused e = ((x : Uids.Error) → e ≢ no_uids x) × (e ≢ panicked)

-- The parts for a configuration: a pool with no worker and one ticket for each machine, addresses, user
-- ids and ports of which none is taken.
abbrev pub Fresh : Config → Parts → Type 0
Fresh cfg parts =
    (parts.pool ≡ new (record default_config { max = pos_part cfg.resources.max_global_vms }))
    × IsReady 10 200 parts.ipam
    × (parts.ipam.used ≡ [])
    × IsSound (record { pool = parts.uids; leased = [] })
    × (parts.ports
        ≡ new_port_manager (pos_part cfg.network.ephemeral_port_start)
            (pos_part cfg.network.ephemeral_port_end))

abbrev pub Built : Config → BuildError ⊎ Parts → Type 0
Built cfg (inl e) = Excused e
Built cfg (inr parts) = Fresh cfg parts

vms_ok : (n : ℕ) → 1 ≤ n → ltb n 1 ≡ false
vms_ok n h = ground arith

build_pool-Built :
    (limit : ℕ) (k : Containerd) (env : Env) (cfg : Config)
    → UidsFit limit cfg
    → validate env.parsers cfg ≡ none
    → Built cfg (build_pool limit k cfg)
unfolding build_pool with_max_workers new_ipam
build_pool-Built limit k env cfg u v = elim (Option-cases (k.abs_socket cfg.storage.state_dir)) [
  | inl e ↦ rw (build_pool, e) (λ x q. absurd (cc), λ q. absurd (cc))
  | inr (sock, e) ↦ elim (Bool-cases (k.connects sock)) [
    | inr f ↦ rw (build_pool, e, f) (λ x q. absurd (cc), λ q. absurd (cc))
    | inl f ↦
        let (q, made, _, sound, _) = validate-new_pool limit env.parsers cfg u v in
        rw
          (
            build_pool,
            e,
            f,
            made,
            vms_ok (pos_part cfg.resources.max_global_vms)
                (validate-IsBounded env.parsers cfg v).vms,
          )
          (refl, new_ipam-IsReady 10 200 (omega arith) (omega arith), refl, sound, refl)
  ]
]

-- How a start ends: with the parts for the configuration that it loaded, whose numbers are within
-- bounds, and no leases, or with an error other than those.
abbrev pub Ready : Fatal ⊎ Running → Type 0
Ready (inl (no_pool e)) = Excused e
Ready (inl e) = Unit
Ready (inr r) = IsBounded r.config × Fresh r.config r.parts × (r.leases ≡ [])

run_loaded-Ready :
    (env : Env) (flag : Text) (cfg : Config)
    → UidsFit env.chan_limit cfg
    → validate env.parsers cfg ≡ none
    → Ready (run_loaded env flag cfg)
unfolding run_loaded
run_loaded-Ready env flag cfg u v =
    go (build_pool env.chan_limit env.containerd cfg) refl
      (build_pool-Built env.chan_limit env.containerd env cfg u v)
  where
    go :
        (r : BuildError ⊎ Parts)
        → build_pool env.chan_limit env.containerd cfg ≡ r
        → Built cfg r
        → Ready (run_loaded env flag cfg)
    go (inl x) e b = rw (run_loaded, e) b
    go (inr parts) e b = elim (Bool-cases (env.listens cfg.network.control_bind)) [
      | inl l ↦ rw (run_loaded, e, l) (validate-IsBounded env.parsers cfg v, b, refl)
      | inr l ↦ rw (run_loaded, e, l) tt
    ]

run_read-Ready :
    (env : Env) (flag : Text) (r : Problem ⊎ Config)
    → ((cfg : Config)
        → r ≡ inr cfg
        → UidsFit env.chan_limit cfg × (validate env.parsers cfg ≡ none))
    → Ready (run_read env flag r)
run_read-Ready env flag (inl x) v = tt
run_read-Ready env flag (inr cfg) v =
    let (u, accepted) = v cfg refl in run_loaded-Ready env flag cfg u accepted

-- The user ids of the configuration that is loaded from this one fit.
abbrev pub LoadedFit : Env → Option Config → Type 0
LoadedFit env decoded =
    (c cfg : Config)
    → decoded ≡ some c
    → load env.parsers env.join env.home c ≡ inr cfg
    → UidsFit env.chan_limit cfg

run_decoded-Ready :
    (env : Env) (flag : Text) (decoded : Option Config)
    → LoadedFit env decoded
    → Ready (run_decoded env flag decoded)
run_decoded-Ready env flag none fit = tt
run_decoded-Ready env flag (some c) fit =
    run_read-Ready env flag (load env.parsers env.join env.home c)
      (λ cfg e. (fit c cfg refl e, (load-validate env.parsers env.join env.home c cfg e).0))

-- However the daemon starts with a configuration for whose user ids `make` gives a channel and
-- whose range of user ids ends below 2^63, neither `WithMaxWorkers` panics nor `uid.NewPool` fails.
-- Where it comes to its servers, the numbers of its configuration are within bounds, its pool has
-- no worker and the size that the configuration names, no address, user id or port is taken and
-- each of the three allocators is as its own theorems need it, and there is no lease.
pub run_daemon-Ready :
    (env : Env) (flag : Text) → LoadedFit env env.decoded → Ready (run_daemon env flag)
unfolding run_daemon
run_daemon-Ready env flag fit = elim (Option-cases (enforce_runtime_policy env.platform)) [
  | inl e ↦ rw (run_daemon, e) tt
  | inr (warnings, e) ↦ rw (run_daemon, e) (run_decoded-Ready env flag env.decoded fit)
]
