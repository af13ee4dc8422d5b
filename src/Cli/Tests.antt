-- ===== src/Cli/Tests.antt =====
-- An init with --yes on a host that has the files, and a start with what it writes.
use herd.Common.{
  ◌≡◌, refl, ap, subst, inr, true, false, [], ◌∷◌, Option, none, some, if◌then◌else◌, arith,
}
use herd.Common.Int.{ℤ, pos}
use herd.Common.Text.{codes, text_eq}
use herd.Common.Split.{has_prefix, trim_left, trim_right, to_lower}
use herd.Settings.Defs.{
  Config, Parsers, Problem, kernel_image_path, apply_defaults, validate, validate_data_bind,
  first_problem, load,
}
use herd.Daemon.Defs.{linux}
use herd.Cli.Start.{Env, run_daemon}
use herd.Settings.Validation.{UidsFit}
use herd.Cli.Ready.{LoadedFit, Ready, run_daemon-Ready}
use herd.Cli.Init.{
  Flags, Site, prompt_string, prompt_number, prompt_confirm, choose_binaries, choose_agent,
  choose_kernel, choose_chroot, choose_limits, init_config, assemble, run_init,
}
use herd.Common.Fields.{contains}
use herd.Cli.Archive.{release_arch, entry, no_firecracker, read_archive}
use herd.Cli.Accepted.{ReadsLocal, load-run_init}

abbrev flags : Flags
flags = record {
  auto_yes = true;
  firecracker_path = [];
  jailer_path = [];
  kernel_path = codes "/boot/vmlinux";
  chroot_base = codes "/srv/jailer";
  max_vms = pos 0;
  max_memory = pos 2048;
  cpu_cores = pos 0;
  cloud_endpoint = [];
  machine_token = [];
}

abbrev site : Site
site = record {
  home = codes "/root";
  exists = λ file. true;
  downloads = λ d. true;
  scan = λ t. none;
  makes_dir = λ dir. true;
  has_info = true;
  cpu_cores = 4;
  most_memory = pos 6553;
}

abbrev parsers : Parsers
parsers = record {
  split_host_port = λ t.
      if text_eq (codes "127.0.0.1:8081") t
      then some (codes "127.0.0.1", codes "8081")
      else some (codes "127.0.0.1", codes "8080");
  atoi = λ t. if text_eq (codes "8081") t then some (pos 8081) else some (pos 8080);
  is_loopback_ip = λ t. true;
}

parsers-ReadsLocal : ReadsLocal parsers
unfolding text_eq
parsers-ReadsLocal = record {
  control = refl;
  data_plane = refl;
  control_port = refl;
  data_port = refl;
  loopback = refl;
}

abbrev limits : ℤ × (ℤ × ℤ)
limits = (pos 16, (pos 2048, pos 3))

abbrev written : Config
written =
    init_config site flags (codes "/root/.herd/bin/firecracker", codes "/root/.herd/bin/jailer")
      (codes "/root/.herd/bin/herd-guest-agent") (codes "/boot/vmlinux") (codes "/srv/jailer")
      limits

run_written : run_init site flags [] ≡ some written
unfolding run_init assemble choose_binaries choose_agent choose_kernel choose_chroot choose_limits
run_written = refl

load-run_init_example : load parsers (λ t. t) [] written ≡ inr (apply_defaults (λ t. t) [] written)
load-run_init_example =
    load-run_init parsers site flags parsers-ReadsLocal refl [] written (λ t. t) [] refl
      (omega arith) refl run_written

-- A blank answer for the kernel of one's own is written, and then refused.
abbrev asked : Option Config
asked =
    run_init site (record flags { auto_yes = false; kernel_path = [] })
      (codes "y" ∷ [] ∷ [] ∷ codes "y" ∷ [] ∷ [] ∷ [])

abbrev problem : Option Config → Option Problem
problem none = none
problem (some cfg) = validate parsers cfg

blank_kernel : problem asked ≡ some kernel_image_path
unfolding run_init assemble choose_binaries choose_agent choose_kernel choose_chroot choose_limits
    init_config prompt_string prompt_number prompt_confirm trim_left trim_right to_lower text_eq
    validate first_problem validate_data_bind
blank_kernel = refl

abbrev env : Env
env = record {
  platform = linux;
  decoded = some written;
  parsers = parsers;
  join = λ t. t;
  home = [];
  chan_limit = 65536;
  containerd = record { abs_socket = λ dir. some dir; connects = λ sock. true };
  addresses = λ name. none;
  listens = λ bind. true;
}

written-LoadedFit : LoadedFit env (some written)
unfolding apply_defaults init_config
written-LoadedFit c cfg d e =
    let same : written ≡ c = cc in
    let loaded : apply_defaults (λ t. t) [] written ≡ cfg =
      cc (load-run_init_example, ap (load parsers (λ t. t) []) same, e) in
    subst (λ (x : Config). UidsFit 65536 x) loaded (omega arith, omega arith)

run_daemon-Ready_example : Ready (run_daemon env [])
run_daemon-Ready_example = run_daemon-Ready env [] written-LoadedFit

-- The architecture is asked for under its name in Go.
amd64_as_it_is : release_arch (codes "amd64") ≡ codes "amd64"
unfolding release_arch text_eq
amd64_as_it_is = refl

only_debug :
    read_archive
      (entry (codes "jailer-v1") true ∷ entry (codes "firecracker-v1.debug") true ∷ [])
      false
      false
    ≡ some no_firecracker
unfolding read_archive contains has_prefix
only_debug = refl
