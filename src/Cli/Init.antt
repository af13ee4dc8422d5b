-- ===== src/Cli/Init.antt =====
-- cmd/herd/init.go: runInit up to the configuration that it writes, and the archive that it reads. The
-- lines that are typed, the files that are there, the downloads and the facts of the host are
-- parameters; home is a clean path, and a float stands as an integer.
use herd.Common.{
  ℕ, ◌-◌, ◌*◌, ◌&&◌, ◌||◌, not, Bool, true, false, List, [], ◌∷◌, ◌++◌, Option, none, some,
  if◌then◌else◌, leb,
}
use herd.Common.Int.{ℤ, pos, is_positive}
use herd.Common.Text.{Text, codes, text_eq, is_empty}
use herd.Common.Split.{to_lower, trim_space}
use herd.Settings.Defs.{Config}

pub record Flags : Type 0 where
  pub auto_yes : Bool
  pub firecracker_path : Text
  pub jailer_path : Text
  pub kernel_path : Text
  pub chroot_base : Text
  pub max_vms : ℤ
  pub max_memory : ℤ
  pub cpu_cores : ℤ
  pub cloud_endpoint : Text
  pub machine_token : Text

pub data Download : Type 0 where
  release : Text → Text → Download
  guest_agent kernel : Text → Download

-- What is met: the home directory, whether a file is there, whether a download succeeds, `Sscanf` of a
-- number, whether a directory can be made, and whether the facts of the host can be read: the cores, and
-- four fifths of the memory in megabytes.
pub record Site : Type 0 where
  pub home : Text
  pub exists : Text → Bool
  pub downloads : Download → Bool
  pub scan : Text → Option ℤ
  pub makes_dir : Text → Bool
  pub has_info : Bool
  pub cpu_cores : ℕ
  pub most_memory : ℤ

-- An answer with the lines that are left; at the end of the input `ReadString` gives the empty line.
abbrev pub Asked : Type 0 → Type 0
Asked A = A × List Text

unfoldable pub prompt_string : Text → List Text → Asked Text
prompt_string default_value [] = (default_value, [])
prompt_string default_value (line ∷ lines) =
    (if is_empty (trim_space line) then default_value else trim_space line, lines)

unfoldable pub prompt_number : (Text → Option ℤ) → ℤ → List Text → Asked ℤ
prompt_number scan default_value [] = (default_value, [])
prompt_number scan default_value (line ∷ lines) =
    let again = prompt_number scan default_value lines in
    if is_empty (trim_space line)
    then (default_value, lines)
    else elim (scan (trim_space line)) [ none ↦ again | some n ↦ (n, lines) ]

unfoldable pub prompt_confirm : Bool → List Text → Asked Bool
prompt_confirm default_value [] = (default_value, [])
prompt_confirm default_value (line ∷ lines) =
    let again = prompt_confirm default_value lines in
    let input = trim_space (to_lower line) in
    if is_empty input
    then (default_value, lines)
    else if text_eq (codes "y") input || text_eq (codes "yes") input
    then (true, lines)
    else if text_eq (codes "n") input || text_eq (codes "no") input
    then (false, lines)
    else again

abbrev pub herd_dir : Site → Text
herd_dir site = site.home ++ codes "/.herd"

abbrev pub in_bin : Site → Text → Text
in_bin site name = herd_dir site ++ (codes "/bin/" ++ name)

abbrev pub state_dir : Site → Text
state_dir site = herd_dir site ++ codes "/state"

abbrev pub kernel_file : Site → Text
kernel_file site = state_dir site ++ codes "/vmlinux-v6.1.bin"

-- A path, if what has to be downloaded for it is.
abbrev pub needing : {A : Type 0} → Site → Download → A → Option A
needing site d x = if site.downloads d then some x else none

module _ (site : Site) (flags : Flags) where
  abbrev pub own_binaries : Text × Text
  own_binaries = (in_bin site (codes "firecracker"), in_bin site (codes "jailer"))

  -- The paths of firecracker and jailer; `none` is a fatal error.
  unfoldable pub choose_binaries : List Text → Asked (Option (Text × Text))
  choose_binaries lines =
      let (fc, jailer) = own_binaries in
      let download = needing site (release fc jailer) (fc, jailer) in
      let (existing, lines1) = prompt_confirm false lines in
      let (typed_fc, lines2) = prompt_string (codes "/usr/local/bin/firecracker") lines1 in
      let (typed_jailer, lines3) = prompt_string (codes "/usr/local/bin/jailer") lines2 in
      if not (is_empty flags.firecracker_path) && not (is_empty flags.jailer_path)
      then (some (flags.firecracker_path, flags.jailer_path), lines)
      else if flags.auto_yes
      then (if site.exists fc && site.exists jailer then some (fc, jailer) else download, lines)
      else if existing
      then (some (typed_fc, typed_jailer), lines3)
      else (download, lines1)

  unfoldable pub choose_agent : Option Text
  choose_agent =
      let agent = in_bin site (codes "herd-guest-agent") in
      if site.exists agent then some agent else needing site (guest_agent agent) agent

  unfoldable pub choose_kernel : List Text → Asked (Option Text)
  choose_kernel lines =
      let file = kernel_file site in
      let (existing, lines1) = prompt_confirm false lines in
      let (typed, lines2) = prompt_string [] lines1 in
      if not (is_empty flags.kernel_path)
      then (some flags.kernel_path, lines)
      else if flags.auto_yes
      then (if site.exists file then some file else needing site (kernel file) file, lines)
      else if existing
      then (some typed, lines2)
      else (needing site (kernel file) file, lines1)

  unfoldable pub choose_chroot : List Text → Asked Text
  choose_chroot lines =
      if flags.auto_yes
      then (flags.chroot_base, lines)
      else prompt_string (codes "/srv/jailer") lines

  abbrev pub default_vms : ℤ
  default_vms = pos (site.cpu_cores * 4)

  abbrev pub default_cores : ℤ
  default_cores = if leb site.cpu_cores 2 then pos 1 else pos (site.cpu_cores - 1)

  abbrev pub flag_or : ℤ → ℤ → ℤ
  flag_or flag d = if is_positive flag then flag else d

  -- The number of machines, the memory and the cores.
  unfoldable pub choose_limits : List Text → Asked (ℤ × (ℤ × ℤ))
  choose_limits lines =
      let (vms, lines1) = prompt_number site.scan default_vms lines in
      let (memory, lines2) = prompt_number site.scan site.most_memory lines1 in
      let (cores, lines3) = prompt_number site.scan default_cores lines2 in
      if flags.auto_yes
      then (
        (
          flag_or flags.max_vms default_vms,
          (flag_or flags.max_memory site.most_memory, flag_or flags.cpu_cores default_cores),
        ),
        lines,
      )
      else ((vms, (memory, cores)), lines3)

  -- The configuration that is written.
  unfoldable pub init_config : Text × Text → Text → Text → Text → ℤ × (ℤ × ℤ) → Config
  init_config (fc, jailer) agent kernel_path chroot_base (vms, (memory, cores)) = record {
    network = record {
      control_bind = codes "127.0.0.1:8081";
      data_bind = codes "127.0.0.1:8080";
      ephemeral_port_start = pos 10000;
      ephemeral_port_end = pos 39999;
    };
    storage = record {
      state_dir = state_dir site;
      snapshotter_name = codes "devmapper";
      namespace = codes "herd";
    };
    resources = record {
      max_global_vms = vms;
      max_global_memory_mb = memory;
      cpu_limit_cores = cores;
    };
    binaries = record {
      firecracker_path = fc;
      jailer_path = jailer;
      kernel_image_path = kernel_path;
      guest_agent_path = agent;
    };
    jailer = record {
      uid_pool_start = pos 300000;
      uid_pool_size = pos 200;
      chroot_base_dir = chroot_base;
    };
    telemetry = record { log_format = codes "json"; metrics_path = codes "/metrics" };
    cloud = record {
      enabled = not (is_empty flags.cloud_endpoint) && not (is_empty flags.machine_token);
      endpoint = flags.cloud_endpoint;
      machine_token = flags.machine_token;
      node_key = [];
      node_key_path = [];
      node_id = [];
      interface = [];
    };
  }

  unfoldable pub assemble :
      Option (Text × Text) → Option Text → Option Text → Text → ℤ × (ℤ × ℤ) → Option Config
  assemble none agent kernel_path chroot limits = none
  assemble (some paths) none kernel_path chroot limits = none
  assemble (some paths) (some agent) none chroot limits = none
  assemble (some paths) (some agent) (some k) chroot limits =
      some (init_config paths agent k chroot limits)

  -- `runInit` up to the configuration; `none` is a fatal error.
  unfoldable pub run_init : List Text → Option Config
  run_init lines =
      let (binaries, lines1) = choose_binaries lines in
      let (kernel_path, lines2) = choose_kernel lines1 in
      let (chroot, lines3) = choose_chroot lines2 in
      let (limits, _) = choose_limits lines3 in
      if site.makes_dir chroot && site.has_info
      then assemble binaries choose_agent kernel_path chroot limits
      else none
