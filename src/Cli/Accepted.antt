-- ===== src/Cli/Accepted.antt =====
-- The daemon reads the configuration that init writes.
use herd.Common.{
  ℕ, ◌≡◌, ◌≤◌, refl, subst, inl, inr, Bool, true, false, not, ◌&&◌, Bool-cases, List, [], ◌∷◌, ◌++◌,
  Option, none, some, if◌then◌else◌, arith,
}
use herd.Common.Int.{ℤ, pos, negsuc, is_positive}
use herd.Common.Text.{Text, codes, text_eq, is_empty}
use herd.Settings.Defs.{
  Config, Parsers, apply_defaults, validate, validate_data_bind, first_problem, load,
}
use herd.Cli.Init.{
  Flags, Site, in_bin, kernel_file, Download, needing, choose_binaries, choose_agent, choose_kernel,
  choose_chroot, choose_limits, init_config, assemble, run_init, herd_dir, state_dir, own_binaries,
  flag_or, default_vms, default_cores,
}

-- What the parsers answer for the two addresses that init writes.
pub record ReadsLocal (p : Parsers) : Type 0 where
  pub control : p.split_host_port (codes "127.0.0.1:8081") ≡ some (codes "127.0.0.1", codes "8081")
  pub data_plane :
      p.split_host_port (codes "127.0.0.1:8080") ≡ some (codes "127.0.0.1", codes "8080")
  pub control_port : p.atoi (codes "8081") ≡ some (pos 8081)
  pub data_port : p.atoi (codes "8080") ≡ some (pos 8080)
  pub loopback : p.is_loopback_ip (codes "127.0.0.1") ≡ true

some_inj : {A : Type 0} → {x y : A} → some x ≡ some y → x ≡ y
some_inj h = cc

if_some :
    {A : Type 0} → (b : Bool) (x : Option A) (y : A) → (if b then x else none) ≡ some y → x ≡ some y
if_some true x y h = h
if_some false x y h = absurd (cc)

full : (t : Text) (c : ℕ) (u : Text) → is_empty (t ++ c ∷ u) ≡ false
full [] c u = refl
full (a ∷ t) c u = refl

-- A path that is not empty, if there is one, and two of them.
abbrev Full : Option Text → Type 0
Full none = Unit
Full (some t) = is_empty t ≡ false

abbrev AllFull : Option (Text × Text) → Type 0
AllFull none = Unit
AllFull (some (t, u)) = (is_empty t ≡ false) × (is_empty u ≡ false)

if-Full : (b : Bool) (x y : Option Text) → Full x → Full y → Full (if b then x else y)
if-Full true x y p q = p
if-Full false x y p q = q

if-AllFull :
    (b : Bool) (x y : Option (Text × Text)) → AllFull x → AllFull y → AllFull (if b then x else y)
if-AllFull true x y p q = p
if-AllFull false x y p q = q

module _ (site : Site) where
  below : (c : ℕ) (t : Text) → is_empty (herd_dir site ++ c ∷ t) ≡ false
  below c t = full (herd_dir site) c t

  needing-Full : (d : Download) (t : Text) → is_empty t ≡ false → Full (needing site d t)
  needing-Full d t h = if-Full (site.downloads d) (some t) none h tt

  needing-AllFull :
      (d : Download) (t u : Text)
      → is_empty t ≡ false
      → is_empty u ≡ false
      → AllFull (needing site d (t, u))
  needing-AllFull d t u h k = if-AllFull (site.downloads d) (some (t, u)) none (h, k) tt

module _ (p : Parsers) (site : Site) (flags : Flags) (reads : ReadsLocal p) where
  control_ok : validate_data_bind p (codes "127.0.0.1:8081") ≡ true
  unfolding text_eq validate_data_bind
  control_ok = rw (validate_data_bind, reads.control, reads.control_port, reads.loopback) refl

  data_ok : validate_data_bind p (codes "127.0.0.1:8080") ≡ true
  unfolding text_eq validate_data_bind
  data_ok = rw (validate_data_bind, reads.data_plane, reads.data_port, reads.loopback) refl

  config-validate :
      (paths : Text × Text) (agent k chroot : Text) (limits : ℤ × (ℤ × ℤ)) (join : Text → Text)
      (home : Text)
      → is_empty paths.0 ≡ false
      → is_empty paths.1 ≡ false
      → is_empty agent ≡ false
      → is_empty k ≡ false
      → is_empty chroot ≡ false
      → is_positive limits.0 ≡ true
      → is_positive limits.1.0 ≡ true
      → is_positive limits.1.1 ≡ true
      → validate p (apply_defaults join home (init_config site flags paths agent k chroot limits))
        ≡ none
  unfolding validate first_problem apply_defaults init_config text_eq
  config-validate (fc, jailer) agent k chroot (pos v, (pos m, pos c)) join home f j a kk ch x y z =
      rw (control_ok, data_ok, f, j, a, kk, ch) (ground arith)
  config-validate paths agent k chroot (negsuc v, r) join home f j a kk ch x y z =
      absurd (ground arith)
  config-validate paths agent k chroot (v, (negsuc m, c)) join home f j a kk ch x y z =
      absurd (ground arith)
  config-validate paths agent k chroot (v, (m, negsuc c)) join home f j a kk ch x y z =
      absurd (ground arith)

  module _ (auto : flags.auto_yes ≡ true) where
    choose_binaries-AllFull : (lines : List Text) → AllFull (choose_binaries site flags lines).0
    unfolding choose_binaries
    choose_binaries-AllFull lines =
        elim (Bool-cases
          (not (is_empty flags.firecracker_path) && not (is_empty flags.jailer_path))) [
            | inl e ↦ rw (choose_binaries, e) (ground arith, ground arith)
            | inr e ↦
                rw (choose_binaries, e, auto)
                  (if-AllFull
                    (site.exists (own_binaries site flags).0
                      && site.exists (own_binaries site flags).1)
                    _ _ own_full (needing-AllFull site _ _ _ own_full.0 own_full.1))
          ]
      where
        own_full :
            (is_empty (own_binaries site flags).0 ≡ false)
            × (is_empty (own_binaries site flags).1 ≡ false)
        own_full = (below site b'/' (codes "bin/firecracker"), below site b'/' (codes "bin/jailer"))

    choose_agent-Full : Full (choose_agent site flags)
    unfolding choose_agent
    choose_agent-Full =
        if-Full (site.exists (in_bin site (codes "herd-guest-agent"))) _ _
          (below site b'/' (codes "bin/herd-guest-agent"))
          (needing-Full site _ _ (below site b'/' (codes "bin/herd-guest-agent")))

    choose_kernel-Full : (lines : List Text) → Full (choose_kernel site flags lines).0
    unfolding choose_kernel
    choose_kernel-Full lines = elim (Bool-cases (is_empty flags.kernel_path)) [
      | inr e ↦ rw (choose_kernel, e) e
      | inl e ↦
          rw (choose_kernel, e, auto)
            (if-Full (site.exists (kernel_file site)) _ _
              (full (state_dir site) b'/' (codes "vmlinux-v6.1.bin"))
              (needing-Full site _ _ (full (state_dir site) b'/' (codes "vmlinux-v6.1.bin"))))
    ]

    flag_or_positive :
        (f d : ℤ) → is_positive d ≡ true → is_positive (flag_or site flags f d) ≡ true
    flag_or_positive f d h = elim (Bool-cases (is_positive f)) [ inl e ↦ rw e e | inr e ↦ rw e h ]

    vms_positive : 1 ≤ site.cpu_cores → is_positive (default_vms site flags) ≡ true
    vms_positive c = ground arith

    cores_positive : is_positive (default_cores site flags) ≡ true
    cores_positive = ground arith

    limits_positive :
        (lines : List Text)
        → 1 ≤ site.cpu_cores
        → is_positive site.most_memory ≡ true
        → let r = (choose_limits site flags lines).0 in
          (is_positive r.0 ≡ true) × (is_positive r.1.0 ≡ true) × (is_positive r.1.1 ≡ true)
    unfolding choose_limits
    limits_positive lines c m =
        rw (choose_limits, auto)
          (
            flag_or_positive flags.max_vms (default_vms site flags) (vms_positive c),
            flag_or_positive flags.max_memory site.most_memory m,
            flag_or_positive flags.cpu_cores (default_cores site flags) cores_positive,
          )

    chroot_full :
        (lines : List Text)
        → is_empty flags.chroot_base ≡ false
        → is_empty (choose_chroot site flags lines).0 ≡ false
    unfolding choose_chroot
    chroot_full lines h = rw (choose_chroot, auto) h

    built :
        (paths : Option (Text × Text)) (agent k : Option Text) (chroot : Text)
        (limits : ℤ × (ℤ × ℤ)) (cfg : Config) (join : Text → Text) (home : Text)
        → AllFull paths
        → Full agent
        → Full k
        → is_empty chroot ≡ false
        → (is_positive limits.0 ≡ true)
          × (is_positive limits.1.0 ≡ true)
          × (is_positive limits.1.1 ≡ true)
        → assemble site flags paths agent k chroot limits ≡ some cfg
        → validate p (apply_defaults join home cfg) ≡ none
    unfolding assemble
    built none agent k chroot limits cfg join home f a kk c l h = absurd (cc)
    built (some paths) none k chroot limits cfg join home f a kk c l h = absurd (cc)
    built (some paths) (some agent) none chroot limits cfg join home f a kk c l h = absurd (cc)
    built (some paths) (some agent) (some k) chroot limits cfg join home f a kk c l h =
        subst (λ x. validate p (apply_defaults join home x) ≡ none) (some_inj h)
          (config-validate paths agent k chroot limits join home f.0 f.1 a kk c l.0 l.1 l.2)

    -- A configuration that init --yes writes is one that the daemon accepts, whatever is on the host and
    -- whatever the other flags say, if the directory for the jails is not empty, and the host has a core
    -- and memory of which four fifths are at least a megabyte: `Load` gives it back with its defaults.
    pub load-run_init :
        (lines : List Text) (cfg : Config) (join : Text → Text) (home : Text)
        → is_empty flags.chroot_base ≡ false
        → 1 ≤ site.cpu_cores
        → is_positive site.most_memory ≡ true
        → run_init site flags lines ≡ some cfg
        → load p join home cfg ≡ inr (apply_defaults join home cfg)
    unfolding run_init load choose_chroot
    load-run_init lines cfg join home ch c m h =
        let (binaries, lines1) = choose_binaries site flags lines in
        let (kernel_path, lines2) = choose_kernel site flags lines1 in
        let (chroot, lines3) = choose_chroot site flags lines2 in
        let (limits, _) = choose_limits site flags lines3 in
        let h' =
          if_some (site.makes_dir chroot && site.has_info)
            (assemble site flags binaries (choose_agent site flags) kernel_path chroot limits) cfg
            h in
        rw
          (
            load,
            built binaries (choose_agent site flags) kernel_path chroot limits cfg join home
                (choose_binaries-AllFull lines) choose_agent-Full (choose_kernel-Full lines1)
                (chroot_full lines2 ch) (limits_positive lines3 c m) h',
          )
          refl
