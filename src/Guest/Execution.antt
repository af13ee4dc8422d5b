-- ===== src/Guest/Execution.antt =====
-- cmd/herd-guest-agent/main.go: `handleExecution` and the command of `handleInteractiveShell`. What the
-- decoder of the payload and `os.Stat` in the container answer are arguments.
use herd.Common.{
  ◌≡◌, inl, inr, ◌⊎◌, Bool, true, false, List, [], ◌∷◌, ◌++◌, Option, none, some, if◌then◌else◌,
  All,
}
use herd.Common.Text.{Text, codes}
use herd.Common.Split.{has_prefix}
use herd.Vsock.Defs.{ExecPayload}

-- `exec.Cmd`: the streams are those of the connection.
pub record Command : Type 0 where
  pub path : Text
  pub args : List Text
  pub env : List Text
  pub chroot : Text

pub data ExecError : Type 0 where
  not_decoded empty_command not_found : ExecError

abbrev pub standard_paths : List Text
standard_paths =
    codes "/usr/local/bin"
    ∷ codes "/usr/bin"
    ∷ codes "/bin"
    ∷ codes "/usr/local/sbin"
    ∷ codes "/usr/sbin"
    ∷ codes "/sbin"
    ∷ []

abbrev pub default_path : Text
default_path = codes "PATH=/usr/local/sbin:/usr/local/bin:/usr/sbin:/usr/bin:/sbin:/bin"

abbrev pub container_root : Text
container_root = codes "/mnt/container"

abbrev pub joined : Text → Text → Text
joined p bin = p ++ b'/' ∷ bin

-- The loop over the standard paths.
unfoldable pub look_up : (Text → Bool) → List Text → Text → Text
look_up exists [] bin = bin
look_up exists (p ∷ ps) bin =
    let rest = look_up exists ps bin in
    if exists (container_root ++ joined p bin) then joined p bin else rest

unfoldable pub resolve : (Text → Bool) → Text → Text
resolve exists bin = if has_prefix (codes "/") bin then bin else look_up exists standard_paths bin

-- A command line that was decoded: what is run, or why nothing is.
unfoldable pub run_command : (Text → Bool) → List Text → List Text → ExecError ⊎ Command
run_command exists [] env = inl empty_command
run_command exists (bin ∷ args) env =
    let path = resolve exists bin in
    if has_prefix (codes "/") path
    then inr (record {
      path = path;
      args = bin ∷ args;
      env = default_path ∷ env;
      chroot = container_root;
    })
    else inl not_found

unfoldable pub handle_execution : (Text → Bool) → Option ExecPayload → ExecError ⊎ Command
handle_execution exists none = inl not_decoded
handle_execution exists (some payload) = run_command exists payload.command payload.env

unfoldable pub interactive_shell : Command
interactive_shell = record {
  path = codes "/bin/bash";
  args = [];
  env = default_path ∷ codes "TERM=xterm" ∷ [];
  chroot = container_root;
}

-- `path` is what `bin` stands for: itself if it is absolute, and otherwise the file of this name in
-- the first of the standard paths in which the container has one.
abbrev pub Resolves : (Text → Bool) → Text → Text → Type 0
Resolves exists bin path =
    ((has_prefix (codes "/") bin ≡ true) × (path ≡ bin))
    ⊎ ((has_prefix (codes "/") bin ≡ false)
        × (before : List Text) × (p : Text) × (after : List Text) × (standard_paths
            ≡ before ++ p ∷ after)
        × All (λ (q : Text). exists (container_root ++ joined q bin) ≡ false) before
        × (exists (container_root ++ joined p bin) ≡ true)
        × (path ≡ joined p bin))
