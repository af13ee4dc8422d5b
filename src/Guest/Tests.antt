-- ===== src/Guest/Tests.antt =====
-- A kernel on which every call succeeds: its world is the list of the mounted paths.
use herd.Common.{◌≡◌, refl, Bool, true, false, ◌||◌, List, [], ◌∷◌, ◌++◌, none, some, arith}
use herd.Common.Text.{Text, codes, text_eq, text_eq_iff}
use herd.Common.Split.{has_prefix, split}
use herd.Common.Numerals.{digits, parse_uint, value}
use herd.Network.Bindings.Defs.{show_ip, parse_ipv4, parse_fields, parse_field}
use herd.Vsock.Defs.{ExecPayload}
use herd.Guest.Kernel.{Mount, Call, mount, Answer, done, done_or_busy, Kernel}
use herd.Guest.Network.{network_params}
use herd.Guest.BootArgs.{boot_args, network_params-boot_args}
use herd.Guest.Execution.{handle_execution, resolve, look_up}
use herd.Guest.Resolved.{Handles, handle_execution-Handles}

abbrev has_text : Text → List Text → Bool
has_text t [] = false
has_text t (u ∷ us) = text_eq t u || has_text t us

abbrev run_call : Call → List Text → List Text × Answer
run_call (mount m) w = (m.target ∷ w, done)
run_call c w = (w, done)

text_eq_refl : (t : Text) → text_eq t t ≡ true
text_eq_refl t = (text_eq_iff t t).1 refl

run-mounted :
    (m : Mount) (w : List Text)
    → done_or_busy (run_call (mount m) w).1 ≡ true
    → has_text m.target (run_call (mount m) w).0 ≡ true
run-mounted m w h = ground (arith, text_eq_refl m.target)

run-keeps :
    (c : Call) (t : Text) (w : List Text) → has_text t w ≡ true → has_text t (run_call c w).0 ≡ true
run-keeps (mount m) t w h = ground arith
run-keeps c t w h = h

abbrev machine_args : Text
machine_args =
    boot_args (codes "/usr/local/bin/herd-guest-agent") (10 ∷ 200 ∷ 0 ∷ 7 ∷ [])
      (10 ∷ 200 ∷ 0 ∷ 1 ∷ [])
    ++ b'\n' ∷ []

abbrev kernel : Kernel (List Text)
kernel = record {
  run = run_call;
  has_link = λ name w. true;
  cmdline = λ w. some machine_args;
  is_mounted = has_text;
  run-mounted = run-mounted;
  run-keeps = run-keeps;
}

network_params-boot_args_example :
    network_params parse_ipv4 machine_args ≡ (none, 10 ∷ 200 ∷ 0 ∷ 7 ∷ [], 10 ∷ 200 ∷ 0 ∷ 1 ∷ [])
unfolding show_ip digits parse_ipv4 parse_fields parse_field parse_uint value split
network_params-boot_args_example =
    network_params-boot_args parse_ipv4 (codes "/usr/local/bin/herd-guest-agent")
      (10 ∷ 200 ∷ 0 ∷ 7 ∷ []) (10 ∷ 200 ∷ 0 ∷ 1 ∷ []) (ground arith) refl refl refl refl

-- A container with /bin/sh alone.
abbrev only_sh : Text → Bool
only_sh t = text_eq t (codes "/mnt/container/bin/sh")

abbrev shell : ExecPayload
shell = record { command = codes "sh" ∷ codes "-c" ∷ []; env = codes "A=1" ∷ [] }

handle_execution-Handles_example :
    Handles only_sh
      (codes "sh" ∷ codes "-c" ∷ [])
      (codes "A=1" ∷ [])
      (handle_execution only_sh (some shell))
handle_execution-Handles_example = handle_execution-Handles only_sh shell

run_shell : resolve only_sh (codes "sh") ≡ codes "/bin/sh"
unfolding resolve look_up has_prefix text_eq
run_shell = refl
