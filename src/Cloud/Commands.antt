-- ===== src/Cloud/Commands.antt =====
-- internal/cloud/client.go: `commandLoop`, less the machines that it boots, each in a routine of its own.
-- Ids are numbers, 0 for the empty string.
use herd.Common.{
  ℕ, ◌≡◌, ◌≢◌, ◌∙◌, refl, ap, inl, inr, Bool, true, false, ◌||◌, Bool-cases, List, [], ◌∷◌, Option,
  none, some, if◌then◌else◌,
}
use herd.Common.Text.{Text, is_empty}
use herd.Settings.Defs.{CloudConfig}
use herd.Cloud.Client.{Disk, persist_identity}

pub data Action : Type 0 where
  boot_vm destroy_all swap_credentials unknown : Action

-- `CloudCommand`, with the parameters that the client reads; a parameter that is missing is empty.
pub record Command : Type 0 where
  pub command_id : ℕ
  pub action : Action
  pub requested_session_id : ℕ
  pub requested_ports : List ℕ
  pub image_ref : ℕ
  pub vcpus : Text
  pub memory_mb : Text
  pub node_id : Text
  pub node_key : Text

-- What `Recv` answers: a command, the end of the stream, or another error.
pub data Event : Type 0 where
  received : Command → Event
  closed broken : Event

abbrev pub is_boot : Command → Bool
is_boot cmd = elim (cmd.action) [ boot_vm ↦ true | _ ↦ false ]

module _ {D : Type 0} (k : Disk D) where
  -- What a command with this action leaves of the configuration and the disk.
  unfoldable pub handle_action : Action → Command → CloudConfig → D → CloudConfig × D
  handle_action boot_vm cmd cfg d = (cfg, d)
  handle_action destroy_all cmd cfg d = (cfg, d)
  handle_action unknown cmd cfg d = (cfg, d)
  handle_action swap_credentials cmd cfg d =
      if is_empty cmd.node_id || is_empty cmd.node_key
      then (cfg, d)
      else let (cfg', written) = persist_identity k cmd.node_id cmd.node_key cfg d in
        (cfg', written.0)

  abbrev pub handle_command : Command → CloudConfig → D → CloudConfig × D
  handle_command cmd cfg d = handle_action cmd.action cmd cfg d

  -- The configuration and the disk after these events, and the commands for which a routine that boots a
  -- machine was started, in the order of the starts.
  unfoldable pub command_loop : List Event → CloudConfig → D → (CloudConfig × D) × List Command
  command_loop [] cfg d = ((cfg, d), [])
  command_loop (closed ∷ es) cfg d = ((cfg, d), [])
  command_loop (broken ∷ es) cfg d = ((cfg, d), [])
  command_loop (received cmd ∷ es) cfg d =
      let (cfg', d') = handle_command cmd cfg d in
      let (after, boots) = command_loop es cfg' d' in
      (after, if is_boot cmd then cmd ∷ boots else boots)

-- The commands before the stream ends.
unfoldable pub commands : List Event → List Command
commands [] = []
commands (closed ∷ es) = []
commands (broken ∷ es) = []
commands (received cmd ∷ es) = cmd ∷ commands es

-- Of these commands exactly those that boot a machine had a routine started for them, in this order.
pub data Starts : List Command → List Command → Type 0 where
  none_left : Starts [] []
  starts :
      {cmd : Command} {cs boots : List Command}
      → cmd.action ≡ boot_vm
      → Starts cs boots
      → Starts (cmd ∷ cs) (cmd ∷ boots)
  passes :
      {cmd : Command} {cs boots : List Command}
      → cmd.action ≢ boot_vm
      → Starts cs boots
      → Starts (cmd ∷ cs) boots

-- The credentials that a command with this action carries, if it swaps them and both parts are there.
unfoldable pub swapped_by : Action → Command → Option (Text × Text)
swapped_by swap_credentials cmd =
    if is_empty cmd.node_id || is_empty cmd.node_key then none else some (cmd.node_id, cmd.node_key)
swapped_by _ cmd = none

abbrev pub swapped : Command → Option (Text × Text)
swapped cmd = swapped_by cmd.action cmd

unfoldable pub last_swap : List Command → Option (Text × Text)
last_swap [] = none
last_swap (cmd ∷ cs) = elim (last_swap cs) [ none ↦ swapped cmd | some x ↦ some x ]

-- A configuration with other credentials.
abbrev pub with_swap : Option (Text × Text) → CloudConfig → CloudConfig
with_swap none cfg = cfg
with_swap (some (id, key)) cfg = record cfg { node_id = id; node_key = key }

starts_by :
    (a : Action) (cmd : Command) (cs boots : List Command)
    → cmd.action ≡ a
    → Starts cs boots
    → Starts (cmd ∷ cs) (if elim a [ boot_vm ↦ true | _ ↦ false ] then cmd ∷ boots else boots)
starts_by boot_vm cmd cs boots e s = starts e s
starts_by destroy_all cmd cs boots e s = passes (λ b. cc) s
starts_by swap_credentials cmd cs boots e s = passes (λ b. cc) s
starts_by unknown cmd cs boots e s = passes (λ b. cc) s

module _ {D : Type 0} (k : Disk D) where
  handle_action-swapped_by :
      (a : Action) (cmd : Command) (cfg : CloudConfig) (d : D)
      → (handle_action k a cmd cfg d).0 ≡ with_swap (swapped_by a cmd) cfg
  unfolding handle_action swapped_by persist_identity
  handle_action-swapped_by boot_vm cmd cfg d = refl
  handle_action-swapped_by destroy_all cmd cfg d = refl
  handle_action-swapped_by unknown cmd cfg d = refl
  handle_action-swapped_by swap_credentials cmd cfg d =
      elim (Bool-cases (is_empty cmd.node_id || is_empty cmd.node_key)) [
        | inl e ↦ rw e refl
        | inr e ↦ rw e refl
      ]

  with_swap_twice :
      (x y : Option (Text × Text)) (cfg : CloudConfig)
      → with_swap x (with_swap y cfg) ≡ with_swap (elim x [ none ↦ y | some z ↦ some z ]) cfg
  with_swap_twice none y cfg = refl
  with_swap_twice (some (id, key)) none cfg = refl
  with_swap_twice (some (id, key)) (some (id', key')) cfg = refl

  -- After any events a routine was started for each boot command before the end of the stream, in their
  -- order, and for no other command; the configuration has the credentials of the last swap before that
  -- end, whether or not they could be persisted, and is the same otherwise.
  pub command_loop_lem :
      (es : List Event) (cfg : CloudConfig) (d : D)
      → Starts (commands es) (command_loop k es cfg d).1
        × ((command_loop k es cfg d).0.0 ≡ with_swap (last_swap (commands es)) cfg)
  unfolding command_loop commands last_swap
  command_loop_lem [] cfg d = (none_left, refl)
  command_loop_lem (closed ∷ es) cfg d = (none_left, refl)
  command_loop_lem (broken ∷ es) cfg d = (none_left, refl)
  command_loop_lem (received cmd ∷ es) cfg d =
      let (cfg', d') = handle_command k cmd cfg d in
      let (e1, e2) = command_loop_lem es cfg' d' in
      (
        starts_by cmd.action cmd (commands es) _ refl e1,
        e2
            ∙ ap (λ x. with_swap (last_swap (commands es)) x)
                (handle_action-swapped_by cmd.action cmd cfg d)
            ∙ with_swap_twice (last_swap (commands es)) (swapped cmd) cfg,
      )
