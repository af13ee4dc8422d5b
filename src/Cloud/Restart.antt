-- ===== src/Cloud/Restart.antt =====
-- What the commands of a stream leave for the next start of the daemon.
use herd.Common.{
  ◌≡◌, ◌≢◌, ◌∙◌, refl, sym, ap, subst, inl, inr, true, false, ◌||◌, Bool-cases, List, [], ◌∷◌,
  Option, none, some, if◌then◌else◌, arith,
}
use herd.Common.Text.{Text, codes, is_empty}
use herd.Common.Split.{trim_space}
use herd.Common.Paths.{join, parent}
use herd.Settings.Defs.{CloudConfig}
use herd.Cloud.Client.{
  Disk, Transport, node_key, connected, stream_failed, Reach, dial_with_fallback, key_file, id_file,
  write_identity, persist_identity, start,
}
use herd.Cloud.Identity.{write_identity-read, start_read}
use herd.Cloud.Commands.{
  boot_vm, destroy_all, swap_credentials, unknown, Command, Event, received, closed, broken,
  handle_command, command_loop, commands, swapped, last_swap, swapped_by, handle_action, Action,
}

-- A disk on which every write succeeds.
pub record Works {D : Type 0} (k : Disk D) : Type 0 where
  pub makes : (f : List Text) (d : D) → (k.mkdir_all f d).1 ≡ true
  pub writes : (f : List Text) (t : Text) (d : D) → (k.write_file f t d).1 ≡ true

module _ {D : Type 0} (k : Disk D) (works : Works k) where
  -- From one disk to a later one: the same, or one with these credentials at the path of the key.
  abbrev Kept : Option (Text × Text) → Text → D → D → Type 0
  Kept none path d d' = d' ≡ d
  Kept (some (id, key)) path d d' =
      (k.read_file (join [] path) d' ≡ some key)
      × (k.read_file (codes "node.id" ∷ parent (join [] path)) d' ≡ some id)

  write_identity_ok :
      (id key : Text) (cfg : CloudConfig) (d : D) → (write_identity k id key cfg d).1 ≡ true
  unfolding write_identity
  write_identity_ok id key cfg d =
      rw
        (
          works.makes (parent (key_file cfg)) d,
          works.writes (key_file cfg) key
              (k.remove (key_file cfg) (k.mkdir_all (parent (key_file cfg)) d).0),
        )
        (works.writes _ _ _)

  handle_action-Kept :
      (a : Action) (cmd : Command) (cfg : CloudConfig) (d : D)
      → id_file cfg ≢ key_file cfg
      → Kept (swapped_by a cmd) cfg.node_key_path d (handle_action k a cmd cfg d).1
  unfolding handle_action swapped_by persist_identity
  handle_action-Kept boot_vm cmd cfg d n = refl
  handle_action-Kept destroy_all cmd cfg d n = refl
  handle_action-Kept unknown cmd cfg d n = refl
  handle_action-Kept swap_credentials cmd cfg d n =
      elim (Bool-cases (is_empty cmd.node_id || is_empty cmd.node_key)) [
        | inl e ↦ rw e refl
        | inr e ↦ rw e (
            write_identity-read k cmd.node_id cmd.node_key cfg d n
              (write_identity_ok cmd.node_id cmd.node_key cfg d))
      ]

  handle_action_path :
      (a : Action) (cmd : Command) (cfg : CloudConfig) (d : D)
      → (handle_action k a cmd cfg d).0.node_key_path ≡ cfg.node_key_path
  unfolding handle_action persist_identity
  handle_action_path boot_vm cmd cfg d = refl
  handle_action_path destroy_all cmd cfg d = refl
  handle_action_path unknown cmd cfg d = refl
  handle_action_path swap_credentials cmd cfg d = ground arith

  Kept-twice :
      (x y : Option (Text × Text)) (path : Text) (d d1 d2 : D)
      → Kept y path d d1
      → Kept x path d1 d2
      → Kept (elim x [ none ↦ y | some z ↦ some z ]) path d d2
  Kept-twice none y path d d1 d2 p q = subst (λ e. Kept y path d e) (sym q) p
  Kept-twice (some (id, key)) y path d d1 d2 p q = q

  command_loop-Kept :
      (es : List Event) (cfg : CloudConfig) (d : D)
      → id_file cfg ≢ key_file cfg
      → Kept (last_swap (commands es)) cfg.node_key_path d (command_loop k es cfg d).0.1
  unfolding command_loop commands last_swap
  command_loop-Kept [] cfg d n = refl
  command_loop-Kept (closed ∷ es) cfg d n = refl
  command_loop-Kept (broken ∷ es) cfg d n = refl
  command_loop-Kept (received cmd ∷ es) cfg d n =
      let (cfg1, d1) = handle_command k cmd cfg d in
      let e = handle_action_path cmd.action cmd cfg d in
      Kept-twice (last_swap (commands es)) (swapped cmd) cfg.node_key_path d d1 _
        (handle_action-Kept cmd.action cmd cfg d n)
        (subst (λ x. Kept (last_swap (commands es)) x d1 (command_loop k es cfg1 d1).0.1) e
          (command_loop-Kept es cfg1 d1
            (subst (λ x. codes "node.id" ∷ parent (join [] x) ≢ join [] x) (sym e) n)))

  -- Where writes succeed and the key is not kept in a file named node.id, after any events with a swap
  -- of credentials before the end of the stream, a start with a configuration that is enabled, has the
  -- same path of the key and an endpoint that can be dialled offers the last of these credentials, less
  -- the space around its parts, if these are not blank: it is connected with them if the stream opens
  -- with them, and fails at the stream if not.
  pub start-command_loop :
      (es : List Event) (cfg cfg' : CloudConfig) (d : D) (id key : Text) (r : Reach) (t : Transport)
      → id_file cfg ≢ key_file cfg
      → last_swap (commands es) ≡ some (id, key)
      → is_empty (trim_space id) ≡ false
      → is_empty (trim_space key) ≡ false
      → cfg'.node_key_path ≡ cfg.node_key_path
      → cfg'.enabled ≡ true
      → dial_with_fallback r cfg'.endpoint ≡ some t
      → let auth = node_key (trim_space id) (trim_space key) in
        (start k r (command_loop k es cfg d).0.1 cfg').1
        ≡ (if r.opens auth then connected t auth else stream_failed)
  start-command_loop es cfg cfg' d id key r t n l i j p e f =
      let d' = (command_loop k es cfg d).0.1 in
      let (q1, q2) = subst (λ x. Kept x cfg.node_key_path d d') l (command_loop-Kept es cfg d n) in
      start_read k id key cfg' d' r t (ap (λ x. k.read_file (join [] x) d') p ∙ q1)
        (ap (λ x. k.read_file (codes "node.id" ∷ parent (join [] x)) d') p ∙ q2) i j e f
