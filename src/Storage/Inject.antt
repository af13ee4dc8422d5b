-- ===== src/Storage/Inject.antt =====
-- internal/storage/containerd.go: `InjectGuestAgent`. The files of the host are a parameter.
use herd.Common.{Bool, true, false, not, ◌&&◌, List, [], ◌∷◌, Option, none, some, if◌then◌else◌}
use herd.Common.Text.{Text, codes}
use herd.Common.Split.{trim_prefix}
use herd.Common.Paths.{join, parent}
use herd.Storage.Images.{Mount}
use herd.Storage.Manager.{Client, snapshot_key, with_lease}

-- What the calls answer: `Stat` of the binary (whether it is a directory), `MkdirTemp`, whether
-- `mount.All` leaves something mounted and whether it succeeds, and whether the others succeed; the last
-- is whether `RemoveAll` removes files of a snapshot that is mounted on the directory.
pub record Files : Type 0 where
  pub stat_binary : Option Bool
  pub make_temp : Option (List Text)
  pub mount_all : List Mount → List Text → Bool × Bool
  pub make_dirs : List Text → Bool
  pub opens_binary : Bool
  pub creates : List Text → Bool
  pub copies : Bool
  pub closes : Bool
  pub unmounts : Bool
  pub removes : Bool
  pub erases : Bool

-- What the call has under way: the temporary directory, whether something is mounted on it, the two
-- files, the file that was copied whole, and whether the files of the snapshot were removed.
pub record Injection : Type 0 where
  pub temp : Option (List Text)
  pub is_mounted : Bool
  pub source_open : Bool
  pub target_open : Bool
  pub copied : Option (List Text)
  pub erased : Bool

pub data InjectError : Type 0 where
  no_binary is_directory no_lease no_mounts no_temp not_mounted no_parent no_source no_target
        not_copied not_closed :
      InjectError

abbrev pub nothing_yet : Injection
nothing_yet = record {
  temp = none;
  is_mounted = false;
  source_open = false;
  target_open = false;
  copied = none;
  erased = false;
}

abbrev pub default_guest_agent_path : Text
default_guest_agent_path = codes "/usr/local/bin/herd-guest-agent"

abbrev pub Outcome : Type 0
Outcome = Injection × Option InjectError

-- The path in the guest, or the default for an empty one.
abbrev pub guest_path_or : Text → Text
guest_path_or [] = default_guest_agent_path
guest_path_or (a ∷ t) = a ∷ t

module _ (f : Files) where
  -- The deferred `Unmount` and `RemoveAll`, whose errors are ignored. A directory on which the
  -- snapshot is still mounted stays, and `RemoveAll` can have removed the files of the snapshot
  -- below it.
  unfoldable pub clean_up : Injection → Injection
  clean_up j =
      let still = j.is_mounted && not f.unmounts in
      record j {
        is_mounted = still;
        temp = if f.removes && not still then none else j.temp;
        erased = still && f.erases;
      }

  -- `Copy` and the `Close` of the destination on both ways.
  unfoldable pub copy_binary : List Text → Injection → Outcome
  copy_binary dst j =
      if not f.copies
      then (record j { target_open = false }, some not_copied)
      else if f.closes
      then (record j { target_open = false; copied = some dst }, none)
      else (record j { target_open = false; copied = some dst }, some not_closed)

  abbrev pub close_source : Outcome → Outcome
  close_source (j, e) = (record j { source_open = false }, e)

  -- From the directories of the destination to the end of the copy.
  unfoldable pub place_binary : List Text → Injection → Outcome
  place_binary dst j =
      if not (f.make_dirs (parent dst))
      then (j, some no_parent)
      else if not f.opens_binary
      then (j, some no_source)
      else if not (f.creates dst)
      then close_source (record j { source_open = true }, some no_target)
      else close_source (copy_binary dst (record j { source_open = true; target_open = true }))

  -- With the temporary directory.
  unfoldable pub inject_into : Text → List Mount → Option (List Text) → Outcome
  inject_into guest_path mounts none = (nothing_yet, some no_temp)
  inject_into guest_path mounts (some temp) =
      let (is_mounted, ok) = f.mount_all mounts temp in
      let j : Injection = record nothing_yet { temp = some temp; is_mounted = is_mounted } in
      let (j', e) =
        if ok
        then place_binary (join temp (trim_prefix (codes "/") guest_path)) j
        else (j, some not_mounted) in
      (clean_up j', e)

  -- With the mounts of the snapshot.
  unfoldable pub inject_mounts : Text → Option (List Mount) → Outcome
  inject_mounts guest_path none = (nothing_yet, some no_mounts)
  inject_mounts guest_path (some []) = (nothing_yet, some no_mounts)
  inject_mounts guest_path (some (m ∷ ms)) = inject_into guest_path (m ∷ ms) f.make_temp

  module _ {S I : Type 0} (c : Client S I) where
    -- With the lease of the machine.
    unfoldable pub inject_leased : Text → Text → S → Option Text → Outcome
    inject_leased vm guest_path s none = (nothing_yet, some no_lease)
    inject_leased vm guest_path s (some l) =
        inject_mounts guest_path (c.mounts l (snapshot_key vm) s)

    -- With what `Stat` answers for the binary.
    unfoldable pub inject_binary : Text → Text → S → Option Bool → S × Outcome
    inject_binary vm guest_path s none = (s, (nothing_yet, some no_binary))
    inject_binary vm guest_path s (some true) = (s, (nothing_yet, some is_directory))
    inject_binary vm guest_path s (some false) =
        let (s', lease) = with_lease c vm s in (s', inject_leased vm guest_path s' lease)

    unfoldable pub inject_guest_agent : Text → Text → S → S × Outcome
    inject_guest_agent vm guest_path s = inject_binary vm (guest_path_or guest_path) s f.stat_binary
