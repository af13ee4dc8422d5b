-- ===== src/Storage/Released.antt =====
-- What `InjectGuestAgent` leaves behind.
use herd.Common.{
  ◌≡◌, refl, inl, inr, Bool, true, false, Bool-cases, List, [], ◌∷◌, Option, none, some, arith,
}
use herd.Common.Text.{Text, codes}
use herd.Common.Split.{trim_prefix}
use herd.Common.Paths.{join}
use herd.Storage.Images.{Mount}
use herd.Storage.Manager.{Client}
use herd.Storage.Inject.{
  Files, Injection, InjectError, no_binary, is_directory, no_lease, no_mounts, no_temp, not_mounted,
  nothing_yet, Outcome, clean_up, copy_binary, place_binary, inject_mounts, inject_into,
  inject_leased, inject_binary, guest_path_or, inject_guest_agent,
}

module _ (f : Files) where
  -- Nothing is left open. Where the unmount succeeds nothing is left mounted and no file of the snapshot
  -- was removed, and where the removal succeeds too no directory is left. Without an error the binary was
  -- copied whole to its path.
  abbrev pub Released : Text → Outcome → Type 0
  Released guest_path (j, e) =
      (j.source_open ≡ false)
      × (j.target_open ≡ false)
      × (f.unmounts ≡ true
          → (j.is_mounted ≡ false) × (j.erased ≡ false) × (f.removes ≡ true → j.temp ≡ none))
      × (e ≡ none
          → (temp : List Text) × (f.make_temp ≡ some temp)
            × (j.copied ≡ some (join temp (trim_prefix (codes "/") guest_path))))

  nothing_yet-Released :
      (guest_path : Text) (x : InjectError) → Released guest_path (nothing_yet, some x)
  nothing_yet-Released guest_path x = (refl, refl, λ u. (refl, refl, λ r. refl), λ n. absurd (cc))

  abbrev Closes : List Text → Injection → Outcome → Type 0
  Closes dst j (k, e) =
      (k.source_open ≡ false)
      × (k.target_open ≡ false)
      × (k.temp ≡ j.temp)
      × (k.is_mounted ≡ j.is_mounted)
      × (e ≡ none → k.copied ≡ some dst)

  place_binary-Closes :
      (dst : List Text) (j : Injection)
      → j.source_open ≡ false
      → j.target_open ≡ false
      → Closes dst j (place_binary f dst j)
  unfolding place_binary copy_binary
  place_binary-Closes dst j h k =
      (ground arith, ground arith, ground arith, ground arith, λ e. ground arith)

  cleaned-Released :
      (guest_path : Text) (temp : List Text) (j : Injection) (o : Outcome)
      → f.make_temp ≡ some temp
      → Closes (join temp (trim_prefix (codes "/") guest_path)) j o
      → Released guest_path (clean_up f o.0, o.1)
  unfolding clean_up
  cleaned-Released guest_path temp j (k, e) t (s, g, d, m, c) =
      (s, g, λ u. (ground arith, ground arith, λ r. ground arith), λ n. (temp, t, c n))

  inject_into-Released :
      (guest_path : Text) (mounts : List Mount) (made : Option (List Text))
      → f.make_temp ≡ made
      → Released guest_path (inject_into f guest_path mounts made)
  unfolding inject_into
  inject_into-Released guest_path mounts none t = nothing_yet-Released guest_path no_temp
  inject_into-Released guest_path mounts (some temp) t =
      let j : Injection = record nothing_yet {
        temp = some temp;
        is_mounted = (f.mount_all mounts temp).0;
      } in
      let dst = join temp (trim_prefix (codes "/") guest_path) in
      elim (Bool-cases (f.mount_all mounts temp).1) [
        | inl ok ↦
            rw ok (cleaned-Released guest_path temp j _ t (place_binary-Closes dst j refl refl))
        | inr bad ↦ rw bad (
            cleaned-Released guest_path temp j (j, some not_mounted) t
              (refl, refl, refl, refl, λ n. absurd (cc)))
      ]

  inject_mounts-Released :
      (guest_path : Text) (mounts : Option (List Mount))
      → Released guest_path (inject_mounts f guest_path mounts)
  unfolding inject_mounts
  inject_mounts-Released guest_path none = nothing_yet-Released guest_path no_mounts
  inject_mounts-Released guest_path (some []) = nothing_yet-Released guest_path no_mounts
  inject_mounts-Released guest_path (some (m ∷ ms)) =
      inject_into-Released guest_path (m ∷ ms) f.make_temp refl

  module _ {S I : Type 0} (c : Client S I) where
    inject_leased-Released :
        (vm guest_path : Text) (s : S) (lease : Option Text)
        → Released guest_path (inject_leased f c vm guest_path s lease)
    unfolding inject_leased
    inject_leased-Released vm guest_path s none = nothing_yet-Released guest_path no_lease
    inject_leased-Released vm guest_path s (some l) = inject_mounts-Released guest_path _

    inject_binary-Released :
        (vm guest_path : Text) (s : S) (stat : Option Bool)
        → Released guest_path (inject_binary f c vm guest_path s stat).1
    unfolding inject_binary
    inject_binary-Released vm guest_path s none = nothing_yet-Released guest_path no_binary
    inject_binary-Released vm guest_path s (some true) =
        nothing_yet-Released guest_path is_directory
    inject_binary-Released vm guest_path s (some false) = inject_leased-Released vm guest_path _ _

    -- However `InjectGuestAgent` ends, no file is left open. Where the unmount succeeds, the mount is not
    -- left and no file of the snapshot was removed, and where the removal of the temporary directory
    -- succeeds as well, that is not left either. Without an error the binary was copied whole to the
    -- path asked for, joined to the temporary directory.
    pub inject_guest_agent-Released :
        (vm guest_path : Text) (s : S)
        → Released (guest_path_or guest_path) (inject_guest_agent f c vm guest_path s).1
    unfolding inject_guest_agent
    inject_guest_agent-Released vm guest_path s = inject_binary-Released vm _ s f.stat_binary
