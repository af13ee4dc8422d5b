-- ===== src/Storage/Manager.antt =====
-- internal/storage/containerd.go: `Manager`, on a containerd that is a parameter. A context is the
-- lease it carries; the wording of errors is left out.
use herd.Common.{
  Bool, true, false, List, [], ◌∷◌, ◌++◌, Option, none, some, ◌⊎◌, inl, inr, if◌then◌else◌,
}
use herd.Common.Text.{Text, codes, text_eq}
use herd.Storage.Images.{Mount, normalize_image_ref, extract_block_device}

-- An answer of containerd, with `errdefs.IsNotFound` apart from other errors.
pub data Found (A : Type 0) : Type 0 where
  found : A → Found A
  missing broken : Found A

pub record ImageConfig : Type 0 where
  pub entrypoint : List Text
  pub cmd : List Text
  pub env : List Text

-- The calls of the client, on a state `S` of containerd and images `I`; `chain_id` is `RootFS` and the
-- chain id of its layers, `config_blob` is `Config` and `ReadBlob`. A lease is its id, which is the
-- first argument of the calls that are made with one.
pub record Client (S I : Type 0) : Type 0 where
  pub get_image : Text → S → Found I
  pub pull : Text → S → S × Option I
  pub is_unpacked : I → S → Option Bool
  pub unpack : I → S → S × Bool
  pub chain_id : I → S → Option Text
  pub config_blob : I → S → Option Text
  pub unmarshal : Text → Option ImageConfig
  pub create_lease : Text → S → S × Option Text
  pub list_leases : Text → S → Option (List Text)
  pub delete_lease : Text → S → S × Bool
  pub stat : Text → Text → S → Found Unit
  pub prepare : Text → Text → Text → S → S × Option (List Mount)
  pub mounts : Text → Text → S → Option (List Mount)
  pub remove : Text → S → S × Bool

pub data StorageError : Type 0 where
  image_failed pull_failed unpack_failed root_fs_failed not_warmed lease_failed prepare_failed
        stat_failed mounts_failed no_device config_failed :
      StorageError

-- The parent of each image that was warmed.
abbrev pub Parents : Type 0
Parents = Text → Option Text

-- `NewManager`
abbrev pub new_manager : Parents
new_manager r = none

unfoldable pub set_parent : Text → Text → Parents → Parents
set_parent ref chain p r = if text_eq ref r then some chain else p r

-- `snapshotKey`, and the id of a lease in `withLease`.
unfoldable pub snapshot_key : Text → Text
snapshot_key vm = codes "herd-vm-" ++ vm

unfoldable pub lease_id : Text → Text
lease_id vm = codes "lease-vm-" ++ vm

abbrev pub device : StorageError ⊎ List Mount → StorageError ⊎ Text
device (inl e) = inl e
device (inr ms) = elim (extract_block_device ms) [ none ↦ inl no_device | some d ↦ inr d ]

module _ {S I : Type 0} (c : Client S I) where
  -- The image, pulled if containerd does not have it.
  unfoldable pub local_image : Text → S → S × (StorageError ⊎ I)
  local_image ref s =
      let (s', pulled) = c.pull ref s in
      elim (c.get_image ref s) [
        | found image ↦ (s, inr image)
        | missing ↦ elim pulled [ none ↦ (s', inl pull_failed) | some image ↦ (s', inr image) ]
        | broken ↦ (s, inl image_failed)
      ]

  -- Whether the image is unpacked, or was just unpacked.
  unfoldable pub unpacked_image : I → S → S × Bool
  unpacked_image image s = elim (c.is_unpacked image s) [
    | none ↦ (s, false)
    | some true ↦ (s, true)
    | some false ↦ c.unpack image s
  ]

  unfoldable pub record_parent : Text → I → S → Parents → Parents × Option StorageError
  record_parent ref image s p = elim (c.chain_id image s) [
    | none ↦ (p, some root_fs_failed)
    | some chain ↦ (set_parent ref chain p, none)
  ]

  -- From the image on.
  unfoldable pub warm_found :
      Text → StorageError ⊎ I → S → Parents → S × (Parents × Option StorageError)
  warm_found ref (inl e) s p = (s, (p, some e))
  warm_found ref (inr image) s p =
      let (s', ok) = unpacked_image image s in
      if ok then (s', record_parent ref image s' p) else (s', (p, some unpack_failed))

  unfoldable pub warm_image : Text → S → Parents → S × (Parents × Option StorageError)
  warm_image image_ref s p =
      let ref = normalize_image_ref image_ref in
      let (s', image) = local_image ref s in warm_found ref image s' p

  -- `ExtractImageConfig`
  unfoldable pub extract_image_config : Text → S → StorageError ⊎ ImageConfig
  extract_image_config image_ref s = elim (c.get_image (normalize_image_ref image_ref) s) [
    | found image ↦ elim (c.config_blob image s) [
      | none ↦ inl config_failed
      | some blob ↦ elim (c.unmarshal blob) [ none ↦ inl config_failed | some config ↦ inr config ]
    ]
    | missing ↦ inl image_failed
    | broken ↦ inl image_failed
  ]

  -- The first of the leases that a list finds.
  unfoldable pub existing_lease : Text → S → Option Text
  existing_lease vm s = elim (c.list_leases (codes "id==" ++ lease_id vm) s) [
    | none ↦ none
    | some [] ↦ none
    | some (l ∷ ls) ↦ some l
  ]

  unfoldable pub with_lease : Text → S → S × Option Text
  with_lease vm s =
      let (s', created) = c.create_lease (lease_id vm) s in
      elim created [ none ↦ (s', existing_lease vm s') | some l ↦ (s', some l) ]

  -- The mounts of the snapshot of a machine, which is prepared from its parent if there is none.
  unfoldable pub snapshot_mounts : Text → Text → Text → S → S × (StorageError ⊎ List Mount)
  snapshot_mounts lease vm parent s =
      let key = snapshot_key vm in
      let (s', prepared) = c.prepare lease key parent s in
      elim (c.stat lease key s) [
        | missing ↦ elim prepared [ none ↦ (s', inl prepare_failed) | some ms ↦ (s', inr ms) ]
        | broken ↦ (s, inl stat_failed)
        | found _ ↦ elim (c.mounts lease key s) [
          | none ↦ (s, inl mounts_failed)
          | some ms ↦ (s, inr ms)
        ]
      ]

  -- Once the parent of the image is known.
  unfoldable pub snapshot_of : Text → Text → S → S × (StorageError ⊎ Text)
  snapshot_of vm parent s =
      let (s1, lease) = with_lease vm s in
      elim lease [
        | none ↦ (s1, inl lease_failed)
        | some l ↦ let (s2, ms) = snapshot_mounts l vm parent s1 in (s2, device ms)
      ]

  unfoldable pub snapshot : Text → Text → Parents → S → S × (StorageError ⊎ Text)
  snapshot vm image_ref p s = elim (p (normalize_image_ref image_ref)) [
    | none ↦ (s, inl not_warmed)
    | some parent ↦ snapshot_of vm parent s
  ]

  -- `Teardown`, which fails exactly if the lease that it took cannot be deleted.
  unfoldable pub teardown : Text → S → S × Bool
  teardown vm s =
      let (s1, _) = c.remove (snapshot_key vm) s in
      let (s2, lease) = with_lease vm s1 in
      elim lease [ none ↦ (s2, true) | some l ↦ c.delete_lease l s2 ]
