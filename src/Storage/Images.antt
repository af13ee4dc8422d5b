-- ===== src/Storage/Images.antt =====
-- internal/storage/containerd.go: how `Manager` names an image, and the device that it takes from the
-- mounts of a snapshot. 47 is '/', 46 is '.', 58 is ':'.
use herd.Common.{
  ◌≡◌, ◌∙◌, refl, sym, ap, inl, inr, Bool, ◌||◌, Bool-cases, List, [], ◌∷◌, ◌++◌, Option, none,
  some, if◌then◌else◌, ◌==◌,
}
use herd.Common.Text.{Text, codes, text_eq, is_empty}
use herd.Common.Split.{split, split-append, has_byte, has_prefix, trim_prefix}

abbrev docker_io : Text
docker_io = codes "docker.io"

-- The first part of a reference names a registry.
abbrev is_domain : Text → Bool
is_domain p = (has_byte 46 p || has_byte 58 p) || text_eq (codes "localhost") p

unfoldable pub normalize_parts : Text → List Text → Text
normalize_parts ref [] = ref
normalize_parts ref (p ∷ []) = codes "docker.io/library/" ++ ref
normalize_parts ref (p ∷ q ∷ ps) = if is_domain p then ref else codes "docker.io/" ++ ref

-- `normalizeImageRef`
unfoldable pub normalize_image_ref : Text → Text
normalize_image_ref ref = normalize_parts ref (split 47 ref)

pub record Mount : Type 0 where
  pub source : Text
  pub options : List Text

unfoldable pub device_option : List Text → Option Text
device_option [] = none
device_option (opt ∷ opts) =
    let rest = device_option opts in
    if has_prefix (codes "device=/dev/") opt then some (trim_prefix (codes "device=") opt) else rest

unfoldable pub first_device : List Mount → Option Text
first_device [] = none
first_device (mnt ∷ mounts) =
    let rest = first_device mounts in
    if has_prefix (codes "/dev/") mnt.source
    then some (mnt.source)
    else elim (device_option mnt.options) [ none ↦ rest | some d ↦ some d ]

unfoldable pub first_source : List Mount → Option Text
first_source [] = none
first_source (mnt ∷ mounts) =
    let rest = first_source mounts in if is_empty mnt.source then rest else some (mnt.source)

-- `extractBlockDeviceFromMounts`
unfoldable pub extract_block_device : List Mount → Option Text
extract_block_device mounts = elim (first_device mounts) [
  | none ↦ first_source mounts
  | some d ↦ some d
]

split_cons : (t : Text) → (p : Text) × (ps : List Text) × (split 47 t ≡ p ∷ ps)
unfolding split
split_cons [] = ([], [], refl)
split_cons (a ∷ t) =
    let (p, ps, e) = split_cons t in
    elim (Bool-cases (a == 47)) [
      | inl h ↦ ([], split 47 t, rw h refl)
      | inr h ↦ (a ∷ p, ps, rw (h, e) refl)
    ]

named_already : (t : Text) → normalize_image_ref (docker_io ++ 47 ∷ t) ≡ docker_io ++ 47 ∷ t
unfolding normalize_image_ref normalize_parts has_byte
named_already t = let (p, ps, e) = split_cons t in rw (split-append 47 docker_io t refl, e) refl

same_parts :
    (ref : Text) (ps : List Text)
    → ps ≡ split 47 ref
    → normalize_image_ref ref ≡ normalize_parts ref ps
unfolding normalize_image_ref
same_parts ref ps e = ap (λ (x : List Text). normalize_parts ref x) (sym e)

normalize_parts_twice :
    (ref : Text) (ps : List Text)
    → ps ≡ split 47 ref
    → normalize_image_ref (normalize_parts ref ps) ≡ normalize_parts ref ps
unfolding normalize_parts
normalize_parts_twice ref [] e = same_parts ref [] e
normalize_parts_twice ref (p ∷ []) e = named_already (codes "library/" ++ ref)
normalize_parts_twice ref (p ∷ q ∷ ps) e = elim (Bool-cases (is_domain p)) [
  | inl h ↦ rw h (same_parts ref (p ∷ q ∷ ps) e ∙ rw h refl)
  | inr h ↦ rw h (named_already ref)
]

-- A reference that was normalized is normalized to itself.
pub normalize_image_ref_twice :
    (ref : Text) → normalize_image_ref (normalize_image_ref ref) ≡ normalize_image_ref ref
normalize_image_ref_twice ref =
    unfold normalize_image_ref in normalize_parts_twice ref (split 47 ref) refl
