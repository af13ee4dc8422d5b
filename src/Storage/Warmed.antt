-- ===== src/Storage/Warmed.antt =====
-- Which images `Snapshot` accepts.
use herd.Common.{
  ◌≡◌, ◌≢◌, ◌↔◌, ◌⊎◌, inl, inr, sym, ◌∙◌, refl, ap, Bool, true, false, ◌||◌, Bool-cases, List, [],
  ◌∷◌, Option, none, some, Option-cases, arith,
}
use herd.Common.Text.{Text, text_eq}
use herd.Storage.Images.{Mount, normalize_image_ref}
use herd.Storage.Manager.{
  Client, StorageError, not_warmed, Parents, new_manager, set_parent, device, record_parent,
  unpacked_image, warm_found, warm_image, with_lease, snapshot_mounts, snapshot_of, snapshot,
}

unfoldable pub is_warm : Text → List Text → Bool
is_warm ref [] = false
is_warm ref (r ∷ rs) = text_eq r ref || is_warm ref rs

abbrev pub is_known : Option Text → Bool
is_known none = false
is_known (some chain) = true

module _ {S I : Type 0} (c : Client S I) where
  -- What a manager comes to by calls of `WarmImage`, with the images, by their full names, of those that
  -- succeeded; whatever else is done to containerd in between leaves the manager alone.
  pub data Warms : S → Parents → List Text → Type 0 where
    started : (s : S) → Warms s new_manager []
    warmed :
        (s s' : S) (p p' : Parents) (refs : List Text) (ref : Text)
        → Warms s p refs
        → warm_image c ref s p ≡ (s', (p', none))
        → Warms s' p' (normalize_image_ref ref ∷ refs)
    refused :
        (s s' : S) (p p' : Parents) (refs : List Text) (ref : Text) (e : StorageError)
        → Warms s p refs
        → warm_image c ref s p ≡ (s', (p', some e))
        → Warms s' p' refs
    elsewhere : (s s' : S) (p : Parents) (refs : List Text) → Warms s p refs → Warms s' p refs

  set_parent-is_known :
      (ref chain r : Text) (p : Parents)
      → is_known (set_parent ref chain p r) ≡ (text_eq ref r || is_known (p r))
  unfolding set_parent
  set_parent-is_known ref chain r p = ground arith

  warm_found-is_known :
      (ref r : Text) (image : StorageError ⊎ I) (s : S) (p : Parents)
      → (warm_found c ref image s p).1.1 ≡ none
      → is_known ((warm_found c ref image s p).1.0 r) ≡ (text_eq ref r || is_known (p r))
  unfolding warm_found record_parent
  warm_found-is_known ref r (inl e) s p h = absurd (ground arith)
  warm_found-is_known ref r (inr image) s p h = elim (Bool-cases (unpacked_image c image s).1) [
    | inr ok ↦ absurd (ground arith)
    | inl ok ↦ elim (Option-cases (c.chain_id image (unpacked_image c image s).0)) [
      | inl e ↦ absurd (ground arith)
      | inr (chain, e) ↦ rw (ok, record_parent, e) (set_parent-is_known ref chain r p)
    ]
  ]

  warm_found_refused :
      (ref : Text) (image : StorageError ⊎ I) (s : S) (p : Parents) (e : StorageError)
      → (warm_found c ref image s p).1.1 ≡ some e
      → (warm_found c ref image s p).1.0 ≡ p
  unfolding warm_found record_parent
  warm_found_refused ref (inl x) s p e h = refl
  warm_found_refused ref (inr image) s p e h = ground arith

  warm_image-is_known :
      (s s' : S) (p p' : Parents) (ref r : Text)
      → warm_image c ref s p ≡ (s', (p', none))
      → is_known (p' r) ≡ (text_eq (normalize_image_ref ref) r || is_known (p r))
  unfolding warm_image
  warm_image-is_known s s' p p' ref r h =
      ap (λ (x : S × (Parents × Option StorageError)). is_known (x.1.0 r)) (sym h)
      ∙ warm_found-is_known (normalize_image_ref ref) r _ _ p
          (ap (λ (x : S × (Parents × Option StorageError)). x.1.1) h)

  warm_image_refused :
      (s s' : S) (p p' : Parents) (ref : Text) (e : StorageError)
      → warm_image c ref s p ≡ (s', (p', some e))
      → p' ≡ p
  unfolding warm_image
  warm_image_refused s s' p p' ref e h =
      ap (λ (x : S × (Parents × Option StorageError)). x.1.0) (sym h)
      ∙ warm_found_refused (normalize_image_ref ref) _ _ p e
          (ap (λ (x : S × (Parents × Option StorageError)). x.1.1) h)

  known_iff :
      (s : S) (p : Parents) (refs : List Text) (r : Text)
      → Warms s p refs
      → is_known (p r) ≡ is_warm r refs
  unfolding is_warm
  known_iff s p refs r (started _) = refl
  known_iff s p refs r (warmed s0 _ p0 _ refs0 ref w h) =
      warm_image-is_known s0 s p0 p ref r h
      ∙ ap (λ x. text_eq (normalize_image_ref ref) r || x) (known_iff s0 p0 refs0 r w)
  known_iff s p refs r (refused s0 _ p0 _ _ ref e w h) =
      ap (λ (q : Parents). is_known (q r)) (warm_image_refused s0 s p0 p ref e h)
      ∙ known_iff s0 p0 refs r w
  known_iff s p refs r (elsewhere s0 _ _ _ w) = known_iff s0 p refs r w

  mounts_warm : (l vm parent : Text) (s : S) → (snapshot_mounts c l vm parent s).1 ≢ inl not_warmed
  unfolding snapshot_mounts
  mounts_warm l vm parent s h = ground arith

  device-warm : (ms : StorageError ⊎ List Mount) → ms ≢ inl not_warmed → device ms ≢ inl not_warmed
  device-warm (inl e) k h = k (cc)
  device-warm (inr ms) k h = ground arith

  snapshot_of_warm : (vm parent : Text) (s : S) → (snapshot_of c vm parent s).1 ≢ inl not_warmed
  unfolding snapshot_of
  snapshot_of_warm vm parent s h = elim (Option-cases (with_lease c vm s).1) [
    | inl e ↦ ground arith
    | inr (l, e) ↦ device-warm _ (mounts_warm l vm parent (with_lease c vm s).0) (ground arith)
  ]

  -- `Snapshot` refuses an image as not warmed exactly if no `WarmImage` of a reference with the same full
  -- name has succeeded on this manager; failed ones, and those of other images, change nothing.
  pub snapshot-is_warm :
      (s : S) (p : Parents) (refs : List Text) (vm ref : Text)
      → Warms s p refs
      → ((snapshot c vm ref p s).1 ≡ inl not_warmed)
        ↔ (is_warm (normalize_image_ref ref) refs ≡ false)
  unfolding snapshot
  snapshot-is_warm s p refs vm ref w = elim (Option-cases (p (normalize_image_ref ref))) [
    | inl e ↦ (λ h. sym (known_iff s p refs _ w) ∙ rw e refl, λ h. rw (snapshot, e) refl)
    | inr (chain, e) ↦ (
      λ h. absurd (snapshot_of_warm vm chain s (ground arith)),
      λ h. absurd (ground (arith, known_iff s p refs (normalize_image_ref ref) w)),
    )
  ]
