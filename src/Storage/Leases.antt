-- ===== src/Storage/Leases.antt =====
-- The leases of the machines, from `Snapshot` to `Teardown`.
use herd.Common.{
  ◌≡◌, ◌≢◌, ◌∙◌, refl, ◌⊎◌, inl, inr, Bool, true, false, List, [], ◌∷◌, ◌++◌, none, some,
  Option-cases, arith,
}
use herd.Common.Text.{Text, codes}
use herd.Storage.Images.{normalize_image_ref}
use herd.Storage.Manager.{
  Client, Parents, snapshot_key, lease_id, existing_lease, with_lease, snapshot_mounts, snapshot_of,
  snapshot, teardown,
}

-- What containerd documents of its leases: a lease that is created has the id asked for and is held, a
-- list by an id finds only that one and only if it is held, a deleted lease is not held, and no other
-- call touches a lease, nor one of these another.
pub record KeepsLeases {S I : Type 0} (c : Client S I) (holds : Text → S → Bool) : Type 0 where
  pub creates :
      (id l : Text) (s : S)
      → (c.create_lease id s).1 ≡ some l
      → (l ≡ id) × (holds id (c.create_lease id s).0 ≡ true)
  pub creates_only : (id k : Text) (s : S) → k ≢ id → holds k (c.create_lease id s).0 ≡ holds k s
  pub lists :
      (id l : Text) (ls : List Text) (s : S)
      → c.list_leases (codes "id==" ++ id) s ≡ some (l ∷ ls)
      → (l ≡ id) × (holds id s ≡ true)
  pub deletes :
      (id : Text) (s : S)
      → (c.delete_lease id s).1 ≡ true
      → holds id (c.delete_lease id s).0 ≡ false
  pub deletes_only : (id k : Text) (s : S) → k ≢ id → holds k (c.delete_lease id s).0 ≡ holds k s
  pub prepares : (l key parent k : Text) (s : S) → holds k (c.prepare l key parent s).0 ≡ holds k s
  pub removes : (key k : Text) (s : S) → holds k (c.remove key s).0 ≡ holds k s

append_inj : (p t u : Text) → p ++ t ≡ p ++ u → t ≡ u
append_inj [] t u h = h
append_inj (a ∷ p) t u h = append_inj p t u (cc)

-- Different machines have different leases.
lease_id_inj : (v w : Text) → lease_id v ≡ lease_id w → v ≡ w
unfolding lease_id
lease_id_inj v w h = append_inj (codes "lease-vm-") v w h

module _ {S I : Type 0} (c : Client S I) (holds : Text → S → Bool) (k : KeepsLeases c holds) where
  existing_lease_lem :
      (vm l : Text) (s : S)
      → existing_lease c vm s ≡ some l
      → (l ≡ lease_id vm) × (holds (lease_id vm) s ≡ true)
  unfolding existing_lease
  existing_lease_lem vm l s h =
      elim (Option-cases (c.list_leases (codes "id==" ++ lease_id vm) s)) [
        | inl e ↦ absurd (ground arith)
        | inr ([], e) ↦ absurd (ground arith)
        | inr (x ∷ xs, e) ↦
            let (e1, e2) = k.lists (lease_id vm) x xs s e in ((ground arith) ∙ e1, e2)
      ]

  with_lease_lem :
      (vm l : Text) (s : S)
      → (with_lease c vm s).1 ≡ some l
      → (l ≡ lease_id vm) × (holds (lease_id vm) (with_lease c vm s).0 ≡ true)
  unfolding with_lease
  with_lease_lem vm l s h = elim (Option-cases (c.create_lease (lease_id vm) s).1) [
    | inl e ↦
        let (e1, e2) = existing_lease_lem vm l (c.create_lease (lease_id vm) s).0 (ground arith) in
        (e1, rw (with_lease, e) e2)
    | inr (x, e) ↦
        let (e1, e2) = k.creates (lease_id vm) x s e in ((ground arith) ∙ e1, rw (with_lease, e) e2)
  ]

  with_lease_only :
      (vm id : Text) (s : S) → id ≢ lease_id vm → holds id (with_lease c vm s).0 ≡ holds id s
  unfolding with_lease
  with_lease_only vm id s n = ground (arith, k.creates_only (lease_id vm) id s n)

  snapshot_mounts_keeps :
      (l vm parent id : Text) (s : S) → holds id (snapshot_mounts c l vm parent s).0 ≡ holds id s
  unfolding snapshot_mounts
  snapshot_mounts_keeps l vm parent id s =
      ground (arith, k.prepares l (snapshot_key vm) parent id s)

  snapshot_of-holds :
      (vm parent d : Text) (s : S)
      → (snapshot_of c vm parent s).1 ≡ inr d
      → holds (lease_id vm) (snapshot_of c vm parent s).0 ≡ true
  unfolding snapshot_of
  snapshot_of-holds vm parent d s h = elim (Option-cases (with_lease c vm s).1) [
    | inl e ↦ absurd (ground arith)
    | inr (l, e) ↦
        rw (snapshot_of, e)
          (snapshot_mounts_keeps l vm parent (lease_id vm) (with_lease c vm s).0
            ∙ (with_lease_lem vm l s e).1)
  ]

  snapshot_of_keeps :
      (vm parent id : Text) (s : S)
      → id ≢ lease_id vm
      → holds id (snapshot_of c vm parent s).0 ≡ holds id s
  unfolding snapshot_of
  snapshot_of_keeps vm parent id s n = elim (Option-cases (with_lease c vm s).1) [
    | inl e ↦ rw (snapshot_of, e) (with_lease_only vm id s n)
    | inr (l, e) ↦
        rw (snapshot_of, e)
          (snapshot_mounts_keeps l vm parent id (with_lease c vm s).0 ∙ with_lease_only vm id s n)
  ]

  snapshot-holds :
      (vm ref d : Text) (p : Parents) (s : S)
      → (snapshot c vm ref p s).1 ≡ inr d
      → holds (lease_id vm) (snapshot c vm ref p s).0 ≡ true
  unfolding snapshot
  snapshot-holds vm ref d p s h = elim (Option-cases (p (normalize_image_ref ref))) [
    | inl e ↦ absurd (ground arith)
    | inr (parent, e) ↦ rw (snapshot, e) (snapshot_of-holds vm parent d s (ground arith))
  ]

  snapshot_keeps :
      (vm ref id : Text) (p : Parents) (s : S)
      → id ≢ lease_id vm
      → holds id (snapshot c vm ref p s).0 ≡ holds id s
  unfolding snapshot
  snapshot_keeps vm ref id p s n = elim (Option-cases (p (normalize_image_ref ref))) [
    | inl e ↦ rw (snapshot, e) refl
    | inr (parent, e) ↦ rw (snapshot, e) (snapshot_of_keeps vm parent id s n)
  ]

  teardown-deletes :
      (vm : Text) (s : S)
      → (teardown c vm s).1 ≡ true
      → (holds (lease_id vm) (teardown c vm s).0 ≡ false)
        ⊎ ((with_lease c vm (c.remove (snapshot_key vm) s).0).1 ≡ none)
  unfolding teardown
  teardown-deletes vm s h =
      let s' = (c.remove (snapshot_key vm) s).0 in
      elim (Option-cases (with_lease c vm s').1) [
        | inl e ↦ inr e
        | inr (l, e) ↦
            let (e1, _) = with_lease_lem vm l s' e in
            inl (
              rw (teardown, e, e1)
                (k.deletes (lease_id vm) (with_lease c vm s').0 (ground (arith, e1))))
      ]

  teardown_keeps :
      (vm id : Text) (s : S) → id ≢ lease_id vm → holds id (teardown c vm s).0 ≡ holds id s
  unfolding teardown
  teardown_keeps vm id s n =
      let s' = (c.remove (snapshot_key vm) s).0 in
      let kept = with_lease_only vm id s' n ∙ k.removes (snapshot_key vm) id s in
      elim (Option-cases (with_lease c vm s').1) [
        | inl e ↦ rw (teardown, e) kept
        | inr (l, e) ↦
            let (e1, _) = with_lease_lem vm l s' e in
            rw (teardown, e, e1) (k.deletes_only (lease_id vm) id (with_lease c vm s').0 n ∙ kept)
      ]

  -- The lease of a machine is held when `Snapshot` answers a device, and no longer when `Teardown` ends
  -- without an error, unless it could not take the lease to delete it; neither touches the lease of
  -- another machine, whatever its outcome.
  pub snapshot-teardown :
      (vm v ref d : Text) (p : Parents) (s : S)
      → ((snapshot c vm ref p s).1 ≡ inr d → holds (lease_id vm) (snapshot c vm ref p s).0 ≡ true)
        × ((teardown c vm s).1 ≡ true
            → (holds (lease_id vm) (teardown c vm s).0 ≡ false)
              ⊎ ((with_lease c vm (c.remove (snapshot_key vm) s).0).1 ≡ none))
        × (v ≢ vm
            → (holds (lease_id v) (snapshot c vm ref p s).0 ≡ holds (lease_id v) s)
              × (holds (lease_id v) (teardown c vm s).0 ≡ holds (lease_id v) s))
  snapshot-teardown vm v ref d p s = (
    snapshot-holds vm ref d p s,
    teardown-deletes vm s,
    λ n.
        let n' = λ (e : lease_id v ≡ lease_id vm). n (lease_id_inj v vm e) in
        (snapshot_keeps vm ref (lease_id v) p s n', teardown_keeps vm (lease_id v) s n'),
  )
