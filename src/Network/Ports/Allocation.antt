-- ===== src/Network/Ports/Allocation.antt =====
-- What `Allocate` and `Release` of the port manager do, on every branch.
use herd.Common.{
  ℕ, zero, suc, ◌+◌, ◌-◌, ◌≤◌, ◌<◌, ◌≡◌, ◌≢◌, ◌⊎◌, inl, inr, ap, ◌∙◌, true, false, Option, none,
  some, Option-cases, Bool-cases, ◌==◌, if◌then◌else◌, Map, lookup, insert, lookup-insert,
  lookup-delete, delete-insert, arith,
}
use herd.Network.Ports.Defs.{
  PortManager, Protocol, Interface, unset, Listen, Error, granted, refused, no_ephemeral_port,
  owned_by, busy_on_host, is_host_port_free, is_free, find_free, allocate, release,
}

module _ (listen : Listen) where
  find_free-some :
      (m : Map ℕ) (protocol : Protocol) (n p r : ℕ)
      → find_free listen m protocol n p ≡ some r
      → (p ≤ r)
        × (r < p + n)
        × (lookup r m ≡ none)
        × (is_host_port_free listen protocol r unset ≡ true)
  unfolding find_free
  find_free-some m protocol zero p r h = cc
  find_free-some m protocol (suc n) p r h = ground (arith, find_free-some m protocol n (p + 1) r)

  find_free_least :
      (m : Map ℕ) (protocol : Protocol) (n p r q : ℕ)
      → find_free listen m protocol n p ≡ some r
      → p ≤ q
      → q < r
      → is_free listen m protocol q ≡ false
  unfolding find_free
  find_free_least m protocol zero p r q h a b = cc
  find_free_least m protocol (suc n) p r q h a b = elim (Bool-cases (p == q)) [
    | inl e ↦ ground arith
    | inr e ↦ ground (arith, find_free_least m protocol n (p + 1) r q)
  ]

  find_free-none :
      (m : Map ℕ) (protocol : Protocol) (n p q : ℕ)
      → find_free listen m protocol n p ≡ none
      → p ≤ q
      → q < p + n
      → is_free listen m protocol q ≡ false
  unfolding find_free
  find_free-none m protocol zero p q h a b = absurd (omega arith)
  find_free-none m protocol (suc n) p q h a b = elim (Bool-cases (p == q)) [
    | inl e ↦ ground arith
    | inr e ↦ ground (arith, find_free-none m protocol n (p + 1) q)
  ]

  search : PortManager → Protocol → Option ℕ
  search pm protocol =
      find_free listen pm.in_use protocol (pm.ephemeral_end + 1 - pm.ephemeral_start)
        pm.ephemeral_start

  ephemeral_granted :
      (pm q : PortManager) (protocol : Protocol) (iface : Interface) (vm p : ℕ)
      → allocate listen pm 0 protocol iface vm ≡ (q, granted p)
      → (search pm protocol ≡ some p) × (q ≡ record pm { in_use = insert p vm pm.in_use })
  unfolding allocate search
  ephemeral_granted pm q protocol iface vm p h = elim (Option-cases (search pm protocol)) [
    | inl e ↦ ground arith
    | inr (r, e) ↦ ground arith
  ]

  -- A granted request for port 0 gets a port of the ephemeral range that no machine had and that
  -- the host could bind on all interfaces.
  pub allocate_ephemeral :
      (pm q : PortManager) (protocol : Protocol) (iface : Interface) (vm p : ℕ)
      → allocate listen pm 0 protocol iface vm ≡ (q, granted p)
      → (pm.ephemeral_start ≤ p)
        × (p ≤ pm.ephemeral_end)
        × (lookup p pm.in_use ≡ none)
        × (is_host_port_free listen protocol p unset ≡ true)
  unfolding search
  allocate_ephemeral pm q protocol iface vm p h =
      let (e, _) = ephemeral_granted pm q protocol iface vm p h in
      ground (
        arith,
        find_free-some pm.in_use protocol (pm.ephemeral_end + 1 - pm.ephemeral_start)
            pm.ephemeral_start p e,
      )

  -- It is the lowest such port: no port of the range below it was free.
  pub allocate_least :
      (pm q : PortManager) (protocol : Protocol) (iface : Interface) (vm p r : ℕ)
      → allocate listen pm 0 protocol iface vm ≡ (q, granted p)
      → pm.ephemeral_start ≤ r
      → r < p
      → is_free listen pm.in_use protocol r ≡ false
  unfolding search
  allocate_least pm q protocol iface vm p r h a b =
      find_free_least pm.in_use protocol (pm.ephemeral_end + 1 - pm.ephemeral_start)
        pm.ephemeral_start p r (ephemeral_granted pm q protocol iface vm p h).0 a b

  -- A request for port 0 is refused only when no port of the ephemeral range is free, and then
  -- nothing changes.
  pub allocate_exhausted :
      (pm q : PortManager) (protocol : Protocol) (iface : Interface) (vm r : ℕ) (x : Error)
      → allocate listen pm 0 protocol iface vm ≡ (q, refused x)
      → pm.ephemeral_start ≤ r
      → r ≤ pm.ephemeral_end
      → (is_free listen pm.in_use protocol r ≡ false) × (q ≡ pm) × (x ≡ no_ephemeral_port)
  unfolding allocate search
  allocate_exhausted pm q protocol iface vm r x h a b = elim (Option-cases (search pm protocol)) [
    | inl e ↦ (
      find_free-none pm.in_use protocol (pm.ephemeral_end + 1 - pm.ephemeral_start)
          pm.ephemeral_start r e a (omega arith),
      ground arith,
      ground arith,
    )
    | inr (p, e) ↦ ground arith
  ]

  explicit_granted :
      (pm q : PortManager) (n : ℕ) (protocol : Protocol) (iface : Interface) (vm p r : ℕ)
      → allocate listen pm (suc n) protocol iface vm ≡ (q, granted p)
      → (lookup r q.in_use ≡ (if p == r then some vm else lookup r pm.in_use))
        × ((lookup p pm.in_use ≡ none) ⊎ (lookup p pm.in_use ≡ some vm))
  unfolding allocate
  explicit_granted pm q n protocol iface vm p r h = elim (Option-cases (lookup (suc n) pm.in_use)) [
    | inl e ↦ (ground (arith, lookup-insert (suc n) r vm pm.in_use), inl (ground arith))
    | inr (owner, e) ↦ (ground arith, inr (ground arith))
  ]

  -- A refusal changes nothing.
  pub allocate-refused :
      (pm q : PortManager) (requested : ℕ) (protocol : Protocol) (iface : Interface) (vm : ℕ)
      (x : Error)
      → allocate listen pm requested protocol iface vm ≡ (q, refused x)
      → q ≡ pm
  unfolding allocate search
  allocate-refused pm q requested protocol iface vm x h = elim (Option-cases (search pm protocol)) [
    | inl e ↦ ground arith
    | inr (p, e) ↦ ground arith
  ]

  -- Whatever was asked for, a granted port belongs to the machine afterwards, belonged to no other
  -- machine before, and every other port is as it was.
  pub allocate_granted :
      (pm q : PortManager) (requested : ℕ) (protocol : Protocol) (iface : Interface) (vm p r : ℕ)
      → allocate listen pm requested protocol iface vm ≡ (q, granted p)
      → (lookup r q.in_use ≡ (if p == r then some vm else lookup r pm.in_use))
        × ((lookup p pm.in_use ≡ none) ⊎ (lookup p pm.in_use ≡ some vm))
  allocate_granted pm q zero protocol iface vm p r h =
      let (e, f) = ephemeral_granted pm q protocol iface vm p h in
      (
        ground (arith, lookup-insert p r vm pm.in_use),
        inl (allocate_ephemeral pm q protocol iface vm p h).2,
      )
  allocate_granted pm q (suc n) protocol iface vm p r h =
      explicit_granted pm q n protocol iface vm p r h

  -- A request for a given port is granted exactly when the machine has it already, or nobody has it
  -- and the host can bind it on the interface; a refusal names the owner or the host, and changes
  -- nothing.
  pub allocate_explicit :
      (pm : PortManager) (n : ℕ) (protocol : Protocol) (iface : Interface) (vm : ℕ)
      → let r = allocate listen pm (suc n) protocol iface vm in
        ((lookup (suc n) pm.in_use ≡ some vm) × (r ≡ (pm, granted (suc n))))
        ⊎ ((owner : ℕ) × (lookup (suc n) pm.in_use ≡ some owner)
            × (owner ≢ vm)
            × (r ≡ (pm, refused (owned_by owner))))
        ⊎ ((lookup (suc n) pm.in_use ≡ none)
            × (is_host_port_free listen protocol (suc n) iface ≡ true)
            × (r ≡ (record pm { in_use = insert (suc n) vm pm.in_use }, granted (suc n))))
        ⊎ ((lookup (suc n) pm.in_use ≡ none)
            × (is_host_port_free listen protocol (suc n) iface ≡ false)
            × (r ≡ (pm, refused busy_on_host)))
  unfolding allocate
  allocate_explicit pm n protocol iface vm = elim (Option-cases (lookup (suc n) pm.in_use)) [
    | inl e ↦ ground arith
    | inr (owner, e) ↦ elim (Bool-cases (owner == vm)) [
      | inl own ↦ inl (ground arith, ground arith)
      | inr foreign ↦ inr (inl (owner, ground arith, ground arith, ground arith))
    ]
  ]

granted_new :
    (listen : Listen) (pm q : PortManager) (n : ℕ) (protocol : Protocol) (iface : Interface)
    (vm p : ℕ)
    → allocate listen pm (suc n) protocol iface vm ≡ (q, granted p)
    → lookup p pm.in_use ≡ none
    → q ≡ record pm { in_use = insert p vm pm.in_use }
unfolding allocate
granted_new listen pm q n protocol iface vm p h e = elim (Option-cases (lookup (suc n) pm.in_use)) [
  | inl free ↦ ground arith
  | inr (owner, held) ↦ ground arith
]

release-insert :
    (pm : PortManager) (p vm : ℕ)
    → lookup p pm.in_use ≡ none
    → release (record pm { in_use = insert p vm pm.in_use }) p ≡ pm
unfolding release
release-insert pm p vm e = ground (arith, delete-insert p vm pm.in_use e)

-- Releasing a port that was granted to a machine that did not have it gives the table back, and the
-- port is then free.
pub release-allocate :
    (listen : Listen) (pm q : PortManager) (requested : ℕ) (protocol : Protocol) (iface : Interface)
    (vm p : ℕ)
    → allocate listen pm requested protocol iface vm ≡ (q, granted p)
    → lookup p pm.in_use ≡ none
    → release q p ≡ pm
release-allocate listen pm q zero protocol iface vm p h e =
    ap (λ (r : PortManager). release r p) (ephemeral_granted listen pm q protocol iface vm p h).1
    ∙ release-insert pm p vm e
release-allocate listen pm q (suc n) protocol iface vm p h e =
    ap (λ (r : PortManager). release r p) (granted_new listen pm q n protocol iface vm p h e)
    ∙ release-insert pm p vm e

-- A machine that asks twice for one port, as for its TCP and its UDP side, is granted it twice, and
-- one release then frees the port for everybody.
pub granted_twice_released_once :
    (listen : Listen) (pm : PortManager) (n : ℕ) (a b : Protocol) (i j : Interface) (vm : ℕ)
    → lookup (suc n) pm.in_use ≡ none
    → is_host_port_free listen a (suc n) i ≡ true
    → let q = (allocate listen pm (suc n) a i vm).0 in
      (allocate listen q (suc n) b j vm ≡ (q, granted (suc n)))
      × (lookup (suc n) (release q (suc n)).in_use ≡ none)
unfolding allocate release
granted_twice_released_once listen pm n a b i j vm e f = ground (
  arith,
  lookup-insert (suc n) (suc n) vm pm.in_use,
  lookup-delete (suc n) (suc n) (insert (suc n) vm pm.in_use),
)
