-- ===== src/Network/Ports/Tests.antt =====
-- The port manager on small inputs, on a host where port 10000 is taken by somebody else.
use herd.Common.{◌≡◌, ◌⊎◌, refl, [], ◌∷◌, none, some, lookup, insert, ◌==◌, not}
use herd.Network.Ports.Defs.{
  PortManager, tcp, unset, Listen, granted, refused, no_ephemeral_port, allocate,
}
use herd.Network.Ports.Allocation.{allocate_granted}

abbrev host : Listen
host u i p = not (p == 10000)

abbrev pm : PortManager
pm = record { in_use = (10001, 4) ∷ []; ephemeral_start = 10000; ephemeral_end = 10002 }

abbrev pm_after : PortManager
pm_after = record pm { in_use = (10001, 4) ∷ (10002, 5) ∷ [] }

grants : allocate host pm 0 tcp unset 5 ≡ (pm_after, granted 10002)
unfolding allocate lookup insert
grants = refl

refuses : allocate host pm_after 0 tcp unset 6 ≡ (pm_after, refused no_ephemeral_port)
unfolding allocate lookup insert
refuses = refl

allocate_granted_example :
    (lookup 10001 pm_after.in_use ≡ lookup 10001 pm.in_use)
    × ((lookup 10002 pm.in_use ≡ none) ⊎ (lookup 10002 pm.in_use ≡ some 5))
allocate_granted_example = allocate_granted host pm pm_after 0 tcp unset 5 10002 10001 grants
