-- ===== src/Network/Nat/Taps.antt =====
-- The interfaces that CreatePointToPointTap makes.
use herd.Common.{ℕ, ◌+◌, ◌-◌, ◌*◌, ◌≡◌, ◌∙◌, Bool, true, if◌then◌else◌, arith}
use herd.Host.Machine.{
  tap, Resource, link_add, link_by_name, addr_add, link_set_up, link_del, after, same, same_refl,
  same_eq, Machine, Removes, gone_count,
}
use herd.Network.Nat.Defs.{is_done, create_tap, delete_tap}

module _ {W : Type 0} (m : Machine W) (ok : Removes m) where
  link_add_count :
      (t : ℕ) (q : Resource) (w : W)
      → m.count q (m.run (link_add t) w).0
        ≡ m.count q w + (if is_done (m.run (link_add t) w).1 then same (tap t) q else 0)
  unfolding after
  link_add_count t q w = ground (arith, m.run-count (link_add t) q w)

  link_del_count :
      (t : ℕ) (q : Resource) (w : W)
      → m.count q (m.run (link_del t) w).0 ≡ m.count q w - m.count q w * same (tap t) q
  unfolding after
  link_del_count t q w =
      m.run-count (link_del t) q w ∙ gone_count m (m.run (link_del t) w).1 (tap t) q w (ok.taps t w)

  other_count :
      (t : ℕ) (q : Resource) (w : W)
      → (m.count q (m.run (link_by_name t) w).0 ≡ m.count q w)
        × (m.count q (m.run (addr_add t) w).0 ≡ m.count q w)
        × (m.count q (m.run (link_set_up t) w).0 ≡ m.count q w)
  unfolding after
  other_count t q w = (
    m.run-count (link_by_name t) q w,
    m.run-count (addr_add t) q w,
    m.run-count (link_set_up t) q w,
  )

  found :
      (t : ℕ) (w : W)
      → is_done (m.run (link_add t) w).1 ≡ true
      → is_done (m.run (link_by_name t) (m.run (link_add t) w).0).1 ≡ true
  found t w h =
      ground
        (arith, ok.finds t (m.run (link_add t) w).0, link_add_count t (tap t) w, same_refl (tap t))

  -- Where no removal fails and no interface of the name was there, creating one that fails leaves
  -- as many of every resource as there were before, and one that succeeds makes that interface and
  -- nothing else.
  pub create_tap-count :
      (valid : Bool) (t : ℕ) (q : Resource) (w : W)
      → m.count (tap t) w ≡ 0
      → m.count q (create_tap m valid t w).0
        ≡ m.count q w + (if (create_tap m valid t w).1 then same (tap t) q else 0)
  unfolding create_tap
  create_tap-count valid t q w h =
      let w1 = (m.run (link_add t) w).0 in
      let w2 = (m.run (link_by_name t) w1).0 in
      let w3 = (m.run (addr_add t) w2).0 in
      let w4 = (m.run (link_set_up t) w3).0 in
      ground (
        arith,
        found t w,
        same_eq (tap t) q,
        same_refl (tap t),
        link_add_count t q w,
        other_count t q w1,
        other_count t q w2,
        other_count t q w3,
        link_del_count t q w2,
        link_del_count t q w3,
        link_del_count t q w4,
      )

  -- Where no removal fails, deleting an interface leaves none of its name and every other resource
  -- as it was, whether or not there was one.
  pub delete_tap-count :
      (t : ℕ) (q : Resource) (w : W)
      → m.count q (delete_tap m t w).0 ≡ m.count q w - m.count q w * same (tap t) q
  unfolding delete_tap
  delete_tap-count t q w =
      let w1 = (m.run (link_by_name t) w).0 in
      ground (
        arith,
        ok.finds t w,
        same_eq (tap t) q,
        same_refl (tap t),
        other_count t q w,
        link_del_count t q w1,
      )
