-- ===== src/Network/Nat/Bootstrap.antt =====
-- The rules that the daemon sets up when it starts.
use herd.Common.{ℕ, ◌+◌, ◌-◌, ◌≡◌, true, List, [], ◌∷◌, some, arith}
use herd.Host.Machine.{
  Rule, masquerade_out, forward_out, masquerade_local, established, drop_private, rule, Resource,
  Command, ip_forward, route_localnet, append, remove, after, same, Machine, Removes,
}
use herd.Network.Nat.Defs.{run_all, run_each, bootstrap, nat_teardown}
use herd.Network.Nat.Mappings.{append_count, remove_count}

-- How many of a resource the rules of a list are.
abbrev held : List Rule → Resource → ℕ
held [] q = 0
held (r ∷ rs) q = same (rule r) q + held rs q

abbrev appends : List Rule → List Command
appends [] = []
appends (r ∷ rs) = append r ∷ appends rs

abbrev removes : List Rule → List Command
removes [] = []
removes (r ∷ rs) = remove r ∷ removes rs

module _ {W : Type 0} (m : Machine W) (ok : Removes m) where
  run_all-appends :
      (rs : List Rule) (q : Resource) (w : W)
      → (run_all m (appends rs) w).1 ≡ true
      → m.count q (run_all m (appends rs) w).0 ≡ m.count q w + held rs q
  unfolding run_all
  run_all-appends [] q w added = omega arith
  run_all-appends (r ∷ rs) q w added =
      ground (arith, append_count m ok r q w, run_all-appends rs q (m.run (append r) w).0)

  run_each-removes :
      (rs : List Rule) (q : Resource) (w : W)
      → m.count q (run_each m (removes rs) w) ≡ m.count q w - held rs q
  unfolding run_each
  run_each-removes [] q w = omega arith
  run_each-removes (r ∷ rs) q w =
      ground (arith, remove_count m ok r q w, run_each-removes rs q (m.run (remove r) w).0)

  -- Where no removal of a rule that is there fails, what a Bootstrap that succeeds adds, Teardown
  -- of the same interface takes away: as many of every rule and other resource are left as before.
  pub teardown-bootstrap :
      (iface : ℕ) (q : Resource) (w : W)
      → (bootstrap m (some iface) w).1 ≡ true
      → m.count q (nat_teardown m (some iface) (bootstrap m (some iface) w).0).0 ≡ m.count q w
  unfolding bootstrap nat_teardown run_all after
  teardown-bootstrap iface q w set_up =
      let added : List Rule =
        masquerade_out iface
        ∷ established
        ∷ masquerade_local
        ∷ drop_private 0
        ∷ drop_private 1
        ∷ drop_private 2
        ∷ forward_out iface
        ∷ [] in
      let removed : List Rule =
        masquerade_out iface
        ∷ masquerade_local
        ∷ established
        ∷ drop_private 0
        ∷ drop_private 1
        ∷ drop_private 2
        ∷ forward_out iface
        ∷ [] in
      let w1 = (m.run ip_forward w).0 in
      let w2 = (m.run route_localnet w1).0 in
      ground (
        arith,
        m.run-count ip_forward q w,
        m.run-count route_localnet q w1,
        run_all-appends added q w2,
        run_each-removes removed q (run_all m (appends added) w2).0,
      )
