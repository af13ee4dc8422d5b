-- ===== src/Host/Machine.antt =====
-- What internal/network/nat.go and firecracker_factory.go ask of the host: the commands that they
-- run, and the resources that these make and remove. The host itself is a parameter.
use herd.Common.{
  ℕ, zero, suc, ap, inl, inr, ◌+◌, ◌-◌, ◌*◌, ◌≤◌, ◌≡◌, ◌≢◌, ◌⊎◌, refl, [], ◌∷◌, one, arith,
}
use herd.Common.Text.{Text, text_eq, text_eq_iff}
use herd.Network.Ports.Defs.{Protocol, tcp, udp, blank, other}

-- How a rule tells a host's packets: `-m addrtype --dst-type LOCAL`, `-d` or `-i`.
pub data Match : Type 0 where
  local : Match
  address device : ℕ → Match

-- The iptables rules of nat.go, by their chains and targets: of the PREROUTING and OUTPUT chains the
-- protocol, host port, guest address and guest port, of FORWARD the protocol, guest address and port.
pub data Rule : Type 0 where
  prerouting : Protocol → Match → ℕ → ℕ → ℕ → Rule
  output : Protocol → ℕ → ℕ → ℕ → Rule
  forward : Protocol → ℕ → ℕ → Rule
  masquerade_out forward_out : ℕ → Rule
  masquerade_local established : Rule
  drop_private : ℕ → Rule

pub data Resource : Type 0 where
  rule : Rule → Resource
  tap snapshot jail jail_base process : ℕ → Resource

pub data Command : Type 0 where
  ip_forward route_localnet : Command
  append remove : Rule → Command
  link_add link_by_name addr_add link_set_up link_del : ℕ → Command
  make_snapshot inject_agent teardown : ℕ → Command
  mkdir_parent mkdir_root chown_root mkdir_run chown_run mkdir_dev chown_dev : ℕ → Command
  link_kernel bind_device write_config remove_all : ℕ → Command
  start connect kill close_connection cancel : ℕ → Command

pub data Answer : Type 0 where
  done exists failed : Answer

abbrev pub protocol_key : Protocol → ℕ
protocol_key tcp = 0
protocol_key udp = 1
protocol_key blank = 2
protocol_key other = 3

abbrev pub match_key : Match → Text → Text
match_key local k = 0 ∷ k
match_key (address n) k = 1 ∷ n ∷ k
match_key (device n) k = 2 ∷ n ∷ k

abbrev pub rule_key : Rule → Text
rule_key (prerouting p m a b c) = 0 ∷ protocol_key p ∷ a ∷ b ∷ c ∷ match_key m []
rule_key (output p a b c) = 1 ∷ protocol_key p ∷ a ∷ b ∷ c ∷ []
rule_key (forward p a b) = 2 ∷ protocol_key p ∷ a ∷ b ∷ []
rule_key (masquerade_out n) = 3 ∷ n ∷ []
rule_key (forward_out n) = 4 ∷ n ∷ []
rule_key masquerade_local = 5 ∷ []
rule_key established = 6 ∷ []
rule_key (drop_private n) = 7 ∷ n ∷ []

abbrev pub resource_key : Resource → Text
resource_key (rule r) = 0 ∷ rule_key r
resource_key (tap n) = 1 ∷ n ∷ []
resource_key (snapshot n) = 2 ∷ n ∷ []
resource_key (jail n) = 3 ∷ n ∷ []
resource_key (process n) = 4 ∷ n ∷ []
resource_key (jail_base n) = 5 ∷ n ∷ []

unfoldable pub same : Resource → Resource → ℕ
same r q = one (text_eq (resource_key r) (resource_key q))

abbrev pub made : Answer → Resource → Resource → ℕ → ℕ
made done r q n = n + same r q
made _ r q n = n

abbrev pub ensured : Answer → Resource → Resource → ℕ → ℕ
ensured done r q n = n + (1 - n) * same r q
ensured _ r q n = n

abbrev pub taken : Answer → Resource → Resource → ℕ → ℕ
taken done r q n = n - same r q
taken _ r q n = n

abbrev pub gone : Answer → Resource → Resource → ℕ → ℕ
gone done r q n = n - n * same r q
gone _ r q n = n

-- How many of a resource there are after a command, from its answer and how many there were.
unfoldable pub after : Command → Answer → Resource → ℕ → ℕ
after (append r) a q n = made a (rule r) q n
after (remove r) a q n = taken a (rule r) q n
after (link_add t) a q n = made a (tap t) q n
after (link_del t) a q n = gone a (tap t) q n
after (make_snapshot v) a q n = made a (snapshot v) q n
after (teardown v) a q n = gone a (snapshot v) q n
after (mkdir_parent v) a q n = ensured a (jail_base v) q n
after (mkdir_root v) a q n = made a (jail v) q n
after (remove_all v) a q n = gone a (jail v) q n
after (start v) a q n = made a (process v) q n
after (kill v) a q n = gone a (process v) q n
after _ a q n = n

-- A host whose commands do what iptables, netlink, the file system, the kernel's signals and the
-- storage manager document. One that makes a resource adds one if it succeeds, and `MkdirAll` makes a
-- directory that is not there yet. A removal answers `done` if it took away what it names, of the
-- rules one and of the others all, and otherwise that is still there.
pub record Machine (W : Type 0) : Type 0 where
  pub run : Command → W → W × Answer
  pub count : Resource → W → ℕ
  pub run-count :
      (c : Command) (q : Resource) (w : W) → count q (run c w).0 ≡ after c (run c w).1 q (count q w)

-- A machine on which what is there is found and can be removed: no removal of it fails.
pub record Removes {W : Type 0} (m : Machine W) : Type 0 where
  pub finds : (t : ℕ) (w : W) → m.count (tap t) w ≢ 0 → (m.run (link_by_name t) w).1 ≡ done
  pub rules : (r : Rule) (w : W) → m.count (rule r) w ≢ 0 → (m.run (remove r) w).1 ≡ done
  pub taps : (t : ℕ) (w : W) → m.count (tap t) w ≢ 0 → (m.run (link_del t) w).1 ≡ done
  pub snapshots : (v : ℕ) (w : W) → m.count (snapshot v) w ≢ 0 → (m.run (teardown v) w).1 ≡ done
  pub jails : (v : ℕ) (w : W) → m.count (jail v) w ≢ 0 → (m.run (remove_all v) w).1 ≡ done
  pub processes : (v : ℕ) (w : W) → m.count (process v) w ≢ 0 → (m.run (kill v) w).1 ≡ done

pub same_eq : (r q : Resource) → (same r q ≡ 0) ⊎ (r ≡ q)
unfolding same text_eq
same_eq r q = ground arith

pub same_refl : (r : Resource) → same r r ≡ 1
unfolding same
same_refl r = ground (arith, (text_eq_iff (resource_key r) (resource_key r)).1 refl)

pub same_le : (r q : Resource) → same r q ≤ 1
unfolding same
same_le r q = ground arith

-- A removal that succeeds if there is something to remove leaves nothing of it, or one rule less.
taken_lem :
    (a : Answer) (r q : Resource) (n k : ℕ)
    → (same r q ≡ 0) ⊎ (k ≡ n)
    → (k ≢ 0 → a ≡ done)
    → taken a r q n ≡ n - same r q
taken_lem done r q n k c h = refl
taken_lem exists r q n k (inl e) h = omega (arith, e)
taken_lem exists r q n zero (inr e) h = omega (arith, e)
taken_lem exists r q n (suc k) (inr e) h = let x = h (λ z. absurd (omega arith)) in cc
taken_lem failed r q n k (inl e) h = omega (arith, e)
taken_lem failed r q n zero (inr e) h = omega (arith, e)
taken_lem failed r q n (suc k) (inr e) h = let x = h (λ z. absurd (omega arith)) in cc

gone_lem :
    (a : Answer) (r q : Resource) (n k : ℕ)
    → (same r q ≡ 0) ⊎ (k ≡ n)
    → (k ≢ 0 → a ≡ done)
    → gone a r q n ≡ n - n * same r q
gone_lem done r q n k c h = refl
gone_lem exists r q n k (inl e) h = rw e (omega arith)
gone_lem exists r q n zero (inr e) h = rw (← e) (omega arith)
gone_lem exists r q n (suc k) (inr e) h = let x = h (λ z. absurd (omega arith)) in cc
gone_lem failed r q n k (inl e) h = rw e (omega arith)
gone_lem failed r q n zero (inr e) h = rw (← e) (omega arith)
gone_lem failed r q n (suc k) (inr e) h = let x = h (λ z. absurd (omega arith)) in cc

module _ {W : Type 0} (m : Machine W) where
  same_count : (r q : Resource) (w : W) → (same r q ≡ 0) ⊎ (m.count r w ≡ m.count q w)
  same_count r q w = elim (same_eq r q) [ inl e ↦ inl e | inr e ↦ inr (ap (λ x. m.count x w) e) ]

  pub taken_count :
      (a : Answer) (r q : Resource) (w : W)
      → (m.count r w ≢ 0 → a ≡ done)
      → taken a r q (m.count q w) ≡ m.count q w - same r q
  taken_count a r q w h = taken_lem a r q (m.count q w) (m.count r w) (same_count r q w) h

  pub gone_count :
      (a : Answer) (r q : Resource) (w : W)
      → (m.count r w ≢ 0 → a ≡ done)
      → gone a r q (m.count q w) ≡ m.count q w - m.count q w * same r q
  gone_count a r q w h = gone_lem a r q (m.count q w) (m.count r w) (same_count r q w) h
