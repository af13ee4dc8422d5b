-- ===== src/Settings/Validation.antt =====
-- What a configuration that `Validate` accepts guarantees.
use herd.Common.{
  ℕ, ◌≤◌, ◌≡◌, inl, inr, refl, Bool, true, false, not, List, [], ◌∷◌, none, Option-cases,
  if◌then◌else◌, arith, All, ◌<◌, ◌^◌, ◌+◌,
}
use herd.Common.Int.{ℤ, pos, pos_part, is_positive, ltb_ℤ}
use herd.Common.Text.{Text, codes, is_empty}
use herd.Settings.Defs.{
  Config, Parsers, Problem, apply_defaults, is_port, first_problem, validate, load, or_default,
  port_or,
}
use herd.Uid.Defs.{Pool, new_pool, range}
use herd.Uid.Leases.{IsSound, new_pool-IsSound}

-- The constraints on the network's ports, the resources and the jailer, on numbers.
pub record IsBounded (c : Config) : Type 0 where
  pub start_low : 1 ≤ pos_part c.network.ephemeral_port_start
  pub order : pos_part c.network.ephemeral_port_start ≤ pos_part c.network.ephemeral_port_end
  pub end_high : pos_part c.network.ephemeral_port_end ≤ 65535
  pub vms : 1 ≤ pos_part c.resources.max_global_vms
  pub memory : 1 ≤ pos_part c.resources.max_global_memory_mb
  pub uid_start : 65536 ≤ pos_part c.jailer.uid_pool_start
  pub uid_size : 1 ≤ pos_part c.jailer.uid_pool_size

Passes : Bool × Problem → Type 0
Passes (bad, x) = bad ≡ false

checks_pass : (checks : List (Bool × Problem)) → first_problem checks ≡ none → All Passes checks
unfolding first_problem Passes
checks_pass [] h = tt
checks_pass ((bad, x) ∷ checks) h = (ground arith, checks_pass checks (ground arith))

in_range : (n : ℤ) → not (is_port n) ≡ false → (1 ≤ pos_part n) × (pos_part n ≤ 65535)
in_range n h = ground arith

at_least : (n : ℤ) (k : ℕ) → ltb_ℤ n (pos k) ≡ false → k ≤ pos_part n
at_least n k h = ground arith

ordered : (a b : ℤ) → ltb_ℤ b a ≡ false → 1 ≤ pos_part b → pos_part a ≤ pos_part b
ordered a b h k = ground arith

-- A configuration that `Validate` accepts has a non-empty ephemeral range within 1 and 65535, at
-- least one machine and one megabyte, and user ids from 65536 up.
pub validate-IsBounded : (p : Parsers) (c : Config) → validate p c ≡ none → IsBounded c
unfolding validate Passes
validate-IsBounded p c h =
    let (
      _,
      (
        _,
        (
          _,
          (
            _,
            (
              first,
              (last, (sorted, (vms, (memory, (_, (_, (_, (_, (_, (_, (start, (size, _)))))))))))),
            ),
          ),
        ),
      ),
    ) =
      checks_pass _ h in
    record {
      start_low = (in_range c.network.ephemeral_port_start first).0;
      order =
          ordered c.network.ephemeral_port_start c.network.ephemeral_port_end sorted
            (in_range c.network.ephemeral_port_end last).0;
      end_high = (in_range c.network.ephemeral_port_end last).1;
      vms = at_least c.resources.max_global_vms 1 vms;
      memory = at_least c.resources.max_global_memory_mb 1 memory;
      uid_start = at_least c.jailer.uid_pool_start 65536 start;
      uid_size = at_least c.jailer.uid_pool_size 1 size;
    }

-- That `make` gives a channel of the size of the pool of user ids, and the end of its range is an int.
abbrev pub UidsFit : ℕ → Config → Type 0
UidsFit limit c =
    (pos_part c.jailer.uid_pool_size ≤ limit)
    × (pos_part c.jailer.uid_pool_start + pos_part c.jailer.uid_pool_size < 2 ^ 63)

-- The daemon's start-up: a configuration that `Validate` accepts and whose user ids fit never makes
-- `uid.NewPool` fail, and the pool that it gives is sound and holds no id below 65536.
pub validate-new_pool :
    (limit : ℕ) (p : Parsers) (c : Config)
    → UidsFit limit c
    → validate p c ≡ none
    → (q : Pool) × (new_pool limit c.jailer.uid_pool_start c.jailer.uid_pool_size ≡ inr q)
      × (q.ch ≡ range (pos_part c.jailer.uid_pool_start) (pos_part c.jailer.uid_pool_size))
      × IsSound (record { pool = q; leased = [] })
      × (65536 ≤ pos_part c.jailer.uid_pool_start)
validate-new_pool limit p c (small, ends) h =
    let v = validate-IsBounded p c h in
    let (q, made, filled, sound) =
      new_pool-IsSound limit c.jailer.uid_pool_start c.jailer.uid_pool_size
        (positive c.jailer.uid_pool_start (omega (arith, v.uid_start)))
        (positive c.jailer.uid_pool_size v.uid_size) small ends in
    (q, made, filled, sound, v.uid_start)
  where
    positive : (n : ℤ) → 1 ≤ pos_part n → is_positive n ≡ true
    positive n k = ground arith

-- A configuration that `Load` returns is the decoded one with its defaults filled in, `Validate`
-- accepts it, and so its numbers are within bounds.
pub load-validate :
    (p : Parsers) (join : Text → Text) (home : Text) (c d : Config)
    → load p join home c ≡ inr d
    → (validate p d ≡ none) × (d ≡ apply_defaults join home c) × IsBounded d
unfolding load
load-validate p join home c d h = elim (Option-cases (validate p (apply_defaults join home c))) [
  | inl e ↦ accepted e (ground arith)
  | inr (x, e) ↦ ground arith
]
  where
    accepted :
        validate p (apply_defaults join home c) ≡ none
        → d ≡ apply_defaults join home c
        → (validate p d ≡ none) × (d ≡ apply_defaults join home c) × IsBounded d
    accepted e f = let v : validate p d ≡ none = rw f e in (v, f, validate-IsBounded p d v)

or_default_idem : (t d : Text) → or_default (or_default t d) d ≡ or_default t d
or_default_idem [] [] = refl
or_default_idem [] (c ∷ d) = refl
or_default_idem (c ∷ t) d = refl

port_or_idem : (n : ℤ) (d : ℕ) → port_or (port_or n d) d ≡ port_or n d
port_or_idem n d = ground arith

-- `applyDefaults` fills what is missing and nothing else: applying it again changes nothing.
pub apply_defaults_idem :
    (join : Text → Text) (home : Text) (c : Config)
    → apply_defaults join home (apply_defaults join home c) ≡ apply_defaults join home c
unfolding apply_defaults
apply_defaults_idem join home c = rw (
  or_default_idem c.telemetry.log_format (codes "json"),
  or_default_idem c.telemetry.metrics_path (codes "/metrics"),
  port_or_idem c.network.ephemeral_port_start 10000,
  port_or_idem c.network.ephemeral_port_end 39999,
  or_default_idem c.cloud.node_key_path
      (if is_empty home then codes "/etc/herd/node.key" else join home),
)
