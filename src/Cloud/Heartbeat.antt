-- ===== src/Cloud/Heartbeat.antt =====
-- internal/cloud/client.go: `sendTelemetry`, up to the `Send`. A percentage is a fraction; the conversion
-- of an int to an int32 keeps the lowest 32 bits.
use herd.Common.{
  ℕ, ◌+◌, ◌*◌, ◌/◌, ◌%◌, ◌^◌, ◌≡◌, ◌≤◌, ◌<◌, refl, true, List, [], ◌∷◌, Option, none, some,
  if◌then◌else◌, ltb, All, arith,
}
use herd.Common.Int.{
  ℤ, pos, negsuc, ◌≤ℤ◌, pos_part, neg_part, sub_ℕ, ◌-ℤ◌, -ℤ_parts, sub_ℕ_parts, is_positive,
}
use herd.Common.Text.{Text}
use herd.Pool.Teardown.{stats}
use herd.Tenant.{PortMapping}
use herd.Lifecycle.Defs.{Manager, SessionState}
use herd.Daemon.Defs.{Controller}
use herd.Observer.Defs.{Fraction, NodeStats}
use herd.Observer.Cpu.{IsProper}

unfoldable pub int32 : ℕ → ℤ
int32 n = if ltb (n % 2 ^ 32) (2 ^ 31) then pos (n % 2 ^ 32) else sub_ℕ (n % 2 ^ 32) (2 ^ 32)

-- Bytes in whole megabytes, rounded to zero.
unfoldable pub megabytes : ℤ → ℤ
megabytes (pos n) = pos (n / 1024 / 1024)
megabytes (negsuc n) = sub_ℕ 0 ((n + 1) / 1024 / 1024)

abbrev times_100 : ℤ → ℤ
times_100 a = sub_ℕ (100 * pos_part a) (100 * neg_part a)

-- (1.0 - idle) * 100.0
unfoldable pub usage_percent : Fraction → Fraction
usage_percent q = record {
  numerator = times_100 (q.denominator -ℤ q.numerator);
  denominator = q.denominator;
}

pub record ProtoMapping : Type 0 where
  pub internal_port : ℤ
  pub host_port : ℤ

pub record SessionInfo : Type 0 where
  pub session : ℕ
  pub mappings : List ProtoMapping

unfoldable pub proto_mappings : List PortMapping → List ProtoMapping
proto_mappings [] = []
proto_mappings (m ∷ ms) =
    record { internal_port = int32 m.guest_port; host_port = int32 m.host_port } ∷ proto_mappings ms

unfoldable pub session_infos : Manager → List SessionInfo
session_infos [] = []
session_infos ((s, state) ∷ m) =
    record { session = s; mappings = proto_mappings state.port_mappings } ∷ session_infos m

pub record Heartbeat : Type 0 where
  pub available_memory_mb : ℤ
  pub active_vm_count : ℤ
  pub cpu_usage_percent : Fraction
  pub uptime_seconds : ℕ
  pub interface_ip : Text
  pub active_sessions : List SessionInfo
  pub total_memory_mb : ℤ
  pub total_vcpu : ℤ

-- What `Pool.Stats` has of the node: the zero value if it could not be read.
abbrev pub node_or_zero : Option NodeStats → NodeStats
node_or_zero none = record {
  total_memory_bytes = pos 0;
  available_memory_bytes = pos 0;
  cpu_idle = record { numerator = pos 0; denominator = pos 1 };
  cpu_count = 0;
}
node_or_zero (some n) = n

unfoldable pub heartbeat : ℕ → Text → Option NodeStats → Controller → Heartbeat
heartbeat now interface_ip node c =
    let n = node_or_zero node in
    record {
      available_memory_mb = megabytes n.available_memory_bytes;
      active_vm_count = int32 ((stats c.pool).active_sessions);
      cpu_usage_percent = usage_percent n.cpu_idle;
      uptime_seconds = now;
      interface_ip = interface_ip;
      active_sessions = session_infos c.leases;
      total_memory_mb = megabytes n.total_memory_bytes;
      total_vcpu = int32 n.cpu_count;
    }

-- A fraction of at least 0 and at most 100.
pub record IsPercent (q : Fraction) : Type 0 where
  pub some_time : is_positive q.denominator ≡ true
  pub nonneg : ◌≤ℤ◌ (pos 0) q.numerator
  pub le : ◌≤ℤ◌ q.numerator (times_100 q.denominator)

nonneg_100 : (x : ℤ) → ◌≤ℤ◌ (pos 0) x → ◌≤ℤ◌ (pos 0) (times_100 x)
nonneg_100 x h = let e = sub_ℕ_parts (100 * pos_part x) (100 * neg_part x) in omega (arith, e, h)

le_100 : (x y : ℤ) → ◌≤ℤ◌ x y → ◌≤ℤ◌ (times_100 x) (times_100 y)
le_100 x y h =
    let e = sub_ℕ_parts (100 * pos_part x) (100 * neg_part x) in
    let e' = sub_ℕ_parts (100 * pos_part y) (100 * neg_part y) in omega (arith, e, e', h)

usage_percent-IsPercent : (q : Fraction) → IsProper q → IsPercent (usage_percent q)
unfolding usage_percent
usage_percent-IsPercent q p =
    let x = q.denominator -ℤ q.numerator in
    let e1 = -ℤ_parts q.denominator q.numerator in
    record {
      some_time = p.some_time;
      nonneg = nonneg_100 x (omega (arith, e1, p.nonneg, p.le));
      le = le_100 x q.denominator (omega (arith, e1, p.nonneg, p.le));
    }

-- The mappings of a list, without any conversion.
unfoldable pub plain_mappings : List PortMapping → List ProtoMapping
plain_mappings [] = []
plain_mappings (m ∷ ms) =
    record { internal_port = pos m.guest_port; host_port = pos m.host_port } ∷ plain_mappings ms

-- A port of TCP or UDP.
abbrev pub HasPorts : PortMapping → Type 0
HasPorts m = (m.guest_port ≤ 65535) × (m.host_port ≤ 65535)

int32_small : (n : ℕ) → n < 2 ^ 31 → int32 n ≡ pos n
unfolding int32
int32_small n h = ground arith

proto_mappings-plain_mappings :
    (ms : List PortMapping) → All HasPorts ms → proto_mappings ms ≡ plain_mappings ms
unfolding proto_mappings plain_mappings
proto_mappings-plain_mappings [] h = refl
proto_mappings-plain_mappings (m ∷ ms) ((g, h), hs) =
    rw
      (
        int32_small m.guest_port (omega (arith, g)),
        int32_small m.host_port (omega (arith, h)),
        proto_mappings-plain_mappings ms hs,
      )
      refl

unfoldable pub plain_infos : Manager → List SessionInfo
plain_infos [] = []
plain_infos ((s, state) ∷ m) =
    record { session = s; mappings = plain_mappings state.port_mappings } ∷ plain_infos m

abbrev pub AllHavePorts : Manager → Type 0
AllHavePorts = All (λ (x : ℕ × SessionState). All HasPorts x.1.port_mappings)

session_infos-plain_infos : (m : Manager) → AllHavePorts m → session_infos m ≡ plain_infos m
unfolding session_infos plain_infos
session_infos-plain_infos [] h = refl
session_infos-plain_infos ((s, state) ∷ m) (h, hs) =
    rw (proto_mappings-plain_mappings state.port_mappings h, session_infos-plain_infos m hs) refl

-- A number of bytes that are not negative, in whole megabytes.
abbrev pub InMegabytes : ℤ → ℤ → Type 0
InMegabytes bytes mb =
    (1048576 * pos_part mb ≤ pos_part bytes) × (pos_part bytes < 1048576 * (pos_part mb + 1))

sub_zero : (k : ℕ) → pos_part (sub_ℕ 0 k) ≡ 0
sub_zero k = grind arith

megabytes-InMegabytes : (a : ℤ) → InMegabytes a (megabytes a)
unfolding megabytes
megabytes-InMegabytes (pos n) = (omega arith, omega arith)
megabytes-InMegabytes (negsuc n) =
    let e = sub_zero ((n + 1) / 1024 / 1024) in (omega (arith, e), omega (arith, e))

-- Where the idle fraction of the host lies between 0 and 1, or its facts could not be read, the ports of
-- every lease have 16 bits, and there are fewer than 2^31 sessions and processors, the heartbeat
-- reports a usage between 0 and 100 percent, the memory rounded down to whole megabytes, every lease
-- with exactly its ports, and exactly the number of sessions of the pool and of processors.
pub heartbeat_bounds :
    (now : ℕ) (interface_ip : Text) (node : Option NodeStats) (c : Controller)
    → IsProper (node_or_zero node).cpu_idle
    → AllHavePorts c.leases
    → (stats c.pool).active_sessions < 2 ^ 31
    → (node_or_zero node).cpu_count < 2 ^ 31
    → let h = heartbeat now interface_ip node c in
      IsPercent h.cpu_usage_percent
      × (h.active_sessions ≡ plain_infos c.leases)
      × InMegabytes (node_or_zero node).available_memory_bytes h.available_memory_mb
      × InMegabytes (node_or_zero node).total_memory_bytes h.total_memory_mb
      × (h.active_vm_count ≡ pos ((stats c.pool).active_sessions))
      × (h.total_vcpu ≡ pos (node_or_zero node).cpu_count)
unfolding heartbeat
heartbeat_bounds now interface_ip node c p h few few_cpus = (
  usage_percent-IsPercent (node_or_zero node).cpu_idle p,
  session_infos-plain_infos c.leases h,
  megabytes-InMegabytes (node_or_zero node).available_memory_bytes,
  megabytes-InMegabytes (node_or_zero node).total_memory_bytes,
  int32_small ((stats c.pool).active_sessions) few,
  int32_small ((node_or_zero node).cpu_count) few_cpus,
)
