-- ===== src/Network/Ports/Defs.antt =====
-- internal/network/portmgr.go. Virtual machine ids are strings that are only compared; ports are
-- not negative.
use herd.Common.{
  ℕ, zero, suc, ◌+◌, ◌-◌, Bool, true, false, Option, none, some, ◌==◌, if◌then◌else◌, Map, [],
  lookup, insert, delete,
}

pub record PortManager : Type 0 where
  pub in_use : Map ℕ
  pub ephemeral_start : ℕ
  pub ephemeral_end : ℕ

unfoldable pub new_port_manager : ℕ → ℕ → PortManager
new_port_manager start last = record { in_use = []; ephemeral_start = start; ephemeral_end = last }

-- The protocol strings "tcp", "udp", "" and any other: everything but "udp" is bound as TCP.
pub data Protocol : Type 0 where
  tcp udp blank other : Protocol

-- The interface strings: "", "0.0.0.0" and any other.
pub data Interface : Type 0 where
  unset wildcard : Interface
  named : ℕ → Interface

-- Whether the host can bind a port: `net.Listen`, or `net.ListenPacket` for UDP.
abbrev pub Listen : Type 0
Listen = Bool → Interface → ℕ → Bool

abbrev pub is_udp : Protocol → Bool
is_udp udp = true
is_udp _ = false

abbrev pub bind_host : Interface → Interface
bind_host unset = wildcard
bind_host wildcard = wildcard
bind_host (named n) = named n

pub data Error : Type 0 where
  no_ephemeral_port : Error
  owned_by : ℕ → Error
  busy_on_host : Error

pub data Answer : Type 0 where
  granted : ℕ → Answer
  refused : Error → Answer

module _ (listen : Listen) where
  unfoldable pub is_host_port_free : Protocol → ℕ → Interface → Bool
  is_host_port_free protocol port iface = listen (is_udp protocol) (bind_host iface) port

  abbrev pub is_free : Map ℕ → Protocol → ℕ → Bool
  is_free m protocol p = elim (lookup p m) [
    | none ↦ is_host_port_free protocol p unset
    | some _ ↦ false
  ]

  -- The loop over the ephemeral range: the first of `n` ports from `p` that is free.
  unfoldable pub find_free : Map ℕ → Protocol → ℕ → ℕ → Option ℕ
  find_free m protocol zero p = none
  find_free m protocol (suc n) p =
      let rest = find_free m protocol n (p + 1) in if is_free m protocol p then some p else rest

  abbrev ephemeral : PortManager → Option ℕ → ℕ → PortManager × Answer
  ephemeral pm none vm = (pm, refused no_ephemeral_port)
  ephemeral pm (some p) vm = (record pm { in_use = insert p vm pm.in_use }, granted p)

  unfoldable pub allocate : PortManager → ℕ → Protocol → Interface → ℕ → PortManager × Answer
  unfolding find_free is_host_port_free
  allocate pm requested protocol iface vm =
      if requested == 0
      then ephemeral pm
          (find_free pm.in_use protocol (pm.ephemeral_end + 1 - pm.ephemeral_start)
            pm.ephemeral_start)
          vm
      else elim (lookup requested pm.in_use) [
        | some owner ↦ (pm, if owner == vm then granted requested else refused (owned_by owner))
        | none ↦
            if is_host_port_free protocol requested iface
            then (record pm { in_use = insert requested vm pm.in_use }, granted requested)
            else (pm, refused busy_on_host)
      ]

unfoldable pub release : PortManager → ℕ → PortManager
release pm port = record pm { in_use = delete port pm.in_use }
