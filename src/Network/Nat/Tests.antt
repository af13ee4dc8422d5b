-- ===== src/Network/Nat/Tests.antt =====
-- One port mapping, one interface and the daemon's rules on the sample machine.
use herd.Common.{◌≡◌, refl, true}
use herd.Network.Ports.Defs.{blank, tcp, wildcard}
use herd.Host.Machine.{forward, rule, after}
use herd.Host.Sample.{machine, machine-Removes, empty, no_fault}
use herd.Network.Nat.Defs.{Names, add_port_mapping, remove_port_mapping}
use herd.Network.Nat.Mappings.{remove-add_port_mapping}

abbrev names : Names
names = record { is_ip = λ n. true; localhost = 1 }

remove-add_port_mapping_example :
    remove_port_mapping
      (machine no_fault)
      names
      wildcard
      8080
      6
      80
      blank
      (add_port_mapping (machine no_fault) names wildcard 8080 6 80 blank empty).0
      (rule (forward tcp 6 80))
    ≡ 0
unfolding add_port_mapping after
remove-add_port_mapping_example =
    remove-add_port_mapping (machine no_fault) (machine-Removes no_fault) names wildcard 8080 6 80
      blank (rule (forward tcp 6 80)) empty refl refl
