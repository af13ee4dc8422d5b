-- ===== src/Guest/BootArgs.antt =====
-- That the agent reads from the kernel's command line what the factory wrote there.
use herd.Common.{◌≡◌, refl, false, List, [], ◌∷◌, ◌++◌, Option, none, some, length, arith}
use mathlib.Core.List.{append_assoc}
use herd.Common.Text.{Text, codes, is_empty}
use herd.Common.Split.{has_prefix}
use herd.Common.Numerals.{digits}
use herd.Common.Fields.{fields, split_spaces, drop_empty, fields-append, NoSpace}
use herd.Network.Ipam.Defs.{Address}
use herd.Network.Bindings.Defs.{show_ip}
use herd.Network.Bindings.RoundTrip.{show_ip-Dotted, Dotted}
use herd.Guest.Network.{read_params, check_params, network_params}

-- firecracker_factory.go: "boot_args" of the configuration of a machine.
abbrev pub boot_options : Text
boot_options =
    codes
      "console=ttyS0 reboot=k panic=1 pci=off quiet mitigations=off i8042.nokbd i8042.noaux tsc=reliable random.trust_cpu=on random.trust_bootloader=on root=/dev/vda rw rootfstype=ext4 rootflags=noload,noinit_itable "

unfoldable pub boot_args : Text → Address → Address → Text
boot_args init_path guest_ip host_ip =
    boot_options
    ++ ((codes "init=" ++ init_path)
        ++ b' '
          ∷ (codes "herd_rootfs=1 "
              ++ ((codes "herd_ip=" ++ show_ip guest_ip)
                  ++ b' ' ∷ (codes "herd_gw=" ++ show_ip host_ip))))

option_words : List Text
option_words =
    codes "console=ttyS0"
    ∷ codes "reboot=k"
    ∷ codes "panic=1"
    ∷ codes "pci=off"
    ∷ codes "quiet"
    ∷ codes "mitigations=off"
    ∷ codes "i8042.nokbd"
    ∷ codes "i8042.noaux"
    ∷ codes "tsc=reliable"
    ∷ codes "random.trust_cpu=on"
    ∷ codes "random.trust_bootloader=on"
    ∷ codes "root=/dev/vda"
    ∷ codes "rw"
    ∷ codes "rootfstype=ext4"
    ∷ codes "rootflags=noload,noinit_itable"
    ∷ []

fields-boot_options : (t : Text) → fields (boot_options ++ t) ≡ option_words ++ fields t
unfolding fields drop_empty split_spaces option_words
fields-boot_options t = refl

fields-herd_rootfs :
    (t : Text) → fields (codes "herd_rootfs=1 " ++ t) ≡ codes "herd_rootfs=1" ∷ fields t
unfolding fields drop_empty split_spaces
fields-herd_rootfs t = refl

Dotted-NoSpace : (t : Text) → Dotted t → NoSpace t
Dotted-NoSpace [] h = tt
Dotted-NoSpace (c ∷ t) (h, hs) = (ground arith, Dotted-NoSpace t hs)

-- Words of the command line behind a key.
abbrev ip_word : Address → Text
ip_word a = codes "herd_ip=" ++ show_ip a

abbrev gw_word : Address → Text
gw_word a = codes "herd_gw=" ++ show_ip a

boot_args-append :
    (path : Text) (ip gw : Address) (t : Text)
    → boot_args path ip gw ++ t
      ≡ boot_options
        ++ ((codes "init=" ++ path)
            ++ b' ' ∷ (codes "herd_rootfs=1 " ++ (ip_word ip ++ b' ' ∷ (gw_word gw ++ t))))
unfolding boot_args
boot_args-append path ip gw t = simp append_assoc

key_NoSpace : (a : Address) → NoSpace (ip_word a) × NoSpace (gw_word a)
key_NoSpace a =
    let plain = Dotted-NoSpace (show_ip a) (show_ip-Dotted a) in
    (
      (refl, (refl, (refl, (refl, (refl, (refl, (refl, (refl, plain)))))))),
      (refl, (refl, (refl, (refl, (refl, (refl, (refl, (refl, plain)))))))),
    )

fields-boot_args :
    (path : Text) (ip gw : Address)
    → NoSpace path
    → fields (boot_args path ip gw ++ b'\n' ∷ [])
      ≡ option_words
        ++ (codes "init=" ++ path) ∷ codes "herd_rootfs=1" ∷ ip_word ip ∷ gw_word gw ∷ []
fields-boot_args path ip gw n =
    rw
      (
        boot_args-append path ip gw (b'\n' ∷ []),
        fields-boot_options (
            (codes "init=" ++ path)
            ++ b' '
              ∷ (codes "herd_rootfs=1 " ++ (ip_word ip ++ b' ' ∷ (gw_word gw ++ b'\n' ∷ [])))),
        fields-append (codes "init=" ++ path)
            (codes "herd_rootfs=1 " ++ (ip_word ip ++ b' ' ∷ (gw_word gw ++ b'\n' ∷ []))) b' '
            (refl, (refl, (refl, (refl, (refl, n))))) refl refl,
        fields-herd_rootfs (ip_word ip ++ b' ' ∷ (gw_word gw ++ b'\n' ∷ [])),
        fields-append (ip_word ip) (gw_word gw ++ b'\n' ∷ []) b' ' (key_NoSpace ip).0 refl refl,
        fields-append (gw_word gw) [] b'\n' (key_NoSpace gw).1 refl refl,
      )
      (unfold fields drop_empty split_spaces in refl)

-- The words before the two parameters set neither.
read_params-boot_args :
    (path : Text) (ip gw : Address)
    → read_params
        (option_words
          ++ (codes "init=" ++ path) ∷ codes "herd_rootfs=1" ∷ ip_word ip ∷ gw_word gw ∷ [])
        (record { ip = []; gw = [] })
      ≡ record { ip = show_ip ip; gw = show_ip gw }
unfolding read_params has_prefix option_words
read_params-boot_args path ip gw = refl

show_ip_not_empty : (a : Address) → length a ≡ 4 → is_empty (show_ip a) ≡ false
unfolding show_ip digits
show_ip_not_empty [] h = cc
show_ip_not_empty (a ∷ []) h = absurd (omega (arith, h))
show_ip_not_empty (a ∷ b ∷ as_) h = ground arith

check_params-printed :
    (parse_ip : Text → Option Address) (ip gw : Address)
    → length ip ≡ 4
    → length gw ≡ 4
    → parse_ip (show_ip ip) ≡ some ip
    → parse_ip (show_ip gw) ≡ some gw
    → check_params parse_ip (record { ip = show_ip ip; gw = show_ip gw }) ≡ (none, ip, gw)
unfolding check_params
check_params-printed parse_ip ip gw li lg pi pg =
    ground (arith, show_ip_not_empty ip li, show_ip_not_empty gw lg)

-- Where the parser of addresses reads what is printed for the two addresses, the agent finds in the
-- command line that the factory wrote, whatever the path of the agent, if it has no space, just
-- these two addresses.
pub network_params-boot_args :
    (parse_ip : Text → Option Address) (path : Text) (ip gw : Address)
    → NoSpace path
    → length ip ≡ 4
    → length gw ≡ 4
    → parse_ip (show_ip ip) ≡ some ip
    → parse_ip (show_ip gw) ≡ some gw
    → network_params parse_ip (boot_args path ip gw ++ b'\n' ∷ []) ≡ (none, ip, gw)
unfolding network_params
network_params-boot_args parse_ip path ip gw n li lg pi pg =
    rw (fields-boot_args path ip gw n, read_params-boot_args path ip gw)
      (check_params-printed parse_ip ip gw li lg pi pg)
