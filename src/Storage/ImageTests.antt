-- ===== src/Storage/ImageTests.antt =====
-- A containerd with one image, whose state is the list of its leases.
use herd.Common.{
  ℕ, ◌≡◌, ◌≢◌, ◌↔◌, ◌⊎◌, inl, inr, refl, sym, ap, ◌∙◌, Bool, true, false, ◌||◌, Bool-cases, List,
  [], ◌∷◌, Option, none, some, if◌then◌else◌, arith,
}
use herd.Common.Text.{Text, codes, text_eq, text_eq_iff}
use herd.Common.Split.{split, has_prefix}
use herd.Common.Paths.{enter, walk, join}
use herd.Storage.Images.{
  Mount, normalize_image_ref, normalize_parts, extract_block_device, first_device,
}
use herd.Storage.Manager.{
  missing, Client, not_warmed, Parents, new_manager, set_parent, record_parent, local_image,
  unpacked_image, warm_found, warm_image, with_lease, lease_id, snapshot_mounts, snapshot_of,
  snapshot, teardown,
}
use herd.Storage.Warmed.{started, warmed, is_warm, snapshot-is_warm}
use herd.Storage.Leases.{KeepsLeases, snapshot-teardown}
use herd.Storage.Inject.{
  Files, nothing_yet, clean_up, copy_binary, place_binary, inject_into, inject_mounts,
  inject_leased, inject_binary, inject_guest_agent, guest_path_or,
}
use herd.Storage.Released.{Released, inject_guest_agent-Released}

unfoldable without : Text → List Text → List Text
without id [] = []
without id (l ∷ ls) = let rest = without id ls in if text_eq l id then rest else l ∷ rest

unfoldable holds : Text → List Text → Bool
holds id [] = false
holds id (l ∷ ls) = text_eq l id || holds id ls

abbrev device_mount : Mount
device_mount = record { source = codes "/dev/dm-3"; options = [] }

abbrev client : Client (List Text) ℕ
client = record {
  get_image = λ ref s. missing;
  pull = λ ref s. (s, some 7);
  is_unpacked = λ image s. some true;
  unpack = λ image s. (s, true);
  chain_id = λ image s. some (codes "sha256:7");
  config_blob = λ image s. none;
  unmarshal = λ blob. none;
  create_lease = λ id s. (id ∷ s, some id);
  list_leases = λ filter s. none;
  delete_lease = λ id s. (without id s, true);
  stat = λ l key s. missing;
  prepare = λ l key parent s. (s, some (device_mount ∷ []));
  mounts = λ l key s. some (device_mount ∷ []);
  remove = λ key s. (s, true);
}

abbrev nginx : Text
nginx = codes "nginx"

abbrev parents : Parents
parents = set_parent (normalize_image_ref nginx) (codes "sha256:7") new_manager

warm_nginx : warm_image client nginx [] new_manager ≡ ([], (parents, none))
unfolding warm_image local_image warm_found unpacked_image record_parent
warm_nginx = refl

snapshot-is_warm_example :
    ((snapshot client (codes "a") (codes "library/nginx") parents []).1 ≡ inl not_warmed) ↔ (
      is_warm (normalize_image_ref (codes "library/nginx")) (normalize_image_ref nginx ∷ [])
      ≡ false)
snapshot-is_warm_example =
    snapshot-is_warm client [] parents (normalize_image_ref nginx ∷ []) (codes "a")
      (codes "library/nginx") (warmed [] [] new_manager parents [] nginx (started []) warm_nginx)

same_text : (t : Text) → text_eq t t ≡ true
same_text t = (text_eq_iff t t).1 refl

other_text : (t u : Text) → u ≢ t → text_eq t u ≡ false
other_text t u n = elim (Bool-cases (text_eq t u)) [
  | inl e ↦ absurd (n (sym ((text_eq_iff t u).0 e)))
  | inr e ↦ e
]

holds-without : (id : Text) (s : List Text) → holds id (without id s) ≡ false
unfolding holds without
holds-without id [] = refl
holds-without id (l ∷ ls) = ground (arith, holds-without id ls)

holds-without_other : (id k : Text) (s : List Text) → k ≢ id → holds k (without id s) ≡ holds k s
unfolding holds without
holds-without_other id k [] n = refl
holds-without_other id k (l ∷ ls) n = elim (Bool-cases (text_eq l id)) [
  | inl e ↦
      let l_id : l ≡ id = (text_eq_iff l id).0 e in
      rw e (
        holds-without_other id k ls n
        ∙ sym (ap (λ x. x || holds k ls) (other_text l k (λ q. n (q ∙ l_id)))))
  | inr e ↦ rw e (ap (λ x. text_eq l k || x) (holds-without_other id k ls n))
]

client-KeepsLeases : KeepsLeases client holds
unfolding holds
client-KeepsLeases = record {
  creates = λ id l s h. (ground arith, ground (arith, same_text id));
  creates_only = λ id k s n. ground (arith, other_text id k n);
  lists = λ id l ls s h. absurd (ground arith);
  deletes = λ id s h. holds-without id s;
  deletes_only = λ id k s n. holds-without_other id k s n;
  prepares = λ l key parent k s. refl;
  removes = λ key k s. refl;
}

abbrev before : List Text
before = lease_id (codes "a") ∷ lease_id (codes "b") ∷ []

snapshot_device :
    snapshot client (codes "c") nginx parents before
    ≡ (lease_id (codes "c") ∷ before, inr (codes "/dev/dm-3"))
unfolding snapshot snapshot_of snapshot_mounts with_lease extract_block_device first_device
    set_parent normalize_image_ref normalize_parts split has_prefix text_eq
snapshot_device = refl

snapshot-teardown_example :
    ((snapshot client (codes "a") nginx parents before).1 ≡ inr (codes "/dev/dm-3")
      → holds (lease_id (codes "a")) (snapshot client (codes "a") nginx parents before).0 ≡ true)
    × ((teardown client (codes "a") before).1 ≡ true
        → (holds (lease_id (codes "a")) (teardown client (codes "a") before).0 ≡ false)
          ⊎ ((with_lease client (codes "a") before).1 ≡ none))
    × (codes "b" ≢ codes "a"
        → (holds (lease_id (codes "b")) (snapshot client (codes "a") nginx parents before).0
            ≡ holds (lease_id (codes "b")) before)
          × (holds (lease_id (codes "b")) (teardown client (codes "a") before).0
              ≡ holds (lease_id (codes "b")) before))
snapshot-teardown_example =
    snapshot-teardown client holds client-KeepsLeases (codes "a") (codes "b") nginx
      (codes "/dev/dm-3") parents before

-- The copy fails half way.
abbrev files : Files
files = record {
  stat_binary = some false;
  make_temp = some (codes "herd-inject-1" ∷ codes "tmp" ∷ []);
  mount_all = λ ms dir. (true, true);
  make_dirs = λ dir. true;
  opens_binary = true;
  creates = λ file. true;
  copies = false;
  closes = true;
  unmounts = true;
  removes = true;
  erases = true;
}

inject_guest_agent-Released_example :
    Released files (guest_path_or []) (inject_guest_agent files client (codes "a") [] before).1
inject_guest_agent-Released_example = inject_guest_agent-Released files client (codes "a") [] before

-- What is placed at the default path when the copy succeeds.
abbrev placed : Option (List Text)
placed = some (
    codes "herd-guest-agent"
    ∷ codes "bin"
    ∷ codes "local"
    ∷ codes "usr"
    ∷ codes "herd-inject-1"
    ∷ codes "tmp"
    ∷ [])

inject_default :
    (inject_guest_agent (record files { copies = true }) client (codes "a") [] before).1
    ≡ (record nothing_yet { copied = placed }, none)
unfolding inject_guest_agent inject_binary inject_leased inject_mounts inject_into place_binary
    copy_binary clean_up with_lease join walk enter split has_prefix text_eq
inject_default = refl
