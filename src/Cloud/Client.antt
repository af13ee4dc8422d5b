-- ===== src/Cloud/Client.antt =====
-- internal/cloud/client.go: how the client connects and with which credentials, and the files of its
-- identity. The disk is a parameter; logs are left out.
use herd.Common.{
  ◌≡◌, ◌≢◌, ◌&&◌, not, Bool, true, false, List, [], ◌∷◌, Option, none, some, if◌then◌else◌,
}
use herd.Common.Text.{Text, codes, is_empty}
use herd.Common.Split.{trim_space}
use herd.Common.Paths.{join, parent}
use herd.Settings.Defs.{CloudConfig}

-- The calls on the disk, each with whether it succeeds, and what they document: a file that was written
-- reads as what was written, and to make directories, remove or write a file leaves other files alone.
pub record Disk (D : Type 0) : Type 0 where
  pub read_file : List Text → D → Option Text
  pub mkdir_all : List Text → D → D × Bool
  pub remove : List Text → D → D
  pub write_file : List Text → Text → D → D × Bool
  pub reads :
      (f : List Text) (t : Text) (d : D)
      → (write_file f t d).1 ≡ true
      → read_file f (write_file f t d).0 ≡ some t
  pub keeps :
      (f g : List Text) (t : Text) (d : D)
      → f ≢ g
      → read_file g (write_file f t d).0 ≡ read_file g d

pub data Transport : Type 0 where
  tls insecure : Transport

-- The metadata of the stream: the id and key of the node, or a machine token.
pub data Auth : Type 0 where
  node_key : Text → Text → Auth
  machine_token : Text → Auth

pub data Started : Type 0 where
  disabled dial_failed no_credentials stream_failed : Started
  connected : Transport → Auth → Started

-- What is met when connecting: net.SplitHostPort, and whether a dial and the opening of the stream
-- succeed.
pub record Reach : Type 0 where
  pub split_host_port : Text → Option (Text × Text)
  pub dials : Text → Transport → Bool
  pub opens : Auth → Bool

unfoldable pub dial_with_fallback : Reach → Text → Option Transport
dial_with_fallback r endpoint = elim (r.split_host_port endpoint) [
  | none ↦ none
  | some _ ↦
      if r.dials endpoint tls
      then some tls
      else if r.dials endpoint insecure
      then some insecure
      else none
]

abbrev pub key_file : CloudConfig → List Text
key_file cfg = join [] cfg.node_key_path

abbrev pub id_file : CloudConfig → List Text
id_file cfg = codes "node.id" ∷ parent (key_file cfg)

abbrev pub read_or : Option Text → Text → Text
read_or none t = t
read_or (some data_) t = trim_space data_

-- The choice that `Start` makes.
unfoldable pub credentials : CloudConfig → Option Auth
credentials cfg =
    if not (is_empty cfg.node_key) && not (is_empty cfg.node_id)
    then some (node_key cfg.node_id cfg.node_key)
    else if not (is_empty cfg.machine_token)
    then some (machine_token cfg.machine_token)
    else none

abbrev pub opened : Reach → Transport → Option Auth → Started
opened r t none = no_credentials
opened r t (some a) = if r.opens a then connected t a else stream_failed

module _ {D : Type 0} (k : Disk D) where
  unfoldable pub load_local_identity : D → CloudConfig → CloudConfig
  load_local_identity d cfg = record cfg {
    node_key = read_or (k.read_file (key_file cfg) d) cfg.node_key;
    node_id = read_or (k.read_file (id_file cfg) d) cfg.node_id;
  }

  -- The writes of `persistIdentity`; the error of `Remove` is ignored.
  unfoldable pub write_identity : Text → Text → CloudConfig → D → D × Bool
  write_identity id key cfg d =
      let (d1, made) = k.mkdir_all (parent (key_file cfg)) d in
      let (d2, written) = k.write_file (key_file cfg) key (k.remove (key_file cfg) d1) in
      if not made
      then (d1, false)
      else if not written
      then (d2, false)
      else k.write_file (id_file cfg) id d2

  unfoldable pub persist_identity : Text → Text → CloudConfig → D → CloudConfig × (D × Bool)
  persist_identity id key cfg d =
      (record cfg { node_id = id; node_key = key }, write_identity id key cfg d)

  -- `Start`, up to its first heartbeat.
  unfoldable pub start : Reach → D → CloudConfig → CloudConfig × Started
  start r d cfg =
      if not cfg.enabled then (cfg, disabled) else elim (dial_with_fallback r cfg.endpoint) [
        | none ↦ (cfg, dial_failed)
        | some t ↦ let cfg' = load_local_identity d cfg in (cfg', opened r t (credentials cfg'))
      ]
