-- ===== src/Cloud/Identity.antt =====
-- From a persisted identity to the next start.
use herd.Common.{
  ◌≡◌, ◌≢◌, ◌∙◌, refl, ap, inl, inr, true, false, Bool-cases, [], ◌∷◌, some, if◌then◌else◌, arith,
}
use herd.Common.Text.{Text, codes, is_empty}
use herd.Common.Split.{trim_space}
use herd.Common.Paths.{join, parent}
use herd.Settings.Defs.{CloudConfig}
use herd.Cloud.Client.{
  Disk, Transport, node_key, connected, stream_failed, Reach, dial_with_fallback, key_file, id_file,
  credentials, opened, load_local_identity, write_identity, persist_identity, start,
}

module _ {D : Type 0} (k : Disk D) where
  pub write_identity-read :
      (id key : Text) (cfg : CloudConfig) (d : D)
      → id_file cfg ≢ key_file cfg
      → (write_identity k id key cfg d).1 ≡ true
      → (k.read_file (key_file cfg) (write_identity k id key cfg d).0 ≡ some key)
        × (k.read_file (id_file cfg) (write_identity k id key cfg d).0 ≡ some id)
  unfolding write_identity
  write_identity-read id key cfg d n h =
      let d1 = (k.mkdir_all (parent (key_file cfg)) d).0 in
      let d2 = (k.write_file (key_file cfg) key (k.remove (key_file cfg) d1)).0 in
      elim (Bool-cases (k.mkdir_all (parent (key_file cfg)) d).1) [
        | inr e ↦ absurd (ground arith)
        | inl e ↦
            elim (Bool-cases (k.write_file (key_file cfg) key (k.remove (key_file cfg) d1)).1) [
              | inr w ↦ absurd (ground arith)
              | inl w ↦
                  rw (e, w)
                    (
                      k.keeps (id_file cfg) (key_file cfg) id d2 n
                          ∙ k.reads (key_file cfg) key (k.remove (key_file cfg) d1) w,
                      k.reads (id_file cfg) id d2 (ground arith),
                    )
            ]
      ]

  start_loaded :
      (r : Reach) (d : D) (cfg : CloudConfig) (id key : Text) (t : Transport)
      → k.read_file (key_file cfg) d ≡ some key
      → k.read_file (id_file cfg) d ≡ some id
      → is_empty (trim_space id) ≡ false
      → is_empty (trim_space key) ≡ false
      → let auth = node_key (trim_space id) (trim_space key) in
        opened r t (credentials (load_local_identity k d cfg))
        ≡ (if r.opens auth then connected t auth else stream_failed)
  unfolding credentials load_local_identity
  start_loaded r d cfg id key t q1 q2 i j = rw (credentials, q1, q2, i, j) refl

  -- A start with the files of an identity on the disk.
  pub start_read :
      (id key : Text) (cfg : CloudConfig) (d : D) (r : Reach) (t : Transport)
      → k.read_file (key_file cfg) d ≡ some key
      → k.read_file (id_file cfg) d ≡ some id
      → is_empty (trim_space id) ≡ false
      → is_empty (trim_space key) ≡ false
      → cfg.enabled ≡ true
      → dial_with_fallback r cfg.endpoint ≡ some t
      → let auth = node_key (trim_space id) (trim_space key) in
        (start k r d cfg).1 ≡ (if r.opens auth then connected t auth else stream_failed)
  unfolding start
  start_read id key cfg d r t q1 q2 i j e f =
      rw (start, e, f) (start_loaded r d cfg id key t q1 q2 i j)

  -- Where an identity was persisted without an error, and neither part is blank, the next start with the
  -- same path of the key authenticates with it, less the space around its parts, whatever the
  -- configuration has of an identity or a machine token; it connects with TLS if that dial succeeds,
  -- and without it otherwise.
  pub start-persist_identity :
      (id key : Text) (cfg cfg' : CloudConfig) (d : D) (r : Reach) (t : Transport)
      → id_file cfg ≢ key_file cfg
      → (persist_identity k id key cfg d).1.1 ≡ true
      → is_empty (trim_space id) ≡ false
      → is_empty (trim_space key) ≡ false
      → cfg'.node_key_path ≡ cfg.node_key_path
      → cfg'.enabled ≡ true
      → dial_with_fallback r cfg'.endpoint ≡ some t
      → let auth = node_key (trim_space id) (trim_space key) in
        (start k r (persist_identity k id key cfg d).1.0 cfg').1
        ≡ (if r.opens auth then connected t auth else stream_failed)
  unfolding persist_identity
  start-persist_identity id key cfg cfg' d r t n h i j p e f =
      let d' = (write_identity k id key cfg d).0 in
      let (q1, q2) = write_identity-read id key cfg d n h in
      let key_read = ap (λ x. k.read_file (join [] x) d') p ∙ q1 in
      let id_read = ap (λ x. k.read_file (codes "node.id" ∷ parent (join [] x)) d') p ∙ q2 in
      start_read id key cfg' d' r t key_read id_read i j e f
