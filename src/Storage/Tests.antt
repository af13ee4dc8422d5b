-- ===== src/Storage/Tests.antt =====
-- `Bootstrap` and `Teardown` on a host where only the state directory can be made.
use herd.Common.{[], ◌∷◌, ◌≡◌, refl, false, true, some}
use herd.Storage.Host.{
  state_dir, devmapper_dir, containerd_dir, remove_all, remove, detach, remove_pool, remove_config,
  dir,
}
use herd.Storage.Bootstrap.{bootstrap, finish, run_steps, make_dir, clean_up, no_dir}
use herd.Storage.Rollback.{CleansUp, bootstrap_failed-clean}
use herd.Common.Text.{codes, text_eq}
use herd.Common.Split.{split, has_byte, has_prefix}
use herd.Storage.Images.{
  normalize_parts, normalize_image_ref, device_option, first_device, extract_block_device,
}
use herd.Storage.Sample.{os, has}

bootstrap_fails : bootstrap os false ≡ (false, some (no_dir devmapper_dir))
unfolding bootstrap finish run_steps make_dir clean_up
bootstrap_fails = refl

os-CleansUp : CleansUp os (dir state_dir)
os-CleansUp (remove_all state_dir) w h = refl
os-CleansUp (remove_all devmapper_dir) w h = refl
os-CleansUp (remove_all containerd_dir) w h = refl
os-CleansUp (remove f) w h = refl
os-CleansUp (detach d) w h = refl
os-CleansUp remove_pool w h = refl
os-CleansUp remove_config w h = refl

bootstrap_failed-clean_example : has (dir state_dir) true ≡ true
unfolding bootstrap finish run_steps make_dir clean_up
bootstrap_failed-clean_example =
    bootstrap_failed-clean os (dir state_dir) true (no_dir devmapper_dir) os-CleansUp
      (λ f n w. refl) (λ w. refl) refl refl

normalize_short : normalize_image_ref (codes "nginx") ≡ codes "docker.io/library/nginx"
unfolding normalize_image_ref normalize_parts split
normalize_short = refl

normalize_local : normalize_image_ref (codes "localhost/a") ≡ codes "localhost/a"
unfolding normalize_image_ref normalize_parts split has_byte text_eq
normalize_local = refl

device_option_found :
    extract_block_device (
      record { source = codes "x"; options = [] }
      ∷ record { source = []; options = codes "device=/dev/dm-1" ∷ [] }
      ∷ [])
    ≡ some (codes "/dev/dm-1")
unfolding extract_block_device first_device device_option has_prefix
device_option_found = refl
