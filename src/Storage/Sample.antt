-- ===== src/Storage/Sample.antt =====
-- A host for the tests, on which only the state directory can be made: its world is whether that
-- directory is there.
use herd.Common.{◌≡◌, refl, Bool, true, false, ◌||◌, []}
use herd.Storage.Host.{
  Dir, state_dir, remove_all, Removal, takes, Op, take_away, mkdir_all, list_loops,
  pkill_containerd, Reply, ok, absent, failed, Thing, dir, makes, removes, is_gone, within, Os,
}

abbrev pub World : Type 0
World = Bool

abbrev pub run_op : Op → World → World × Reply
run_op (mkdir_all state_dir) w = (true, ok [])
run_op (take_away (remove_all state_dir)) w = (false, ok [])
run_op (take_away r) w = (w, absent [])
run_op (list_loops f) w = (w, ok [])
run_op pkill_containerd w = (w, absent [])
run_op op w = (w, failed [])

abbrev pub has : Thing → World → Bool
has (dir state_dir) w = w
has t w = false

pub run-only_makes :
    (op : Op) (t : Thing) (w : World)
    → has t (run_op op w).0 ≡ true
    → (makes op (run_op op w).1 t || has t w) ≡ true
run-only_makes (mkdir_all state_dir) (dir state_dir) w h = refl
run-only_makes (take_away (remove_all state_dir)) (dir state_dir) w h = cc
run-only_makes op (dir state_dir) w h = h
run-only_makes op t w h = cc

pub run-only_removes :
    (op : Op) (t : Thing) (w : World)
    → removes op t ≡ false
    → has t w ≡ true
    → has t (run_op op w).0 ≡ true
run-only_removes (mkdir_all state_dir) (dir state_dir) w r h = refl
run-only_removes (take_away (remove_all state_dir)) (dir state_dir) w r h = cc
run-only_removes op (dir state_dir) w r h = h
run-only_removes op t w r h = cc

pub run-removes :
    (r : Removal) (t : Thing) (w : World)
    → is_gone (run_op (take_away r) w).1 ≡ true
    → takes r t ≡ true
    → has t (run_op (take_away r) w).0 ≡ false
run-removes (remove_all state_dir) (dir state_dir) w g r = refl
run-removes r (dir state_dir) w g h = cc
run-removes r t w g h = refl

pub tree :
    (d : Dir) (t : Thing) (w : World) → within d t ≡ true → has t w ≡ true → has (dir d) w ≡ true
tree state_dir (dir state_dir) w i h = h
tree d (dir state_dir) w i h = cc
tree d t w i h = cc

pub false_fresh : false ≡ true → false ≡ false
false_fresh h = refl

abbrev pub os : Os World
os = record {
  run = run_op;
  has = has;
  run-only_makes = run-only_makes;
  run-only_removes = run-only_removes;
  run-removes = run-removes;
  attach-fresh = λ f w h. false_fresh h;
  status-has = λ w. refl;
  tree = tree;
}
