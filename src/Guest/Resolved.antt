-- ===== src/Guest/Resolved.antt =====
-- Which file `handleExecution` runs.
use herd.Common.{
  ◌≡◌, refl, ap, inl, inr, ◌⊎◌, Bool, true, false, Bool-cases, List, [], ◌∷◌, ◌++◌, some, All,
}
use herd.Common.Text.{Text, codes}
use herd.Common.Split.{has_prefix}
use herd.Vsock.Defs.{ExecPayload}
use herd.Guest.Execution.{
  Command, ExecError, empty_command, not_found, standard_paths, default_path, container_root,
  joined, look_up, resolve, run_command, handle_execution, Resolves,
}

abbrev Absolute : Text → Type 0
Absolute p = has_prefix (codes "/") p ≡ true

abbrev pub Missing : (Text → Bool) → Text → List Text → Type 0
Missing exists bin = All (λ (q : Text). exists (container_root ++ joined q bin) ≡ false)

abbrev Found : (Text → Bool) → List Text → Text → Text → Type 0
Found exists ps bin path =
    ((path ≡ bin) × Missing exists bin ps)
    ⊎ ((before : List Text) × (p : Text) × (after : List Text) × (ps ≡ before ++ p ∷ after)
        × Missing exists bin before
        × (exists (container_root ++ joined p bin) ≡ true)
        × (path ≡ joined p bin)
        × Absolute (joined p bin))

joined-Absolute : (p bin : Text) → Absolute p → Absolute (joined p bin)
unfolding has_prefix
joined-Absolute [] bin h = cc
joined-Absolute (c ∷ p) bin h = h

look_up-Found :
    (exists : Text → Bool) (ps : List Text) (bin : Text)
    → All Absolute ps
    → Found exists ps bin (look_up exists ps bin)
unfolding look_up
look_up-Found exists [] bin a = inl (refl, tt)
look_up-Found exists (p ∷ ps) bin (a, as_) =
    elim (Bool-cases (exists (container_root ++ joined p bin))) [
      | inl e ↦ rw e (inr ([], p, ps, refl, tt, e, refl, joined-Absolute p bin a))
      | inr e ↦ elim (look_up-Found exists ps bin as_) [
        | inl (same, none_there) ↦ rw e (inl (same, (refl, none_there)))
        | inr (before, q, after, splits, skipped, there, path, abs) ↦
            rw e (inr (p ∷ before, q, after, ap (◌∷◌ p) splits, (e, skipped), there, path, abs))
      ]
    ]

standard_paths-Absolute : All Absolute standard_paths
unfolding has_prefix
standard_paths-Absolute = (refl, (refl, (refl, (refl, (refl, (refl, tt))))))

-- An absolute result is what the name stands for; another one is no file of the standard paths.
resolve-Resolves :
    (exists : Text → Bool) (bin : Text)
    → ((has_prefix (codes "/") (resolve exists bin) ≡ true)
        × Resolves exists bin (resolve exists bin))
      ⊎ ((has_prefix (codes "/") (resolve exists bin) ≡ false)
          × (has_prefix (codes "/") bin ≡ false)
          × Missing exists bin standard_paths)
unfolding resolve
resolve-Resolves exists bin = elim (Bool-cases (has_prefix (codes "/") bin)) [
  | inl e ↦ rw e (inl (e, inl (refl, refl)))
  | inr e ↦ elim (look_up-Found exists standard_paths bin standard_paths-Absolute) [
    | inl (same, none_there) ↦ rw (e, same) (inr (e, refl, none_there))
    | inr (before, p, after, splits, skipped, there, path, abs) ↦
        rw (e, path) (inl (abs, inr (refl, before, p, after, splits, skipped, there, refl)))
  ]
]

-- What is run, or why nothing is.
abbrev pub Handles : (Text → Bool) → List Text → List Text → ExecError ⊎ Command → Type 0
Handles exists [] env r = r ≡ inl empty_command
Handles exists (bin ∷ args) env (inl e) =
    (e ≡ not_found) × (has_prefix (codes "/") bin ≡ false) × Missing exists bin standard_paths
Handles exists (bin ∷ args) env (inr c) =
    Resolves exists bin c.path
    × (c.args ≡ bin ∷ args)
    × (c.env ≡ default_path ∷ env)
    × (c.chroot ≡ container_root)

run_command-Handles :
    (exists : Text → Bool) (command env : List Text)
    → Handles exists command env (run_command exists command env)
unfolding run_command
run_command-Handles exists [] env = refl
run_command-Handles exists (bin ∷ args) env = elim (resolve-Resolves exists bin) [
  | inl (abs, r) ↦ rw abs (r, refl, refl, refl)
  | inr (abs, rel, none_there) ↦ rw abs (refl, rel, none_there)
]

-- A payload without a command is refused. Of one with a command the program is run that its name
-- stands for: the name itself if it is absolute, or else the file of this name in the first standard
-- path in which the container has one; with all the words as arguments, in the container, with the
-- payload's environment behind the agent's PATH. Only a name that is not absolute and in no standard
-- path is refused.
pub handle_execution-Handles :
    (exists : Text → Bool) (payload : ExecPayload)
    → Handles exists payload.command payload.env (handle_execution exists (some payload))
unfolding handle_execution
handle_execution-Handles exists payload = run_command-Handles exists payload.command payload.env
