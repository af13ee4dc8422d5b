-- ===== src/Cli/Archive.antt =====
-- cmd/herd/init.go: the loop of downloadFirecrackerAndJailer over the entries of the archive, and the
-- architecture that the release is asked for.
use herd.Common.{
  ◌≡◌, refl, ◌&&◌, ◌||◌, not, Bool, true, false, List, [], ◌∷◌, Option, none, some, if◌then◌else◌,
  arith,
}
use herd.Common.Text.{Text, codes, text_eq}
use herd.Common.Fields.{contains}

-- The name of runtime.GOARCH in a release.
unfoldable pub release_arch : Text → Text
release_arch arch =
    if text_eq (codes "amd4") arch
    then codes "x86_64"
    else if text_eq (codes "arm64") arch
    then codes "aarch64"
    else arch

-- An entry with its name and whether it can be extracted, or one that `Next` cannot read.
pub data Entry : Type 0 where
  entry : Text → Bool → Entry
  unreadable : Entry

pub data ArchiveError : Type 0 where
  not_read not_extracted no_firecracker no_jailer : ArchiveError

abbrev pub is_firecracker : Text → Bool
is_firecracker name =
    contains (codes "firecracker-v") name
    && not (contains (codes ".debug") name)
    && not (contains (codes "jailer") name)

abbrev pub is_jailer : Text → Bool
is_jailer name = contains (codes "jailer-v") name && not (contains (codes ".debug") name)

-- Whether the entry is the one or the other; the first case is taken first.
abbrev pub is_wanted_jailer : Text → Bool
is_wanted_jailer name = not (is_firecracker name) && is_jailer name

abbrev pub lacking : Bool → Bool → Option ArchiveError
lacking false jailer = some no_firecracker
lacking true false = some no_jailer
lacking true true = none

-- From an entry on, with what was extracted before it.
unfoldable pub read_archive : List Entry → Bool → Bool → Option ArchiveError
read_archive [] fc jailer = lacking fc jailer
read_archive (unreadable ∷ es) fc jailer = some not_read
read_archive (entry name ok ∷ es) fc jailer =
    let fc' = fc || is_firecracker name in
    let jailer' = jailer || is_wanted_jailer name in
    let rest = read_archive es fc' jailer' in
    if (is_firecracker name || is_jailer name) && not ok
    then some not_extracted
    else if fc' && jailer'
    then none
    else rest

unfoldable pub any_firecracker : List Entry → Bool
any_firecracker [] = false
any_firecracker (unreadable ∷ es) = any_firecracker es
any_firecracker (entry name ok ∷ es) = is_firecracker name || any_firecracker es

unfoldable pub any_jailer : List Entry → Bool
any_jailer [] = false
any_jailer (unreadable ∷ es) = any_jailer es
any_jailer (entry name ok ∷ es) = is_wanted_jailer name || any_jailer es

-- Where the archive is read without an error, it has both binaries among its entries.
pub read_archive-found :
    (es : List Entry) (fc jailer : Bool)
    → read_archive es fc jailer ≡ none
    → (fc || any_firecracker es ≡ true) × (jailer || any_jailer es ≡ true)
unfolding read_archive any_firecracker any_jailer
read_archive-found [] false jailer h = absurd (cc)
read_archive-found [] true false h = absurd (cc)
read_archive-found [] true true h = (refl, refl)
read_archive-found (unreadable ∷ es) fc jailer h = absurd (cc)
read_archive-found (entry name ok ∷ es) fc jailer h =
    let next =
      read_archive-found es (fc || is_firecracker name) (jailer || is_wanted_jailer name) in
    by_kind (is_firecracker name) (is_jailer name) fc jailer ok (any_firecracker es) (any_jailer es)
      (read_archive es (fc || is_firecracker name) (jailer || is_wanted_jailer name)) next h
  where
    by_kind :
        (f j fc jailer ok a b : Bool) (r : Option ArchiveError)
        → (r ≡ none → (fc || f || a ≡ true) × (jailer || (not f && j) || b ≡ true))
        → (if (f || j) && not ok
            then some not_extracted
            else if (fc || f) && (jailer || (not f && j))
            then none
            else r)
          ≡ none
        → (fc || (f || a) ≡ true) × (jailer || ((not f && j) || b) ≡ true)
    by_kind f j fc jailer ok a b r next h = (ground arith, ground arith)
