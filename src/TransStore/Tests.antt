-- ===== src/TransStore/Tests.antt =====
-- The queue of a transaction that has an older version of the package.
use flappy.Base.{
  List, ℕ, ◌≡◌, refl, some, none, Bytes, codes, Bool, true, false, [], ◌∷◌, All, arith,
}
use flappy.Pkgver.{pkg_name, pkg_version, pkgpattern_version}
use flappy.Arrays.{name_size}
use flappy.Dewey.Compare.Order.{IsVersion}
use flappy.Dicts.{empty_pkgd, Pkgd}
use flappy.TransStore.{transaction_store}
use flappy.TransStore.Queue.{IsQueued}
use flappy.TransStore.Kept.{Kept, transaction_store-Kept}

abbrev never : Bytes → Bytes → ℕ → Bool
never p s flags = false

abbrev sample_pkg : Bytes → Bytes → Pkgd
sample_pkg pkgver pkgname = record empty_pkgd { pkgver = some pkgver; pkgname = some pkgname }

abbrev queue : List Pkgd
queue = sample_pkg (codes "a-1_1") (codes "a") ∷ sample_pkg (codes "b-1_1") (codes "b") ∷ []

old-version : IsVersion (codes "a-1_1")
old-version = omega arith

other-version : IsVersion (codes "b-1_1")
other-version = omega arith

new-version : IsVersion (codes "a-2_1")
new-version = omega arith

queue-IsQueued : All IsQueued queue
unfolding pkg_name
queue-IsQueued = (
  record {
    pkgver = codes "a-1_1";
    name = codes "a";
    has_pkgver = refl;
    version = old-version;
    named = refl;
  },
  (
    record {
      pkgver = codes "b-1_1";
      name = codes "b";
      has_pkgver = refl;
      version = other-version;
      named = refl;
    },
    tt,
  ),
)

new-named : pkg_name name_size (codes "a-2_1") ≡ some (codes "a")
unfolding pkg_name
new-named = refl

name-plain : pkgpattern_version (codes "a") ≡ none
unfolding pkgpattern_version
name-plain = refl

name-bare : pkg_version (codes "a") ≡ none
unfolding pkg_version
name-bare = refl

transaction_store-Kept_example :
    (after : List Pkgd) × (transaction_store never queue
        (sample_pkg (codes "a-2_1") (codes "a"))
        false
      ≡ some (after, true))
    × Kept never queue (codes "a-2_1") (codes "a") after
transaction_store-Kept_example =
    transaction_store-Kept never queue (sample_pkg (codes "a-2_1") (codes "a")) (codes "a-2_1")
      (codes "a") false queue-IsQueued refl refl new-version new-named name-plain name-bare
