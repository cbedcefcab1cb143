-- ===== src/Deptree.antt =====
-- The full dependency tree of a package: lib/package_fulldeptree.c, with the two functions of
-- lib/pkgdb.c and lib/rpool.c that call it. An item is the entry of the table `items` with its
-- key; a pointer to an item is that key. `none` is an abort, a write outside an array in
-- `mkversion`, or no fuel left.
pub mod Mono
pub mod Steps
pub mod Handled
pub mod Loop
pub mod Looped
pub mod Visits
pub mod Closed
pub mod Database
pub mod Tests
use flappy.Base.{
  ℕ, zero, suc, ◌≡◌, refl, Bool, true, false, not, List, [], ◌∷◌, Option, none, some, if◌then◌else◌,
  ◌>>=◌, Bytes, length,
}
use flappy.Arrays.{by_string, by_pkgname, match_string_in_array}
use flappy.Dicts.{Dict, dict_get, dict_set, Pkgd, PkgDict}
use flappy.Find.{Found, found, missing, pkgdb_get_pkg, pkgdb_get_virtualpkg}
use flappy.Revdeps.{dep_name, run_depends_of}

-- `struct item`; `dbase` is the list of the keys of the items that it links.
pub record Item : Type 0 where
  pub pkgver : Bytes
  pub dbase : List Bytes

-- `items` and `result`.
pub record Tree : Type 0 where
  pub items : Dict Item
  pub result : List Bytes

-- `addItem`
unfoldable pub add_item : Bytes → Bytes → Tree → Tree
add_item pkgn pkgver tree = elim (dict_get tree.items pkgn) [
  | some item ↦ tree
  | none ↦ record tree { items = dict_set tree.items pkgn (record { pkgver = pkgver; dbase = [] }) }
]

-- `addDepn`
unfoldable pub add_depn : Bytes → Bytes → Tree → Tree
add_depn item xitem tree = elim (dict_get tree.items xitem) [
  | none ↦ tree
  | some x ↦ record tree { items = dict_set tree.items xitem (record x { dbase = item ∷ x.dbase }) }
]

abbrev pub add_first : Bytes → Tree → Tree
add_first pkgver tree = record tree { result = pkgver ∷ tree.result }

-- The loop over the links of an item; `visit` is the call for one of them.
unfoldable pub links_loop : (Bytes → Tree → Option Tree) → List Bytes → Tree → Option Tree
links_loop visit [] tree = some tree
links_loop visit (dep ∷ deps) tree = visit dep tree >>= λ tree'. links_loop visit deps tree'

module _ (fnmatch : Bytes → Bytes → ℕ → Bool) where
  -- The depth of the calls is bounded by the fuel.
  unfoldable pub add_deps_recursive : ℕ → Bool → Bytes → Tree → Option Tree
  add_deps_recursive zero first item tree = none
  add_deps_recursive (suc fuel) first item tree =
      let visit : Bytes → Tree → Option Tree = λ dep t. add_deps_recursive fuel false dep t in
      dict_get tree.items item >>= λ i.
      match_string_in_array fnmatch tree.result i.pkgver by_string >>= λ b.
      if b
      then some tree
      else (links_loop visit i.dbase tree >>= λ tree'.
          some (if first then tree' else add_first i.pkgver tree'))

  -- The fuel is one more than there are items.
  abbrev pub add_deps : Bool → Bytes → Tree → Option Tree
  add_deps first item tree = add_deps_recursive (suc (length tree.items)) first item tree

  -- `provides && flappy_match_pkgname_in_array(provides, curdepname)`
  unfoldable pub is_provided : Pkgd → Bytes → Option Bool
  is_provided pkgd curdepname = elim pkgd.provides [
    | none ↦ some false
    | some provides ↦ match_string_in_array fnmatch provides curdepname by_pkgname
  ]

  -- `find` is the search in the database or in the pool, by name and then by what is provided.
  module _ (find : Bytes → Option Found) (rpool : Bool) where
    -- One round of the loop over the dependencies of an item: whether it goes on. `visit` is the
    -- call for a dependency, which gives its item.
    unfoldable pub dep_round :
        (Pkgd → Tree → Option (Option Bytes × Tree))
        → Pkgd
        → Bytes
        → Bytes
        → Tree
        → Option (Bool × Tree)
    dep_round visit pkgd item curdep tree = find curdep >>= λ f. elim f [
      | missing errno ↦ some (not rpool, tree)
      | found curpkgd ↦ dep_name curdep >>= λ curdepname. is_provided pkgd curdepname >>= λ b.
          if b then some (true, tree) else elim (dict_get tree.items curdepname) [
            | some x ↦ add_deps false curdepname tree >>= λ tree'. some (true, tree')
            | none ↦ visit curpkgd tree >>= λ r.
                some
                  (elim r.0 [ none ↦ (false, r.1) | some xitem ↦ (true, add_depn item xitem r.1) ])
          ]
    ]

    unfoldable pub deps_round :
        (Pkgd → Tree → Option (Option Bytes × Tree))
        → Pkgd
        → Bytes
        → List Bytes
        → Tree
        → Option (Bool × Tree)
    deps_round visit pkgd item [] tree = some (true, tree)
    deps_round visit pkgd item (curdep ∷ rdeps) tree =
        dep_round visit pkgd item curdep tree >>= λ r. elim r.0 [
          | true ↦ deps_round visit pkgd item rdeps r.1
          | false ↦ some (false, r.1)
        ]

    -- The end of `ordered_depends`: the item is put in front, unless it is the first.
    unfoldable pub end_depends : Bool → Bytes → Bytes → Bool × Tree → Option (Option Bytes × Tree)
    end_depends first item pkgver (false, tree) = some (none, tree)
    end_depends first item pkgver (true, tree) =
        if first
        then some (some item, tree)
        else (match_string_in_array fnmatch tree.result pkgver by_string >>= λ b.
            some (some item, if b then tree else add_first pkgver tree))

    -- The part of `ordered_depends` with the name.
    unfoldable pub item_depends :
        (Pkgd → Tree → Option (Option Bytes × Tree))
        → Bool
        → Pkgd
        → Tree
        → Bytes
        → Option (Option Bytes × Tree)
    item_depends visit first pkgd tree pkgname = elim (dict_get tree.items pkgname) [
      | some item ↦ add_deps first pkgname tree >>= λ tree'. some (some pkgname, tree')
      | none ↦ pkgd.pkgver >>= λ pkgver.
          deps_round visit pkgd pkgname (run_depends_of pkgd) (add_item pkgname pkgver tree)
          >>= λ r. end_depends first pkgname pkgver r
    ]

    -- `ordered_depends`: the item, or NULL. `first` is the depth 0.
    unfoldable pub ordered_depends : ℕ → Bool → Pkgd → Tree → Option (Option Bytes × Tree)
    ordered_depends zero first pkgd tree = none
    ordered_depends (suc fuel) first pkgd tree =
        let visit : Pkgd → Tree → Option (Option Bytes × Tree) =
          λ d t. ordered_depends fuel false d t in
        pkgd.pkgname >>= λ pkgname. item_depends visit first pkgd tree pkgname

    -- `flappy_get_pkg_fulldeptree`: the array or NULL, and the table `items`, a static variable that
    -- is emptied only where an array is returned.
    unfoldable pub get_pkg_fulldeptree :
        ℕ → Dict Item → Bytes → Option (Option (List Bytes) × Dict Item)
    get_pkg_fulldeptree fuel items pkg = find pkg >>= λ f. elim f [
      | missing errno ↦ some (none, items)
      | found pkgd ↦ ordered_depends fuel true pkgd (record { items = items; result = [] }) >>= λ r.
          some (elim r.0 [ none ↦ (none, r.1.items) | some item ↦ (some r.1.result, []) ])
    ]

  -- The search in the database, and `flappy_pkgdb_get_pkg_fulldeptree`. No chain of calls is longer
  -- than there are packages.
  unfoldable pub find_pkgdb : Dict (Dict Bytes) → PkgDict → Bytes → Option Found
  find_pkgdb vpkgd pkgdb curdep = pkgdb_get_pkg fnmatch pkgdb curdep >>= λ f. elim f [
    | found pkgd ↦ some (found pkgd)
    | missing errno ↦ pkgdb_get_virtualpkg fnmatch vpkgd pkgdb curdep
  ]

  unfoldable pub pkgdb_get_pkg_fulldeptree :
      Dict (Dict Bytes) → PkgDict → Dict Item → Bytes → Option (Option (List Bytes) × Dict Item)
  pkgdb_get_pkg_fulldeptree vpkgd pkgdb items pkg =
      get_pkg_fulldeptree (find_pkgdb vpkgd pkgdb) false (suc (length pkgdb)) items pkg
