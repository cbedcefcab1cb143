-- ===== src/Broken.antt =====
-- Reverse dependencies that a transaction would break: lib/transaction_check_revdeps.c, with
-- `flappy_pkg_is_ignored` of lib/util.c. The array `missing_deps` is there before the call; a
-- package that is not found is a dictionary with no key. `none` is an abort, a string that is
-- missing in a message, or a write outside an array in `mkversion`.
pub mod Virtual
pub mod Rounds
pub mod Table
pub mod Unbroken
pub mod Tests
use flappy.Base.{
  ◌&&◌, ℕ, ◌≡◌, refl, Bool, true, false, not, ◌||◌, List, [], ◌∷◌, ◌++◌, Option, none, some, ◌==◌,
  if◌then◌else◌, ◌>>=◌, Bytes, codes, str_eq, length,
}
use flappy.Pkgver.{pkg_name}
use flappy.Pattern.{pkgpattern_match}
use flappy.Arrays.{name_size, is_nonzero, by_string, by_pkgdep, match_string_in_array}
use flappy.Dicts.{empty_pkgd, Dict, Pkgd, PkgDict}
use flappy.Find.{Found, found, missing, transaction_pkg_type, pkgdb_get_pkg, find_pkg_in_array}
use flappy.Revdeps.{dep_name, run_depends_of, pkgdb_get_pkg_revdeps}
use flappy.Conflicts.{trans_install, trans_update, trans_remove, trans_hold}

abbrev pub virtual_message : Bytes → Bytes → Bytes → Bytes
virtual_message revpkgver pkgpattern vpkgver =
    revpkgver
    ++ codes " broken, needs '"
    ++ pkgpattern
    ++ codes "' virtual pkg (got `"
    ++ vpkgver
    ++ codes "')"

-- `broken_pkg`
abbrev pub broken_pkg : List Bytes → Bytes → Bytes → List Bytes
broken_pkg mdeps dep pkg =
    mdeps ++ (pkg ++ codes " in transaction breaks installed pkg `" ++ dep ++ codes "'") ∷ []

-- The array `missing_deps`, and whether the loop goes on, or a message was added.
abbrev pub Checked : Type 0
Checked = List Bytes × Bool

abbrev pub add_message : Option Bytes → Checked → Checked
add_message none checked = checked
add_message (some m) (mdeps, matched) = (mdeps ++ m ∷ [], true)

abbrev pub provides_of : Pkgd → List Bytes
provides_of pkgd = elim pkgd.provides [ none ↦ [] | some provides ↦ provides ]

-- What the search for a dependency by its name comes to.
pub data Search : Type 0 where
  named unnamed absent : Search

unfoldable pub find_named : List Bytes → Bytes → Search
find_named [] curpkgname = absent
find_named (curdep ∷ rundeps) curpkgname =
    let next = find_named rundeps curpkgname in
    elim (dep_name curdep) [
      | none ↦ unnamed
      | some curdepname ↦ if str_eq curdepname curpkgname then named else next
    ]

module _ (fnmatch : Bytes → Bytes → ℕ → Bool) where
  -- `ignored` is `xhp->ignored_pkgs`.
  unfoldable pub pkg_is_ignored : Option (List Bytes) → Bytes → Option Bool
  pkg_is_ignored ignored pkg = elim ignored [
    | none ↦ some false
    | some array ↦ elim (dep_name pkg) [
      | some pkgname ↦ match_string_in_array fnmatch array pkgname by_string
      | none ↦ match_string_in_array fnmatch array pkg by_string
    ]
  ]

  -- A dependency against a virtual package: the message, if there is one.
  unfoldable pub judge_dep : Bytes → Bytes → Option Bytes → Bytes → Option (Option Bytes)
  judge_dep vpkgver vpkgname revpkgver pkgpattern = elim (dep_name pkgpattern) [
    | none ↦ some none
    | some pkgname ↦
        if not (str_eq vpkgname pkgname) || str_eq vpkgver pkgpattern
        then some none
        else (pkgpattern_match fnmatch vpkgver pkgpattern >>= λ a.
            if is_nonzero a
            then some none
            else (revpkgver >>= λ rev. some (some (virtual_message rev pkgpattern vpkgver))))
  ]

  -- The two loops of `check_virtual_pkgs`, and that function.
  unfoldable pub rundeps_loop : Bytes → Bytes → Option Bytes → List Bytes → Checked → Option Checked
  rundeps_loop vpkgver vpkgname revpkgver [] checked = some checked
  rundeps_loop vpkgver vpkgname revpkgver (pkgpattern ∷ rundeps) checked =
      judge_dep vpkgver vpkgname revpkgver pkgpattern >>= λ m.
      rundeps_loop vpkgver vpkgname revpkgver rundeps (add_message m checked)

  unfoldable pub provides_loop : Pkgd → List Bytes → Checked → Option Checked
  provides_loop rev_pkgd [] checked = some checked
  provides_loop rev_pkgd (vpkgver ∷ provides) checked = elim (pkg_name name_size vpkgver) [
    | none ↦ some checked
    | some vpkgname ↦ do
      checked' ← rundeps_loop vpkgver vpkgname rev_pkgd.pkgver (run_depends_of rev_pkgd) checked
      provides_loop rev_pkgd provides checked'
  ]

  unfoldable pub check_virtual_pkgs : List Bytes → Pkgd → Pkgd → Option Checked
  check_virtual_pkgs mdeps trans_pkgd rev_pkgd =
      provides_loop rev_pkgd (provides_of trans_pkgd) (mdeps, false)

  module _ (pkgs : List Pkgd) where
    -- The rest of a round where the package is to be removed; `name` is that of the reverse
    -- dependency `curpkgver`.
    unfoldable pub check_removed : Pkgd → Bytes → Bytes → Bytes → List Bytes → Option Checked
    check_removed obj pkgver curpkgver name mdeps =
        if obj.replaced
        then some (mdeps, true)
        else (find_pkg_in_array fnmatch pkgs name trans_remove >>= λ f. some (elim f [
          | found q ↦ (mdeps, true)
          | missing errno ↦ (broken_pkg mdeps curpkgver pkgver, true)
        ]))

    -- The real dependencies of the reverse dependency.
    unfoldable pub check_real : List Bytes → Bytes → Bytes → Bytes → List Bytes → Option Checked
    check_real rundeps pkgver curpkgver name mdeps = elim (pkg_name name_size pkgver) [
      | none ↦ some (mdeps, false)
      | some curpkgname ↦ elim (find_named rundeps curpkgname) [
        | unnamed ↦ some (mdeps, false)
        | absent ↦ some (mdeps, true)
        | named ↦ match_string_in_array fnmatch rundeps pkgver by_pkgdep >>= λ b.
            if b
            then some (mdeps, true)
            else (find_pkg_in_array fnmatch pkgs name trans_update >>= λ f. some (elim f [
              | found q ↦ (mdeps, true)
              | missing errno ↦ (broken_pkg mdeps curpkgver pkgver, true)
            ]))
      ]
    ]

    -- The rest of a round, with the dictionary of the reverse dependency.
    unfoldable pub check_rev : Pkgd → Bytes → Bytes → Bytes → List Bytes → Pkgd → Option Checked
    check_rev obj pkgver curpkgver name mdeps revpkgd =
        if transaction_pkg_type obj == trans_remove
        then check_removed obj pkgver curpkgver name mdeps
        else (check_virtual_pkgs mdeps obj revpkgd >>= λ c.
            if c.1
            then some (c.0, true)
            else check_real (run_depends_of revpkgd) pkgver curpkgver name c.0)

    -- One round of the loop over the reverse dependencies, and that loop.
    unfoldable pub rev_round : PkgDict → Pkgd → Bytes → Bytes → List Bytes → Option Checked
    rev_round pkgdb obj pkgver curpkgver mdeps = elim (pkg_name name_size curpkgver) [
      | none ↦ some (mdeps, false)
      | some name ↦ find_pkg_in_array fnmatch pkgs name 0 >>= λ f. elim f [
        | found q ↦
            if transaction_pkg_type q == trans_remove
            then some (mdeps, true)
            else check_rev obj pkgver curpkgver name mdeps q
        | missing errno ↦ pkgdb_get_pkg fnmatch pkgdb curpkgver >>= λ g. elim g [
          | found q ↦ check_rev obj pkgver curpkgver name mdeps q
          | missing errno ↦ check_rev obj pkgver curpkgver name mdeps empty_pkgd
        ]
      ]
    ]

    unfoldable pub revs_loop : PkgDict → Pkgd → Bytes → List Bytes → List Bytes → Option Checked
    revs_loop pkgdb obj pkgver [] mdeps = some (mdeps, true)
    revs_loop pkgdb obj pkgver (curpkgver ∷ pkgrdeps) mdeps =
        rev_round pkgdb obj pkgver curpkgver mdeps >>= λ c. elim c.1 [
          | true ↦ revs_loop pkgdb obj pkgver pkgrdeps c.0
          | false ↦ some (c.0, false)
        ]

    module _ (vpkgd : Dict (Dict Bytes)) (ignored : Option (List Bytes)) (pkgdb : PkgDict) where
      -- `missing_deps` and whether the loop goes on, and `xhp->pkgdb_revdeps`.
      abbrev pub CheckPass : Type 0
      CheckPass = Checked × Option (Dict (List Bytes))

      -- The rest of a round of the loop over the packages, with the pkgver.
      unfoldable pub check_pkg :
          Pkgd → Bytes → List Bytes → Option (Dict (List Bytes)) → Option CheckPass
      check_pkg obj pkgver mdeps known = elim (pkg_name name_size pkgver) [
        | none ↦ some ((mdeps, false), known)
        | some pkgname ↦
            if transaction_pkg_type obj == trans_install
            then some ((mdeps, true), known)
            else (pkgdb_get_pkg_revdeps fnmatch vpkgd known pkgdb pkgname >>= λ r. elim r.0 [
              | none ↦ some ((mdeps, true), r.1)
              | some pkgrdeps ↦
                  if length pkgrdeps == 0
                  then some ((mdeps, true), r.1)
                  else (pkg_is_ignored ignored pkgver >>= λ b.
                      if b
                      then some ((mdeps, true), r.1)
                      else (revs_loop pkgdb obj pkgver pkgrdeps mdeps >>= λ c. some (c, r.1)))
            ])
      ]

      unfoldable pub check_round : Pkgd → List Bytes → Option (Dict (List Bytes)) → Option CheckPass
      check_round obj mdeps known =
          if transaction_pkg_type obj == trans_hold
          then some ((mdeps, true), known)
          else elim obj.pkgver [
            | none ↦ some ((mdeps, false), known)
            | some pkgver ↦ check_pkg obj pkgver mdeps known
          ]

      -- The loop over the packages of the transaction.
      unfoldable pub transaction_loop :
          List Pkgd → List Bytes → Option (Dict (List Bytes)) → Option CheckPass
      transaction_loop [] mdeps known = some ((mdeps, true), known)
      transaction_loop (obj ∷ rest) mdeps known = check_round obj mdeps known >>= λ p. elim p.0.1 [
        | true ↦ transaction_loop rest p.0.0 p.1
        | false ↦ some p
      ]

      -- `flappy_transaction_check_revdeps`: the array `missing_deps`, which is removed where it is
      -- empty and there is no error, what is returned, and `xhp->pkgdb_revdeps`.
      unfoldable pub transaction_check_revdeps :
          List Bytes
          → Option (Dict (List Bytes))
          → Option (Option (List Bytes) × Bool × Option (Dict (List Bytes)))
      transaction_check_revdeps mdeps known = transaction_loop pkgs mdeps known >>= λ p.
          some (if p.0.1 && length p.0.0 == 0 then none else some p.0.0, p.0.1, p.1)
