-- ===== src/Lib.antt =====
-- Verification library of flappy, the binary package manager.
--
-- Text. C strings are lists of bytes without the NUL (Base/Text); a pointer into a string is the
-- list of the bytes from there on, and a NUL byte inside a list does not occur. A `char` buffer
-- is its size, and the result of a function that fills it is what it copies. <ctype.h> is that
-- of the C locale.
--
-- Files:
--   Base, Base/*: shared names, tests, lists and text.
--   Dewey/*: lib/external/dewey.c. Int32 is the C type `int` as a bit pattern that wraps around.
--     Version holds `mkcomponent` and `mkversion`: `arr_t` is the record `Arr`, whose count is the
--     length of the list; a write outside the array is `none`. The loop over a version string has
--     its length for fuel, which is enough since each component takes a byte. Compare holds
--     `result`, `vtest`, `dewey_cmp` and `flappy_cmpver`, and Compare/Spec what they compute.
--   Pkgver: `flappy_pkg_version`, `flappy_pkg_revision`, `flappy_pkg_name`,
--     `flappy_pkgpattern_name`, `flappy_binpkg_pkgver` and `flappy_binpkg_arch` of lib/util.c.
--   PkgPath: `flappy_pkg_path`, `flappy_pkg_url` and the other functions of lib/util.c that say
--     where a package's file lies; access(2) is a parameter.
--   Strl: lib/compat/strlcpy.c and lib/compat/strlcat.c.
--   Pattern: `dewey_match` of lib/external/dewey.c, and `flappy_pkgpattern_match` and
--     `flappy_patterns_match` of lib/util.c, which call it and the parameter fnmatch(3).
--   Arrays: lib/plist_match.c and lib/plist_remove.c. An array of strings is a list, an array of
--     dictionaries a list of the keys that are read. A result `none` is a write outside an array
--     in `mkversion`, which the theorems on versions exclude.
--   Dicts: property list dictionaries as lists of keys with their values; the record `Pkgd` has
--     the keys of a package dictionary that are read.
--   Find: lib/plist_find.c, with `flappy_pkgdb_get_pkg` of lib/pkgdb.c on an open database. Exact
--     is about the search in a dictionary, First about the order of the other searches.
--   Repo: `flappy_repo_store` and the searches of a repository of lib/repo.c, and lib/rpool.c. What `flappy_repo_open` gives for an URI is a parameter. Served is about what
--     is opened, Foreach about the loop over the pool, whose fuel is the number of URIs plus one,
--     enough since each round takes the next URI or drops one; Version, Improves and Best are about
--     the search for the best version.
--   State: lib/package_state.c.
--   Revdeps: `generate_full_revdeps_tree` and `flappy_pkgdb_get_pkg_revdeps` of lib/pkgdb.c.
--     `xhp->pkgdb_revdeps` is an argument that may be missing, and what it is afterwards.
--   Deptree: lib/package_fulldeptree.c. The search in the pool is an argument. The fuel of
--     `add_deps_recursive` is one more than there are items, and that of `ordered_depends` one more
--     than there are packages, enough since each call makes an item that was not there. Mono, Steps
--     and Handled are about the table of items, Loop, Looped and Visits about the loop and the
--     calls, Closed about the whole search, Database about its use on the database.
--   Goals: `trans_find_pkg` and `flappy_transaction_pkg_type_set` of lib/transaction_ops.c, and
--     `flappy_pkg_reverts` of lib/util.c. The repositories are open, and are the interface
--     `RepoPool`: the searches, and `put`, which replaces a dictionary that was found by the one with
--     the keys that are set. Choose is about the type and the version that are chosen, Origin about
--     where the chosen packages come from, Queue about what is stored, Refused about the errors.
--     Update: the updates and installations of lib/transaction_ops.c.
--     Remove: its removals; a dictionary of the database that is marked is replaced there, by its
--     pkgver, and Marked is about the queue.
--   Broken: lib/transaction_check_revdeps.c, with `flappy_pkg_is_ignored` of lib/util.c. Virtual is
--     about the virtual packages, Rounds about one reverse dependency, Table about the table of
--     reverse dependencies that the calls share, Unbroken about the whole check.
--   Orphans: `flappy_find_pkg_orphans` of lib/package_orphans.c without a list of packages. Built is
--     what an array of orphans is. The outer loop has one more round of fuel than there are packages,
--     enough since each round but the last adds a package that is not in the array.
--     Recursive is the same with a list of packages: the loop over the array, which grows, has one
--     more round of fuel than there are packages in the list and in the database, enough since each
--     package is added once.
--   Conf: lib/conf.c. Conf itself holds `parse_option`, with bsearch(3) over the keys, whose fuel is
--     the number of keys plus one; Store holds the functions that fill the handle, and Files
--     `parse_file`, `parse_files_glob` and `flappy_conf_init`. An include is followed once, so that
--     the nested `parse_file` needs no fuel. A line is its text with what stands behind it in the
--     buffer of getline(3), since the length that `parse_option` gets counts the blanks in front.
--   Conflicts: lib/transaction_check_conflicts.c. A round of a loop over conflicts comes to a
--     Verdict; the messages are those of the array `conflicts` of the transaction.
--   TransStore: `flappy_transaction_store` of lib/transaction_store.c.
--   Paths: `flappy_path_clean` of lib/util_path.c. The output is kept last byte first, so that
--     its length is the pointer `d`. Paths/Glue: `flappy_path_append` and `flappy_path_prepend`,
--     where a buffer is its size and the string in it, and Paths/Glue/Join `flappy_path_join`.
--     Paths/Sanitize: `flappy_sanitize_path` of lib/util.c, without the assertion that the path is
--     not empty. The loop of `flappy_path_clean` has the length of the input for fuel, which is
--     enough since each round takes a byte at least.
--
-- Not modelled: allocation failure, which aborts; strings of 2^30 bytes and more; overflow of
-- `int` where a theorem asks for numbers of at most nine digits; what needs files, archives,
-- processes or the network, the other parts of transactions, and the programs below bin.
pub mod Base
pub mod Dewey
pub mod Pkgver
pub mod PkgPath
pub mod Strl
pub mod Pattern
pub mod Arrays
pub mod Paths
pub mod Dicts
pub mod Find
pub mod State
pub mod Revdeps
pub mod Repo
pub mod Orphans
pub mod Conf
pub mod Broken
pub mod Deptree
pub mod Conflicts
pub mod TransStore
pub mod Goals
