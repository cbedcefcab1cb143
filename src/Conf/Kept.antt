-- ===== src/Conf/Kept.antt =====
-- What the configuration keeps of the handle: fields that fit and repositories that are stored once.
use flappy.Base.{
  strchr, ℕ, ◌-◌, ◌<◌, ◌≡◌, refl, Bool, inl, inr, List, [], ◌∷◌, ◌++◌, Option, none, some,
  if◌then◌else◌, ◌>>=◌, arith, Bytes, length, length-take, drop, Bool-cases,
}
use flappy.Arrays.Search.{search_string}
use flappy.Repo.Unique.{Unique, repo_store-Unique}
use flappy.Conf.Store.{
  store_provider, preserve_globbed, Handle, Globbed, matched, no_match, no_space, other_error,
  max_path, arch_size, store_virtualpkg, print_field, store_noextract, store_ignored_pkg,
  store_repo, store_preserved_file, preserve_loop,
}

-- The step returns, and what it returns has the property.
abbrev pub Returns : {A : Type 0} → (A → Type 0) → Option A → Type 0
Returns {A} P o = (a : A) × (o ≡ some a) × P a

pub Returns-bind :
    {A B : Type 0} (P : A → Type 0) (Q : B → Type 0) (o : Option A) (f : A → Option B)
    → Returns P o
    → ((a : A) → P a → Returns Q (f a))
    → Returns Q (o >>= f)
Returns-bind P Q o f (a, e, p) next = let (b, k, q) = next a p in (b, rw e k, q)

pub record IsHandle (xhp : Handle) : Type 0 where
  pub rootdir_fits : length xhp.rootdir < max_path
  pub cachedir_fits : length xhp.cachedir < max_path
  pub arch_fits : length xhp.native_arch < arch_size
  pub once : Unique xhp.repositories

pub print_field-size : (size : ℕ) (val : Bytes) → 0 < size → length (print_field size val).0 < size
unfolding print_field
print_field-size size val h = omega (arith, length-take (size - 1) val)

preserved-IsHandle :
    (xhp : Handle) (files : List Bytes)
    → IsHandle xhp
    → IsHandle (record xhp { preserved_files = files })
preserved-IsHandle xhp files h = record {
  rootdir_fits = h.rootdir_fits;
  cachedir_fits = h.cachedir_fits;
  arch_fits = h.arch_fits;
  once = h.once;
}

module _ (fnmatch : Bytes → Bytes → ℕ → Bool) (realpath : Bytes → Option Bytes) where
  pub store_repo-IsHandle :
      (xhp : Handle) (repo : Bytes)
      → IsHandle xhp
      → Returns IsHandle (store_repo fnmatch realpath xhp repo)
  unfolding store_repo
  store_repo-IsHandle xhp repo h = elim (Bool-cases xhp.ignore_conf_repos) [
    | inl off ↦ (xhp, rw (store_repo, off) refl, h)
    | inr on ↦
        let (after, b, e, u, there, same) =
          repo_store-Unique fnmatch realpath xhp.repositories repo h.once in
        (
          record xhp { repositories = after },
          rw (store_repo, on, e) refl,
          record {
            rootdir_fits = h.rootdir_fits;
            cachedir_fits = h.cachedir_fits;
            arch_fits = h.arch_fits;
            once = u;
          },
        )
  ]

  preserve_loop_total :
      (rootdir : Bytes) (preserved paths : List Bytes)
      → (l : List Bytes) × (preserve_loop fnmatch realpath rootdir preserved paths ≡ some l)
  unfolding preserve_loop
  preserve_loop_total rootdir preserved [] = (preserved, refl)
  preserve_loop_total rootdir preserved (path ∷ paths) =
      let f = search_string fnmatch preserved path in
      let (l, e) =
        preserve_loop_total rootdir
          (if f.answer then preserved else preserved ++ drop (length rootdir) path ∷ []) paths in
      (l, rw f.ends e)

  preserve_globbed-IsHandle :
      (xhp : Handle) (file : Bytes) (found : Globbed)
      → IsHandle xhp
      → Returns IsHandle (preserve_globbed fnmatch realpath xhp file found)
  unfolding preserve_globbed
  preserve_globbed-IsHandle xhp file no_match h =
      let f = search_string fnmatch xhp.preserved_files file in
      let files = if f.answer then xhp.preserved_files else xhp.preserved_files ++ file ∷ [] in
      (record xhp { preserved_files = files }, rw f.ends refl, preserved-IsHandle xhp files h)
  preserve_globbed-IsHandle xhp file no_space h = (xhp, refl, h)
  preserve_globbed-IsHandle xhp file other_error h = (xhp, refl, h)
  preserve_globbed-IsHandle xhp file (matched paths) h =
      let (l, e) = preserve_loop_total xhp.rootdir xhp.preserved_files paths in
      (record xhp { preserved_files = l }, rw e refl, preserved-IsHandle xhp l h)

  pub store_preserved_file-IsHandle :
      (glob : Bytes → Globbed) (xhp : Handle) (file : Bytes)
      → IsHandle xhp
      → Returns IsHandle (store_preserved_file fnmatch realpath glob xhp file)
  unfolding store_preserved_file
  store_preserved_file-IsHandle glob xhp file h =
      preserve_globbed-IsHandle xhp file (glob (xhp.rootdir ++ file)) h

store_provider-IsHandle :
    (xhp : Handle) (val : Bytes) (at : Option Bytes)
    → IsHandle xhp
    → IsHandle (store_provider xhp val at)
unfolding store_provider
store_provider-IsHandle xhp val none h = h
store_provider-IsHandle xhp val (some []) h = h
store_provider-IsHandle xhp val (some (colon ∷ [])) h = h
store_provider-IsHandle xhp val (some (colon ∷ c ∷ s)) h = record {
  rootdir_fits = h.rootdir_fits;
  cachedir_fits = h.cachedir_fits;
  arch_fits = h.arch_fits;
  once = h.once;
}

pub store_virtualpkg-IsHandle :
    (xhp : Handle) (val : Bytes) → IsHandle xhp → IsHandle (store_virtualpkg xhp val)
unfolding store_virtualpkg
store_virtualpkg-IsHandle xhp val h = store_provider-IsHandle xhp val (strchr val b':') h

pub store_noextract-IsHandle :
    (xhp : Handle) (val : Bytes) → IsHandle xhp → IsHandle (store_noextract xhp val)
unfolding store_noextract
store_noextract-IsHandle xhp [] h = h
store_noextract-IsHandle xhp (c ∷ val) h = record {
  rootdir_fits = h.rootdir_fits;
  cachedir_fits = h.cachedir_fits;
  arch_fits = h.arch_fits;
  once = h.once;
}

pub store_ignored_pkg-IsHandle :
    (xhp : Handle) (val : Bytes) → IsHandle xhp → IsHandle (store_ignored_pkg xhp val)
unfolding store_ignored_pkg
store_ignored_pkg-IsHandle xhp val h = record {
  rootdir_fits = h.rootdir_fits;
  cachedir_fits = h.cachedir_fits;
  arch_fits = h.arch_fits;
  once = h.once;
}
