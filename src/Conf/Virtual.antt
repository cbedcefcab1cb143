-- ===== src/Conf/Virtual.antt =====
-- A virtual package that is configured is the one that the searches take.
use flappy.Base.{
  ℕ, ◌+◌, ◌-◌, ◌<◌, ◌≡◌, refl, ap, ◌∙◌, Bool, true, false, [], ◌∷◌, ◌++◌, none, some, ltb, lt→ltb,
  arith, Bytes, codes, length, length-append, take_all, upto, upto-append, strchr-append, Lacks,
  str_eq,
}
use flappy.Pkgver.{pkg_name, pkgpattern_name}
use flappy.Pkgver.Split.{IsPkgver, pkgver_parts}
use flappy.Arrays.{name_size}
use flappy.Dicts.{Dict, dict_get, dict_set}
use flappy.Dicts.Laws.{dict_get-dict_set, dict_get-dict_set_other}
use flappy.Find.{vpkg_user_conf}
use flappy.Find.First.{vpkg_user_conf-first}
use flappy.Conf.Store.{Handle, vpkg_map_add, print_vpkgver, store_provider, store_virtualpkg}

abbrev made_up : Bytes
made_up = codes "99999_1"

made_up-IsPkgver : (name : Bytes) → IsPkgver (name ++ b'-' ∷ made_up) name made_up
made_up-IsPkgver name = record {
  joined = refl;
  version = record {
    upstream = codes "99999";
    revision = codes "1";
    whole = refl;
    first = omega arith;
    digit = refl;
    revised = record { some_byte = cc; all_bytes = (refl, tt) };
    one_part = omega arith;
  };
}

print_vpkgver_lem :
    (name : Bytes) → length name < name_size → print_vpkgver name ≡ name ++ b'-' ∷ made_up
print_vpkgver_lem name h =
    take_all (name_size + 9 - 1) (name ++ b'-' ∷ made_up)
      (omega (arith, length-append name (b'-' ∷ made_up)))

pkg_name-print_vpkgver :
    (name : Bytes) → length name < name_size → pkg_name name_size (print_vpkgver name) ≡ some name
pkg_name-print_vpkgver name h =
    let fits : ltb (length name) name_size ≡ true = lt→ltb _ _ h in
    rw
      (
        print_vpkgver_lem name h,
        (pkgver_parts name_size (name ++ b'-' ∷ made_up) name made_up (made_up-IsPkgver name)).1,
        fits,
      )
      refl

store_virtualpkg-vpkgd :
    (xhp : Handle) (name : Bytes) (c : ℕ) (s : Bytes)
    → Lacks b':' name
    → pkg_name name_size name ≡ none
    → (store_virtualpkg xhp (name ++ b':' ∷ c ∷ s)).vpkgd
      ≡ vpkg_map_add xhp.vpkgd name (print_vpkgver name) (c ∷ s)
unfolding store_virtualpkg store_provider
store_virtualpkg-vpkgd xhp name c s lacks bare =
    let val = name ++ b':' ∷ c ∷ s in
    let left = upto-append name (b':' ∷ c ∷ s) in
    let bare' : pkg_name name_size (upto val (b':' ∷ c ∷ s)) ≡ none =
      ap (pkg_name name_size) left ∙ bare in
    ap (λ o. (store_provider xhp val o).vpkgd) (strchr-append name (c ∷ s) b':' lacks)
    ∙ rw bare' refl
    ∙ ap (λ n. vpkg_map_add xhp.vpkgd n (print_vpkgver n) (c ∷ s)) left

-- `store_virtualpkg` with a name that is no pattern and no pkgver, has no colon and fits in a name
-- buffer, a colon and a provider, where nothing is configured for that name: afterwards
-- `vpkg_user_conf` gives that provider for the name, and what is configured for other names is as
-- it was.
pub store_virtualpkg-vpkg_user_conf :
    (fnmatch : Bytes → Bytes → ℕ → Bool) (xhp : Handle) (name : Bytes) (c : ℕ) (s : Bytes)
    → Lacks b':' name
    → length name < name_size
    → pkgpattern_name name_size name ≡ none
    → pkg_name name_size name ≡ none
    → dict_get xhp.vpkgd name ≡ none
    → (let vpkgd = (store_virtualpkg xhp (name ++ b':' ∷ c ∷ s)).vpkgd in
        (vpkg_user_conf fnmatch vpkgd name ≡ some (some (c ∷ s)))
        × ((other : Bytes)
            → str_eq name other ≡ false
            → dict_get vpkgd other ≡ dict_get xhp.vpkgd other))
unfolding vpkg_map_add dict_set
store_virtualpkg-vpkg_user_conf fnmatch xhp name c s lacks fits plain bare new =
    let conf = print_vpkgver name in
    let entry : Dict Bytes = (conf, c ∷ s) ∷ [] in
    let is : (store_virtualpkg xhp (name ++ b':' ∷ c ∷ s)).vpkgd ≡ dict_set xhp.vpkgd name entry =
      store_virtualpkg-vpkgd xhp name c s lacks bare ∙ rw (vpkg_map_add, new) refl in
    rw is (
      vpkg_user_conf-first fnmatch (dict_set xhp.vpkgd name entry) name conf (c ∷ s) [] plain bare
          (dict_get-dict_set xhp.vpkgd name entry) (pkg_name-print_vpkgver name fits),
      λ other differs. dict_get-dict_set_other xhp.vpkgd name other entry differs,
    )
