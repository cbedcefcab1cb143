-- ===== src/Conf.antt =====
-- Configuration lines: `cmpkey` and `parse_option` of lib/conf.c, and bsearch(3) and strncmp(3) as
-- they are used there. Of several keys that compare equal the C standard leaves open which one
-- bsearch gives; here it halves the array as the common C libraries do.
pub mod Store
pub mod Files
pub mod Kept
pub mod Total
pub mod Options
pub mod Init
pub mod Virtual
pub mod Tests
pub mod Value
pub mod Line
use flappy.Base.{
  ℕ, zero, suc, ◌+◌, ◌-◌, ◌/◌, ◌≡◌, refl, Bool, true, false, not, ◌&&◌, ◌||◌, List, [], ◌∷◌, ◌++◌,
  Option, none, some, ◌==◌, ltb, if◌then◌else◌, ◌>>=◌, Bytes, codes, length, get_elem?, take,
  find_byte, strpbrk,
}
use flappy.Dewey.Compare.{Sign, less, equal, greater}

pub data Key : Type 0 where
  key_architecture key_bestmatching key_cachedir key_ignorepkg key_include key_keepconf
        key_noextract key_preserve key_repository key_rootdir key_staging key_syslog
        key_virtualpkg :
      Key

abbrev pub keys : List (Bytes × Key)
keys =
    (codes "architecture", key_architecture)
    ∷ (codes "bestmatching", key_bestmatching)
    ∷ (codes "cachedir", key_cachedir)
    ∷ (codes "ignorepkg", key_ignorepkg)
    ∷ (codes "include", key_include)
    ∷ (codes "keepconf", key_keepconf)
    ∷ (codes "noextract", key_noextract)
    ∷ (codes "preserve", key_preserve)
    ∷ (codes "repository", key_repository)
    ∷ (codes "rootdir", key_rootdir)
    ∷ (codes "staging", key_staging)
    ∷ (codes "syslog", key_syslog)
    ∷ (codes "virtualpkg", key_virtualpkg)
    ∷ []

abbrev pub is_blank : ℕ → Bool
is_blank c = c == b' ' || c == 9

unfoldable pub skip_blanks : Bytes → Bytes
skip_blanks [] = []
skip_blanks (c ∷ s) = let rest = skip_blanks s in if is_blank c then rest else c ∷ s

-- strncmp(3)
unfoldable pub strncmp : Bytes → Bytes → ℕ → Sign
strncmp s t zero = equal
strncmp [] [] (suc n) = equal
strncmp [] (d ∷ t) (suc n) = less
strncmp (c ∷ s) [] (suc n) = greater
strncmp (c ∷ s) (d ∷ t) (suc n) =
    let rest = strncmp s t n in if ltb c d then less else if ltb d c then greater else rest

-- `cmpkey` with a needle that has `len` bytes of `line`.
abbrev pub cmpkey : Bytes → ℕ → Bytes × Key → Sign
cmpkey line len (str, key) = strncmp line str len

-- bsearch(3) between the indexes `l` and `u`, with fuel.
unfoldable pub bsearch_loop : {A : Type 0} → ℕ → (A → Sign) → List A → ℕ → ℕ → Option (Option A)
bsearch_loop zero cmp array l u = none
bsearch_loop (suc fuel) cmp array l u = elim (ltb l u) [
  | false ↦ some none
  | true ↦
      let idx = (l + u) / 2 in
      elim (get_elem? array idx) [
        | none ↦ none
        | some a ↦ elim (cmp a) [
          | less ↦ bsearch_loop fuel cmp array l idx
          | greater ↦ bsearch_loop fuel cmp array (suc idx) u
          | equal ↦ some (some a)
        ]
      ]
]

unfoldable pub bsearch : {A : Type 0} → (A → Sign) → List A → Option (Option A)
bsearch cmp array = bsearch_loop (suc (length array)) cmp array 0 (length array)

-- The loop that eats trailing blanks of the memory at `p`; `none` is a read outside of it.
unfoldable pub eat_trailing : Bytes → ℕ → Option ℕ
eat_trailing mem zero = some 0
eat_trailing mem (suc n) =
    let rest = eat_trailing mem n in
    get_elem? mem n >>= λ c. if is_blank c then rest else some (suc n)

-- The string that stands at the start of the memory.
unfoldable pub cstring : Bytes → Bytes
cstring [] = []
cstring (c ∷ s) = let rest = cstring s in if c == 0 then [] else c ∷ rest

-- The value at `p`, where `behind` stands in the buffer behind its NUL, cut by `p[len] = '\0'` behind
-- the last byte that is no blank; `none` is a read or a write outside of the buffer.
unfoldable pub trim_value : Bytes → ℕ → Bytes → Option Bytes
trim_value p len behind =
    let mem = p ++ 0 ∷ behind in
    eat_trailing mem len >>= λ n. if ltb n (length mem) then some (cstring (take n mem)) else none

-- `parse_option`: the key and the value, or KEY_ERROR.
unfoldable pub parse_option : Bytes → ℕ → Bytes → Option (Option (Key × Bytes))
parse_option line linelen behind = elim (strpbrk line (b' ' ∷ 9 ∷ b'=' ∷ [])) [
  | none ↦ some none
  | some p ↦ elim (skip_blanks p) [
    | [] ↦ some none
    | c ∷ after ↦
        let val = skip_blanks after in
        let value : Key → Option (Option (Key × Bytes)) = λ key.
          trim_value val (linelen - (length line - length val)) behind >>= λ v.
          some (some (key, v)) in
        if not (c == b'=')
        then some none
        else (bsearch (cmpkey line (length line - length p)) keys >>= λ result. elim result [
          | none ↦ some none
          | some (str, key) ↦ value key
        ])
  ]
]
