-- ===== src/Conf/Total.antt =====
-- Reading the configuration returns, and keeps the fields and the repositories of the handle in shape.
use flappy.Base.{
  ℕ, zero, suc, ◌+◌, ◌-◌, ◌/◌, ◌≤◌, ◌<◌, ◌≡◌, refl, true, ◌⊎◌, inl, inr, List, [], ◌∷◌, ◌++◌,
  Option, none, some, ◌==◌, ltb, ltb→lt, lt→ltb, arith, Bytes, length, length-append, get_elem?-in,
  take, Bool-cases, Option-cases, strpbrk,
}
use flappy.Dewey.Compare.{Sign, less, equal, greater}
use flappy.Conf.{
  cstring, Key, keys, is_blank, skip_blanks, bsearch, bsearch_loop, cmpkey, eat_trailing,
  trim_value, parse_option,
}
use flappy.Conf.Files.{Line}

Sign-cases : (s : Sign) → (s ≡ less) ⊎ (s ≡ equal) ⊎ (s ≡ greater)
Sign-cases less = inl refl
Sign-cases equal = inr (inl refl)
Sign-cases greater = inr (inr refl)

pub List-cases : (s : Bytes) → (s ≡ []) ⊎ ((c : ℕ) × (t : Bytes) × (s ≡ c ∷ t))
List-cases [] = inl refl
List-cases (c ∷ t) = inr (c, t, refl)

bsearch_loop_total :
    {A : Type 0} (fuel : ℕ) (cmp : A → Sign) (array : List A) (l u : ℕ)
    → u - l < fuel
    → u ≤ length array
    → (r : Option A) × (bsearch_loop fuel cmp array l u ≡ some r)
unfolding bsearch_loop
bsearch_loop_total zero cmp array l u h fits = absurd (omega arith)
bsearch_loop_total (suc fuel) cmp array l u h fits = elim (Bool-cases (ltb l u)) [
  | inr e ↦ (none, rw (bsearch_loop, e) refl)
  | inl e ↦
      let low = ltb→lt l u e in
      let i = (l + u) / 2 in
      let (a, at) = get_elem?-in array i (omega arith) in
      elim (Sign-cases (cmp a)) [
        | inl s ↦
            let (r, rest) = bsearch_loop_total fuel cmp array l i (omega arith) (omega arith) in
            (r, rw (bsearch_loop, e, at, s) rest)
        | inr (inl s) ↦ (some a, rw (bsearch_loop, e, at, s) refl)
        | inr (inr s) ↦
            let (r, rest) = bsearch_loop_total fuel cmp array (suc i) u (omega arith) fits in
            (r, rw (bsearch_loop, e, at, s) rest)
      ]
]

eat_trailing_total :
    (mem : Bytes) (n : ℕ) → n ≤ length mem → (m : ℕ) × (eat_trailing mem n ≡ some m) × (m ≤ n)
unfolding eat_trailing
eat_trailing_total mem zero h = (0, refl, omega arith)
eat_trailing_total mem (suc n) h =
    let (c, at) = get_elem?-in mem n (omega arith) in
    elim (Bool-cases (is_blank c)) [
      | inl e ↦
          let (m, rest, low) = eat_trailing_total mem n (omega arith) in
          (m, rw (eat_trailing, at, e) rest, omega arith)
      | inr e ↦ (suc n, rw (eat_trailing, at, e) refl, omega arith)
    ]

trim_value_total :
    (p behind : Bytes) (len : ℕ)
    → len ≤ length p + length behind
    → (v : Bytes) × (trim_value p len behind ≡ some v)
unfolding trim_value
trim_value_total p behind len h =
    let mem = p ++ 0 ∷ behind in
    let size = length-append p (0 ∷ behind) in
    let (m, eat, low) = eat_trailing_total mem len (omega arith) in
    let inside : ltb m (length mem) ≡ true = lt→ltb _ _ (omega arith) in
    (cstring (take m mem), rw (eat, inside) refl)

-- The buffer holds the bytes that the length of a line counts too many.
abbrev pub Fits : Line → Type 0
Fits linebuf = length linebuf.text ≤ length linebuf.behind + length (skip_blanks linebuf.text)

pub parse_option_total :
    (line : Bytes) (linelen : ℕ) (behind : Bytes)
    → linelen ≤ length behind + length line
    → (o : Option (Key × Bytes)) × (parse_option line linelen behind ≡ some o)
unfolding parse_option bsearch
parse_option_total line linelen behind h =
    elim (Option-cases (strpbrk line (b' ' ∷ 9 ∷ b'=' ∷ []))) [
      | inl e ↦ (none, rw (parse_option, e) refl)
      | inr (p, e) ↦ elim (List-cases (skip_blanks p)) [
        | inl k ↦ (none, rw (parse_option, e, k) refl)
        | inr (c, after, k) ↦ elim (Bool-cases (c == b'=')) [
          | inr f ↦ (none, rw (parse_option, e, k, f) refl)
          | inl f ↦
              let (r, found) =
                bsearch_loop_total 14 (cmpkey line (length line - length p)) keys 0 13 (omega arith)
                  (omega arith) in
              elim (Option-cases r) [
                | inl none_ ↦ (none, rw (parse_option, e, k, f, found, none_) refl)
                | inr ((str, key), is) ↦
                    let val = skip_blanks after in
                    let (v, trim) =
                      trim_value_total val behind (linelen - (length line - length val))
                        (omega arith) in
                    (some (key, v), rw (parse_option, e, k, f, found, is, trim) refl)
              ]
        ]
      ]
    ]
