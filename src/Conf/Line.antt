-- ===== src/Conf/Line.antt =====
-- `parse_option` reads the lines that are a key, an equals sign and a value.
use flappy.Base.{
  All-append, ℕ, suc, ◌+◌, ◌-◌, ◌≤◌, ◌<◌, ◌≡◌, ◌≢◌, refl, sym, ap, ◌∙◌, subst, true, false, inl,
  inr, [], ◌∷◌, ◌++◌, some, ◌>>=◌, arith, Bytes, length, length-append, All, Any, Lacks, has_byte,
  find_byte-append, strpbrk, All-at,
}
use flappy.Conf.{
  bsearch_loop, Key, keys, is_blank, skip_blanks, strncmp, cmpkey, bsearch, trim_value,
  parse_option,
}
use flappy.Conf.Value.{
  AllBlank, IsValue, skip_blanks-append, skip_blanks-stop, skip_blanks-AllBlank, length-skip_blanks,
  trim_value_lem, trim_value-indented,
}

-- The bytes at which a key ends.
abbrev ends_key : Bytes
ends_key = b' ' ∷ 9 ∷ b'=' ∷ []

strncmp-append : (a t s : Bytes) → strncmp (a ++ t) s (length a) ≡ strncmp a s (length a)
unfolding strncmp
strncmp-append [] t s = refl
strncmp-append (c ∷ a) t [] = refl
strncmp-append (c ∷ a) t (d ∷ s) = rw (strncmp-append a t s) refl

-- Each key is found, and no other for it.
bsearch-keys : All (λ k. bsearch (cmpkey k.0 (length k.0)) keys ≡ some (some k)) keys
unfolding bsearch bsearch_loop strncmp
bsearch-keys = (
  refl,
  (
    refl,
    (refl, (refl, (refl, (refl, (refl, (refl, (refl, (refl, (refl, (refl, (refl, tt))))))))))),
  ),
)

keys-plain : All (λ k. All (λ c. has_byte ends_key c ≡ false) k.0) keys
keys-plain = ground arith

bsearch-line :
    (name : Bytes) (key : Key) (t : Bytes)
    → Any (λ k. Path (Bytes × Key) k (name, key)) keys
    → bsearch (cmpkey (name ++ t) (length name)) keys ≡ some (some (name, key))
bsearch-line name key t is =
    let same : (k : Bytes × Key)
        → cmpkey name (length name) k ≡ cmpkey (name ++ t) (length name) k =
      λ k. sym (strncmp-append name t k.0) in
    subst (λ f. bsearch f keys ≡ some (some (name, key))) (λ i k. same k i)
      (All-at (λ k. bsearch (cmpkey k.0 (length k.0)) keys ≡ some (some k)) keys (name, key)
        bsearch-keys is)

blank-ends : (c : ℕ) → is_blank c ≡ true → has_byte ends_key c ≡ true
blank-ends c h = ground arith

strpbrk-line :
    (name b after : Bytes)
    → All (λ c. has_byte ends_key c ≡ false) name
    → AllBlank b
    → strpbrk (name ++ (b ++ b'=' ∷ after)) ends_key ≡ some (b ++ b'=' ∷ after)
strpbrk-line name [] after plain blank =
    find_byte-append (has_byte ends_key) name b'=' after plain refl
strpbrk-line name (c ∷ b) after plain blank =
    find_byte-append (has_byte ends_key) name c (b ++ b'=' ∷ after) plain (blank-ends c blank.0)

-- What is read of a line, where the blanks behind the equals sign are gone.
parse_option-parts :
    (name : Bytes) (key : Key) (b after behind : Bytes) (linelen : ℕ)
    → Any (λ k. Path (Bytes × Key) k (name, key)) keys
    → AllBlank b
    → (let line = name ++ (b ++ b'=' ∷ after) in
        let val = skip_blanks after in
        parse_option line linelen behind ≡ (
          trim_value val (linelen - (length line - length val)) behind >>= λ v.
          some (some (key, v))))
unfolding parse_option
parse_option-parts name key b after behind linelen is blank =
    let tail = b ++ b'=' ∷ after in
    let plain =
      All-at (λ k. All (λ c. has_byte ends_key c ≡ false) k.0) keys (name, key) keys-plain is in
    let ends = strpbrk-line name b after plain blank in
    let skip : skip_blanks tail ≡ b'=' ∷ after =
      skip_blanks-append b (b'=' ∷ after) blank ∙ skip_blanks-stop b'=' after refl in
    let len : length (name ++ tail) - length tail ≡ length name =
      omega (arith, length-append name tail) in
    rw (parse_option, ends, skip, len, bsearch-line name key tail is) refl

length-line :
    (name b1 after : Bytes)
    → length (name ++ (b1 ++ b'=' ∷ after)) ≡ length name + (length b1 + suc (length after))
length-line name b1 after =
    omega (arith, length-append name (b1 ++ b'=' ∷ after), length-append b1 (b'=' ∷ after))

AllBlank-Lacks : (b : Bytes) → AllBlank b → Lacks 0 b
AllBlank-Lacks [] all = tt
AllBlank-Lacks (c ∷ b) all = (λ z. absurd (cc (rw z at all.0)), AllBlank-Lacks b all.1)

-- The value, and the blanks that are left behind it.
skip_blanks-value :
    (b2 v b3 : Bytes)
    → AllBlank b2
    → AllBlank b3
    → IsValue v
    → (b : Bytes) × AllBlank b × (skip_blanks (b2 ++ (v ++ b3)) ≡ v ++ b) × (v ≢ [] → b ≡ b3)
skip_blanks-value b2 v b3 h2 h3 value = elim value.ends [
  | inl e ↦ (
    [],
    tt,
    rw (skip_blanks-append b2 (v ++ b3) h2, e) (skip_blanks-AllBlank b3 h3),
    λ full. absurd (full e),
  )
  | inr (c, t, a, d, front, fc, back, fd) ↦ (
    b3,
    h3,
    rw (skip_blanks-append b2 (v ++ b3) h2, front) (skip_blanks-stop c (t ++ b3) fc),
    λ full. refl,
  )
]

-- `parse_option`, with the right length, on a line that is one of the keys, blanks, an equals sign,
-- blanks, a value that is empty or has no blank at its ends, and blanks: it gives that key and that
-- value, whatever stands behind the line in the buffer.
pub parse_option-keys :
    (name : Bytes) (key : Key) (b1 b2 v b3 behind : Bytes)
    → Any (λ k. Path (Bytes × Key) k (name, key)) keys
    → AllBlank b1
    → AllBlank b2
    → AllBlank b3
    → IsValue v
    → (let line = name ++ (b1 ++ b'=' ∷ (b2 ++ (v ++ b3))) in
        parse_option line (length line) behind ≡ some (some (key, v)))
parse_option-keys name key b1 b2 v b3 behind is h1 h2 h3 value =
    let after = b2 ++ (v ++ b3) in
    let line = name ++ (b1 ++ b'=' ∷ after) in
    let (b, blank, val, keeps) = skip_blanks-value b2 v b3 h2 h3 value in
    let len : length line - (length line - length (v ++ b)) ≡ length (v ++ b) =
      omega (arith, length-line name b1 after, length-skip_blanks after, ap length val) in
    parse_option-parts name key b1 after behind (length line) is h1
    ∙ rw (val, len, trim_value_lem v b behind value blank) refl

-- `parse_option` on a line that is one of the keys, blanks, an equals sign, blanks, a value that is
-- not empty and has no blank at its ends, and blanks, where the length counts blanks in front of the
-- line too, as that of `parse_file` does, and at least as many bytes stand behind the line in the
-- buffer: it gives that key, and the value with the blanks behind it.
pub parse_option_indented :
    (name : Bytes) (key : Key) (b1 b2 v b3 behind : Bytes) (indent : ℕ)
    → Any (λ k. Path (Bytes × Key) k (name, key)) keys
    → AllBlank b1
    → AllBlank b2
    → AllBlank b3
    → IsValue v
    → v ≢ []
    → 0 < indent
    → indent ≤ length behind
    → (let line = name ++ (b1 ++ b'=' ∷ (b2 ++ (v ++ b3))) in
        parse_option line (indent + length line) behind ≡ some (some (key, v ++ b3)))
parse_option_indented name key b1 b2 v b3 behind indent is h1 h2 h3 value full some_ fits =
    let after = b2 ++ (v ++ b3) in
    let line = name ++ (b1 ++ b'=' ∷ after) in
    let (b, blank, val, keeps) = skip_blanks-value b2 v b3 h2 h3 value in
    let val' : skip_blanks after ≡ v ++ b3 = val ∙ ap (λ x. v ++ x) (keeps full) in
    let len : (indent + length line) - (length line - length (v ++ b3))
        ≡ length (v ++ b3) + suc (indent - 1) =
      omega (arith, length-line name b1 after, length-skip_blanks after, ap length val') in
    let text = All-append (λ c. c ≢ 0) v b3 value.text (AllBlank-Lacks b3 h3) in
    parse_option-parts name key b1 after behind (indent + length line) is h1
    ∙ rw (val', len, trim_value-indented (v ++ b3) behind (indent - 1) text (omega arith)) refl
