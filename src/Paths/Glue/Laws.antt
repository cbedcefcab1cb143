-- ===== src/Paths/Glue/Laws.antt =====
-- Two paths glued together by a slash.
use flappy.Base.{
  subst, append_assoc, ℕ, ◌+◌, ◌-◌, ◌<◌, ◌≤◌, ◌≡◌, ◌≢◌, refl, sym, ap, ◌∙◌, true, false, inl, inr,
  [], ◌∷◌, ◌++◌, Option, none, some, ltb, leb, ◌==◌, ==_iff, if◌then◌else◌, length, take, take_all,
  get_or, Bytes, codes, arith, Bool-cases, length-append, length-take,
}
use flappy.Strl.{strlcpy, strlcat}
use flappy.Strl.Laws.{strlcpy_lem, strlcat_lem}
use flappy.Paths.Glue.{last_byte, unslash, checked, path_append, path_prepend}

-- A path without the slash at its end, if it has one there.
abbrev pub untail : Bytes → Bytes
untail a = if last_byte a == b'/' then take (length a - 1) a else a

-- The two paths with one slash between them; an empty path adds nothing.
abbrev pub glued : Bytes → Bytes → Bytes
glued a [] = a
glued [] (c ∷ b) = c ∷ b
glued (d ∷ a) (c ∷ b) = untail (d ∷ a) ++ b'/' ∷ unslash (c ∷ b)

-- A path is what stands in front of its last byte, and that byte.
take-get_or :
    (d : ℕ) (a : Bytes) → take (length a) (d ∷ a) ++ get_or (d ∷ a) (length a) 0 ∷ [] ≡ d ∷ a
take-get_or d [] = refl
take-get_or d (e ∷ a) = ap (λ s. d ∷ s) (take-get_or e a)

untail-append :
    (d : ℕ) (a s : Bytes)
    → (last_byte (d ∷ a) == b'/') ≡ true
    → take (length (d ∷ a) - 1) (d ∷ a) ++ b'/' ∷ s ≡ (d ∷ a) ++ s
untail-append d a s e =
    let n : length (d ∷ a) - 1 ≡ length a = omega arith in
    let slash : get_or (d ∷ a) (length a) 0 ≡ b'/' = (==_iff _ b'/').0 (rw n at e) in
    rw n (
      sym (append_assoc (take (length a) (d ∷ a)) (b'/' ∷ []) s)
      ∙ ap (λ t. t ++ s)
          (ap (λ c. take (length a) (d ∷ a) ++ c ∷ []) (sym slash) ∙ take-get_or d a))

-- What a function that glues two paths to `whole` in a buffer of `dstlen` bytes gives.
abbrev pub Glues : Bytes → ℕ → Bytes × Option ℕ → Type 0
Glues whole dstlen r =
    (length whole < dstlen → Path (Bytes × Option ℕ) r (whole, some (length whole)))
    × (dstlen ≤ length whole → r.1 ≡ none)

checked-strlcpy :
    (s : Bytes) (dstlen : ℕ) → 0 < dstlen → Glues s dstlen (checked (strlcpy s dstlen) dstlen)
unfolding strlcpy
checked-strlcpy s dstlen room = (
  λ fits.
      let short : leb dstlen (length s) ≡ false = ground arith in
      let same : (strlcpy s dstlen).0 ≡ s = (strlcpy_lem s dstlen room).1.0 fits in
      rw (short, same) refl,
  λ long. let over : leb dstlen (length s) ≡ true = ground arith in rw over refl,
)

checked-strlcat :
    (a s : Bytes) (dstlen : ℕ)
    → length a < dstlen
    → Glues (a ++ s) dstlen (checked (strlcat a s dstlen) dstlen)
checked-strlcat a s dstlen room =
    let (text, size, bound) = strlcat_lem a s dstlen room in
    (
      λ fits.
          let short : leb dstlen (length (a ++ s)) ≡ false = ground arith in
          let whole : take (dstlen - 1) (a ++ s) ≡ a ++ s = take_all _ (a ++ s) (omega arith) in
          rw (size, short, text, whole) refl,
      λ long. let over : leb dstlen (length (a ++ s)) ≡ true = ground arith in rw (size, over) refl,
    )

unslash-some : (c : ℕ) (s : Bytes) → c ∷ s ≢ codes "/" → 0 < length (unslash (c ∷ s))
unslash-some c [] more = elim (Bool-cases (c == b'/')) [
  | inl e ↦ absurd (more (ap (λ x. x ∷ []) ((==_iff c b'/').0 e)))
  | inr e ↦ rw e (omega arith)
]
unslash-some c (d ∷ s) more = elim (Bool-cases (c == b'/')) [
  | inl e ↦ rw e (omega arith)
  | inr e ↦ rw e (omega arith)
]

abbrev prepended : Bytes → Bytes → Bytes → ℕ → ℕ → Bytes × Option ℕ
prepended old whole p prelen dstlen =
    if ltb dstlen (length p + prelen + 2)
    then (old, none)
    else (take prelen whole ++ b'/' ∷ p, some (length p + (prelen + 1)))

-- The test for room, and the text that is moved behind the prefix.
placed :
    (old whole p : Bytes) (prelen dstlen : ℕ)
    → prelen ≤ length whole
    → Glues (take prelen whole ++ b'/' ∷ p) dstlen (prepended old whole p prelen dstlen)
placed old whole p prelen dstlen within =
    let size = length-append (take prelen whole) (b'/' ∷ p) in
    let front = length-take prelen whole in
    let total : length (take prelen whole ++ b'/' ∷ p) ≡ length p + (prelen + 1) =
      omega (arith, size, front) in
    rw total (
      λ fits.
          (let room : ltb dstlen (length p + prelen + 2) ≡ false = ground arith in rw room refl),
      λ long.
          (let none_left : ltb dstlen (length p + prelen + 2) ≡ true = ground arith in
            rw none_left refl),
    )

-- `path_append` on a string that ends within a buffer of `dstlen` bytes, with a suffix that is not
-- a single slash: if the two paths glued together fit in the buffer with a NUL, they are its new
-- string and their length is returned, and otherwise the result is an error.
pub path_append-glued :
    (dst suffix : Bytes) (dstlen : ℕ)
    → length dst < dstlen
    → suffix ≢ codes "/"
    → Glues (glued dst suffix) dstlen (path_append dst dstlen suffix)
unfolding path_append
path_append-glued dst [] dstlen room more = (λ fits. refl, λ long. absurd (omega arith))
path_append-glued [] (c ∷ suffix) dstlen room more =
    checked-strlcpy (c ∷ suffix) dstlen (omega arith)
path_append-glued (d ∷ dst) (c ∷ suffix) dstlen room more =
    elim (Bool-cases (last_byte (d ∷ dst) == b'/')) [
      | inl e ↦
          let s = unslash (c ∷ suffix) in
          rw e (
            subst (λ w. Glues w dstlen (checked (strlcat (d ∷ dst) s dstlen) dstlen))
              (sym (untail-append d dst s e)) (checked-strlcat (d ∷ dst) s dstlen room))
      | inr e ↦ elim (Bool-cases (ltb (length (d ∷ dst) + 1) dstlen)) [
        | inl f ↦
            let s = unslash (c ∷ suffix) in
            let slashed = (d ∷ dst) ++ b'/' ∷ [] in
            rw (e, f)
              (subst (λ w. Glues w dstlen (checked (strlcat slashed s dstlen) dstlen))
                (append_assoc (d ∷ dst) (b'/' ∷ []) s)
                (checked-strlcat slashed s dstlen
                  (ground (arith, length-append (d ∷ dst) (b'/' ∷ [])))))
        | inr f ↦
            let s = unslash (c ∷ suffix) in
            let full : dstlen ≤ length (d ∷ dst) + 1 = ground arith in
            let some_byte = unslash-some c suffix more in
            let size = length-append (d ∷ dst) s in
            let size' = length-append (d ∷ dst) (b'/' ∷ s) in
            rw (e, f)
              (
                λ fits. absurd (omega (arith, size', fits, full)),
                λ long.
                    (checked-strlcat (d ∷ dst) s dstlen room).1
                      (omega (arith, size, full, some_byte)),
              )
      ]
    ]

-- `path_prepend` on a string that ends within a buffer of `dstlen` bytes: if the two paths glued
-- together, the prefix first, fit in the buffer with a NUL, they are its new string and their
-- length is returned, and otherwise the result is an error.
path_prepend-glued :
    (dst prefix : Bytes) (dstlen : ℕ)
    → length dst < dstlen
    → Glues (glued prefix dst) dstlen (path_prepend dst dstlen prefix)
unfolding path_prepend
path_prepend-glued [] [] dstlen room = (λ fits. refl, λ long. absurd (omega arith))
path_prepend-glued (d ∷ dst) [] dstlen room = (λ fits. refl, λ long. absurd (omega arith))
path_prepend-glued [] (c ∷ prefix) dstlen room = checked-strlcpy (c ∷ prefix) dstlen (omega arith)
path_prepend-glued (d ∷ dst) (c ∷ prefix) dstlen room =
    elim (Bool-cases (last_byte (c ∷ prefix) == b'/')) [
      | inl e ↦ rw e (placed (d ∷ dst) (c ∷ prefix) (unslash (d ∷ dst)) _ dstlen (omega arith))
      | inr e ↦
          let whole = take_all (length (c ∷ prefix)) (c ∷ prefix) (omega arith) in
          let it =
            placed (d ∷ dst) (c ∷ prefix) (unslash (d ∷ dst)) (length (c ∷ prefix)) dstlen
              (omega arith) in
          rw e (
            subst
              (λ t.
                Glues (t ++ b'/' ∷ unslash (d ∷ dst)) dstlen (
                  prepended (d ∷ dst) (c ∷ prefix) (unslash (d ∷ dst)) (length (c ∷ prefix))
                    dstlen))
              whole it)
    ]
