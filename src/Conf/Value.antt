-- ===== src/Conf/Value.antt =====
-- The value of a configuration line, and the blanks behind it.
use flappy.Base.{
  get_elem?-in, ℕ, zero, suc, ◌+◌, ◌≤◌, ◌<◌, ◌≡◌, refl, sym, ap, ◌∙◌, subst, true, false, ◌⊎◌, inl,
  inr, [], ◌∷◌, ◌++◌, append_assoc, some, ◌==◌, ltb, lt→ltb, arith, Bytes, length, length-append,
  get_elem?, take, take-append_length, Bool-cases, All, Lacks,
}
use flappy.Conf.{is_blank, skip_blanks, eat_trailing, cstring, trim_value}

abbrev pub AllBlank : Bytes → Type 0
AllBlank = All (λ c. is_blank c ≡ true)

-- A value that a configuration can have: empty, or with no blank at its ends; a string.
pub record IsValue (v : Bytes) : Type 0 where
  pub text : Lacks 0 v
  pub ends :
      (v ≡ [])
      ⊎ ((c : ℕ) × (t : Bytes) × (a : Bytes) × (d : ℕ) × (v ≡ c ∷ t)
          × (is_blank c ≡ false)
          × (v ≡ a ++ d ∷ [])
          × (is_blank d ≡ false))

pub skip_blanks-append : (b s : Bytes) → AllBlank b → skip_blanks (b ++ s) ≡ skip_blanks s
unfolding skip_blanks
skip_blanks-append [] s all = refl
skip_blanks-append (c ∷ b) s all = rw all.0 (skip_blanks-append b s all.1)

pub skip_blanks-stop : (c : ℕ) (s : Bytes) → is_blank c ≡ false → skip_blanks (c ∷ s) ≡ c ∷ s
unfolding skip_blanks
skip_blanks-stop c s e = rw e refl

pub skip_blanks-AllBlank : (b : Bytes) → AllBlank b → skip_blanks b ≡ []
unfolding skip_blanks
skip_blanks-AllBlank [] all = refl
skip_blanks-AllBlank (c ∷ b) all = rw all.0 (skip_blanks-AllBlank b all.1)

pub length-skip_blanks : (s : Bytes) → length (skip_blanks s) ≤ length s
unfolding skip_blanks
length-skip_blanks [] = omega arith
length-skip_blanks (c ∷ s) = elim (Bool-cases (is_blank c)) [
  | inl e ↦ rw e (omega (arith, length-skip_blanks s))
  | inr e ↦ rw e (omega arith)
]

get_elem?-middle : (a : Bytes) (c : ℕ) (r : Bytes) → get_elem? (a ++ c ∷ r) (length a) ≡ some c
get_elem?-middle [] c r = refl
get_elem?-middle (x ∷ a) c r = get_elem?-middle a c r

eat_blank :
    (mem : Bytes) (n c : ℕ)
    → get_elem? mem n ≡ some c
    → is_blank c ≡ true
    → eat_trailing mem (suc n) ≡ eat_trailing mem n
unfolding eat_trailing
eat_blank mem n c at e = rw (at, e) refl

eat_stop :
    (mem : Bytes) (n c : ℕ)
    → get_elem? mem n ≡ some c
    → is_blank c ≡ false
    → eat_trailing mem (suc n) ≡ some (suc n)
unfolding eat_trailing
eat_stop mem n c at e = rw (at, e) refl

eat_blanks :
    (a b r : Bytes)
    → AllBlank b
    → eat_trailing (a ++ (b ++ r)) (length a + length b) ≡ eat_trailing (a ++ (b ++ r)) (length a)
eat_blanks a [] r all = ap (eat_trailing (a ++ r)) (omega arith)
eat_blanks a (c ∷ b) r all =
    let mem = a ++ c ∷ (b ++ r) in
    let glue : (a ++ c ∷ []) ++ (b ++ r) ≡ mem = append_assoc a (c ∷ []) (b ++ r) in
    let one : length (a ++ c ∷ []) ≡ suc (length a) = omega (arith, length-append a (c ∷ [])) in
    let ih : eat_trailing mem (length (a ++ c ∷ []) + length b)
        ≡ eat_trailing mem (length (a ++ c ∷ [])) =
      subst
        (λ m.
          eat_trailing m (length (a ++ c ∷ []) + length b) ≡ eat_trailing m (length (a ++ c ∷ [])))
        glue (eat_blanks (a ++ c ∷ []) b r all.1) in
    let from : length a + suc (length b) ≡ length (a ++ c ∷ []) + length b = omega arith in
    ap (eat_trailing mem) from
    ∙ ih
    ∙ ap (eat_trailing mem) one
    ∙ eat_blank mem (length a) c (get_elem?-middle a c (b ++ r)) all.0

eat_trailing-value :
    (v b r : Bytes)
    → IsValue v
    → AllBlank b
    → eat_trailing (v ++ (b ++ r)) (length v + length b) ≡ some (length v)
unfolding eat_trailing
eat_trailing-value v b r is all = eat_blanks v b r all ∙ elim is.ends [
  | inl e ↦ rw e refl
  | inr (c, t, a, d, front, fc, back, fd) ↦
      let mem = v ++ (b ++ r) in
      let glue : a ++ d ∷ (b ++ r) ≡ mem =
        sym (ap (λ s. s ++ (b ++ r)) back ∙ append_assoc a (d ∷ []) (b ++ r)) in
      let at = subst (λ m. get_elem? m (length a) ≡ some d) glue (get_elem?-middle a d (b ++ r)) in
      let len : length v ≡ suc (length a) =
        ap length back ∙ omega (arith, length-append a (d ∷ [])) in
      ap (eat_trailing mem) len ∙ eat_stop mem (length a) d at fd ∙ ap some (sym len)
]

cstring_all : (v : Bytes) → Lacks 0 v → cstring v ≡ v
unfolding cstring
cstring_all [] h = refl
cstring_all (c ∷ v) h = elim (Bool-cases (c == 0)) [
  | inl e ↦ absurd (ground arith)
  | inr e ↦ rw e (ap (λ s. c ∷ s) (cstring_all v h.1))
]

-- With the right length, a value is read and the blanks behind it are not.
pub trim_value_lem :
    (v b behind : Bytes)
    → IsValue v
    → AllBlank b
    → trim_value (v ++ b) (length (v ++ b)) behind ≡ some v
unfolding trim_value
trim_value_lem v b behind is all =
    let mem : (v ++ b) ++ 0 ∷ behind ≡ v ++ (b ++ 0 ∷ behind) = append_assoc v b (0 ∷ behind) in
    let eat = eat_trailing-value v b (0 ∷ behind) is all in
    let fits : ltb (length v) (length (v ++ (b ++ 0 ∷ behind))) ≡ true =
      lt→ltb _ _ (omega (arith, length-append v (b ++ 0 ∷ behind), length-append b (0 ∷ behind))) in
    rw
      (
        mem,
        length-append v b,
        eat,
        fits,
        take-append_length v (b ++ 0 ∷ behind),
        cstring_all v is.text,
      )
      refl

eat_trailing-indented :
    (p behind : Bytes) (k : ℕ)
    → k ≤ length behind
    → (n : ℕ) × (eat_trailing (p ++ 0 ∷ behind) (length p + suc k) ≡ some n)
      × (length p < n)
      × (n ≤ length p + suc k)
eat_trailing-indented p behind zero h =
    let more : length p + 1 ≡ suc (length p) = omega arith in
    (
      suc (length p),
      ap (eat_trailing (p ++ 0 ∷ behind)) more
          ∙ eat_stop (p ++ 0 ∷ behind) (length p) 0 (get_elem?-middle p 0 behind) refl,
      omega arith,
      omega arith,
    )
eat_trailing-indented p behind (suc k) h =
    let mem = p ++ 0 ∷ behind in
    let i = length p + suc k in
    let more : length p + suc (suc k) ≡ suc i = omega arith in
    let (c, at) = get_elem?-in mem i (omega (arith, length-append p (0 ∷ behind))) in
    elim (Bool-cases (is_blank c)) [
      | inl e ↦
          let (n, ih, low, high) = eat_trailing-indented p behind k (omega arith) in
          (n, ap (eat_trailing mem) more ∙ eat_blank mem i c at e ∙ ih, low, omega arith)
      | inr e ↦
          (suc i, ap (eat_trailing mem) more ∙ eat_stop mem i c at e, omega arith, omega arith)
    ]

cstring-take : (p r : Bytes) (n : ℕ) → Lacks 0 p → length p < n → cstring (take n (p ++ 0 ∷ r)) ≡ p
unfolding cstring
cstring-take [] r zero h low = absurd (omega arith)
cstring-take [] r (suc n) h low = refl
cstring-take (c ∷ p) r zero h low = absurd (omega arith)
cstring-take (c ∷ p) r (suc n) h low = elim (Bool-cases (c == 0)) [
  | inl e ↦ absurd (ground arith)
  | inr e ↦ rw e (ap (λ s. c ∷ s) (cstring-take p r n h.1 (omega arith)))
]

-- With a length that is too large, the blanks behind the value stay.
pub trim_value-indented :
    (p behind : Bytes) (k : ℕ)
    → Lacks 0 p
    → suc k ≤ length behind
    → trim_value p (length p + suc k) behind ≡ some p
unfolding trim_value
trim_value-indented p behind k text fits =
    let (n, eat, low, high) = eat_trailing-indented p behind k (omega arith) in
    let inside : ltb n (length (p ++ 0 ∷ behind)) ≡ true =
      lt→ltb _ _ (omega (arith, length-append p (0 ∷ behind))) in
    rw (eat, inside, cstring-take p behind n text low) refl
