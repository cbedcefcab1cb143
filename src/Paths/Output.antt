-- ===== src/Paths/Output.antt =====
-- The output of `flappy_path_clean` at a place, and the branch of `..`.
use flappy.Base.{
  codes, str_eq, ℕ, zero, suc, ◌+◌, ◌<◌, ◌≤◌, ◌≡◌, ◌≢◌, refl, Bool, true, false, ◌⊎◌, inl, inr, [],
  ◌∷◌, List, arith, ltb, length, Bytes, Lacks, All, Bool-cases, lt→ltb,
}
use flappy.Paths.{rev_onto, root_length, slash, backtrack, up, start}
use flappy.Paths.Spec.{parent}

-- The output for so many `..`, last byte first.
unfoldable pub base : Bool → ℕ → Bytes
base rooted zero = start rooted
base rooted (suc n) = b'.' ∷ b'.' ∷ slash false (base rooted n)

-- The output for a place, last byte first.
unfoldable pub output : Bool → ℕ → List Bytes → Bytes
output rooted ups [] = base rooted ups
output rooted ups (e ∷ names) = rev_onto e (slash rooted (output rooted ups names))

-- A name as an element: not empty, with no slash, and neither `.` nor `..`.
pub record IsName (e : Bytes) : Type 0 where
  pub some_byte : e ≢ []
  pub no_slash : Lacks b'/' e
  pub no_dot : str_eq e (codes ".") ≡ false
  pub no_dotdot : str_eq e (codes "..") ≡ false

-- A place that the loop reaches: the root has no `..`.
pub record IsPlace (rooted : Bool) (ups : ℕ) (names : List Bytes) : Type 0 where
  pub named : All IsName names
  pub root : rooted ≡ true → ups ≡ 0

pub length-rev_onto : (e r : Bytes) → length (rev_onto e r) ≡ length e + length r
length-rev_onto [] r = omega arith
length-rev_onto (c ∷ e) r = omega (arith, length-rev_onto e (c ∷ r))

pub root-le-base : (rooted : Bool) (n : ℕ) → root_length rooted ≤ length (base rooted n)
unfolding base slash
root-le-base true zero = omega arith
root-le-base false zero = omega arith
root-le-base rooted (suc n) = ground arith

pub slash-le : (rooted : Bool) (r : Bytes) → length r ≤ length (slash rooted r)
unfolding slash
slash-le rooted r = ground arith

pub base-le-output :
    (rooted : Bool) (ups : ℕ) (names : List Bytes)
    → length (base rooted ups) ≤ length (output rooted ups names)
unfolding output
base-le-output rooted ups [] = omega arith
base-le-output rooted ups (e ∷ names) = omega (
  arith,
  base-le-output rooted ups names,
  slash-le rooted (output rooted ups names),
  length-rev_onto e (slash rooted (output rooted ups names)),
)

-- Backtracking over `r` ends at `t`: there are bytes of the element left, or none.
abbrev Ready : ℕ → Bytes → Bytes → Type 0
Ready dotdot t r =
    ((dotdot < length r) × (backtrack r dotdot ≡ t)) ⊎ ((r ≡ t) × (length r ≡ dotdot))

Ready-cons : (dotdot c : ℕ) (t r : Bytes) → c ≢ b'/' → Ready dotdot t r → Ready dotdot t (c ∷ r)
unfolding backtrack
Ready-cons dotdot c t r ne (inl (lt, e)) = inl (omega arith, ground arith)
Ready-cons dotdot c t r ne (inr (e, size)) = inl (omega arith, ground arith)

Ready-rev_onto :
    (dotdot : ℕ) (t e r : Bytes) → Lacks b'/' e → Ready dotdot t r → Ready dotdot t (rev_onto e r)
Ready-rev_onto dotdot t [] r h ready = ready
Ready-rev_onto dotdot t (c ∷ e) r (ne, h) ready =
    Ready-rev_onto dotdot t e (c ∷ r) h (Ready-cons dotdot c t r ne ready)

Ready-slash :
    (rooted : Bool) (dotdot : ℕ) (t : Bytes)
    → root_length rooted ≤ dotdot
    → dotdot ≤ length t
    → Ready dotdot t (slash rooted t)
unfolding slash backtrack
Ready-slash rooted dotdot t lo hi = elim (Bool-cases (ltb (root_length rooted) (length t))) [
  | inl e ↦ rw e (inl (omega arith, ground arith))
  | inr e ↦ rw e (inr (refl, ground arith))
]

pub length_pos : (e : Bytes) → e ≢ [] → 0 < length e
length_pos [] h = absurd (h refl)
length_pos (c ∷ e) h = omega arith

-- Backtracking takes the last name and its slash off.
backtrack-output :
    (rooted : Bool) (ups : ℕ) (e : Bytes) (names : List Bytes)
    → IsName e
    → (length (base rooted ups) < length (output rooted ups (e ∷ names)))
      × (backtrack (output rooted ups (e ∷ names)) (length (base rooted ups))
          ≡ output rooted ups names)
unfolding output
backtrack-output rooted ups e names h =
    let t = output rooted ups names in
    let low = base-le-output rooted ups names in
    let ready =
      Ready-rev_onto (length (base rooted ups)) t e (slash rooted t) h.no_slash
        (Ready-slash rooted (length (base rooted ups)) t (root-le-base rooted ups) low) in
    elim ready [
      | inl found ↦ found
      | inr (_, size) ↦ absurd (
          omega (
            arith,
            low,
            slash-le rooted t,
            length-rev_onto e (slash rooted t),
            length_pos e h.some_byte,
          ))
    ]

ltb_irrefl : (n : ℕ) → ltb n n ≡ false
ltb_irrefl n = ground arith

pub parent-IsPlace :
    (rooted : Bool) (ups : ℕ) (names : List Bytes)
    → IsPlace rooted ups names
    → IsPlace rooted (parent rooted ups names).ups (parent rooted ups names).names
parent-IsPlace rooted ups (e ∷ names) h = record { named = h.named.1; root = h.root }
parent-IsPlace true ups [] h = h
parent-IsPlace false ups [] h = record { named = tt; root = λ e. cc }

-- The branch of `..` goes to the parent.
pub up-parent :
    (rooted : Bool) (ups : ℕ) (names : List Bytes)
    → IsPlace rooted ups names
    → up rooted (output rooted ups names) (length (base rooted ups)) ≡ (
      output rooted (parent rooted ups names).ups (parent rooted ups names).names,
      length (base rooted (parent rooted ups names).ups),
    )
unfolding up
up-parent rooted ups (e ∷ names) h =
    let (lt, back) = backtrack-output rooted ups e names h.named.0 in rw (lt→ltb _ _ lt, back) refl
up-parent true ups [] h = unfold output in rw (ltb_irrefl (length (base true ups))) refl
up-parent false ups [] h = unfold output base in rw (ltb_irrefl (length (base false ups))) refl
