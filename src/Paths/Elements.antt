-- ===== src/Paths/Elements.antt =====
-- The element at the front of a path, as the loop and as the walk take it.
use flappy.Base.{
  str_eq_iff, ℕ, ◌≡◌, ◌≢◌, refl, ap, Bool, true, false, inl, inr, [], ◌∷◌, ◌++◌, List, arith, ◌==◌,
  Bytes, codes, Lacks, Bool-cases, str_eq,
}
use flappy.Paths.{rev_onto, copy_element, ends_element, is_dot, is_dotdot}
use flappy.Paths.Spec.{split, Place, parent, place_step, walk}

-- The element that the path begins with, and the rest, which is empty or begins with a slash.
pub record Element (p : Bytes) : Type 0 where
  pub element : Bytes
  pub rest : Bytes
  pub whole : p ≡ element ++ rest
  pub no_slash : Lacks b'/' element
  pub ended : ends_element rest ≡ true
  pub copied : (out : Bytes) → copy_element p out ≡ (rest, rev_onto element out)

pub first-Element : (p : Bytes) → Element p
unfolding copy_element
first-Element [] = record {
  element = [];
  rest = [];
  whole = refl;
  no_slash = tt;
  ended = refl;
  copied = λ out. refl;
}
first-Element (c ∷ p) = elim (Bool-cases (c == b'/')) [
  | inl e ↦ record {
    element = [];
    rest = c ∷ p;
    whole = refl;
    no_slash = tt;
    ended = e;
    copied = λ out. rw e;
  }
  | inr e ↦
      let next = first-Element p in
      record {
        element = c ∷ next.element;
        rest = next.rest;
        whole = ap (λ t. c ∷ t) next.whole;
        no_slash = (ground arith, next.no_slash);
        ended = next.ended;
        copied = λ out. rw e (next.copied (c ∷ out));
      }
]

split-element :
    (e rest : Bytes)
    → Lacks b'/' e
    → ends_element rest ≡ true
    → (later : List Bytes) × (split (e ++ rest) ≡ e ∷ later) × (split rest ≡ [] ∷ later)
unfolding split
split-element [] [] h k = ([], refl, refl)
split-element [] (c ∷ rest) h k = (split rest, rw k, rw k)
split-element (c ∷ e) rest (ne, h) k =
    let (later, p, q) = split-element e rest h k in (later, ground arith, q)

pub walk-element :
    (rooted : Bool) (e rest : Bytes) (at : Place)
    → Lacks b'/' e
    → ends_element rest ≡ true
    → walk rooted (split (e ++ rest)) at ≡ walk rooted (split rest) (place_step rooted e at)
unfolding walk place_step
walk-element rooted e rest at h k = let (later, p, q) = split-element e rest h k in rw (p, q) refl

pub place_step-dot : (rooted : Bool) (at : Place) → place_step rooted (codes ".") at ≡ at
unfolding place_step str_eq
place_step-dot rooted at = refl

pub place_step-dotdot :
    (rooted : Bool) (at : Place) → place_step rooted (codes "..") at ≡ parent rooted at.ups at.names
unfolding place_step str_eq
place_step-dotdot rooted at = refl

pub place_step-name :
    (rooted : Bool) (e : Bytes) (at : Place)
    → e ≢ []
    → str_eq e (codes ".") ≡ false
    → str_eq e (codes "..") ≡ false
    → place_step rooted e at ≡ record at { names = e ∷ at.names }
unfolding place_step
place_step-name rooted [] at h nd ndd = absurd (h refl)
place_step-name rooted (c ∷ e) at h nd ndd = rw (nd, ndd) refl

module _ (c : ℕ) (p e rest : Bytes) (whole : c ∷ p ≡ e ++ rest) where
  pub element_some : (c == b'/') ≡ false → ends_element rest ≡ true → e ≢ []
  element_some ns ended empty =
      let at_rest : c ∷ p ≡ rest = rw empty at whole in
      absurd (cc (ap ends_element at_rest, ns, ended))

  pub not_dot : ends_element rest ≡ true → is_dot (c ∷ p) ≡ false → str_eq e (codes ".") ≡ false
  not_dot ended nd = elim (Bool-cases (str_eq e (codes "."))) [
    | inl k ↦
        let at_dot : c ∷ p ≡ b'.' ∷ rest = rw ((str_eq_iff e (codes ".")).0 k) at whole in
        absurd (cc (ap is_dot at_dot, nd, ended))
    | inr k ↦ k
  ]

  pub not_dotdot :
      ends_element rest ≡ true → is_dotdot (c ∷ p) ≡ false → str_eq e (codes "..") ≡ false
  not_dotdot ended ndd = elim (Bool-cases (str_eq e (codes ".."))) [
    | inl k ↦
        let at_dots : c ∷ p ≡ b'.' ∷ b'.' ∷ rest = rw ((str_eq_iff e (codes "..")).0 k) at whole in
        absurd (cc (ap is_dotdot at_dots, ndd, ended))
    | inr k ↦ k
  ]
