-- ===== src/Paths/Clean.antt =====
-- The loop of `flappy_path_clean` walks the elements of the path.
use flappy.Base.{
  subst, length-append, ==_iff, &&-eq_true, ℕ, zero, suc, ◌<◌, ◌≤◌, ◌≡◌, refl, sym, ap, ◌∙◌, Bool,
  true, false, ◌&&◌, inl, inr, [], ◌∷◌, some, arith, ◌==◌, length, drop, Bytes, codes, Bool-cases,
}
use flappy.Paths.{slash, copy_element, ends_element, is_dot, is_dotdot, up, clean_round, clean_loop}
use flappy.Paths.Spec.{split, Place, parent, place_step, walk}
use flappy.Paths.Output.{length_pos, parent-IsPlace, up-parent, IsPlace, output, base}
use flappy.Paths.Elements.{
  not_dotdot, not_dot, place_step-name, place_step-dotdot, element_some, place_step-dot,
  first-Element, walk-element,
}

-- What a round does, from the input `p` at a place: it goes to the input `p'` at another place,
-- with the output of that place, and the walk ends where it would have.
record Rounds (rooted : Bool) (p : Bytes) (at : Place) (p' out' : Bytes) (mark' : ℕ) : Type 0 where
  place : Place
  shorter : length p' < length p
  out : out' ≡ output rooted place.ups place.names
  mark : mark' ≡ length (base rooted place.ups)
  valid : IsPlace rooted place.ups place.names
  same : walk rooted (split p') place ≡ walk rooted (split p) at

module _ (rooted : Bool) (c : ℕ) (at : Place) (h : IsPlace rooted at.ups at.names) where
  abbrev here : Bytes
  here = output rooted at.ups at.names

  abbrev mark_here : ℕ
  mark_here = length (base rooted at.ups)

  round_slash : (p : Bytes) → (c == b'/') ≡ true → Rounds rooted (c ∷ p) at p here mark_here
  unfolding split walk place_step
  round_slash p e = record {
    place = at;
    shorter = omega arith;
    out = refl;
    mark = refl;
    valid = h;
    same = rw e refl;
  }

  round_dot : (p : Bytes) → is_dot (c ∷ p) ≡ true → Rounds rooted (c ∷ p) at p here mark_here
  round_dot p e =
      let (is, ended) = &&-eq_true (c == b'.') (ends_element p) e in
      let dot : c ≡ b'.' = (==_iff c b'.').0 is in
      record {
        place = at;
        shorter = omega arith;
        out = refl;
        mark = refl;
        valid = h;
        same = rw dot (
            sym (
              walk-element rooted (codes ".") p at (omega arith) ended
              ∙ ap (walk rooted (split p)) (place_step-dot rooted at)));
      }

  round_dotdot :
      (p : Bytes)
      → is_dotdot (c ∷ p) ≡ true
      → Rounds rooted
          (c ∷ p)
          at
          (drop 1 p)
          (up rooted here mark_here).0
          (up rooted here mark_here).1
  round_dotdot [] e = absurd (cc e)
  round_dotdot (d ∷ p) e =
      let (is, e') = &&-eq_true (c == b'.') (d == b'.' && ends_element p) e in
      let (is', ended) = &&-eq_true (d == b'.') (ends_element p) e' in
      let dot : c ≡ b'.' = (==_iff c b'.').0 is in
      let dot' : d ≡ b'.' = (==_iff d b'.').0 is' in
      let above = up-parent rooted at.ups at.names h in
      record {
        place = parent rooted at.ups at.names;
        shorter = omega arith;
        out = rw above refl;
        mark = rw above refl;
        valid = parent-IsPlace rooted at.ups at.names h;
        same =
            rw (dot, dot')
              (sym (
                walk-element rooted (codes "..") p at (omega arith) ended
                ∙ ap (walk rooted (split p)) (place_step-dotdot rooted at)));
      }

  round_name :
      (p : Bytes)
      → (c == b'/') ≡ false
      → is_dot (c ∷ p) ≡ false
      → is_dotdot (c ∷ p) ≡ false
      → (let r = copy_element (c ∷ p) (slash rooted here) in
          Rounds rooted (c ∷ p) at r.0 r.1 mark_here)
  round_name p ns nd ndd =
      let e = first-Element (c ∷ p) in
      let filled = element_some c p e.element e.rest e.whole ns e.ended in
      let size = length-append e.element e.rest in
      let pushed =
        place_step-name rooted e.element at filled (not_dot c p e.element e.rest e.whole e.ended nd)
          (not_dotdot c p e.element e.rest e.whole e.ended ndd) in
      rw (e.copied (slash rooted here)) (record {
        place = record at { names = e.element ∷ at.names };
        shorter = omega (arith, ap length e.whole, size, length_pos e.element filled);
        out = unfold output in refl;
        mark = refl;
        valid = record {
          named = (
            record {
              some_byte = filled;
              no_slash = e.no_slash;
              no_dot = not_dot c p e.element e.rest e.whole e.ended nd;
              no_dotdot = not_dotdot c p e.element e.rest e.whole e.ended ndd;
            },
            h.named,
          );
          root = h.root;
        };
        same = sym (
            ap (λ t. walk rooted (split t) at) e.whole
            ∙ walk-element rooted e.element e.rest at e.no_slash e.ended
            ∙ ap (walk rooted (split e.rest)) pushed);
      })

  round_any :
      (p : Bytes)
      → (let r = clean_round rooted c p here mark_here in Rounds rooted (c ∷ p) at r.0 r.1 r.2)
  unfolding clean_round
  round_any p = elim (Bool-cases (c == b'/')) [
    | inl s ↦ rw s (round_slash p s)
    | inr s ↦ elim (Bool-cases (is_dot (c ∷ p))) [
      | inl d ↦ rw (s, d) (round_dot p d)
      | inr d ↦ elim (Bool-cases (is_dotdot (c ∷ p))) [
        | inl dd ↦ rw (s, d, dd) (round_dotdot p dd)
        | inr dd ↦ rw (s, d, dd) (round_name p s d dd)
      ]
    ]
  ]

-- The loop ends, and its output is that of the place where the walk over the elements ends.
pub clean_loop-walk :
    (fuel : ℕ) (rooted : Bool) (p : Bytes) (at : Place)
    → IsPlace rooted at.ups at.names
    → length p ≤ fuel
    → (let end = walk rooted (split p) at in
        (clean_loop fuel rooted p (output rooted at.ups at.names) (length (base rooted at.ups))
          ≡ some (output rooted end.ups end.names))
        × IsPlace rooted end.ups end.names)
unfolding clean_loop
clean_loop-walk fuel rooted [] at h size = unfold split walk place_step in (refl, h)
clean_loop-walk zero rooted (c ∷ p) at h size = absurd (omega arith)
clean_loop-walk (suc fuel) rooted (c ∷ p) at h size =
    let now =
      clean_round rooted c p (output rooted at.ups at.names) (length (base rooted at.ups)) in
    let r = round_any rooted c at h p in
    let q = r.place in
    let (e, v) = clean_loop-walk fuel rooted now.0 q r.valid (omega (arith, r.shorter)) in
    (
      ap (λ o. clean_loop fuel rooted now.0 o now.2) r.out
          ∙ ap (λ m. clean_loop fuel rooted now.0 (output rooted q.ups q.names) m) r.mark
          ∙ e
          ∙ ap (λ end. some (output rooted end.ups end.names)) r.same,
      subst (λ end. IsPlace rooted end.ups end.names) r.same v,
    )
