-- ===== src/Paths/Sanitize/Laws.antt =====
-- A sanitized path has no two slashes in a row, and leads where the path leads.
use flappy.Base.{
  ◌≢◌, ◌≡◌, refl, sym, ap, ◌∙◌, Bool, true, not, ◌&&◌, inl, inr, [], ◌∷◌, ◌++◌, append_assoc, ◌==◌,
  ==_iff, &&-eq_true, Bytes, Bool-cases, Lacks, arith, All-append,
}
use flappy.Paths.{is_rooted, ends_element}
use flappy.Paths.Spec.{Place, split, walk, place_step, place_of, origin}
use flappy.Paths.Elements.{walk-element}
use flappy.Paths.Sanitize.{sanitize_path}

abbrev pub one_slash : Bytes → Bool
one_slash [] = true
one_slash (c ∷ s) = not (c == b'/' && is_rooted s) && one_slash s

is_rooted-sanitize_path : (s : Bytes) → is_rooted (sanitize_path s) ≡ is_rooted s
unfolding sanitize_path
is_rooted-sanitize_path [] = refl
is_rooted-sanitize_path (c ∷ s) = elim (Bool-cases (c == b'/' && is_rooted s)) [
  | inl e ↦
      let (slash, next) = &&-eq_true (c == b'/') (is_rooted s) e in
      rw e (is_rooted-sanitize_path s ∙ next ∙ sym slash)
  | inr e ↦ rw e refl
]

sanitize_path-one_slash : (s : Bytes) → one_slash (sanitize_path s) ≡ true
unfolding sanitize_path
sanitize_path-one_slash [] = refl
sanitize_path-one_slash (c ∷ s) = elim (Bool-cases (c == b'/' && is_rooted s)) [
  | inl e ↦ rw e (sanitize_path-one_slash s)
  | inr e ↦ rw (e, is_rooted-sanitize_path s, e, sanitize_path-one_slash s) refl
]

rooted-ends : (s : Bytes) → is_rooted s ≡ true → ends_element s ≡ true
rooted-ends [] h = refl
rooted-ends (c ∷ s) h = h

walk-slash :
    (rooted : Bool) (e s : Bytes) (at : Place)
    → Lacks b'/' e
    → walk rooted (split (e ++ b'/' ∷ s)) at ≡ walk rooted (split s) (place_step rooted e at)
walk-slash rooted e s at lacks =
    walk-element rooted e (b'/' ∷ s) at lacks refl ∙ (unfold split walk place_step in refl)

walk-sanitize_path :
    (rooted : Bool) (e s : Bytes) (at : Place)
    → Lacks b'/' e
    → walk rooted (split (e ++ sanitize_path s)) at ≡ walk rooted (split (e ++ s)) at
unfolding sanitize_path
walk-sanitize_path rooted e [] at lacks = refl
walk-sanitize_path rooted e (c ∷ s) at lacks = elim (Bool-cases (c == b'/')) [
  | inl slash ↦ elim (Bool-cases (is_rooted s)) [
    | inl next ↦
        rw (slash, next, (==_iff c b'/').0 slash)
          (walk-sanitize_path rooted e s at lacks
            ∙ walk-element rooted e s at lacks (rooted-ends s next)
            ∙ sym (walk-slash rooted e s at lacks))
    | inr next ↦
        rw (slash, next, (==_iff c b'/').0 slash)
          (walk-slash rooted e (sanitize_path s) at lacks
            ∙ walk-sanitize_path rooted [] s (place_step rooted e at) tt
            ∙ sym (walk-slash rooted e s at lacks))
  ]
  | inr name ↦
      let differs : c ≢ b'/' = λ same. absurd (ground arith) in
      let grown = All-append (λ d. d ≢ b'/') e (c ∷ []) lacks (differs, tt) in
      let ih = walk-sanitize_path rooted (e ++ c ∷ []) s at grown in
      rw name (
        ap (λ t. walk rooted (split t) at) (sym (append_assoc e (c ∷ []) (sanitize_path s)))
        ∙ ih
        ∙ ap (λ t. walk rooted (split t) at) (append_assoc e (c ∷ []) s))
]

-- `sanitize_path` leaves no two slashes in a row, and neither makes a path relative or absolute nor
-- changes the place that its elements lead to.
pub sanitize_path-place_of :
    (s : Bytes)
    → (one_slash (sanitize_path s) ≡ true)
      × (is_rooted (sanitize_path s) ≡ is_rooted s)
      × (place_of (sanitize_path s) ≡ place_of s)
unfolding place_of
sanitize_path-place_of s = (
  sanitize_path-one_slash s,
  is_rooted-sanitize_path s,
  rw (is_rooted-sanitize_path s) (walk-sanitize_path (is_rooted s) [] s origin tt),
)
