-- ===== src/Paths/Render.antt =====
-- `flappy_path_clean` gives the text of the place that the elements of the path lead to.
use flappy.Base.{
  subst, inr, inl, ℕ, zero, suc, ◌<◌, ◌≤◌, ◌≡◌, refl, sym, ap, ◌∙◌, Bool, true, false, [], ◌∷◌,
  ◌++◌, append-nil, List, Option, none, some, arith, leb, ◌==◌, ◌>>=◌, length, drop, Bytes, codes,
  lt→ltb, Bool-cases,
}
use flappy.Strl.{strlcpy}
use flappy.Strl.Laws.{strlcpy_lem}
use flappy.Paths.{
  strlcpy, path_max, rev_onto, root_length, slash, start, finish, is_rooted, clean_loop, path_clean,
}
use flappy.Paths.Spec.{
  Place, walk, split, origin, name_list, up_list, join, or_dot, spelled, place_of, place_step,
}
use flappy.Paths.Output.{
  base, output, IsPlace, length-rev_onto, root-le-base, base-le-output, slash-le, length_pos,
}
use flappy.Paths.Clean.{clean_loop-walk}

rev_onto-rev_onto : (e r t : Bytes) → rev_onto (rev_onto e r) t ≡ rev_onto r (e ++ t)
rev_onto-rev_onto [] r t = refl
rev_onto-rev_onto (c ∷ e) r t = rev_onto-rev_onto e (c ∷ r) t

up_list-cons : (n : ℕ) (l : List Bytes) → up_list n (codes ".." ∷ l) ≡ codes ".." ∷ up_list n l
unfolding up_list
up_list-cons zero l = refl
up_list-cons (suc n) l = ap (λ t. codes ".." ∷ t) (up_list-cons n l)

-- The slash in front of a rooted path.
abbrev front : Bool → Bytes → Bytes
front true s = b'/' ∷ s
front false s = s

join-cons : (e f : Bytes) (l : List Bytes) → join (e ∷ f ∷ l) ≡ e ++ b'/' ∷ join (f ∷ l)
unfolding join
join-cons e f l = refl

slash-adds :
    (rooted : Bool) (out : Bytes) → root_length rooted < length out → slash rooted out ≡ b'/' ∷ out
unfolding slash
slash-adds rooted out h = rw (lt→ltb _ _ h) refl

-- The text of the `..` elements, with a slash behind them, and the elements behind that.
base-text :
    (rooted : Bool) (n : ℕ) (e : Bytes) (l : List Bytes)
    → (rooted ≡ true → n ≡ 0)
    → rev_onto (slash rooted (base rooted n)) (join (e ∷ l))
      ≡ front rooted (join (up_list n (e ∷ l)))
unfolding base up_list join
base-text true zero e l h = unfold slash in refl
base-text false zero e l h = unfold slash in refl
base-text true (suc n) e l h = absurd (cc (h refl))
base-text false (suc n) e l h =
    ap (λ t. rev_onto t (join (e ∷ l))) (slash-adds false (base false (suc n)) (omega arith))
    ∙ base-text false n (codes "..") (e ∷ l) (λ c. absurd (cc c))
    ∙ ap join (up_list-cons n (e ∷ l))

output-text :
    (rooted : Bool) (ups : ℕ) (names : List Bytes) (e : Bytes) (l : List Bytes)
    → IsPlace rooted ups names
    → rev_onto (slash rooted (output rooted ups names)) (join (e ∷ l))
      ≡ front rooted (join (up_list ups (name_list names (e ∷ l))))
unfolding output name_list join
output-text rooted ups [] e l h = base-text rooted ups e l h.root
output-text rooted ups (f ∷ names) e l h =
    let before = slash rooted (output rooted ups names) in
    let long : root_length rooted < length (rev_onto f before) = omega (
      arith,
      length_pos f h.named.0.some_byte,
      length-rev_onto f before,
      slash-le rooted (output rooted ups names),
      root-le-base rooted ups,
      base-le-output rooted ups names,
    ) in
    ap (λ t. rev_onto t (join (e ∷ l))) (slash-adds rooted _ long)
    ∙ rev_onto-rev_onto f before (b'/' ∷ join (e ∷ l))
    ∙ output-text rooted ups names f (e ∷ l) (record { named = h.named.1; root = h.root })

place-text :
    (rooted : Bool) (ups : ℕ) (names : List Bytes)
    → IsPlace rooted ups names
    → rev_onto (output rooted ups names) [] ≡ front rooted (join (up_list ups (name_list names [])))
unfolding output name_list base up_list
place-text true zero [] h = unfold join in refl
place-text false zero [] h = unfold join in refl
place-text true (suc n) [] h = absurd (cc (h.root refl))
place-text false (suc n) [] h =
    unfold join in
    base-text false n (codes "..") [] (λ c. absurd (cc c)) ∙ ap join (up_list-cons n [])
place-text rooted ups (f ∷ names) h =
    unfold join in
    rev_onto-rev_onto f (slash rooted (output rooted ups names)) []
    ∙ ap (rev_onto (slash rooted (output rooted ups names))) (append-nil f)
    ∙ output-text rooted ups names f [] (record { named = h.named.1; root = h.root })

or_dot-some : (s : Bytes) → 0 < length s → or_dot s ≡ s
or_dot-some [] h = absurd (omega arith)
or_dot-some (c ∷ s) h = refl

finish-or_dot : (out : Bytes) → finish out ≡ or_dot (rev_onto out [])
finish-or_dot [] = refl
finish-or_dot (c ∷ out) =
    let size = length-rev_onto (c ∷ out) [] in
    let filled : (suc (length out) == 0) ≡ false = ground arith in
    rw filled (sym (or_dot-some (rev_onto (c ∷ out) []) (omega (arith, size))))

finish-spelled :
    (rooted : Bool) (at : Place)
    → IsPlace rooted at.ups at.names
    → finish (output rooted at.ups at.names) ≡ spelled rooted at
unfolding spelled
finish-spelled true at h =
    finish-or_dot (output true at.ups at.names) ∙ ap or_dot (place-text true at.ups at.names h)
finish-spelled false at h =
    finish-or_dot (output false at.ups at.names) ∙ ap or_dot (place-text false at.ups at.names h)

origin-IsPlace : {rooted : Bool} → IsPlace rooted 0 []
origin-IsPlace = record { named = tt; root = λ r. refl }

origin-output :
    (rooted : Bool)
    → Path
        (Bytes × ℕ)
        (output rooted 0 [], length (base rooted 0))
        (start rooted, root_length rooted)
unfolding output base
origin-output true = refl
origin-output false = refl

-- Without the slash of the root, the elements lead to the same place.
unrooted :
    (s : Bytes)
    → walk (is_rooted s) (split (drop (root_length (is_rooted s)) s)) origin ≡ place_of s
unfolding place_of
unrooted [] = refl
unrooted (c ∷ s) = elim (Bool-cases (c == b'/')) [
  | inl e ↦ unfold split walk place_step in rw e refl
  | inr e ↦ rw e refl
]

-- The place that a path leads to.
pub place_of-IsPlace : (s : Bytes) → IsPlace (is_rooted s) (place_of s).ups (place_of s).names
place_of-IsPlace s =
    let rooted = is_rooted s in
    let p = drop (root_length rooted) s in
    let (e, v) = clean_loop-walk (length p) rooted p origin origin-IsPlace (omega arith) in
    subst (λ at. IsPlace rooted at.ups at.names) (unrooted s) v

cleaned :
    (s : Bytes)
    → (let rooted = is_rooted s in
        let p = drop (root_length rooted) s in
        (clean_loop (length p) rooted p (start rooted) (root_length rooted) >>= λ out.
        some (finish out))
        ≡ some (spelled rooted (place_of s)))
cleaned s =
    let rooted = is_rooted s in
    let p = drop (root_length rooted) s in
    let (e, v) = clean_loop-walk (length p) rooted p origin origin-IsPlace (omega arith) in
    let end = walk rooted (split p) origin in
    let from : Bytes × ℕ → Option Bytes = λ b. clean_loop (length p) rooted p b.0 b.1 in
    let e' : from (start rooted, root_length rooted) ≡ some (output rooted end.ups end.names) =
      ap from (sym (origin-output rooted)) ∙ e in
    rw e' (ap some (finish-spelled rooted _ v ∙ ap (spelled rooted) (unrooted s)))

-- `path_clean` of a path shorter than PATH_MAX is never refused: it is the text of the place that
-- the elements of the path lead to, where an empty element and `.` stay, `..` takes the last name
-- off (at the root it stays, and a relative path with no name left gets one more `..`), and any
-- other element is a name that is added. A path of PATH_MAX bytes or more is refused.
pub path_clean-spelled :
    (s : Bytes)
    → ((length s < path_max) → path_clean s ≡ some (spelled (is_rooted s) (place_of s)))
      × ((path_max ≤ length s) → path_clean s ≡ none)
unfolding path_clean strlcpy
path_clean-spelled s = (
  λ short.
      let fits : leb path_max (length s) ≡ false = ground arith in
      let copied : (strlcpy s path_max).0 ≡ s = (strlcpy_lem s path_max (omega arith)).1.0 short in
      rw (fits, copied) (cleaned s),
  λ long. let no_room : leb path_max (length s) ≡ true = ground arith in rw no_room refl,
)
