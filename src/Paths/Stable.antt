-- ===== src/Paths/Stable.antt =====
-- A cleaned path is cleaned to itself.
use flappy.Base.{
  ℕ, zero, suc, ◌≤◌, ◌⊎◌, leb, ◌+◌, ◌≢◌, Bool-cases, inl, inr, ==_iff, ◌<◌, ◌≡◌, refl, sym, ap, ◌∙◌,
  Bool, true, false, List, [], ◌∷◌, ◌++◌, append-nil, some, ◌==◌, length, Bytes, codes, Lacks, All,
  arith, str_eq,
}
use flappy.Paths.{is_rooted, path_clean, path_max}
use flappy.Paths.Spec.{
  Place, origin, split, walk, place_step, name_list, up_list, join, or_dot, spelled, place_of,
}
use flappy.Paths.Output.{IsName, IsPlace}
use flappy.Paths.Elements.{walk-element, place_step-name, place_step-dotdot}
use flappy.Paths.Render.{path_clean-spelled, place_of-IsPlace}

walk-cons :
    (rooted : Bool) (e : Bytes) (l : List Bytes) (at : Place)
    → walk rooted (e ∷ l) at ≡ walk rooted l (place_step rooted e at)
unfolding walk
walk-cons rooted e l at = refl

walk-blank :
    (rooted : Bool) (s : Bytes) (at : Place)
    → walk rooted (split (b'/' ∷ s)) at ≡ walk rooted (split s) at
unfolding split walk place_step
walk-blank rooted s at = refl

walk-nil :
    (rooted : Bool) (at : Place) → (walk rooted (split []) at ≡ at) × (walk rooted [] at ≡ at)
unfolding split walk place_step
walk-nil rooted at = (refl, refl)

walk-or_dot :
    (rooted : Bool) (s : Bytes) (at : Place)
    → walk rooted (split (or_dot s)) at ≡ walk rooted (split s) at
unfolding split walk place_step str_eq
walk-or_dot rooted [] at = refl
walk-or_dot rooted (c ∷ s) at = refl

walk-join :
    (rooted : Bool) (l : List Bytes) (at : Place)
    → All (Lacks b'/') l
    → walk rooted (split (join l)) at ≡ walk rooted l at
unfolding join
walk-join rooted [] at lacks = (walk-nil rooted at).0 ∙ sym (walk-nil rooted at).1
walk-join rooted (e ∷ []) at lacks =
    ap (λ s. walk rooted (split s) at) (sym (append-nil e))
    ∙ walk-element rooted e [] at lacks.0 refl
    ∙ (walk-nil rooted (place_step rooted e at)).0
    ∙ sym (walk-cons rooted e [] at ∙ (walk-nil rooted (place_step rooted e at)).1)
walk-join rooted (e ∷ f ∷ l) at lacks =
    walk-element rooted e (b'/' ∷ join (f ∷ l)) at lacks.0 refl
    ∙ walk-blank rooted (join (f ∷ l)) (place_step rooted e at)
    ∙ walk-join rooted (f ∷ l) (place_step rooted e at) lacks.1
    ∙ sym (walk-cons rooted e (f ∷ l) at)

walk-name_list :
    (rooted : Bool) (ups : ℕ) (names later : List Bytes)
    → All IsName names
    → walk rooted (name_list names later) (record { ups = ups; names = [] })
      ≡ walk rooted later (record { ups = ups; names = names })
unfolding name_list
walk-name_list rooted ups [] later named = refl
walk-name_list rooted ups (e ∷ names) later named =
    let n = named.0 in
    let before : Place = record { ups = ups; names = names } in
    walk-name_list rooted ups names (e ∷ later) named.1
    ∙ walk-cons rooted e later before
    ∙ ap (walk rooted later) (place_step-name rooted e before n.some_byte n.no_dot n.no_dotdot)

walk-up_list :
    (n ups : ℕ) (l : List Bytes)
    → walk false (up_list n l) (record { ups = ups; names = [] })
      ≡ walk false l (record { ups = n + ups; names = [] })
unfolding up_list
walk-up_list zero ups l = ap (λ k. walk false l (record { ups = k; names = [] })) (omega arith)
walk-up_list (suc n) ups l =
    walk-cons false (codes "..") (up_list n l) (record { ups = ups; names = [] })
    ∙ ap (walk false (up_list n l)) (place_step-dotdot false (record { ups = ups; names = [] }))
    ∙ walk-up_list n (suc ups) l
    ∙ ap (λ k. walk false l (record { ups = k; names = [] })) (omega arith)

All-name_list :
    (P : Bytes → Type 0) (names later : List Bytes)
    → All P names
    → All P later
    → All P (name_list names later)
unfolding name_list
All-name_list P [] later a b = b
All-name_list P (e ∷ names) later a b = All-name_list P names (e ∷ later) a.1 (a.0, b)

All-up_list :
    (P : Bytes → Type 0) (n : ℕ) (l : List Bytes) → P (codes "..") → All P l → All P (up_list n l)
unfolding up_list
All-up_list P zero l p a = a
All-up_list P (suc n) l p a = (p, All-up_list P n l p a)

-- An element as it stands in a cleaned path.
record IsElement (e : Bytes) : Type 0 where
  lacks : Lacks b'/' e
  filled : e ≢ []

names-IsElement : (names : List Bytes) → All IsName names → All IsElement names
names-IsElement [] named = tt
names-IsElement (e ∷ names) named =
    (record { lacks = named.0.no_slash; filled = named.0.some_byte }, names-IsElement names named.1)

elements-Lacks : (l : List Bytes) → All IsElement l → All (Lacks b'/') l
elements-Lacks [] a = tt
elements-Lacks (e ∷ l) a = (a.0.lacks, elements-Lacks l a.1)

is_rooted-element : (e s : Bytes) → IsElement e → is_rooted (or_dot (e ++ s)) ≡ false
is_rooted-element [] s h = absurd (h.filled refl)
is_rooted-element (c ∷ e) s h =
    let differs : c ≢ b'/' = h.lacks.0 in
    elim (Bool-cases (c == b'/')) [
      | inl same ↦ absurd (differs ((==_iff c b'/').0 same))
      | inr other ↦ other
    ]

is_rooted-join : (l : List Bytes) → All IsElement l → is_rooted (or_dot (join l)) ≡ false
unfolding join
is_rooted-join [] a = refl
is_rooted-join (e ∷ []) a =
    ap (λ s. is_rooted (or_dot s)) (sym (append-nil e)) ∙ is_rooted-element e [] a.0
is_rooted-join (e ∷ f ∷ l) a = is_rooted-element e (b'/' ∷ join (f ∷ l)) a.0

place-IsElement :
    (rooted : Bool) (at : Place)
    → IsPlace rooted at.ups at.names
    → All IsElement (up_list at.ups (name_list at.names []))
place-IsElement rooted at h =
    All-up_list IsElement at.ups (name_list at.names [])
      (record { lacks = (λ e. cc e, (λ e. cc e, tt)); filled = λ e. cc e })
      (All-name_list IsElement at.names [] (names-IsElement at.names h.named) tt)

is_rooted-spelled :
    (rooted : Bool) (at : Place)
    → IsPlace rooted at.ups at.names
    → is_rooted (spelled rooted at) ≡ rooted
unfolding spelled
is_rooted-spelled true at h = refl
is_rooted-spelled false at h = is_rooted-join _ (place-IsElement false at h)

walk-elements :
    (rooted : Bool) (at : Place)
    → IsPlace rooted at.ups at.names
    → walk rooted (up_list at.ups (name_list at.names [])) origin ≡ at
unfolding up_list
walk-elements true at h =
    ap (λ k. walk true (up_list k (name_list at.names [])) origin) (h.root refl)
    ∙ walk-name_list true 0 at.names [] h.named
    ∙ (walk-nil true (record { ups = 0; names = at.names })).1
    ∙ ap (λ k. record { ups = k; names = at.names }) (sym (h.root refl))
walk-elements false at h =
    walk-up_list at.ups 0 (name_list at.names [])
    ∙ ap (λ k. walk false (name_list at.names []) (record { ups = k; names = [] })) (omega arith)
    ∙ walk-name_list false at.ups at.names [] h.named
    ∙ (walk-nil false at).1

place_of-spelled :
    (rooted : Bool) (at : Place)
    → IsPlace rooted at.ups at.names
    → place_of (spelled rooted at) ≡ at
unfolding place_of spelled
place_of-spelled true at h =
    let lacks = elements-Lacks _ (place-IsElement true at h) in
    walk-blank true (join (up_list at.ups (name_list at.names []))) origin
    ∙ walk-join true _ origin lacks
    ∙ walk-elements true at h
place_of-spelled false at h =
    let elements = place-IsElement false at h in
    rw (is_rooted-spelled false at h) (
      walk-or_dot false (join (up_list at.ups (name_list at.names []))) origin
      ∙ walk-join false _ origin (elements-Lacks _ elements)
      ∙ walk-elements false at h)

-- A path that `path_clean` gives is clean: if it is shorter than PATH_MAX, `path_clean` gives it
-- back, and it leads to the same place as the path that was cleaned.
pub path_clean_stable :
    (s t : Bytes)
    → path_clean s ≡ some t
    → length t < path_max
    → (path_clean t ≡ some t) × (place_of t ≡ place_of s)
path_clean_stable s t cleaned short = elim (leb_cases (length s)) [
  | inl long ↦ absurd (cc ((path_clean-spelled s).1 long, cleaned))
  | inr fits ↦
      let rooted = is_rooted s in
      let at = place_of s in
      let h = place_of-IsPlace s in
      let text : some t ≡ some (spelled rooted at) = sym cleaned ∙ (path_clean-spelled s).0 fits in
      let t_is : t ≡ spelled rooted at = cc text in
      let same_root : is_rooted t ≡ rooted = ap is_rooted t_is ∙ is_rooted-spelled rooted at h in
      let same_place : place_of t ≡ at = ap place_of t_is ∙ place_of-spelled rooted at h in
      (
        (path_clean-spelled t).0 short
            ∙ ap (λ r. some (spelled r (place_of t))) same_root
            ∙ ap (λ p. some (spelled rooted p)) same_place
            ∙ ap some (sym t_is),
        same_place,
      )
]
  where
    leb_cases : (n : ℕ) → (path_max ≤ n) ⊎ (n < path_max)
    leb_cases n = elim (Bool-cases (leb path_max n)) [
      | inl e ↦ inl (ground arith)
      | inr e ↦ inr (ground arith)
    ]
