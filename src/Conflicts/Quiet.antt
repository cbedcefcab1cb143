-- ===== src/Conflicts/Quiet.antt =====
-- The loops over conflicts only add messages, and where none is added every round passes.
use flappy.Base.{
  ◌+◌, ◌≤◌, ◌≡◌, ◌≢◌, refl, ap, ◌∙◌, ◌⊎◌, inl, inr, List, [], ◌∷◌, ◌++◌, Option, some, arith, Bytes,
  length, length-append, Option-cases, All,
}
use flappy.Dicts.{Pkgd}
use flappy.Conflicts.{Verdict, passes, reports, ends, conflicts_loop, each_pkg}

pub Verdict-cases : (v : Verdict) → (v ≡ passes) ⊎ (((m : Bytes) × (v ≡ reports m)) ⊎ (v ≡ ends))
Verdict-cases passes = inl refl
Verdict-cases (reports m) = inr (inl (m, refl))
Verdict-cases ends = inr (inr refl)

pub Strings-cases : (l : List Bytes) → (l ≡ []) ⊎ ((x : Bytes) × (r : List Bytes) × (l ≡ x ∷ r))
Strings-cases [] = inl refl
Strings-cases (x ∷ r) = inr (x, r, refl)

pub same_length : (m r : List Bytes) → m ≡ r → length m ≤ length r
same_length m r e = rw e (omega arith)

pub All-map :
    {A : Type 0} {P Q : A → Type 0} (l : List A) → ((x : A) → P x → Q x) → All P l → All Q l
All-map [] f all = tt
All-map (x ∷ l) f all = (f x all.0, All-map l f all.1)

length-snoc : (l : List Bytes) (m : Bytes) → length (l ++ m ∷ []) ≡ length l + 1
length-snoc l m = length-append l (m ∷ [])

-- Messages are only added.
pub conflicts_loop-length :
    (judge : Bytes → Option Verdict) (cfs m r : List Bytes)
    → conflicts_loop judge cfs m ≡ some r
    → length m ≤ length r
unfolding conflicts_loop
conflicts_loop-length judge [] m r h = let same : m ≡ r = cc h in rw same (omega arith)
conflicts_loop-length judge (cf ∷ cfs) m r h = elim (Option-cases (judge cf)) [
  | inl e ↦ absurd (cc (rw e at h))
  | inr (v, e) ↦ elim (Verdict-cases v) [
    | inl k ↦ conflicts_loop-length judge cfs m r (rw (e, k) at h)
    | inr (inl (x, k)) ↦
        omega
          (arith, length-snoc m x, conflicts_loop-length judge cfs (m ++ x ∷ []) r (rw (e, k) at h))
    | inr (inr k) ↦
        let it : some m ≡ some r = rw (e, k) at h in
        let same : m ≡ r = cc it in rw same (omega arith)
  ]
]

-- Where no message is added, every round passes.
pub conflicts_loop-passes :
    (judge : Bytes → Option Verdict) (cfs m r : List Bytes)
    → ((cf : Bytes) → judge cf ≢ some ends)
    → conflicts_loop judge cfs m ≡ some r
    → length r ≤ length m
    → All (λ cf. judge cf ≡ some passes) cfs
unfolding conflicts_loop
conflicts_loop-passes judge [] m r goes h small = tt
conflicts_loop-passes judge (cf ∷ cfs) m r goes h small = elim (Option-cases (judge cf)) [
  | inl e ↦ absurd (cc (rw e at h))
  | inr (v, e) ↦ elim (Verdict-cases v) [
    | inl k ↦ (e ∙ ap some k, conflicts_loop-passes judge cfs m r goes (rw (e, k) at h) small)
    | inr (inl (x, k)) ↦ absurd (
        omega (
          arith,
          length-snoc m x,
          conflicts_loop-length judge cfs (m ++ x ∷ []) r (rw (e, k) at h),
        ))
    | inr (inr k) ↦ absurd (goes cf (e ∙ ap some k))
  ]
]

-- The same for the loop over packages.
pub each_pkg-length :
    (fn : Pkgd → List Bytes → Option (List Bytes)) (pkgs : List Pkgd) (m r : List Bytes)
    → ((p : Pkgd) (m r : List Bytes) → fn p m ≡ some r → length m ≤ length r)
    → each_pkg fn pkgs m ≡ some r
    → length m ≤ length r
unfolding each_pkg
each_pkg-length fn [] m r grows h = let same : m ≡ r = cc h in rw same (omega arith)
each_pkg-length fn (p ∷ pkgs) m r grows h = elim (Option-cases (fn p m)) [
  | inl e ↦ absurd (cc (rw e at h))
  | inr (m', e) ↦ omega (arith, grows p m m' e, each_pkg-length fn pkgs m' r grows (rw e at h))
]

pub each_pkg-quiet :
    (fn : Pkgd → List Bytes → Option (List Bytes)) (pkgs : List Pkgd) (m r : List Bytes)
    → ((p : Pkgd) (m r : List Bytes) → fn p m ≡ some r → length m ≤ length r)
    → each_pkg fn pkgs m ≡ some r
    → length r ≤ length m
    → All
        (λ p. (a : List Bytes) × (b : List Bytes) × (fn p a ≡ some b) × (length b ≤ length a))
        pkgs
unfolding each_pkg
each_pkg-quiet fn [] m r grows h small = tt
each_pkg-quiet fn (p ∷ pkgs) m r grows h small = elim (Option-cases (fn p m)) [
  | inl e ↦ absurd (cc (rw e at h))
  | inr (m', e) ↦
      let rest : each_pkg fn pkgs m' ≡ some r = rw e at h in
      let more = each_pkg-length fn pkgs m' r grows rest in
      let first = grows p m m' e in
      ((m, m', e, omega arith), each_pkg-quiet fn pkgs m' r grows rest (omega arith))
]
