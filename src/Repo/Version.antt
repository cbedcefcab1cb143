-- ===== src/Repo/Version.antt =====
-- Versions in the order of `flappy_cmpver`, where `none` is that of no package.
use flappy.Base.{
  subst, ℕ, ◌≡◌, ◌≢◌, refl, sym, ap, ◌∙◌, not, ◌&&◌, ◌⊎◌, inl, inr, Option, none, some, ◌==◌,
  if◌then◌else◌, Bytes,
}
use flappy.PkgPath.{enoent}
use flappy.Dewey.Compare.{Sign, less, equal, greater, cmpver}
use flappy.Dewey.Compare.Spec.{flip}
use flappy.Dewey.Compare.Order.{IsVersion, cmpver-flip, cmpver_trans}
use flappy.Dicts.{Pkgd}

cmpver_self : (a : Bytes) → IsVersion a → cmpver a a ≢ some greater
cmpver_self a ha g =
    let (s, e, f) = cmpver-flip a a ha ha in
    let one : some s ≡ some greater = sym e ∙ g in
    let two : some (flip s) ≡ some greater = sym f ∙ g in
    let is : s ≡ greater = cc one in
    let other : some less ≡ some greater = ap (λ t. some (flip t)) (sym is) ∙ two in
    absurd (cc other)

-- The first version is not above the second; `none` is that of no package.
abbrev pub NotAbove : Option Bytes → Option Bytes → Type 0
NotAbove none v = Unit {0}
NotAbove (some w) none = ⊥
NotAbove (some w) (some v) = cmpver w v ≢ some greater

-- A version, if it is one, that the comparison reads.
abbrev pub IsRead : Option Bytes → Type 0
IsRead none = Unit {0}
IsRead (some v) = IsVersion v

pub NotAbove-trans :
    (a b c : Option Bytes)
    → IsRead a
    → IsRead b
    → IsRead c
    → NotAbove a b
    → NotAbove b c
    → NotAbove a c
NotAbove-trans none b c ra rb rc p q = tt
NotAbove-trans (some a) none c ra rb rc p q = absurd p
NotAbove-trans (some a) (some b) none ra rb rc p q = absurd q
NotAbove-trans (some a) (some b) (some c) ra rb rc p q = cmpver_trans a b c ra rb rc p q

pub NotAbove-self : (a : Option Bytes) → IsRead a → NotAbove a a
NotAbove-self none r = tt
NotAbove-self (some a) r = cmpver_self a r

pub quiet :
    (e : ℕ) → (e ≡ 0) ⊎ (e ≡ enoent) → (if not (e == 0) && not (e == enoent) then e else 0) ≡ 0
quiet e (inl z) = rw z refl
quiet e (inr z) = rw z refl

pub NotAbove-same : (q p : Pkgd) → p ≡ q → IsRead p.pkgver → NotAbove q.pkgver p.pkgver
NotAbove-same q p e r = subst (λ x. NotAbove x.pkgver p.pkgver) e (NotAbove-self p.pkgver r)

greater-or :
    (v w : Bytes) (s : Sign)
    → cmpver v w ≡ some s
    → cmpver w v ≡ some (flip s)
    → ((cmpver v w ≡ some greater) × (cmpver w v ≢ some greater))
      ⊎ ((s : Sign) × (cmpver v w ≡ some s) × (s ≢ greater))
greater-or v w greater e f = inl (e, λ g. absurd (cc (f, g)))
greater-or v w less e f = inr (less, e, λ g. absurd (cc g))
greater-or v w equal e f = inr (equal, e, λ g. absurd (cc g))

-- Of two versions one is above the other, or neither.
pub cmpver-greater :
    (v w : Bytes)
    → IsVersion v
    → IsVersion w
    → ((cmpver v w ≡ some greater) × (cmpver w v ≢ some greater))
      ⊎ ((s : Sign) × (cmpver v w ≡ some s) × (s ≢ greater))
cmpver-greater v w hv hw = let (s, e, f) = cmpver-flip v w hv hw in greater-or v w s e f
