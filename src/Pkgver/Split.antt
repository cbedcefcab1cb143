-- ===== src/Pkgver/Split.antt =====
-- What a pkgver is, and that `flappy_pkg_version`, `flappy_pkg_revision` and `flappy_pkg_name`
-- take it apart alike.
use flappy.Base.{
  take-append_length, length-append, take, ◌+◌, ◌-◌, strrchr_none, append_assoc, length, ltb, ap, ℕ,
  strrchr-some, sym, Option-cases, split_at, strrchr-append, ◌∙◌, ◌≡◌, ◌≢◌, refl, inl, inr, Bool,
  true, false, ◌&&◌, ◌||◌, [], ◌∷◌, ◌++◌, Option, none, some, arith, ◌==◌, if◌then◌else◌, ◌>>=◌,
  Bool-cases, All, Bytes, is_digit, Lacks, strrchr, strchr-append, strchr_Lacks,
}
use flappy.Pkgver.{
  pkg_revision, pkg_name, pkg_version, all_revision, is_revision, behind, version_loop,
  revision_loop, name_loop,
}

abbrev pub has_digit : Bytes → Bool
has_digit [] = false
has_digit (c ∷ s) = is_digit c || has_digit s

-- A revision: digits and underscores, at least one.
pub record IsRevision (r : Bytes) : Type 0 where
  pub some_byte : r ≢ []
  pub all_bytes : All (λ c. (is_digit c || c == b'_') ≡ true) r

-- A version: `before_revision`, with a digit and no underscore, then `_` and a revision; no dash.
pub record IsVersionText (v : Bytes) : Type 0 where
  pub upstream : Bytes
  pub revision : Bytes
  pub whole : v ≡ upstream ++ b'_' ∷ revision
  pub first : Lacks b'_' upstream
  pub digit : has_digit upstream ≡ true
  pub revised : IsRevision revision
  pub one_part : Lacks b'-' v

-- `pkg` is the name, a dash, and the version.
pub record IsPkgver (pkg name v : Bytes) : Type 0 where
  pub joined : pkg ≡ name ++ b'-' ∷ v
  pub version : IsVersionText v

all_revision_sound :
    (r : Bytes) → all_revision r ≡ true → All (λ c. (is_digit c || c == b'_') ≡ true) r
unfolding all_revision
all_revision_sound [] h = tt
all_revision_sound (c ∷ r) h = elim (Bool-cases (is_digit c || c == b'_')) [
  | inl e ↦ (e, all_revision_sound r (rw e at h))
  | inr e ↦ absurd (ground arith)
]

all_revision_complete :
    (r : Bytes) → All (λ c. (is_digit c || c == b'_') ≡ true) r → all_revision r ≡ true
unfolding all_revision
all_revision_complete [] h = refl
all_revision_complete (c ∷ r) (e, h) = rw e (all_revision_complete r h)

is_revision_sound : (r : Bytes) → is_revision r ≡ true → IsRevision r
unfolding is_revision
is_revision_sound [] h = cc
is_revision_sound (c ∷ r) h = record { some_byte = cc; all_bytes = all_revision_sound (c ∷ r) h }

is_revision_complete : (r : Bytes) → IsRevision r → is_revision r ≡ true
unfolding is_revision
is_revision_complete [] h = absurd (h.some_byte refl)
is_revision_complete (c ∷ r) h = all_revision_complete (c ∷ r) h.all_bytes

-- With no underscore there is no version.
loops_Lacks :
    (v : Bytes)
    → Lacks b'_' v
    → (version_loop v ≡ false) × (revision_loop v ≡ none) × (name_loop v ≡ false)
unfolding version_loop revision_loop name_loop
loops_Lacks [] h = (refl, refl, refl)
loops_Lacks (c ∷ v) (ne, h) =
    let (p, q, n) = loops_Lacks v h in
    let e = strchr_Lacks v b'_' h in (ground arith, ground arith, ground arith)

-- The part behind the last underscore of the revision.
last_part : Bytes → Option Bytes
last_part r = strrchr (b'_' ∷ r) b'_' >>= λ q. some (behind q)

-- At the first underscore the three loops have decided alike.
loops_split :
    (x r : Bytes)
    → Lacks b'_' x
    → (version_loop (x ++ b'_' ∷ r) ≡ (has_digit x && is_revision r))
      × (name_loop (x ++ b'_' ∷ r) ≡ (has_digit x && is_revision r))
      × (revision_loop (x ++ b'_' ∷ r)
          ≡ (if has_digit x && is_revision r then last_part r else none))
unfolding version_loop revision_loop name_loop last_part
loops_split [] r h = (refl, refl, refl)
loops_split (c ∷ x) r (ne, h) =
    let (p, q, n) = loops_split x r h in
    let e = strchr-append x r b'_' h in (ground arith, ground arith, ground arith)

add_one_sub_one : (n : ℕ) → n + 1 - 1 ≡ n
add_one_sub_one n = omega arith

-- The last dash splits a pkgver into its name and its version.
dash_split :
    (pkg name v : Bytes)
    → pkg ≡ name ++ b'-' ∷ v
    → Lacks b'-' v
    → strrchr pkg b'-' ≡ some (b'-' ∷ v)
dash_split pkg name v e h = rw e (strrchr-append name v b'-' h)

version_loop_complete : (v : Bytes) → IsVersionText v → version_loop v ≡ true
version_loop_complete v h =
    let (p, _, _) = loops_split h.upstream h.revision h.first in
    rw h.whole (p ∙ ground (arith, h.digit, is_revision_complete h.revision h.revised))

version_loop_sound : (v : Bytes) → Lacks b'-' v → version_loop v ≡ true → IsVersionText v
version_loop_sound v d h = elim (split_at b'_' v) [
  | inl l ↦ absurd (cc (h, (loops_Lacks v l).0))
  | inr (x, r, e, l) ↦
      let (p, _, _) = loops_split x r l in
      let both : (has_digit x && is_revision r) ≡ true = sym p ∙ (rw e at h) in
      record {
        upstream = x;
        revision = r;
        whole = e;
        first = l;
        digit = ground arith;
        revised = is_revision_sound r (ground arith);
        one_part = d;
      }
]

-- The three loops agree at every version text.
loops_agree :
    (v : Bytes) → (name_loop v ≡ version_loop v) × (version_loop v ≡ false → revision_loop v ≡ none)
loops_agree v = elim (split_at b'_' v) [
  | inl l ↦ let (p, q, n) = loops_Lacks v l in (n ∙ sym p, λ _. q)
  | inr (x, r, e, l) ↦
      let (p, n, q) = loops_split x r l in
      (rw e (n ∙ sym p), λ f. rw e (q ∙ rw (sym p ∙ (rw e at f)) refl))
]

-- What `flappy_pkg_version` returns is a version, and the string before it is a name and a dash.
pkg_version_sound :
    (pkg v : Bytes) → pkg_version pkg ≡ some v → (name : Bytes) × IsPkgver pkg name v
unfolding pkg_version
pkg_version_sound pkg v h = elim (Option-cases (strrchr pkg b'-')) [
  | inl e ↦ absurd (cc (rw e at h))
  | inr (p, e) ↦
      let (a, t, q, u, l) = strrchr-some pkg p b'-' e in
      let h' : (if version_loop (behind p) then some (behind p) else none) ≡ some v = rw e at h in
      let same : behind p ≡ t = rw u in
      let found : version_loop t ≡ true = ground arith in
      let v_is : v ≡ t = ground arith in
      (
        a,
        record {
          joined = rw v_is (q ∙ ap (λ z. a ++ z) u);
          version = rw v_is (version_loop_sound t l found);
        },
      )
]

last_part_lem :
    (r : Bytes)
    → (a : Bytes) × (t : Bytes) × (b'_' ∷ r ≡ a ++ b'_' ∷ t) × Lacks b'_' t × (last_part r ≡ some t)
unfolding last_part
last_part_lem r = elim (Option-cases (strrchr (b'_' ∷ r) b'_')) [
  | inl e ↦ absurd ((strrchr_none (b'_' ∷ r) b'_' e).0 refl)
  | inr (p, e) ↦
      let (a, t, q, u, l) = strrchr-some (b'_' ∷ r) p b'_' e in
      (a, t, q ∙ ap (λ z. a ++ z) u, l, rw (e, u))
]

revision_part :
    (v : Bytes)
    → IsVersionText v
    → (a : Bytes) × (r : Bytes) × (v ≡ a ++ b'_' ∷ r) × Lacks b'_' r × (revision_loop v ≡ some r)
revision_part v h =
    let (a, t, q, l, k) = last_part_lem h.revision in
    let (_, _, m) = loops_split h.upstream h.revision h.first in
    (
      h.upstream ++ a,
      t,
      h.whole ∙ ap (λ z. h.upstream ++ z) q ∙ sym (append_assoc h.upstream a _),
      l,
      rw h.whole (m ∙ rw (h.digit, is_revision_complete h.revision h.revised) k),
    )

name_part :
    (len : ℕ) (pkg name v : Bytes)
    → IsPkgver pkg name v
    → (let plen = length pkg - length (b'-' ∷ v) + 1 in
        if name_loop v then if ltb len plen then none else some (take (plen - 1) pkg) else none)
      ≡ (if ltb (length name) len then some name else none)
name_part len pkg name v h =
    let n : name_loop v ≡ true = (loops_agree v).0 ∙ version_loop_complete v h.version in
    let size : length pkg - length (b'-' ∷ v) + 1 ≡ length name + 1 =
      rw h.joined (omega (arith, length-append name (b'-' ∷ v))) in
    let front : take (length name + 1 - 1) pkg ≡ name =
      rw (h.joined, add_one_sub_one (length name)) (take-append_length name (b'-' ∷ v)) in
    rw (n, size, front) (ground arith)

-- Of a pkgver the functions give the version, the revision behind the last underscore, and the
-- name, the last if it and its NUL fit the buffer of `len` bytes.
pub pkgver_parts :
    (len : ℕ) (pkg name v : Bytes)
    → IsPkgver pkg name v
    → (pkg_version pkg ≡ some v)
      × (pkg_name len pkg ≡ (if ltb (length name) len then some name else none))
      × ((a : Bytes) × (r : Bytes) × (v ≡ a ++ b'_' ∷ r)
          × Lacks b'_' r
          × (pkg_revision pkg ≡ some r))
unfolding pkg_version pkg_name pkg_revision
pkgver_parts len pkg name v h =
    let e = dash_split pkg name v h.joined h.version.one_part in
    let d = version_loop_complete v h.version in
    let (a, r, q, l, k) = revision_part v h.version in
    (rw (e, d), rw e (name_part len pkg name v h), (a, r, q, l, rw e k))

-- Where there is no version, there is no name and no revision either.
pub pkg_version-none :
    (len : ℕ) (pkg : Bytes)
    → pkg_version pkg ≡ none
    → (pkg_name len pkg ≡ none) × (pkg_revision pkg ≡ none)
unfolding pkg_version pkg_name pkg_revision
pkg_version-none len pkg h = elim (Option-cases (strrchr pkg b'-')) [
  | inl e ↦ (rw e, rw e)
  | inr (p, e) ↦
      let (n, q) = loops_agree (behind p) in
      let f : version_loop (behind p) ≡ false = ground arith in (rw (e, n, f), rw e (q f))
]
