-- ===== src/Orphans/Recursive/Rounds.antt =====
-- The loop over a full dependency tree adds automatic packages once all that need them are there.
use flappy.Base.{
  All-at, All-of, All-append, subst, ℕ, ◌+◌, ◌≤◌, ◌<◌, ◌≡◌, ◌↔◌, refl, sym, ap, ◌∙◌, Bool, true,
  false, inl, inr, List, [], ◌∷◌, ◌++◌, Option, some, ◌==◌, if◌then◌else◌, arith, Bytes, length,
  length-append, Bool-cases, All, Any,
}
use flappy.Dicts.{Dict, Pkgd, PkgDict}
use flappy.Find.{pkgdb_get_pkg}
use flappy.Find.Exact.{some-pkg_version, find_pkg_in_dict-exact}
use flappy.Revdeps.{array_at, generate_full_revdeps_tree}
use flappy.Revdeps.Table.{Needs, Lists}
use flappy.Orphans.{is_automatic}
use flappy.Orphans.Queue.{
  IsPlain, Holds, HasPkgver, has, has-Holds_not, is_queued-has, count_queued-Holds, waiting,
  waiting-append_lt,
}
use flappy.Orphans.Built.{IsInstalled, BuiltOn, next, Needs-IsPlain}
use flappy.Orphans.Rounds.{Known, revdeps-array_at}
use flappy.Orphans.Recursive.{Removal, automatic_round, rdep_round, rdeps_loop}

-- The package is one of the database.
abbrev pub InDatabase : PkgDict → Pkgd → Type 0
InDatabase pkgdb d = (key : Bytes) × Any (λ e. Path (Bytes × Pkgd) e (key, d)) pkgdb

-- The string is the pkgver of a package of the database.
abbrev pub IsKnown : PkgDict → Bytes → Type 0
IsKnown pkgdb v = (d : Pkgd) × InDatabase pkgdb d × (d.pkgver ≡ some v)

pub InDatabase-HasPkgver :
    (pkgdb : PkgDict) (a : List Pkgd)
    → All (IsInstalled pkgdb) pkgdb
    → All (InDatabase pkgdb) a
    → All HasPkgver a
InDatabase-HasPkgver pkgdb [] all inside = tt
InDatabase-HasPkgver pkgdb (d ∷ a) all inside =
    let (key, at) = inside.0 in
    let i = All-at (IsInstalled pkgdb) pkgdb (key, d) all at in
    ((i.pkgver, i.has_pkgver), InDatabase-HasPkgver pkgdb a all inside.1)

choose_full : {A : Type 0} (a b : A) (l n : ℕ) → n ≡ l → (if n == l then a else b) ≡ a
choose_full {A} a b l n is = ground arith

choose_fewer : {A : Type 0} (a b : A) (l n : ℕ) → n < l → (if n == l then a else b) ≡ b
choose_fewer {A} a b l n fewer = ground arith

made :
    (fnmatch : Bytes → Bytes → ℕ → Bool) (vpkgd : Dict (Dict Bytes)) (pkgdb : PkgDict)
    (t : Dict (List Bytes))
    → Known fnmatch vpkgd pkgdb t (some t)
unfolding generate_full_revdeps_tree
made fnmatch vpkgd pkgdb t = refl

module _ (fnmatch : Bytes → Bytes → ℕ → Bool) (vpkgd : Dict (Dict Bytes)) (pkgdb : PkgDict)
    (t : Dict (List Bytes)) (first : List Pkgd) where
  -- What is shown of the array `a`.
  pub record Sound (a : List Pkgd) : Type 0 where
    pub built : BuiltOn fnmatch vpkgd pkgdb first a
    pub inside : All (InDatabase pkgdb) a

  -- What is shown of a step from the array `a`.
  pub record Stepped (a : List Pkgd) (r : Option Removal) : Type 0 where
    pub array' : List Pkgd
    pub known' : Option (Dict (List Bytes))
    pub ends : r ≡ some (array', known')
    pub keeps : Known fnmatch vpkgd pkgdb t known'
    pub sound : Sound array'
    pub grows : length a ≤ length array'
    pub bounded : length array' + waiting array' pkgdb ≤ length a + waiting a pkgdb

  same_array :
      (a : List Pkgd) (known : Option (Dict (List Bytes))) (r : Option Removal)
      → r ≡ some (a, known)
      → Known fnmatch vpkgd pkgdb t known
      → Sound a
      → Stepped a r
  same_array a known r e k s = record {
    array' = a;
    known' = known;
    ends = e;
    keeps = k;
    sound = s;
    grows = omega arith;
    bounded = omega arith;
  }

  module _ (all : All (IsInstalled pkgdb) pkgdb)
      (lists : (n x : Bytes) → Lists t n x ↔ Needs fnmatch vpkgd pkgdb n x) where
    automatic_round-Stepped :
        (e : Bytes × Pkgd) (i : IsInstalled pkgdb e) (a : List Pkgd)
        (known : Option (Dict (List Bytes)))
        → Sound a
        → Known fnmatch vpkgd pkgdb t known
        → Any (λ x. x ≡ e) pkgdb
        → is_automatic e.1 ≡ true
        → has a i.pkgver ≡ false
        → Stepped a (automatic_round fnmatch vpkgd pkgdb e.1 i.pkgver (a, known))
    unfolding automatic_round
    automatic_round-Stepped e i a known s k at auto new =
        let revs = array_at t e.0 in
        let plain : All IsPlain revs = All-of IsPlain revs (λ x in_revs.
          Needs-IsPlain fnmatch vpkgd pkgdb pkgdb e.0 x all ((lists e.0 x).0 in_revs)) in
        let (n, count, full) =
          count_queued-Holds fnmatch vpkgd pkgdb a revs (InDatabase-HasPkgver pkgdb a all s.inside)
            plain in
        let less = waiting-append_lt a e.0 e.1 i.pkgver pkgdb i.has_pkgver new at in
        let longer = length-append a (e.1 ∷ []) in
        elim full [
          | inl (is, holds) ↦ record {
            array' = a ++ e.1 ∷ [];
            known' = some t;
            ends =
                rw (automatic_round, revdeps-array_at fnmatch vpkgd pkgdb t e i known k, count)
                  (ap some (choose_full {A = Removal} _ _ (length revs) n is));
            keeps = made fnmatch vpkgd pkgdb t;
            sound = record {
              built =
                  next a e.0 e.1 i.pkgver s.built at i.has_pkgver auto
                    (has-Holds_not a i.pkgver new)
                    (λ x needs. All-at (Holds a) revs x holds ((lists e.0 x).1 needs));
              inside = All-append (InDatabase pkgdb) a (e.1 ∷ []) s.inside ((e.0, at), tt);
            };
            grows = omega (arith, longer);
            bounded = omega (arith, less, longer);
          }
          | inr (fewer, left) ↦
              same_array a (some t) _
                (rw (automatic_round, revdeps-array_at fnmatch vpkgd pkgdb t e i known k, count)
                  (ap some (choose_fewer {A = Removal} _ _ (length revs) n fewer)))
                (made fnmatch vpkgd pkgdb t) s
        ]

    rdep_round-Stepped :
        (v : Bytes) (a : List Pkgd) (known : Option (Dict (List Bytes)))
        → Sound a
        → Known fnmatch vpkgd pkgdb t known
        → IsKnown pkgdb v
        → Stepped a (rdep_round fnmatch vpkgd pkgdb v (a, known))
    unfolding rdep_round pkgdb_get_pkg
    rdep_round-Stepped v a known s k (d, (key, at), is) =
        let i = All-at (IsInstalled pkgdb) pkgdb (key, d) all at in
        let both : some i.pkgver ≡ some v = sym i.has_pkgver ∙ is in
        let same : i.pkgver ≡ v = cc both in
        subst (λ x. Stepped a (rdep_round fnmatch vpkgd pkgdb x (a, known))) same
          (let queued =
              is_queued-has fnmatch vpkgd pkgdb a i.pkgver
                (InDatabase-HasPkgver pkgdb a all s.inside)
                (record {
                  no_pattern = i.no_pattern;
                  versioned = some-pkg_version i.pkgver key i.named;
                }) in
            let there =
              (find_pkg_in_dict-exact fnmatch pkgdb i.pkgver key d i.no_pattern i.named).1
                (i.stored, i.has_pkgver) in
            elim (Bool-cases (has a i.pkgver)) [
              | inl h ↦ same_array a known _ (rw (rdep_round, queued, h) refl) k s
              | inr h ↦ elim (Bool-cases (is_automatic d)) [
                | inr manual ↦
                    same_array a known _
                      (rw (rdep_round, queued, h, pkgdb_get_pkg, there, manual) refl) k s
                | inl auto ↦
                    let step : rdep_round fnmatch vpkgd pkgdb i.pkgver (a, known)
                        ≡ automatic_round fnmatch vpkgd pkgdb d i.pkgver (a, known) =
                      rw (rdep_round, queued, h, pkgdb_get_pkg, there, auto) refl in
                    subst (Stepped a) (sym step)
                      (automatic_round-Stepped (key, d) i a known s k at auto h)
              ]
            ])

    pub rdeps_loop-Stepped :
        (vs : List Bytes) (a : List Pkgd) (known : Option (Dict (List Bytes)))
        → Sound a
        → Known fnmatch vpkgd pkgdb t known
        → All (IsKnown pkgdb) vs
        → Stepped a (rdeps_loop fnmatch vpkgd pkgdb vs (a, known))
    unfolding rdeps_loop
    rdeps_loop-Stepped [] a known s k each = same_array a known _ refl k s
    rdeps_loop-Stepped (v ∷ vs) a known s k each =
        let one = rdep_round-Stepped v a known s k each.0 in
        let rest = rdeps_loop-Stepped vs one.array' one.known' one.sound one.keeps each.1 in
        record {
          array' = rest.array';
          known' = rest.known';
          ends = rw (rdeps_loop, one.ends) rest.ends;
          keeps = rest.keeps;
          sound = rest.sound;
          grows = omega (arith, one.grows, rest.grows);
          bounded = omega (arith, one.bounded, rest.bounded);
        }
