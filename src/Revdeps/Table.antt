-- ===== src/Revdeps/Table.antt =====
-- The table of reverse dependencies lists under a name the packages that need it.
use flappy.Base.{
  subst, ◌↔◌, ℕ, ◌≡◌, refl, sym, ap, ◌∙◌, Bool, List, [], ◌∷◌, ◌++◌, Option, none, some, ◌>>=◌,
  Bytes, ◌⊎◌, inl, inr, Any, All, str_eq, str_eq_iff, str_eq_refl, Bool-cases, Option-cases,
}
use flappy.Arrays.Search.{search_string}
use flappy.Dicts.{Dict, dict_get, dict_set, Pkgd, PkgDict}
use flappy.Dicts.Laws.{dict_get-dict_set, dict_get-dict_set_other}
use flappy.Revdeps.{
  dep_name, array_at, run_depends_of, provider, cached, add_revdep, deps_loop, pkg_round, pkgs_loop,
  generate_full_revdeps_tree,
}

-- `x` is listed under `n`.
abbrev pub Lists : Dict (List Bytes) → Bytes → Bytes → Type 0
Lists t n x = Any (λ o. o ≡ x) (array_at t n)

Any-snoc :
    (l : List Bytes) (a x : Bytes) → Any (λ o. o ≡ x) (l ++ a ∷ []) ↔ (Any (λ o. o ≡ x) l ⊎ (a ≡ x))
Any-snoc [] a x =
    (elim [ inl e ↦ inr e | inr e ↦ absurd e ], elim [ inl e ↦ absurd e | inr e ↦ inl e ])
Any-snoc (b ∷ l) a x =
    let (to, from) = Any-snoc l a x in
    (
      elim [ inl e ↦ inl (inl e) | inr e ↦ elim (to e) [ inl i ↦ inl (inr i) | inr i ↦ inr i ] ],
      elim [
        | inl e ↦ elim e [ inl i ↦ inl i | inr i ↦ inr (from (inl i)) ]
        | inr e ↦ inr (from (inr e))
      ],
    )

Lists-snoc :
    (t : Dict (List Bytes)) (v pkgver n x : Bytes)
    → Lists (dict_set t v (array_at t v ++ pkgver ∷ [])) n x
      ↔ (Lists t n x ⊎ ((v ≡ n) × (pkgver ≡ x)))
Lists-snoc t v pkgver n x = elim (Bool-cases (str_eq v n)) [
  | inl e ↦
      let at : v ≡ n = (str_eq_iff v n).0 e in
      let (to, from) = Any-snoc (array_at t v) pkgver x in
      let set = dict_get-dict_set t v (array_at t v ++ pkgver ∷ []) in
      subst
        (λ k.
          Lists (dict_set t v (array_at t v ++ pkgver ∷ [])) k x
          ↔ (Lists t k x ⊎ ((v ≡ k) × (pkgver ≡ x))))
        at
        (
          λ h. elim (to (rw (array_at, set) at h)) [ inl i ↦ inl i | inr i ↦ inr (refl, i) ],
          λ h. rw (array_at, set) (from (elim h [ inl i ↦ inl i | inr (_, i) ↦ inr i ])),
        )
  | inr e ↦
      let kept = dict_get-dict_set_other t v n (array_at t v ++ pkgver ∷ []) e in
      rw (array_at, kept)
        (inl, elim [ inl h ↦ h | inr (at, it) ↦ absurd (cc (rw (at, str_eq_refl n) at e)) ])
]

module _ (fnmatch : Bytes → Bytes → ℕ → Bool) (vpkgd : Dict (Dict Bytes)) where
  -- The package that a dependency is on.
  unfoldable pub target : Bytes → Option Bytes
  target dep = do name ← dep_name dep; provider fnmatch vpkgd name

  target_parts :
      (dep v : Bytes)
      → target dep ≡ some v
      → (name : Bytes) × (dep_name dep ≡ some name) × (provider fnmatch vpkgd name ≡ some v)
  unfolding target
  target_parts dep v h = elim (Option-cases (dep_name dep)) [
    | inl bare ↦ absurd (cc (rw bare at h))
    | inr (name, named) ↦ (name, named, rw named at h)
  ]

  -- The cache holds what `provider` gives.
  abbrev IsCache : Dict Bytes → Type 0
  IsCache c = (name v : Bytes) → dict_get c name ≡ some v → provider fnmatch vpkgd name ≡ some v

  cached-provider :
      (c : Dict Bytes) (name v : Bytes)
      → IsCache c
      → provider fnmatch vpkgd name ≡ some v
      → (c' : Dict Bytes) × (cached fnmatch vpkgd c name ≡ some (v, c')) × IsCache c'
  unfolding cached
  cached-provider c name v ok e = elim (Option-cases (dict_get c name)) [
    | inl new ↦ (
      dict_set c name v,
      rw (cached, new, e) refl,
      λ n w h. elim (Bool-cases (str_eq name n)) [
        | inl same ↦
            let n_is : name ≡ n = (str_eq_iff name n).0 same in
            let w_is : some w ≡ some v =
              sym h ∙ ap (dict_get (dict_set c name v)) (sym n_is) ∙ dict_get-dict_set c name v in
            ap (provider fnmatch vpkgd) (sym n_is) ∙ e ∙ sym w_is
        | inr other ↦ ok n w (sym (dict_get-dict_set_other c name n v other) ∙ h)
      ],
    )
    | inr (w, old) ↦
        let w_is : some w ≡ some v = sym (ok name w old) ∙ e in
        (c, rw (cached, old) (ap (λ o. o >>= λ x. some (x, c)) w_is), ok)
  ]

  add_revdep-Lists :
      (t : Dict (List Bytes)) (v pkgver : Bytes)
      → (t' : Dict (List Bytes)) × (add_revdep fnmatch vpkgd t v pkgver ≡ some t')
        × ((n x : Bytes) → Lists t' n x ↔ (Lists t n x ⊎ ((v ≡ n) × (pkgver ≡ x))))
  unfolding add_revdep
  add_revdep-Lists t v pkgver =
      let f = search_string fnmatch (array_at t v) pkgver in
      elim (Bool-cases f.answer) [
        | inl is ↦ (
          t,
          rw (f.ends, is) refl,
          λ n x. (
            inl,
            elim [
              | inl h ↦ h
              | inr (at, it) ↦
                  subst (λ k. Lists t k x) at (subst (λ o. Lists t v o) it (f.sound is))
            ],
          ),
        )
        | inr is ↦ (_, rw (f.ends, is) refl, λ n x. Lists-snoc t v pkgver n x)
      ]

  deps_loop-Lists :
      (rundeps : List Bytes) (pkgver : Bytes) (t : Dict (List Bytes)) (c : Dict Bytes)
      → IsCache c
      → All (λ dep. (v : Bytes) × (target dep ≡ some v)) rundeps
      → (t' : Dict (List Bytes)) × (c' : Dict Bytes) × (deps_loop fnmatch vpkgd rundeps pkgver t c
          ≡ some (t', c'))
        × IsCache c'
        × ((n x : Bytes)
            → Lists t' n x
              ↔ (Lists t n x ⊎ (Any (λ dep. target dep ≡ some n) rundeps × (pkgver ≡ x))))
  unfolding deps_loop
  deps_loop-Lists [] pkgver t c ok known =
      (t, c, refl, ok, λ n x. (inl, elim [ inl h ↦ h | inr (none_left, it) ↦ absurd none_left ]))
  deps_loop-Lists (dep ∷ rundeps) pkgver t c ok known =
      let (v, to_v) = known.0 in
      let (name, named, provided) = target_parts dep v to_v in
      let (c1, hit, ok1) = cached-provider c name v ok provided in
      let (t1, added, lists1) = add_revdep-Lists t v pkgver in
      let (t2, c2, run, ok2, lists2) = deps_loop-Lists rundeps pkgver t1 c1 ok1 known.1 in
      (
        t2,
        c2,
        rw (named, hit, added) run,
        ok2,
        λ n x. (
          λ h. elim ((lists2 n x).0 h) [
            | inl h1 ↦ elim ((lists1 n x).0 h1) [
              | inl h0 ↦ inl h0
              | inr (at, it) ↦ inr (inl (to_v ∙ ap some at), it)
            ]
            | inr (later, it) ↦ inr (inr later, it)
          ],
          elim [
            | inl h0 ↦ (lists2 n x).1 (inl ((lists1 n x).1 (inl h0)))
            | inr (here, it) ↦ elim here [
              | inl to_n ↦
                  let same : some v ≡ some n = sym to_v ∙ to_n in
                  (lists2 n x).1 (inl ((lists1 n x).1 (inr (cc same, it))))
              | inr later ↦ (lists2 n x).1 (inr (later, it))
            ]
          ],
        ),
      )

  -- What the dependencies in the database say: a package with this pkgver depends on `n`.
  abbrev pub Needs : PkgDict → Bytes → Bytes → Type 0
  Needs pkgdb n x =
      Any (λ e. (e.1.pkgver ≡ some x) × Any (λ dep. target dep ≡ some n) (run_depends_of e.1)) pkgdb

  -- The package has a pkgver, and it is known what its dependencies are on.
  pub record IsRegistered (e : Bytes × Pkgd) : Type 0 where
    pub pkgver : Bytes
    pub has_pkgver : e.1.pkgver ≡ some pkgver
    pub known : All (λ dep. (v : Bytes) × (target dep ≡ some v)) (run_depends_of e.1)

  pkg_round-deps_loop :
      (pkgd : Pkgd) (pkgver : Bytes) (t : Dict (List Bytes)) (c : Dict Bytes)
      → pkgd.pkgver ≡ some pkgver
      → pkg_round fnmatch vpkgd pkgd t c ≡ deps_loop fnmatch vpkgd (run_depends_of pkgd) pkgver t c
  unfolding pkg_round deps_loop
  pkg_round-deps_loop pkgd pkgver t c has =
      elim (run_depends_of pkgd)
        as (λ l.
          Path (Option (Dict (List Bytes) × Dict Bytes))
            (elim l [
              | [] ↦ some (t, c)
              | dep ∷ rundeps ↦ pkgd.pkgver >>= λ v. deps_loop fnmatch vpkgd (dep ∷ rundeps) v t c
            ])
            (deps_loop fnmatch vpkgd l pkgver t c)) [ [] ↦ refl | dep ∷ rundeps ↦ rw has refl ]

  pkgs_loop-Lists :
      (pkgdb : PkgDict) (t : Dict (List Bytes)) (c : Dict Bytes)
      → IsCache c
      → All IsRegistered pkgdb
      → (t' : Dict (List Bytes)) × (pkgs_loop fnmatch vpkgd pkgdb t c ≡ some t')
        × ((n x : Bytes) → Lists t' n x ↔ (Lists t n x ⊎ Needs pkgdb n x))
  unfolding pkgs_loop
  pkgs_loop-Lists [] t c ok known = (t, refl, λ n x. (inl, elim [ inl h ↦ h | inr e ↦ absurd e ]))
  pkgs_loop-Lists ((key, pkgd) ∷ pkgdb) t c ok known =
      let k = known.0 in
      let (t1, c1, run, ok1, lists1) =
        deps_loop-Lists (run_depends_of pkgd) k.pkgver t c ok k.known in
      let (t2, rest, lists2) = pkgs_loop-Lists pkgdb t1 c1 ok1 known.1 in
      (
        t2,
        rw (pkg_round-deps_loop pkgd k.pkgver t c k.has_pkgver ∙ run) rest,
        λ n x. (
          λ h. elim ((lists2 n x).0 h) [
            | inl h1 ↦ elim ((lists1 n x).0 h1) [
              | inl h0 ↦ inl h0
              | inr (here, it) ↦ inr (inl (k.has_pkgver ∙ ap some it, here))
            ]
            | inr later ↦ inr (inr later)
          ],
          elim [
            | inl h0 ↦ (lists2 n x).1 (inl ((lists1 n x).1 (inl h0)))
            | inr here ↦ elim here [
              | inl (is_x, dep) ↦
                  let same : some k.pkgver ≡ some x = sym k.has_pkgver ∙ is_x in
                  (lists2 n x).1 (inl ((lists1 n x).1 (inr (dep, cc same))))
              | inr later ↦ (lists2 n x).1 (inr later)
            ]
          ],
        ),
      )

  -- For a database whose packages have a pkgver and dependencies with a provider, the table of
  -- reverse dependencies that is made from nothing is complete and sound: it lists a pkgver under a
  -- name if and only if a package with that pkgver has a dependency on that name, where a name for
  -- which a package is configured stands for that package.
  pub revdeps_tree-Lists :
      (pkgdb : PkgDict)
      → All IsRegistered pkgdb
      → (t : Dict (List Bytes)) × (generate_full_revdeps_tree fnmatch vpkgd none pkgdb ≡ some t)
        × ((n x : Bytes) → Lists t n x ↔ Needs pkgdb n x)
  unfolding generate_full_revdeps_tree dict_get
  revdeps_tree-Lists pkgdb known =
      let (t, run, lists) = pkgs_loop-Lists pkgdb [] [] (λ name v h. absurd (cc h)) known in
      (
        t,
        run,
        λ n x. (
          λ h. elim ((lists n x).0 h) [ inl e ↦ absurd e | inr i ↦ i ],
          λ h. (lists n x).1 (inr h),
        ),
      )
