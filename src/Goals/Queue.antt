-- ===== src/Goals/Queue.antt =====
-- What `trans_find_pkg` queues where it returns 0.
use flappy.Base.{
  ap₂, ℕ, ◌≡◌, ◌≢◌, refl, sym, ap, ◌∙◌, subst, Bool, true, false, ◌⊎◌, inl, inr, List, Option, some,
  ◌==◌, ==_iff, if◌then◌else◌, arith, Bytes, Bool-cases, Option-cases,
}
use flappy.PkgPath.{enoent, einval}
use flappy.Dicts.{Dict, Pkgd, PkgDict}
use flappy.Find.{find_pkg_in_array}
use flappy.Find.First.{Found-cases}
use flappy.State.{states, string_of, set_new_state, pkg_state_installed}
use flappy.Conflicts.{trans_install, trans_update, trans_hold}
use flappy.TransStore.{transaction_store}
use flappy.Goals.{
  eexist, state_not_installed, RepoPool, is_type, transaction_pkg_type_set, Refusal, not_found,
  already_there, invalid, code_of, respect, compare_installed, choose, World, packages,
  share_replaces, store_goal, goal_type, queue_state, queue_named, queue_goal, trans_find_pkg,
}
use flappy.Goals.Origin.{Origin, choose-Origin}
use flappy.Goals.Choose.{Choice-cases, Goal, choose-Typed, compare_installed-Compared}

-- The type for a package in this state: HOLD, where the package is on hold and nothing is forced;
-- otherwise INSTALL, where it is not installed, and else the type `t` that was chosen.
abbrev pub Final : Bool → Pkgd → ℕ → ℕ → ℕ → Type 0
Final force d state t final =
    ((force ≡ false) × (d.hold ≡ true) × (final ≡ trans_hold))
    ⊎ (((force ≡ true) ⊎ (d.hold ≡ false))
        × (((state ≡ state_not_installed) × (final ≡ trans_install))
            ⊎ ((state ≢ state_not_installed) × (final ≡ t))))

not_state : (a b : ℕ) → (a == b) ≡ false → a ≢ b
not_state a b h e = ground arith

goal_type-Final :
    (force : Bool) (d : Pkgd) (state t : ℕ) → Final force d state t (goal_type force d state t)
unfolding goal_type
goal_type-Final true d state t = elim (Bool-cases (state == state_not_installed)) [
  | inl e ↦ inr (inl refl, (inl ((==_iff state state_not_installed).0 e, rw (goal_type, e) refl)))
  | inr e ↦ inr (inl refl, (inr (not_state state state_not_installed e, rw (goal_type, e) refl)))
]
goal_type-Final false d state t = elim (Bool-cases d.hold) [
  | inl h ↦ inl (refl, h, rw (goal_type, h) refl)
  | inr h ↦ elim (Bool-cases (state == state_not_installed)) [
    | inl e ↦ inr (inr h, (inl ((==_iff state state_not_installed).0 e, rw (goal_type, h, e) refl)))
    | inr e ↦ inr (inr h, (inr (not_state state state_not_installed e, rw (goal_type, h, e) refl)))
  ]
]

-- The state that the database has of the package, or that of a package that is not installed.
abbrev pub StateOf : (Bytes → Bytes → ℕ → Bool) → PkgDict → Option Bytes → ℕ → Type 0
StateOf fnmatch pkgdb name state =
    (n : Bytes) × (name ≡ some n)
    × ((pkg_state_installed fnmatch pkgdb n ≡ some (0, some state))
        ⊎ (((s : Option ℕ) × (pkg_state_installed fnmatch pkgdb n ≡ some (enoent, s)))
            × (state ≡ state_not_installed)))

-- `d` is stored with its state and its type, and the queue is `after`.
pub record Stored (fnmatch : Bytes → Bytes → ℕ → Bool) (pkgdb : PkgDict) (install_auto force : Bool)
    (before : List Pkgd) (d : Pkgd) (t : ℕ) (after : List Pkgd) : Type 0 where
  pub state : ℕ
  pub is_state : StateOf fnmatch pkgdb d.pkgname state
  pub final : ℕ
  pub is_final : Final force d state t final
  pub string : Bytes
  pub is_string : string_of states state ≡ some string
  pub stored :
      transaction_store fnmatch before
        (record d { state = some string; transaction = some final })
        (if final == trans_install then install_auto else false)
      ≡ some (after, true)

set_new_state-stated :
    (d : Pkgd) (state : ℕ)
    → (set_new_state d state).1 ≡ 0
    → (s : Bytes) × (string_of states state ≡ some s)
      × ((set_new_state d state).0 ≡ record d { state = some s })
unfolding set_new_state
set_new_state-stated d state h = elim (Option-cases (string_of states state)) [
  | inl e ↦ absurd (cc (rw (set_new_state, e) at h))
  | inr (s, e) ↦ (s, e, rw (set_new_state, e) refl)
]

type_set-typed :
    (d : Pkgd) (t : ℕ)
    → (transaction_pkg_type_set d t).1 ≡ true
    → (transaction_pkg_type_set d t).0 ≡ record d { transaction = some t }
unfolding transaction_pkg_type_set
type_set-typed d t h = elim (Bool-cases (is_type t)) [
  | inl e ↦ rw (transaction_pkg_type_set, e) refl
  | inr e ↦ absurd (cc (rw (transaction_pkg_type_set, e) at h))
]

pub code_of-nonzero : (rv : Refusal) → code_of rv ≢ 0
code_of-nonzero not_found h = omega arith
code_of-nonzero already_there h = omega arith
code_of-nonzero invalid h = omega arith

pub zero_code : (b : Bool) → (if b then 0 else einval) ≡ 0 → b ≡ true
zero_code true h = refl
zero_code false h = absurd (omega arith)

module _ (fnmatch : Bytes → Bytes → ℕ → Bool) (vpkgd : Dict (Dict Bytes)) {R : Type 0}
    (repos : RepoPool R) (pkgdb : PkgDict) where
  abbrev IsStored : Bool → List Pkgd → Pkgd → ℕ → Option (List Pkgd) → Type 0
  IsStored auto pkgs d t w =
      (after : List Pkgd) × (w ≡ some after)
      × (transaction_store fnmatch pkgs (record d { transaction = some t })
            (if t == trans_install then auto else false)
          ≡ some (after, true))

  store_goal-IsStored :
      (auto : Bool) (pool : R) (pkgs : List Pkgd) (d : Pkgd) (t : ℕ) (w : R × Option (List Pkgd))
      → store_goal fnmatch vpkgd repos pkgdb auto pool pkgs d t ≡ some (0, w)
      → IsStored auto pkgs d t w.1
  unfolding store_goal
  store_goal-IsStored auto pool pkgs d t w h =
      let marked = (transaction_pkg_type_set d t).0 in
      let autoinst : Bool = if t == trans_install then auto else false in
      elim (Bool-cases (transaction_pkg_type_set d t).1) [
        | inr e ↦ absurd (cc (rw (store_goal, e) at h))
        | inl e ↦ elim (Option-cases (transaction_store fnmatch pkgs marked autoinst)) [
          | inl k ↦ absurd (cc (rw (store_goal, e, k) at h))
          | inr (r, k) ↦
              let kept =
                if r.1 then share_replaces fnmatch vpkgd repos pkgdb pkgs marked else some marked in
              elim (Option-cases kept) [
                | inl z ↦ absurd (cc (rw (store_goal, e, k, z) at h))
                | inr (m, z) ↦
                    let it : some (if r.1 then 0 else einval, (repos.put pool d m, some r.0))
                        ≡ some (0, w) =
                      rw (store_goal, e, k, z) at h in
                    let code : (if r.1 then 0 else einval) ≡ 0 = cc it in
                    let is : (repos.put pool d m, some r.0) ≡ w = cc it in
                    let on : r.1 ≡ true = zero_code r.1 code in
                    (
                      r.0,
                      sym (ap (λ x. x.1) is),
                      subst (λ x. transaction_store fnmatch pkgs x autoinst ≡ some (r.0, true))
                          (type_set-typed d t e) (k ∙ ap (λ b. some (r.0, b)) on),
                    )
              ]
        ]
      ]

  abbrev IsQueued : Bool → Bool → List Pkgd → Pkgd → ℕ → Option (List Pkgd) → Type 0
  IsQueued auto force pkgs d t w =
      (after : List Pkgd) × (w ≡ some after) × Stored fnmatch pkgdb auto force pkgs d t after

  queue_state-IsQueued :
      (auto force : Bool) (pool : R) (pkgs : List Pkgd) (d : Pkgd) (state t : ℕ) (w : World R)
      → StateOf fnmatch pkgdb d.pkgname state
      → queue_state fnmatch vpkgd repos pkgdb auto force pool pkgs d state t ≡ some (0, w)
      → IsQueued auto force pkgs d t w.1
  unfolding queue_state goal_type
  queue_state-IsQueued auto force pool pkgs d state t w is h =
      let stated = (set_new_state d state).0 in
      elim (Bool-cases ((set_new_state d state).1 == 0)) [
        | inr e ↦
            let it : some ((set_new_state d state).1, (pool, some pkgs)) ≡ some (0, w) =
              rw (queue_state, e) at h in
            let code : (set_new_state d state).1 ≡ 0 = cc it in
            absurd (not_state ((set_new_state d state).1) 0 e code)
        | inl e ↦
            let (s, is_string, same) =
              set_new_state-stated d state ((==_iff ((set_new_state d state).1) 0).0 e) in
            let runs : store_goal fnmatch vpkgd repos pkgdb auto (repos.put pool d stated) pkgs
                  stated (goal_type force stated state t)
                ≡ some (0, w) =
              rw (queue_state, e) at h in
            let (after, gives, stored) =
              store_goal-IsStored auto (repos.put pool d stated) pkgs stated
                (goal_type force stated state t) w runs in
            let final = goal_type force d state t in
            (
              after,
              gives,
              record {
                state = state;
                is_state = is;
                final = final;
                is_final = goal_type-Final force d state t;
                string = s;
                is_string = is_string;
                stored =
                    subst
                      (λ x.
                        transaction_store fnmatch pkgs
                          (record x { transaction = some (goal_type force x state t) })
                          (if goal_type force x state t == trans_install then auto else false)
                        ≡ some (after, true))
                      same stored;
              },
            )
      ]

  queue_named-IsQueued :
      (auto force : Bool) (pool : R) (pkgs : List Pkgd) (d : Pkgd) (t : ℕ) (w : World R)
      → queue_named fnmatch vpkgd repos pkgdb auto force pool pkgs d t ≡ some (0, w)
      → IsQueued auto force pkgs d t w.1
  unfolding queue_named
  queue_named-IsQueued auto force pool pkgs d t w h = elim (Option-cases d.pkgname) [
    | inl e ↦ absurd (cc (rw (queue_named, e) at h))
    | inr (n, e) ↦ elim (Option-cases (pkg_state_installed fnmatch pkgdb n)) [
      | inl k ↦ absurd (cc (rw (queue_named, e, k) at h))
      | inr (s, k) ↦ elim (Bool-cases (s.0 == 0)) [
        | inl z ↦ elim (Option-cases s.1) [
          | inl y ↦ absurd (cc (rw (queue_named, e, k, z, y) at h))
          | inr (state, y) ↦
              queue_state-IsQueued auto force pool pkgs d state t w
                (n, e, inl (k ∙ ap₂ (λ a b. some (a, b)) ((==_iff s.0 0).0 z) y))
                (rw (queue_named, e, k, z, y) at h)
        ]
        | inr z ↦ elim (Bool-cases (s.0 == enoent)) [
          | inl y ↦
              queue_state-IsQueued auto force pool pkgs d state_not_installed t w
                (n, e, inr ((s.1, k ∙ ap (λ a. some (a, s.1)) ((==_iff s.0 enoent).0 y)), refl))
                (rw (queue_named, e, k, z, y) at h)
          | inr y ↦
              let it : some (s.0, (pool, some pkgs)) ≡ some (0, w) =
                rw (queue_named, e, k, z, y) at h in
              let code : s.0 ≡ 0 = cc it in absurd (not_state s.0 0 z code)
        ]
      ]
    ]
  ]

  queue_goal-IsQueued :
      (auto force : Bool) (pool : R) (pkgs : List Pkgd) (d : Pkgd) (t : ℕ) (w : World R)
      → queue_goal fnmatch vpkgd repos pkgdb auto force pool pkgs d t ≡ some (0, w)
      → IsQueued auto force pkgs d t w.1
  unfolding queue_goal
  queue_goal-IsQueued auto force pool pkgs d t w h = elim (Bool-cases (t == trans_update)) [
    | inr e ↦ queue_named-IsQueued auto force pool pkgs d t w (rw (queue_goal, e) at h)
    | inl e ↦ elim (Option-cases d.pkgver) [
      | inl k ↦ absurd (cc (rw (queue_goal, e, k) at h))
      | inr (v, k) ↦ elim (Option-cases (find_pkg_in_array fnmatch pkgs v 0)) [
        | inl z ↦ absurd (cc (rw (queue_goal, e, k, z) at h))
        | inr (f, z) ↦ elim (Found-cases f) [
          | inl (q, y) ↦
              let it : some (eexist, (pool, some pkgs)) ≡ some (0, w) =
                rw (queue_goal, e, k, z, y) at h in
              let code : ◌≡◌ {A = ℕ} eexist 0 = cc it in absurd (omega arith)
          | inr (errno, y) ↦
              queue_named-IsQueued auto force pool pkgs d t w (rw (queue_goal, e, k, z, y) at h)
        ]
      ]
    ]
  ]

  -- `trans_find_pkg`: where it returns 0, it has stored a package of the repositories, with the keys
  -- of an installed package if one is taken. That is the one that the database has for the name, but
  -- none if packages are only downloaded; if the database has none, it is the virtual one, of which
  -- the name is looked for from then on, unless the pool has a real package for the text. The stored
  -- package is the one that the pool has; for a locked installed package it is the one of its
  -- repository, and where no installed package is taken it may be a virtual one. If none is taken, it
  -- is an installation; otherwise it is a reinstallation, which was forced, or an update to a version
  -- that is greater than the installed one or reverts that. The package is stored with the state that
  -- the database has of it, or as not installed; and with the type HOLD, if it is on hold and nothing
  -- is forced, INSTALL, if it is not installed, and else the type that was chosen. An installation
  -- has the mark of automatic installation, if that is asked for.
  pub trans_find_pkg-Stored :
      (dl auto : Bool) (pool : R) (transd : Option (List Pkgd)) (pkg : Bytes) (force : Bool)
      (w : World R)
      → trans_find_pkg fnmatch vpkgd repos pkgdb dl auto (pool, transd) pkg force ≡ some (0, w)
      → (p : Option Pkgd) × (d : Pkgd) × (t : ℕ) × (after : List Pkgd) × Origin fnmatch vpkgd repos
          pkgdb pool dl pkg p d
        × Goal force p d t
        × (w.1 ≡ some after)
        × Stored fnmatch pkgdb auto force (packages transd) (respect p d) t after
  unfolding trans_find_pkg
  trans_find_pkg-Stored dl auto pool transd pkg force w h =
      elim (Option-cases (choose fnmatch vpkgd repos pkgdb dl pool pkg force)) [
        | inl e ↦ absurd (cc (rw (trans_find_pkg, e) at h))
        | inr (c, e) ↦ elim (Choice-cases c) [
          | inl (rv, k) ↦ absurd (code_of-nonzero rv (cc (rw (trans_find_pkg, e, k) at h)))
          | inr (p, d, t, k) ↦ elim (Option-cases (compare_installed p d t)) [
            | inl z ↦ absurd (cc (rw (trans_find_pkg, e, k, z) at h))
            | inr (c', z) ↦ elim (Choice-cases c') [
              | inl (rv, y) ↦
                  absurd (code_of-nonzero rv (cc (rw (trans_find_pkg, e, k, z, y) at h)))
              | inr (p', d', t', y) ↦
                  let typed =
                    choose-Typed fnmatch vpkgd repos pkgdb dl pool pkg force p d t
                      (e ∙ ap some k) in
                  let (same, same', goal) =
                    compare_installed-Compared force p p' d d' t t' typed (z ∙ ap some y) in
                  let (after, gives, stored) =
                    queue_goal-IsQueued auto force (repos.put pool d' (respect p' d'))
                      (packages transd) (respect p' d') t' w
                      (rw (trans_find_pkg, e, k, z, y) at h) in
                  let origin =
                    choose-Origin fnmatch vpkgd repos pkgdb pool dl pkg force p d t
                      (e ∙ ap some k) in
                  (
                    p',
                    d',
                    t',
                    after,
                    subst (λ x. Origin fnmatch vpkgd repos pkgdb pool dl pkg p' x) same'
                        (subst (λ x. Origin fnmatch vpkgd repos pkgdb pool dl pkg x d) same origin),
                    subst (λ x. Goal force p' x t') same'
                        (subst (λ x. Goal force x d t') same goal),
                    gives,
                    stored,
                  )
            ]
          ]
        ]
      ]
