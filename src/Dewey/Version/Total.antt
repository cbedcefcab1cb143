-- ===== src/Dewey/Version/Total.antt =====
-- The array of lib/external/dewey.c grows in time, and the loop over a version string ends.
use flappy.Base.{
  ℕ, zero, suc, ◌+◌, ◌-◌, ◌*◌, ◌%◌, ◌^◌, ◌≤◌, ◌<◌, ◌≡◌, refl, true, [], ◌∷◌, ◌++◌, Option, none,
  some, arith, Bool-cases, Option-cases, inl, inr, lt→ltb, length, length-append, length-drop,
  Bytes, is_digit, to_lower, drop, ◌>>=◌,
}
use flappy.Dewey.Int32.{int_mod}
use flappy.Dewey.Version.{
  Arr, grow, grow_double, push, read_int, find_modifier, modifiers, number_component,
  letter_component, other_component, mkcomponent, mkversion_loop, mkversion,
}

-- The count does not pass the size, and the size is no more than twice the count, or 62.
pub record Fits (ap : Arr) : Type 0 where
  pub room : length ap.v ≤ ap.size
  pub bound : ap.size ≤ 62 + 2 * length ap.v

-- An array with a free place.
record HasRoom (ap : Arr) : Type 0 where
  place : length ap.v < ap.size
  bound : ap.size ≤ 62 + 2 * length ap.v

grow-HasRoom : {ap : Arr} → Fits ap → length ap.v < 2 ^ 31 → HasRoom (grow ap)
unfolding grow
grow-HasRoom f h = ground arith

grow_double-HasRoom :
    {ap : Arr} → Fits ap → 0 < length ap.v → length ap.v < 2 ^ 31 → HasRoom (grow_double ap)
unfolding grow_double
grow_double-HasRoom f p h = ground arith

grow_v : (ap : Arr) → (grow ap).v ≡ ap.v
unfolding grow
grow_v ap = ground arith

grow_double_v : (ap : Arr) → (grow_double ap).v ≡ ap.v
unfolding grow_double
grow_double_v ap = ground arith

push_room : (x : ℕ) {ap : Arr} → HasRoom ap → push x ap ≡ some (record ap { v = ap.v ++ x ∷ [] })
unfolding push
push_room x {ap} r = rw (lt→ltb (length ap.v) ap.size r.place)

push-Fits : (x : ℕ) {ap : Arr} → HasRoom ap → Fits (record ap { v = ap.v ++ x ∷ [] })
push-Fits x {ap} r = omega (arith, length-append ap.v (x ∷ []))

-- A component was taken: at least a byte is used, and the array has at most `k` numbers.
abbrev Takes : ℕ → Option (Arr × ℕ) → Type 0
Takes k none = ⊥
Takes k (some (ap, n)) = (1 ≤ n) × Fits ap × (length ap.v ≤ k)

length-read_int-le : (s : Bytes) (n : ℕ) → length (read_int n s).1 ≤ length s
unfolding read_int
length-read_int-le [] n = omega arith
length-read_int-le (c ∷ s) n =
    ground (arith, length-read_int-le s ((n * 10 + (c - b'0')) % int_mod))

length-read_int-lt :
    (c : ℕ) (s : Bytes) (n : ℕ) → is_digit c ≡ true → length (read_int n (c ∷ s)).1 ≤ length s
unfolding read_int
length-read_int-lt c s n h = rw h (length-read_int-le s _)

number_component-Takes :
    (ap : Arr) (c : ℕ) (s : Bytes)
    → HasRoom ap
    → is_digit c ≡ true
    → Takes (length ap.v + 2) (number_component ap (c ∷ s))
unfolding number_component
number_component-Takes ap c s r h =
    let x = (read_int 0 (c ∷ s)).0 in
    rw (push_room x r) (
      omega (arith, length-read_int-lt c s 0 h),
      push-Fits x r,
      omega (arith, length-append ap.v (x ∷ [])),
    )

letter_component-Takes :
    (ap : Arr) (c : ℕ)
    → HasRoom ap
    → length ap.v + 1 < 2 ^ 31
    → Takes (length ap.v + 2) (letter_component ap c)
unfolding letter_component
letter_component-Takes ap c r h =
    let x = to_lower c - b'a' + 1 in
    let ap₁ : Arr = record ap { v = ap.v ++ 0 ∷ [] } in
    let one : length ap₁.v ≡ length ap.v + 1 = omega (arith, length-append ap.v (0 ∷ [])) in
    let room : HasRoom (grow_double ap₁) =
      grow_double-HasRoom {ap = ap₁} (push-Fits 0 r) (omega arith) (omega arith) in
    let two : length ((grow_double ap₁).v ++ x ∷ []) ≡ length ap.v + 2 =
      rw (grow_double_v ap₁) (omega (arith, length-append (ap.v ++ 0 ∷ []) (x ∷ []), one)) in
    rw (push_room 0 r, push_room x room) (omega arith, push-Fits x room, omega (arith, two))

Takes-mono : (o : Option (Arr × ℕ)) (j k : ℕ) → j ≤ k → Takes j o → Takes k o
Takes-mono none j k h t = t
Takes-mono (some (ap, n)) j k h (p, f, q) = (p, f, omega arith)

HasRoom-Fits : {ap : Arr} → HasRoom ap → Fits ap
HasRoom-Fits r = omega arith

other_component-Takes :
    (ap : Arr) (c : ℕ) (s : Bytes)
    → HasRoom ap
    → length ap.v + 1 < 2 ^ 31
    → Takes (length ap.v + 2) (other_component ap c s)
unfolding other_component
other_component-Takes ap c s r h =
    ground (arith, letter_component-Takes ap c r h, length-read_int-le s 0)

find_modifier_pos : (s : Bytes) {t len : ℕ} → find_modifier modifiers s ≡ some (t, len) → 1 ≤ len
unfolding find_modifier
find_modifier_pos s h = ground arith

modifier-Takes :
    (ap : Arr) (t len : ℕ)
    → HasRoom ap
    → 1 ≤ len
    → Takes (length ap.v + 2) (push t ap >>= λ ap'. some (ap', len))
modifier-Takes ap t len r h =
    rw (push_room t r) (h, push-Fits t r, omega (arith, length-append ap.v (t ∷ [])))

-- Every component at a byte takes that byte, and writes within the array.
mkcomponent-Takes :
    (ap : Arr) (c : ℕ) (s : Bytes)
    → Fits ap
    → length ap.v + 1 < 2 ^ 31
    → Takes (length ap.v + 2) (mkcomponent ap (c ∷ s))
unfolding mkcomponent
mkcomponent-Takes ap c s f h = elim (Bool-cases (is_digit c)) [
  | inl d ↦ rw d (same _ (number_component-Takes (grow ap) c s r d))
  | inr d ↦ elim (Option-cases (find_modifier modifiers (c ∷ s))) [
    | inl e ↦ rw (d, e) (same _ (other_component-Takes (grow ap) c s r (omega (arith, count))))
    | inr ((t, len), e) ↦
        rw (d, e) (same _ (modifier-Takes (grow ap) t len r (find_modifier_pos (c ∷ s) e)))
  ]
]
  where
    r : HasRoom (grow ap)
    r = grow-HasRoom f (omega arith)

    count : length (grow ap).v ≡ length ap.v
    count = rw (grow_v ap)

    same : (o : Option (Arr × ℕ)) → Takes (length (grow ap).v + 2) o → Takes (length ap.v + 2) o
    same o t = Takes-mono o _ _ (omega (arith, count)) t

mkversion_loop_total :
    (fuel : ℕ) (ap : Arr) (s : Bytes)
    → Fits ap
    → length s ≤ fuel
    → length ap.v + 2 * length s < 2 ^ 31
    → (r : Arr) × (mkversion_loop fuel ap s ≡ some r) × Fits r
unfolding mkversion_loop
mkversion_loop_total zero ap [] f h b = (ap, refl, f)
mkversion_loop_total (suc fuel) ap [] f h b = (ap, refl, f)
mkversion_loop_total zero ap (c ∷ s) f h b = absurd (omega arith)
mkversion_loop_total (suc fuel) ap (c ∷ s) f h b =
    let t = mkcomponent-Takes ap c s f (omega arith) in
    elim (Option-cases (mkcomponent ap (c ∷ s))) [
      | inl e ↦ absurd (rw e at t)
      | inr ((ap', n), e) ↦
          let t' : Takes (length ap.v + 2) (some (ap', n)) = rw e at t in
          let (p, f', q) = t' in
          let d = length-drop n (c ∷ s) in
          let (r, e', g) =
            mkversion_loop_total fuel ap' (drop n (c ∷ s)) f' (omega (arith, d))
              (omega (arith, d)) in
          (r, rw e e', g)
    ]

-- Every version string shorter than 2^30 bytes becomes an array: the loop ends, no number is
-- written outside the array, and at the end the count is within the size, which is at most
-- twice the count or 62.
pub mkversion_total :
    (num : Bytes) → length num < 2 ^ 30 → (r : Arr) × (mkversion num ≡ some r) × Fits r
unfolding mkversion
mkversion_total num h =
    mkversion_loop_total (length num) (record { size = 0; v = []; revision = 0 }) num (omega arith)
      (omega arith) (omega arith)
