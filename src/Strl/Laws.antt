-- ===== src/Strl/Laws.antt =====
-- What the bounded copies of `Strl` leave in the buffer, and when they truncate.
use flappy.Base.{
  false, ℕ, zero, suc, ◌+◌, ◌-◌, ◌≤◌, ◌<◌, ◌≡◌, refl, sym, ap, ◌∙◌, ◌↔◌, [], ◌∷◌, ◌++◌, min, arith,
  ◌==◌, length, length-append, length-take, take, take_all, Bytes,
}
use flappy.Strl.{copy, strlcpy, append_loop, strlcat}

copy-take : (n : ℕ) (s : Bytes) → copy (suc n) s ≡ take n s
unfolding copy
copy-take zero s = refl
copy-take (suc n) [] = refl
copy-take (suc n) (c ∷ s) = ap (λ t. c ∷ t) (copy-take n s)

append_loop_one : (s : Bytes) → append_loop 1 s ≡ []
unfolding append_loop
append_loop_one [] = refl
append_loop_one (c ∷ s) = append_loop_one s

append_loop-take : (n : ℕ) (s : Bytes) → append_loop (suc n) s ≡ take n s
unfolding append_loop
append_loop-take zero s = append_loop_one s
append_loop-take (suc n) [] = refl
append_loop-take (suc n) (c ∷ s) =
    let e : suc (suc n) - 1 ≡ suc n = omega arith in
    let more : (suc (suc n) == 1) ≡ false = ground arith in
    rw (more, e) (ap (λ t. c ∷ t) (append_loop-take n s))

take-append_past : (k m : ℕ) (a b : Bytes) → k ≡ length a + m → take k (a ++ b) ≡ a ++ take m b
take-append_past k m [] b h = let e : k ≡ m = omega arith in rw e
take-append_past zero m (c ∷ a) b h = absurd (omega arith)
take-append_past (suc k) m (c ∷ a) b h = ap (λ t. c ∷ t) (take-append_past k m a b (omega arith))

-- `strlcpy` leaves the first `siz - 1` bytes of the source in a buffer that has a byte at least,
-- and returns the length of the source: the whole source was copied if and only if what is
-- returned is below the size of the buffer.
pub strlcpy_lem :
    (src : Bytes) (siz : ℕ)
    → 0 < siz
    → ((strlcpy src siz).0 ≡ take (siz - 1) src)
      × (((strlcpy src siz).1 < siz) ↔ ((strlcpy src siz).0 ≡ src))
unfolding strlcpy
strlcpy_lem src zero h = absurd (omega arith)
strlcpy_lem src (suc n) h =
    let e : suc n - 1 ≡ n = omega arith in
    let front = copy-take n src in
    (
      rw e front,
      (
        λ lt. front ∙ take_all n src (omega arith),
        λ same. omega (arith, ap length (sym front ∙ same), length-take n src),
      ),
    )

-- `strlcat`, where the string of the buffer ends within it: the result is the two strings, cut to
-- fit with a NUL, and what is returned is the length of the two together.
pub strlcat_lem :
    (dst src : Bytes) (siz : ℕ)
    → length dst < siz
    → ((strlcat dst src siz).0 ≡ take (siz - 1) (dst ++ src))
      × ((strlcat dst src siz).1 ≡ length (dst ++ src))
      × (length (strlcat dst src siz).0 < siz)
unfolding strlcat
strlcat_lem dst src siz h =
    let m = siz - length dst - 1 in
    let dlen : min siz (length dst) ≡ length dst = omega arith in
    let room : siz - length dst ≡ suc m = omega arith in
    let more : (suc m == 0) ≡ false = ground arith in
    let whole = take-append_past (siz - 1) m dst src (omega arith) in
    let size = length-take (siz - 1) (dst ++ src) in
    let cut : dst ++ append_loop (suc m) src ≡ take (siz - 1) (dst ++ src) =
      rw (append_loop-take m src) (sym whole) in
    rw (dlen, room, more) (cut, sym (length-append dst src), rw cut (omega (arith, size)))

-- Where the string of the buffer does not end within it, `strlcat` writes nothing, and what it
-- returns is no less than the size of the buffer.
pub strlcat_full :
    (dst src : Bytes) (siz : ℕ)
    → siz ≤ length dst
    → ((strlcat dst src siz).0 ≡ dst) × (siz ≤ (strlcat dst src siz).1)
unfolding strlcat
strlcat_full dst src siz h =
    let dlen : min siz (length dst) ≡ siz = omega arith in
    let none_left : siz - siz ≡ 0 = omega arith in rw (dlen, none_left) (refl, omega arith)
