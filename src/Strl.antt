-- ===== src/Strl.antt =====
-- Bounded copies: lib/compat/strlcpy.c and lib/compat/strlcat.c, which lib/util.c calls.
pub mod Laws
pub mod Tests
use flappy.Base.{
  ℕ, zero, suc, ◌+◌, ◌-◌, ◌≡◌, refl, [], ◌∷◌, ◌++◌, min, ◌==◌, if◌then◌else◌, length, Bytes, codes,
}

-- The copying loop, with `n` bytes of room: the last is kept for the NUL.
copy : ℕ → Bytes → Bytes
copy zero s = []
copy (suc zero) s = []
copy (suc (suc n)) [] = []
copy (suc (suc n)) (c ∷ s) = c ∷ copy (suc n) s

-- The string that `strlcpy` leaves in a buffer of `siz` bytes, and what it returns. Nothing is
-- written to a buffer of no bytes.
unfoldable pub strlcpy : Bytes → ℕ → Bytes × ℕ
unfolding copy
strlcpy src siz = (copy siz src, length src)

-- The loop that appends, with `n` bytes of room.
append_loop : ℕ → Bytes → Bytes
append_loop n [] = []
append_loop n (c ∷ s) =
    let skip = append_loop n s in
    let write = c ∷ append_loop (n - 1) s in if n == 1 then skip else write

-- The string that `strlcat` leaves behind `dst` in a buffer of `siz` bytes, and what it returns.
-- `dlen` is the length of `dst`, or `siz` if there is no NUL in the buffer.
unfoldable pub strlcat : Bytes → Bytes → ℕ → Bytes × ℕ
unfolding append_loop
strlcat dst src siz =
    let dlen = min siz (length dst) in
    if siz - dlen == 0
    then (dst, dlen + length src)
    else (dst ++ append_loop (siz - dlen) src, dlen + length src)
