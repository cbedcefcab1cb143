-- ===== src/Paths/Glue.antt =====
-- `flappy_path_append` and `flappy_path_prepend` of lib/util_path.c.
pub mod Laws
pub mod Join
use flappy.Base.{
  ℕ, ◌+◌, ◌-◌, ◌≡◌, refl, Bool, true, false, not, ◌&&◌, [], ◌∷◌, ◌++◌, Option, none, some, ltb, leb,
  ◌==◌, if◌then◌else◌, length, take, get_or, Bytes, codes,
}
use flappy.Strl.{strlcpy, strlcat}

-- `dst[len-1]`
abbrev pub last_byte : Bytes → ℕ
last_byte dst = get_or dst (length dst - 1) 0

-- `if (*s == '/') s++;`
abbrev pub unslash : Bytes → Bytes
unslash [] = []
unslash (c ∷ s) = if c == b'/' then s else c ∷ s

-- `if ((len = …) >= dstlen) goto err;` for the string and the length that a copy gives.
abbrev pub checked : Bytes × ℕ → ℕ → Bytes × Option ℕ
checked (copied, len) dstlen = if leb dstlen len then (copied, none) else (copied, some len)

-- The string that is left in the buffer, and the length that is returned; `none` is -1 with
-- ENOBUFS.
pub path_append : Bytes → ℕ → Bytes → Bytes × Option ℕ
path_append dst dstlen [] = (dst, some (length dst))
path_append [] dstlen (c ∷ suffix) = checked (strlcpy (c ∷ suffix) dstlen) dstlen
path_append (d ∷ dst) dstlen (c ∷ suffix) =
    let len = length (d ∷ dst) in
    let slashed =
      if not (last_byte (d ∷ dst) == b'/') && ltb (len + 1) dstlen
      then (d ∷ dst) ++ b'/' ∷ []
      else d ∷ dst in
    checked (strlcat slashed (unslash (c ∷ suffix)) dstlen) dstlen

pub path_prepend : Bytes → ℕ → Bytes → Bytes × Option ℕ
path_prepend dst dstlen [] = (dst, some (length dst))
path_prepend [] dstlen (c ∷ prefix) = checked (strlcpy (c ∷ prefix) dstlen) dstlen
path_prepend (d ∷ dst) dstlen (c ∷ prefix) =
    let whole = length (c ∷ prefix) in
    let prelen = if last_byte (c ∷ prefix) == b'/' then whole - 1 else whole in
    let p = unslash (d ∷ dst) in
    if ltb dstlen (length p + prelen + 2)
    then (d ∷ dst, none)
    else (take prelen (c ∷ prefix) ++ b'/' ∷ p, some (length p + (prelen + 1)))
