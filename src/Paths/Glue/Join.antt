-- ===== src/Paths/Glue/Join.antt =====
-- `flappy_path_vjoin` and `flappy_path_join` of lib/util_path.c, on a buffer of `dstlen` bytes, one
-- at least. `none` is a write behind the buffer.
pub mod Laws
use flappy.Base.{
  ℕ, ◌+◌, ◌-◌, ◌≡◌, refl, Bool, true, false, not, ◌&&◌, List, [], ◌∷◌, ◌++◌, Option, none, some,
  ltb, leb, ◌==◌, if◌then◌else◌, length, Bytes,
}
use flappy.Strl.{strlcat}
use flappy.Paths.Glue.{last_byte, unslash}

-- `len > 0`
abbrev pub is_longer : Bytes → Bool
is_longer [] = false
is_longer (c ∷ s) = true

-- The string with the slash that a next part needs.
abbrev pub lacks_slash : Bytes → Bool
lacks_slash dst = is_longer dst && not (last_byte dst == b'/')

-- The next part, without a slash in front where there is something before it.
abbrev pub next_part : Bytes → Bytes → Bytes
next_part dst val = if is_longer dst then unslash val else val

-- The loop: the string that is left in the buffer, and the length; no length is -1 with ENOBUFS.
unfoldable pub join_loop : ℕ → Bytes → Bytes → List Bytes → Option (Bytes × Option ℕ)
join_loop dstlen dst val [] =
    let room = dstlen - length dst in
    let (copied, n) = strlcat [] val room in
    let out = dst ++ copied in some (out, if leb room n then none else some (length out))
join_loop dstlen dst val (next ∷ vals) =
    let room = dstlen - length dst in
    let (copied, n) = strlcat [] val room in
    let out = dst ++ copied in
    let bare = join_loop dstlen out (next_part out next) vals in
    let slashed = join_loop dstlen (out ++ b'/' ∷ []) (next_part (out ++ b'/' ∷ []) next) vals in
    if leb room n
    then some (out, none)
    else if not (lacks_slash out)
    then bare
    else if ltb dstlen (length out + 1)
    then some (out, none)
    else if length out + 1 == dstlen
    then none
    else slashed

unfoldable pub path_join : ℕ → List Bytes → Option (Bytes × Option ℕ)
path_join dstlen [] = some ([], some 0)
path_join dstlen (val ∷ vals) = join_loop dstlen [] val vals
