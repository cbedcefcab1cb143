-- ===== src/Paths.antt =====
-- File paths: `flappy_path_clean` of lib/util_path.c.
pub mod Spec
pub mod Output
pub mod Elements
pub mod Clean
pub mod Render
pub mod Stable
pub mod Glue
pub mod Sanitize
pub mod Tests
use flappy.Base.{
  ℕ, zero, suc, ◌+◌, ◌-◌, ◌<◌, ◌≡◌, refl, Bool, true, false, not, ◌&&◌, [], ◌∷◌, List, Option, none,
  some, ltb, leb, ◌==◌, if◌then◌else◌, ◌>>=◌, length, drop, Bytes, codes,
}
use flappy.Strl.{strlcpy, strlcat}

-- PATH_MAX of <limits.h>
abbrev pub path_max : ℕ
path_max = 4096

-- The bytes of the first string, last first, in front of the second.
abbrev pub rev_onto : Bytes → Bytes → Bytes
rev_onto [] r = r
rev_onto (c ∷ s) r = rev_onto s (c ∷ r)

abbrev pub root_length : Bool → ℕ
root_length true = 1
root_length false = 0

-- The output of `flappy_path_clean` is kept last byte first, so that its length is `d - dst`.
-- `if (d > dst+(rooted ? 1 : 0)) *d++ = '/';`
pub slash : Bool → Bytes → Bytes
slash rooted out = if ltb (root_length rooted) (length out) then b'/' ∷ out else out

-- `d--; for (; d > dotdot && *d != '/'; d--);`
pub backtrack : Bytes → ℕ → Bytes
backtrack [] dotdot = []
backtrack (c ∷ out) dotdot =
    let more = backtrack out dotdot in
    if ltb dotdot (length out) && not (c == b'/') then more else out

-- `for (; *p && *p != '/'; p++) *d++ = *p;`
pub copy_element : Bytes → Bytes → Bytes × Bytes
copy_element [] out = ([], out)
copy_element (c ∷ p) out = if c == b'/' then (c ∷ p, out) else copy_element p (c ∷ out)

-- `*p == '\0' || *p == '/'`
abbrev pub ends_element : Bytes → Bool
ends_element [] = true
ends_element (c ∷ p) = c == b'/'

abbrev pub is_dot : Bytes → Bool
is_dot [] = false
is_dot (c ∷ p) = c == b'.' && ends_element p

abbrev pub is_dotdot : Bytes → Bool
is_dotdot (c ∷ d ∷ p) = c == b'.' && (d == b'.' && ends_element p)
is_dotdot _ = false

-- The branch of the `..` element: the output and the new `dotdot`.
pub up : Bool → Bytes → ℕ → Bytes × ℕ
up rooted out dotdot =
    let appended = b'.' ∷ b'.' ∷ slash false out in
    if ltb dotdot (length out)
    then (backtrack out dotdot, dotdot)
    else if rooted
    then (out, dotdot)
    else (appended, length appended)

-- One round of the loop at a byte: the rest of the input, the output, and `dotdot`.
pub clean_round : Bool → ℕ → Bytes → Bytes → ℕ → Bytes × Bytes × ℕ
clean_round rooted c p out dotdot =
    let (out', dotdot') = up rooted out dotdot in
    let (p', copied) = copy_element (c ∷ p) (slash rooted out) in
    if c == b'/'
    then (p, out, dotdot)
    else if is_dot (c ∷ p)
    then (p, out, dotdot)
    else if is_dotdot (c ∷ p)
    then (drop 1 p, out', dotdot')
    else (p', copied, dotdot)

pub clean_loop : ℕ → Bool → Bytes → Bytes → ℕ → Option Bytes
clean_loop fuel rooted [] out dotdot = some out
clean_loop zero rooted (c ∷ p) out dotdot = none
clean_loop (suc fuel) rooted (c ∷ p) out dotdot =
    let (p', out', dotdot') = clean_round rooted c p out dotdot in
    clean_loop fuel rooted p' out' dotdot'

abbrev pub is_rooted : Bytes → Bool
is_rooted [] = false
is_rooted (c ∷ s) = c == b'/'

abbrev pub start : Bool → Bytes
start true = b'/' ∷ []
start false = []

-- An empty output is turned into a dot.
abbrev pub finish : Bytes → Bytes
finish out = if length out == 0 then b'.' ∷ [] else rev_onto out []

-- The cleaned path; `none` is the result -1.
pub path_clean : Bytes → Option Bytes
path_clean dst =
    let (buf, n) = strlcpy dst path_max in
    let rooted = is_rooted dst in
    let p = drop (root_length rooted) buf in
    if leb path_max n
    then none
    else (clean_loop (length p) rooted p (start rooted) (root_length rooted) >>= λ out.
        some (finish out))
