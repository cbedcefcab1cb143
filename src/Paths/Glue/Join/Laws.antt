-- ===== src/Paths/Glue/Join/Laws.antt =====
-- `flappy_path_join` glues its arguments with single slashes.
use flappy.Base.{
  get_or, append_assoc, suc, Bool, true, ap, ℕ, ◌+◌, ◌-◌, ◌≤◌, ◌<◌, ◌≡◌, refl, ◌∙◌, false, List, [],
  ◌∷◌, ◌++◌, some, ltb, leb, ◌==◌, if◌then◌else◌, inl, inr, arith, length, length-append, take_all,
  Bytes, Bool-cases,
}
use flappy.Strl.{strlcat}
use flappy.Strl.Laws.{strlcat_lem}
use flappy.Paths.Glue.Join.{last_byte, unslash, lacks_slash, next_part, join_loop, path_join}

-- The last byte is a slash.
abbrev pub ends_slash : Bytes → Bool
ends_slash [] = false
ends_slash (c ∷ []) = c == b'/'
ends_slash (c ∷ d ∷ s) = ends_slash (d ∷ s)

-- The path without the slash that it begins with, if it does.
abbrev pub rootless : Bytes → Bytes
rootless [] = []
rootless (c ∷ s) = if c == b'/' then s else c ∷ s

-- A part behind a path: the part alone, if the path is empty; otherwise the path, a slash, if it
-- does not end with one, and the part without the slash that it begins with.
abbrev pub put_part : Bytes → Bytes → Bytes
put_part [] part = part
put_part (c ∷ path) part =
    if ends_slash (c ∷ path)
    then (c ∷ path) ++ rootless part
    else (c ∷ path) ++ b'/' ∷ rootless part

-- The path with all the parts, one after the other.
unfoldable pub joined : Bytes → List Bytes → Bytes
joined path [] = path
joined path (part ∷ parts) = joined (put_part path part) parts

last_byte-ends_slash : (c : ℕ) (s : Bytes) → (last_byte (c ∷ s) == b'/') ≡ ends_slash (c ∷ s)
last_byte-ends_slash c [] = refl
last_byte-ends_slash c (d ∷ s) =
    let n : length (d ∷ s) - 1 ≡ length s = omega arith in
    let m : length (c ∷ d ∷ s) - 1 ≡ suc (length s) = omega arith in
    let later : (get_or (d ∷ s) (length s) 0 == b'/') ≡ ends_slash (d ∷ s) =
      rw n at (last_byte-ends_slash d s) in
    rw m later

rootless-unslash : (s : Bytes) → unslash s ≡ rootless s
rootless-unslash [] = refl
rootless-unslash (c ∷ s) = refl

slashed : Bytes → Bytes
slashed out = if lacks_slash out then out ++ b'/' ∷ [] else out

-- What a round of the loop adds is the part put behind the path.
put_part-bare :
    (path part : Bytes)
    → lacks_slash path ≡ false
    → path ++ next_part path part ≡ put_part path part
put_part-bare [] part e = refl
put_part-bare (c ∷ path) part e =
    let slash : ends_slash (c ∷ path) ≡ true = elim (Bool-cases (ends_slash (c ∷ path))) [
      | inl k ↦ k
      | inr k ↦ absurd (cc (rw (last_byte-ends_slash c path, k) at e))
    ] in
    rw slash (ap (λ s. (c ∷ path) ++ s) (rootless-unslash part))

put_part-slashed :
    (path part : Bytes)
    → lacks_slash path ≡ true
    → (path ++ b'/' ∷ []) ++ next_part (path ++ b'/' ∷ []) part ≡ put_part path part
put_part-slashed [] part e = absurd (cc e)
put_part-slashed (c ∷ path) part e =
    let bare : ends_slash (c ∷ path) ≡ false = elim (Bool-cases (ends_slash (c ∷ path))) [
      | inr k ↦ k
      | inl k ↦ absurd (cc (rw (last_byte-ends_slash c path, k) at e))
    ] in
    rw bare (
      append_assoc (c ∷ path) (b'/' ∷ []) (unslash part)
      ∙ ap (λ s. (c ∷ path) ++ b'/' ∷ s) (rootless-unslash part))

length-rootless :
    (c : ℕ) (path part : Bytes) → length (c ∷ path) ≤ length (put_part (c ∷ path) part)
length-rootless c path part = elim (Bool-cases (ends_slash (c ∷ path))) [
  | inl e ↦ rw e (omega (arith, length-append (c ∷ path) (rootless part)))
  | inr e ↦ rw e (omega (arith, length-append (c ∷ path) (b'/' ∷ rootless part)))
]

length-joined : (path : Bytes) (parts : List Bytes) → length path ≤ length (joined path parts)
unfolding joined
length-joined path [] = omega arith
length-joined [] (part ∷ parts) = omega arith
length-joined (c ∷ path) (part ∷ parts) =
    omega (arith, length-rootless c path part, length-joined (put_part (c ∷ path) part) parts)

-- A part that fits is copied whole.
fits-strlcat :
    (val : Bytes) (room : ℕ) → length val < room → strlcat [] val room ≡ (val, length val)
fits-strlcat val room h =
    let (text, len, bound) = strlcat_lem [] val room (omega arith) in
    λ i. ((text ∙ take_all (room - 1) val (omega arith)) i, len i)

not_leb : (room n : ℕ) → n < room → leb room n ≡ false
not_leb room n h = ground arith

not_over : (a b : ℕ) → b < a → ltb a b ≡ false
not_over a b h = ground arith

not_edge : (a b : ℕ) → b < a → (b == a) ≡ false
not_edge a b h = ground arith

join_loop-joined :
    (dstlen : ℕ) (dst val : Bytes) (vals : List Bytes)
    → length (joined (dst ++ val) vals) < dstlen
    → join_loop dstlen dst val vals
      ≡ some (joined (dst ++ val) vals, some (length (joined (dst ++ val) vals)))
unfolding join_loop joined
join_loop-joined dstlen dst val [] h =
    let room = dstlen - length dst in
    let small : length val < room = omega (arith, length-append dst val) in
    rw (fits-strlcat val room small, not_leb room (length val) small) refl
join_loop-joined dstlen dst val (next ∷ vals) h =
    let room = dstlen - length dst in
    let out = dst ++ val in
    let whole = length-joined out (next ∷ vals) in
    let size = length-append dst val in
    let small : length val < room = omega arith in
    let copied = fits-strlcat val room small in
    let test = not_leb room (length val) small in
    elim (Bool-cases (lacks_slash out)) [
      | inl e ↦
          let same = put_part-slashed out next e in
          let h' : length (joined ((out ++ b'/' ∷ []) ++ next_part (out ++ b'/' ∷ []) next) vals)
              < dstlen =
            rw same h in
          let more = length-joined ((out ++ b'/' ∷ []) ++ next_part (out ++ b'/' ∷ []) next) vals in
          let size' = length-append out (b'/' ∷ []) in
          let size'' = length-append (out ++ b'/' ∷ []) (next_part (out ++ b'/' ∷ []) next) in
          let over : ltb dstlen (length out + 1) ≡ false =
            not_over dstlen (length out + 1) (omega arith) in
          let edge : (length out + 1 == dstlen) ≡ false =
            not_edge dstlen (length out + 1) (omega arith) in
          let rest =
            join_loop-joined dstlen (out ++ b'/' ∷ []) (next_part (out ++ b'/' ∷ []) next) vals
              h' in
          rw (copied, test, e, over, edge)
            (rest ∙ ap (λ s. some (joined s vals, some (length (joined s vals)))) same)
      | inr e ↦
          let same = put_part-bare out next e in
          let h' : length (joined (out ++ next_part out next) vals) < dstlen = rw same h in
          rw (copied, test, e)
            (join_loop-joined dstlen out (next_part out next) vals h'
              ∙ ap (λ s. some (joined s vals, some (length (joined s vals)))) same)
    ]

-- `flappy_path_join` of at least one part, in a buffer that is larger than the joined path: it
-- leaves that path in the buffer, and returns its length. The joined path begins with the first
-- part; each later part is put behind the path so far, alone if that is empty, and otherwise with a
-- slash between them, if the path so far does not end with one, and without the slash that the part
-- begins with.
pub path_join-joined :
    (dstlen : ℕ) (val : Bytes) (vals : List Bytes)
    → length (joined val vals) < dstlen
    → path_join dstlen (val ∷ vals) ≡ some (joined val vals, some (length (joined val vals)))
unfolding path_join
path_join-joined dstlen val vals h = join_loop-joined dstlen [] val vals h
