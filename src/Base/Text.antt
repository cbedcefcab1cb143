-- ===== src/Base/Text.antt =====
-- C strings as lists of bytes, without their terminating NUL: a pointer into a string is the list
-- of the bytes from there on. The functions of <string.h>, <strings.h> and <ctype.h> that the
-- sources call, in the C locale.
use Prim.Native.Char.{code}
use Prim.Native.String.{String}
use Prim.Native.Nat.{ℕ, ◌+◌, ◌-◌}
use mathlib.Core.Path.{◌≡◌, refl, ap}
use mathlib.Core.Logic.{◌↔◌, ◌≢◌, ◌⊎◌, inl, inr}
use mathlib.Core.Bool.{Bool, true, false, ◌&&◌, ◌||◌}
use mathlib.Core.List.{List, [], ◌∷◌, ◌++◌}
use mathlib.Core.Option.{Option, none, some}
use native.Mathlib.Omega.{arith}
use flappy.Base.Tests.{
  leb, ◌==◌, if◌then◌else◌, ==_iff, ==_refl, Bool-cases, Option-cases, &&-eq_true,
}
use flappy.Base.Lists.{length, take, All, take-append_length, length-append}

abbrev pub Bytes : Type 0
Bytes = List ℕ

-- The bytes of an ASCII literal.
abbrev pub codes : String → Bytes
codes String.[] = []
codes (String.◌∷◌ c s) = code c ∷ codes s

abbrev pub is_digit : ℕ → Bool
is_digit c = leb b'0' c && leb c b'9'

abbrev pub is_alpha : ℕ → Bool
is_alpha c = leb b'a' c && leb c b'z' || leb b'A' c && leb c b'Z'

abbrev pub to_lower : ℕ → ℕ
to_lower c = if leb b'A' c && leb c b'Z' then c + 32 else c

-- strcmp(s, t) == 0
unfoldable pub str_eq : Bytes → Bytes → Bool
str_eq [] [] = true
str_eq (c ∷ s) (d ∷ t) = c == d && str_eq s t
str_eq _ _ = false

-- strncmp(s, p, strlen(p)) == 0
unfoldable pub starts_with : Bytes → Bytes → Bool
starts_with s [] = true
starts_with [] (d ∷ p) = false
starts_with (c ∷ s) (d ∷ p) = c == d && starts_with s p

-- strncasecmp(s, p, strlen(p)) == 0
unfoldable pub starts_with_nocase : Bytes → Bytes → Bool
starts_with_nocase s [] = true
starts_with_nocase [] (d ∷ p) = false
starts_with_nocase (c ∷ s) (d ∷ p) = to_lower c == to_lower d && starts_with_nocase s p

-- The string from the first byte that passes the test.
unfoldable pub find_byte : (ℕ → Bool) → Bytes → Option Bytes
find_byte p [] = none
find_byte p (c ∷ s) = if p c then some (c ∷ s) else find_byte p s

abbrev pub has_byte : Bytes → ℕ → Bool
has_byte [] c = false
has_byte (d ∷ s) c = d == c || has_byte s c

abbrev pub strchr : Bytes → ℕ → Option Bytes
strchr s c = find_byte (λ d. d == c) s

abbrev pub strpbrk : Bytes → Bytes → Option Bytes
strpbrk s accept = find_byte (has_byte accept) s

unfoldable pub strrchr : Bytes → ℕ → Option Bytes
strrchr [] c = none
strrchr (d ∷ s) c = elim (strrchr s c) [
  | some p ↦ some p
  | none ↦ if d == c then some (d ∷ s) else none
]

-- The bytes from `s` up to the pointer `p` into it.
abbrev pub upto : Bytes → Bytes → Bytes
upto s p = take (length s - length p) s

abbrev pub Lacks : ℕ → Bytes → Type 0
Lacks c = All (λ d. d ≢ c)

pub str_eq→eq : (s t : Bytes) → str_eq s t ≡ true → s ≡ t
unfolding str_eq
str_eq→eq [] [] h = refl
str_eq→eq [] (d ∷ t) h = cc
str_eq→eq (c ∷ s) [] h = cc
str_eq→eq (c ∷ s) (d ∷ t) h =
    let (e, r) = &&-eq_true (c == d) (str_eq s t) h in cc (str_eq→eq s t r, (==_iff c d).0 e)

pub str_eq_refl : (s : Bytes) → str_eq s s ≡ true
unfolding str_eq
str_eq_refl [] = refl
str_eq_refl (c ∷ s) = ground (arith, str_eq_refl s)

pub str_eq_iff : (s t : Bytes) → (str_eq s t ≡ true) ↔ (s ≡ t)
str_eq_iff s t = (str_eq→eq s t, λ e. rw e (str_eq_refl t))

pub starts_with-append : (p s : Bytes) → starts_with (p ++ s) p ≡ true
unfolding starts_with
starts_with-append [] s = refl
starts_with-append (c ∷ p) s = ground (arith, starts_with-append p s)

pub starts_with→append : (s p : Bytes) → starts_with s p ≡ true → (r : Bytes) × (s ≡ p ++ r)
unfolding starts_with
starts_with→append s [] h = (s, refl)
starts_with→append [] (d ∷ p) h = ([], cc)
starts_with→append (c ∷ s) (d ∷ p) h =
    let (e, t) = &&-eq_true (c == d) (starts_with s p) h in
    let (r, q) = starts_with→append s p t in (r, cc (q, (==_iff c d).0 e))

pub upto-append : (a b : Bytes) → upto (a ++ b) b ≡ a
upto-append a b =
    let e : length (a ++ b) - length b ≡ length a = omega (arith, length-append a b) in
    rw e (take-append_length a b)

-- What a search finds: the bytes before fail the test, and the found byte passes it.
pub find_byte-some :
    (p : ℕ → Bool) (s r : Bytes)
    → find_byte p s ≡ some r
    → (a : Bytes) × (c : ℕ) × (t : Bytes) × (s ≡ a ++ r)
      × (r ≡ c ∷ t)
      × (p c ≡ true)
      × All (λ d. p d ≡ false) a
unfolding find_byte
find_byte-some p [] r h = ([], 0, [], cc, cc, cc, tt)
find_byte-some p (c ∷ s) r h = elim (Bool-cases (p c)) [
  | inl e ↦ ([], c, s, ground arith, ground arith, e, tt)
  | inr e ↦
      let (a, d, t, q, u, v, w) = find_byte-some p s r (ground arith) in
      (c ∷ a, d, t, ap (λ x. c ∷ x) q, u, v, (e, w))
]

pub find_byte-append :
    (p : ℕ → Bool) (a : Bytes) (c : ℕ) (t : Bytes)
    → All (λ d. p d ≡ false) a
    → p c ≡ true
    → find_byte p (a ++ c ∷ t) ≡ some (c ∷ t)
unfolding find_byte
find_byte-append p [] c t h e = rw e
find_byte-append p (d ∷ a) c t (hd, h) e = rw hd (find_byte-append p a c t h e)

pub find_byte-none : (p : ℕ → Bool) (a : Bytes) → All (λ d. p d ≡ false) a → find_byte p a ≡ none
unfolding find_byte
find_byte-none p [] h = refl
find_byte-none p (d ∷ a) (hd, h) = rw hd (find_byte-none p a h)

pub find_byte-none_inv :
    (p : ℕ → Bool) (a : Bytes) → find_byte p a ≡ none → All (λ d. p d ≡ false) a
unfolding find_byte
find_byte-none_inv p [] h = tt
find_byte-none_inv p (d ∷ a) h = elim (Bool-cases (p d)) [
  | inl e ↦ absurd (ground arith)
  | inr e ↦ (e, find_byte-none_inv p a (ground arith))
]

pub strrchr_Lacks : (s : Bytes) (c : ℕ) → Lacks c s → strrchr s c ≡ none
unfolding strrchr
strrchr_Lacks [] c h = refl
strrchr_Lacks (d ∷ s) c (ne, h) = ground (arith, strrchr_Lacks s c h)

pub strrchr-append : (a t : Bytes) (c : ℕ) → Lacks c t → strrchr (a ++ c ∷ t) c ≡ some (c ∷ t)
unfolding strrchr
strrchr-append [] t c h = ground (arith, strrchr_Lacks t c h)
strrchr-append (d ∷ a) t c h = ground (arith, strrchr-append a t c h)

pub strrchr_none : (s : Bytes) (c : ℕ) → strrchr s c ≡ none → Lacks c s
unfolding strrchr
strrchr_none [] c h = tt
strrchr_none (d ∷ s) c h = (ground arith, strrchr_none s c (ground arith))

-- What a search from the end finds: the last `c` of the string.
pub strrchr-some :
    (s r : Bytes) (c : ℕ)
    → strrchr s c ≡ some r
    → (a : Bytes) × (t : Bytes) × (s ≡ a ++ r) × (r ≡ c ∷ t) × Lacks c t
unfolding strrchr
strrchr-some [] r c h = ([], [], cc, cc, tt)
strrchr-some (d ∷ s) r c h = elim (Option-cases (strrchr s c)) [
  | inl e ↦ ([], s, ground arith, ground arith, strrchr_none s c e)
  | inr (p, e) ↦
      let (a, t, q, u, v) = strrchr-some s r c (ground arith) in (d ∷ a, t, ap (λ x. d ∷ x) q, u, v)
]

pub Lacks-unseen : (c : ℕ) (s : Bytes) → Lacks c s → All (λ d. (d == c) ≡ false) s
Lacks-unseen c [] h = tt
Lacks-unseen c (d ∷ s) (ne, h) = (ground arith, Lacks-unseen c s h)

pub unseen-Lacks : (c : ℕ) (s : Bytes) → All (λ d. (d == c) ≡ false) s → Lacks c s
unseen-Lacks c [] h = tt
unseen-Lacks c (d ∷ s) (ne, h) = (ground arith, unseen-Lacks c s h)

pub strchr-append : (a t : Bytes) (c : ℕ) → Lacks c a → strchr (a ++ c ∷ t) c ≡ some (c ∷ t)
strchr-append a t c h = find_byte-append (λ d. d == c) a c t (Lacks-unseen c a h) (==_refl c)

pub strchr_Lacks : (s : Bytes) (c : ℕ) → Lacks c s → strchr s c ≡ none
strchr_Lacks s c h = find_byte-none (λ d. d == c) s (Lacks-unseen c s h)

-- A byte is missing, or the string splits at its first occurrence.
pub split_at :
    (c : ℕ) (s : Bytes) → Lacks c s ⊎ ((a : Bytes) × (t : Bytes) × (s ≡ a ++ c ∷ t) × Lacks c a)
split_at c s = elim (Option-cases (strchr s c)) [
  | inl e ↦ inl (unseen-Lacks c s (find_byte-none_inv (λ d. d == c) s e))
  | inr (r, e) ↦
      let (a, d, t, q, u, v, w) = find_byte-some (λ d. d == c) s r e in
      inr (a, t, cc (q, u, (==_iff d c).0 v), unseen-Lacks c a w)
]
