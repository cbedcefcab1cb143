-- ===== src/Paths/Spec.antt =====
-- What a cleaned path is, element by element.
use flappy.Paths.{is_rooted}
use flappy.Base.{
  str_eq, ℕ, zero, suc, Bool, true, false, List, [], ◌∷◌, ◌++◌, ◌==◌, if◌then◌else◌, Bytes, codes,
}

-- The elements between slashes, the empty ones too.
abbrev pub grow_first : ℕ → List Bytes → List Bytes
grow_first c [] = (c ∷ []) ∷ []
grow_first c (e ∷ es) = (c ∷ e) ∷ es

unfoldable pub split : Bytes → List Bytes
split [] = [] ∷ []
split (c ∷ s) = let rest = split s in if c == b'/' then [] ∷ rest else grow_first c rest

-- A path as its elements: `..` so many times, and then names, the last one first.
pub record Place : Type 0 where
  pub ups : ℕ
  pub names : List Bytes

-- One level up: it takes the last name off. With no name, the root stays, and a relative path
-- gets a `..`.
abbrev pub parent : Bool → ℕ → List Bytes → Place
parent rooted ups (e ∷ names) = record { ups = ups; names = names }
parent true ups [] = record { ups = ups; names = [] }
parent false ups [] = record { ups = suc ups; names = [] }

unfoldable pub place_step : Bool → Bytes → Place → Place
place_step rooted [] at = at
place_step rooted (c ∷ e) at =
    if str_eq (c ∷ e) (codes ".")
    then at
    else if str_eq (c ∷ e) (codes "..")
    then parent rooted at.ups at.names
    else record at { names = (c ∷ e) ∷ at.names }

unfoldable pub walk : Bool → List Bytes → Place → Place
walk rooted [] at = at
walk rooted (e ∷ es) at = walk rooted es (place_step rooted e at)

abbrev pub origin : Place
origin = record { ups = 0; names = [] }

-- The elements of a place, in their order.
unfoldable pub name_list : List Bytes → List Bytes → List Bytes
name_list [] later = later
name_list (e ∷ names) later = name_list names (e ∷ later)

unfoldable pub up_list : ℕ → List Bytes → List Bytes
up_list zero later = later
up_list (suc n) later = codes ".." ∷ up_list n later

unfoldable pub join : List Bytes → Bytes
join [] = []
join (e ∷ []) = e
join (e ∷ f ∷ es) = e ++ b'/' ∷ join (f ∷ es)

abbrev pub or_dot : Bytes → Bytes
or_dot [] = codes "."
or_dot (c ∷ s) = c ∷ s

-- The text of a place: a slash if it is rooted, and the elements with slashes between them; a dot
-- if that is empty.
unfoldable pub spelled : Bool → Place → Bytes
spelled true at = b'/' ∷ join (up_list at.ups (name_list at.names []))
spelled false at = or_dot (join (up_list at.ups (name_list at.names [])))

-- The place that the elements of a path lead to.
unfoldable pub place_of : Bytes → Place
place_of s = walk (is_rooted s) (split s) origin
