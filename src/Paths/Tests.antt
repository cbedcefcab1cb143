-- ===== src/Paths/Tests.antt =====
-- Runs of the functions on file paths.
use flappy.Base.{
  ◌<◌, List, [], ◌∷◌, Bytes, none, length, true, ◌≡◌, refl, some, arith, codes, str_eq,
}
use flappy.Strl.{strlcpy, strlcat}
use flappy.Paths.Glue.Join.{path_join, join_loop}
use flappy.Paths.Glue.Join.Laws.{joined, path_join-joined}
use flappy.Paths.{
  is_rooted, path_clean, clean_loop, clean_round, copy_element, up, slash, backtrack,
}
use flappy.Paths.Spec.{spelled, place_of, split, walk, place_step, name_list, up_list, join}
use flappy.Paths.Glue.{path_append}
use flappy.Paths.Glue.Laws.{Glues, glued, path_append-glued}
use flappy.Paths.Sanitize.{sanitize_path}
use flappy.Paths.Sanitize.Laws.{one_slash, sanitize_path-place_of}
use flappy.Paths.Stable.{path_clean_stable}
use flappy.Paths.Render.{path_clean-spelled}

path_clean-spelled_example :
    path_clean (codes "/usr/./lib//../../../var/db/x/..") ≡ some (codes "/var/db")
unfolding spelled place_of split walk place_step name_list up_list join str_eq
path_clean-spelled_example =
    (path_clean-spelled (codes "/usr/./lib//../../../var/db/x/..")).0 (omega arith)

relative : path_clean (codes "a/../../b/") ≡ some (codes "../b")
unfolding spelled place_of split walk place_step name_list up_list join str_eq
relative = (path_clean-spelled (codes "a/../../b/")).0 (omega arith)

nothing : path_clean (codes "a/..") ≡ some (codes ".")
unfolding path_clean strlcpy clean_loop clean_round copy_element up slash backtrack
nothing = refl

path_append-glued_example :
    Glues (glued (codes "/usr/") (codes "/bin")) 16 (path_append (codes "/usr/") 16 (codes "/bin"))
path_append-glued_example =
    path_append-glued (codes "/usr/") (codes "/bin") 16 (omega arith) (λ e. cc e)

sanitize_path-place_of_example :
    (one_slash (sanitize_path (codes "//usr///bin/")) ≡ true)
    × (is_rooted (sanitize_path (codes "//usr///bin/")) ≡ is_rooted (codes "//usr///bin/"))
    × (place_of (sanitize_path (codes "//usr///bin/")) ≡ place_of (codes "//usr///bin/"))
sanitize_path-place_of_example = sanitize_path-place_of (codes "//usr///bin/")

path_clean_stable_example :
    (path_clean (codes "/var/db") ≡ some (codes "/var/db"))
    × (place_of (codes "/var/db") ≡ place_of (codes "/usr/./lib//../../../var/db/x/.."))
path_clean_stable_example =
    path_clean_stable (codes "/usr/./lib//../../../var/db/x/..") (codes "/var/db")
      path_clean-spelled_example (omega arith)

abbrev vals : List Bytes
vals = codes "/share" ∷ codes "doc" ∷ []

fits : length (joined (codes "/usr/") vals) < 16
unfolding joined
fits = omega arith

path_join-joined_example :
    path_join 16 (codes "/usr/" ∷ codes "/share" ∷ codes "doc" ∷ [])
    ≡ some (joined (codes "/usr/") vals, some (length (joined (codes "/usr/") vals)))
path_join-joined_example = path_join-joined 16 (codes "/usr/") vals fits

-- A string that leaves room for its NUL only, with a part to come: the slash is written in the last
-- byte and the NUL behind the buffer.
join_overflow : path_join 5 (codes "/usr" ∷ codes "b" ∷ []) ≡ none
unfolding path_join join_loop strlcat
join_overflow = refl
