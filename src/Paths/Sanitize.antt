-- ===== src/Paths/Sanitize.antt =====
-- `flappy_sanitize_path` of lib/util.c, for which the path is not empty: it asserts that first.
pub mod Laws
use flappy.Base.{◌≡◌, refl, Bool, ◌&&◌, [], ◌∷◌, ◌==◌, if◌then◌else◌, Bytes}
use flappy.Paths.{is_rooted}

-- The loop: a slash in front of another slash is left out.
pub sanitize_path : Bytes → Bytes
sanitize_path [] = []
sanitize_path (c ∷ s) =
    let rest = sanitize_path s in if c == b'/' && is_rooted s then rest else c ∷ rest
