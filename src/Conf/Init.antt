-- ===== src/Conf/Init.antt =====
-- `flappy_conf_init` returns, and keeps the fields and the repositories of the handle in shape.
use flappy.Base.{
  ℕ, ◌≡◌, refl, Bool, inl, inr, List, [], ◌∷◌, Option, none, some, ◌==◌, ltb, if◌then◌else◌, Bytes,
  codes, length, Bool-cases, All,
}
use flappy.Conf.Store.{Handle, Globbed, matched, no_match, no_space, other_error}
use flappy.Conf.Files.{
  glob_path, files_globbed, Line, Opened, lines, Parsing, path_max, enomem, basename, dirname,
  has_name, parse_file_with, files_loop, parse_files_glob, parse_nested, parse_file, dir_files,
  conf_init,
}
use flappy.Conf.Kept.{IsHandle, Returns, Returns-bind}
use flappy.Conf.Total.{Fits}
use flappy.Conf.Options.{InShape, Include, Keeps, Opened-cases, parse_lines-InShape}

module _ (fnmatch : Bytes → Bytes → ℕ → Bool) (realpath : Bytes → Option Bytes)
    (glob : Bytes → Globbed) (fopen : Bytes → Opened) where
  -- The buffers hold what the lengths of the lines count too many, in every file.
  abbrev pub AllFit : Type 0
  AllFit = (path : Bytes) (text : List Line) → fopen path ≡ lines text → All Fits text

  parse_file_with-InShape :
      (include : Include) (path : Bytes) (xhp : Handle)
      → Keeps include
      → AllFit
      → IsHandle xhp
      → Returns InShape (parse_file_with fnmatch realpath glob fopen include path xhp)
  unfolding parse_file_with
  parse_file_with-InShape include path xhp k fit h = elim (Opened-cases (fopen path)) [
    | inl (text, e) ↦
        rw (parse_file_with, e)
          (parse_lines-InShape fnmatch realpath glob fopen include text (xhp, 0) k (fit path text e)
            h)
    | inr (errno, e) ↦ ((xhp, errno), rw (parse_file_with, e) refl, h)
  ]

  -- What is shown of `parse_file`, nested or not.
  abbrev Parses : (Bytes → Handle → Option Parsing) → Type 0
  Parses parse = (path : Bytes) (xhp : Handle) → IsHandle xhp → Returns InShape (parse path xhp)

  abbrev Globs : Type 0
  Globs = Option (List Bytes) × Parsing

  files_loop-InShape :
      (parse : Bytes → Handle → Option Parsing) (seen : Option (List Bytes)) (paths : List Bytes)
      (s : Parsing)
      → Parses parse
      → InShape s
      → Returns (λ r. InShape r.1) (files_loop fnmatch realpath glob fopen parse seen paths s)
  unfolding files_loop
  files_loop-InShape parse seen [] s k h = ((seen, s), refl, h)
  files_loop-InShape parse none (path ∷ paths) s k h =
      Returns-bind {B = Globs} InShape (λ r. InShape r.1) (parse path s.0) _ (k path s.0 h)
        (λ s' h'. files_loop-InShape parse none paths (s'.0, if s'.1 == 0 then s.1 else s'.1) k h')
  files_loop-InShape parse (some names) (path ∷ paths) s k h =
      elim (Bool-cases (has_name names (basename path))) [
        | inl e ↦ rw (files_loop, e) (files_loop-InShape parse (some names) paths s k h)
        | inr e ↦
            rw (files_loop, e)
              (Returns-bind {B = Globs} InShape (λ r. InShape r.1) (parse path s.0) _ (k path s.0 h)
                (λ s' h'.
                  files_loop-InShape parse (some (basename path ∷ names)) paths
                    (s'.0, if s'.1 == 0 then s.1 else s'.1) k h'))
      ]

  globbed-InShape :
      (parse : Bytes → Handle → Option Parsing) (seen : Option (List Bytes)) (xhp : Handle)
      (g : Globbed)
      → Parses parse
      → IsHandle xhp
      → Returns (λ r. InShape r.1) (files_globbed fnmatch realpath glob fopen parse seen xhp g)
  unfolding files_globbed
  globbed-InShape parse seen xhp no_space k h = ((seen, (xhp, enomem)), refl, h)
  globbed-InShape parse seen xhp no_match k h = ((seen, (xhp, 0)), refl, h)
  globbed-InShape parse seen xhp other_error k h = ((seen, (xhp, 0)), refl, h)
  globbed-InShape parse seen xhp (matched paths) k h =
      files_loop-InShape parse seen paths (xhp, 0) k h

  parse_files_glob-InShape :
      (parse : Bytes → Handle → Option Parsing) (seen : Option (List Bytes)) (cwd pat : Bytes)
      (xhp : Handle)
      → Parses parse
      → IsHandle xhp
      → Returns
          (λ r. InShape r.1)
          (parse_files_glob fnmatch realpath glob fopen parse seen cwd pat xhp)
  unfolding parse_files_glob
  parse_files_glob-InShape parse seen cwd pat xhp k h =
      let path = glob_path cwd pat xhp in
      elim (Bool-cases (ltb (length path) path_max)) [
        | inl e ↦ rw (parse_files_glob, e) (globbed-InShape parse seen xhp (glob path) k h)
        | inr e ↦ ((seen, (xhp, enomem)), rw (parse_files_glob, e) refl, h)
      ]

  parse_nested-Parses : AllFit → Parses (parse_nested fnmatch realpath glob fopen)
  unfolding parse_nested
  parse_nested-Parses fit path xhp h = parse_file_with-InShape none path xhp tt fit h

  parse_file-Parses : AllFit → Parses (parse_file fnmatch realpath glob fopen)
  unfolding parse_file
  parse_file-Parses fit path xhp h =
      parse_file_with-InShape _ path xhp
        (λ val x ok.
          Returns-bind {B = Parsing} (λ r. InShape r.1) InShape
            (parse_files_glob fnmatch realpath glob fopen (parse_nested fnmatch realpath glob fopen)
              none (dirname path) val x)
            (λ r. some r.1)
            (parse_files_glob-InShape (parse_nested fnmatch realpath glob fopen) none (dirname path)
              val x (parse_nested-Parses fit) ok)
            (λ r ok'. (r.1, refl, ok')))
        fit h

  dir_files-InShape :
      (dir : Bytes) (seen : Option (List Bytes)) (xhp : Handle)
      → AllFit
      → IsHandle xhp
      → Returns (λ r. InShape r.1) (dir_files fnmatch realpath glob fopen dir seen xhp)
  unfolding dir_files
  dir_files-InShape [] seen xhp fit h = ((seen, (xhp, 0)), refl, h)
  dir_files-InShape (c ∷ dir) seen xhp fit h =
      parse_files_glob-InShape (parse_file fnmatch realpath glob fopen) seen (c ∷ dir)
        (codes "*.conf") xhp (parse_file-Parses fit) h

  -- `flappy_conf_init`, where at least as many bytes stand behind each line in its buffer as the line
  -- has blanks in front, returns. If the strings `rootdir`, `cachedir` and `native_arch`
  -- fit in their arrays and the repositories are different from each other before the call, they do
  -- and are after it, also where a file ends in an error.
  pub conf_init-InShape :
      (confdir sysconfdir : Bytes) (xhp : Handle)
      → AllFit
      → IsHandle xhp
      → Returns InShape (conf_init fnmatch realpath glob fopen confdir sysconfdir xhp)
  unfolding conf_init
  conf_init-InShape confdir sysconfdir xhp fit h =
      let ((seen, s), e, ok) = dir_files-InShape confdir (some []) xhp fit h in
      let (r, k, ok') = dir_files-InShape sysconfdir seen s.0 fit ok in
      elim (Bool-cases (s.1 == 0)) [
        | inl z ↦ (r.1, rw (e, z, k) refl, ok')
        | inr z ↦ (s, rw (e, z) refl, ok)
      ]
