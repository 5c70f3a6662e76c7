-- ===== src/Command/Path.antt =====
-- The paths of a command within the workspace (`cleanExecPath` and `cleanExecWorkDir` of
-- dev-agent/exec_server.go), with `path.Clean`.
pub mod Safety
use provider_infrastructure.Prelude.{
  ℕ, Bool, true, false, not, ◌&&◌, ◌||◌, List, [], ◌∷◌, Option, none, some, ltb, ◌==◌,
  if◌then◌else◌, reverse,
}
use provider_infrastructure.Text.{
  Text, codes, text_eq, is_empty, byte_len, trim_space, contains_rune, cut_prefix, split, join,
  to_lower,
}

-- The errors of the two functions, by their cause.
pub data PathError : Type 0 where
  not_slash_separated path_escape reserved_component reserved_manifest too_long : PathError

pub data Cleaned : Type 0 where
  clean : Text → Cleaned
  rejected : PathError → Cleaned

-- `path.IsAbs`
unfoldable pub is_abs : Text → Bool
is_abs [] = false
is_abs (c ∷ s) = c == b'/'

-- What `..` does to the components that are kept, the last one first.
unfoldable pub pop : Bool → List Text → List Text
pop rooted [] = if rooted then [] else codes ".." ∷ []
pop rooted (k ∷ ks) = if text_eq k (codes "..") then codes ".." ∷ k ∷ ks else ks

-- The components that `path.Clean` keeps.
unfoldable pub reduce : Bool → List Text → List Text → List Text
unfolding pop
reduce rooted kept [] = reverse kept
reduce rooted kept (p ∷ ps) =
    let skipped = reduce rooted kept ps in
    let popped = reduce rooted (pop rooted kept) ps in
    let pushed = reduce rooted (p ∷ kept) ps in
    if is_empty p || text_eq p (codes ".")
    then skipped
    else if text_eq p (codes "..")
    then popped
    else pushed

unfoldable pub render : Bool → List Text → Text
render true parts = b'/' ∷ join parts b'/'
render false [] = codes "."
render false (p ∷ ps) = join (p ∷ ps) b'/'

-- `path.Clean`
unfoldable pub path_clean : Text → Text
unfolding is_abs reduce render
path_clean path = render (is_abs path) (reduce (is_abs path) [] (split path b'/'))

-- The components that a path must not have, in lower case.
unfoldable pub is_reserved : Text → Bool
is_reserved part =
    text_eq (to_lower part) (codes ".git")
    || text_eq (to_lower part) (codes "node_modules")
    || text_eq (to_lower part) (codes ".assistant-snapshots")

-- The loop of `cleanExecPath` over the components.
unfoldable pub check_parts : List Text → Option PathError
unfolding is_reserved
check_parts [] = none
check_parts (p ∷ ps) =
    let rest = check_parts ps in
    if text_eq p (codes "..")
    then some path_escape
    else if is_reserved p
    then some reserved_component
    else rest

abbrev pub manifest_name : Text
manifest_name = codes ".railgrid-workspace-manifest.json"

abbrev pub has_prefix : Text → Text → Bool
has_prefix s p = elim (cut_prefix s p) [ none ↦ false | some _ ↦ true ]

-- The end of `cleanExecPath`, on the cleaned path.
abbrev pub accept : Text → Cleaned
accept path =
    if text_eq path (codes ".") || text_eq path (codes "..") || has_prefix path (codes "../")
    then rejected path_escape
    else if text_eq path manifest_name
    then rejected reserved_manifest
    else clean path

abbrev pub after_parts : Option PathError → Text → Cleaned
after_parts (some e) raw = rejected e
after_parts none raw = accept (path_clean raw)

-- `cleanExecPath`, after the surrounding space is cut.
abbrev pub clean_trimmed : Text → Cleaned
clean_trimmed raw =
    if is_empty raw || contains_rune raw 0 || contains_rune raw b'\\'
    then rejected not_slash_separated
    else if is_abs raw
    then rejected path_escape
    else after_parts (check_parts (split raw b'/')) raw

-- `cleanExecPath`
unfoldable pub clean_exec_path : Text → Cleaned
unfolding is_abs check_parts
clean_exec_path raw = clean_trimmed (trim_space raw)

abbrev pub max_work_dir_bytes : ℕ
max_work_dir_bytes = 256

unfoldable pub has_parent : List Text → Bool
has_parent [] = false
has_parent (p ∷ ps) = text_eq p (codes "..") || has_parent ps

-- `cleanExecWorkDir`, after the surrounding space is cut.
abbrev pub clean_trimmed_dir : Text → Cleaned
clean_trimmed_dir raw =
    if is_empty raw
    then clean (codes ".")
    else if ltb max_work_dir_bytes (byte_len raw)
    then rejected too_long
    else if text_eq (path_clean raw) (codes ".")
    then if has_parent (split raw b'/') then rejected path_escape else clean (codes ".")
    else clean_exec_path raw

-- `cleanExecWorkDir`
unfoldable pub clean_exec_work_dir : Text → Cleaned
unfolding has_parent
clean_exec_work_dir raw = clean_trimmed_dir (trim_space raw)
