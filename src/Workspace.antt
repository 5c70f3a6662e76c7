-- ===== src/Workspace.antt =====
-- The workspace that a synchronisation writes (dev-agent/main.go): its files, the manifest that
-- names the managed ones, and the checks of paths.
pub mod Files
pub mod Digest
pub mod Bundle
pub mod Manifests
pub mod Links
pub mod Reload
pub mod Step
pub mod Stages
pub mod Stamp
pub mod Sync
pub mod Served
pub mod Preflight
pub mod Handler
pub mod Contract
pub mod Promises
pub mod Frame
pub mod Applied
pub mod Synced
pub mod Revisions
pub mod Mutate
pub mod Commit
pub mod Diff
pub mod Seed
pub mod Status
use provider_infrastructure.Prelude.{
  ℕ, Bool, true, false, not, ◌&&◌, ◌||◌, List, [], ◌∷◌, ◌++◌, Option, none, some, any, map, ◌==◌,
  if◌then◌else◌,
}
use provider_infrastructure.Text.{Text, codes, text_eq, is_empty, trim_space, split}
use provider_infrastructure.Command.Path.{
  is_abs, path_clean, is_reserved, manifest_name, has_prefix,
}

-- What stands at a path. A socket cannot be opened; pipes and devices, at which an open may wait or
-- a write may go elsewhere, are no part of the model.
pub data Node : Type 0 where
  regular : List ℕ → Node
  folder symlink socket : Node

-- The files below the root but the manifest, by their path without `.` and `..`; no path goes below
-- the manifest's name.
abbrev pub Disk : Type 0
Disk = Text → Option Node

-- `workspaceManifest`
pub record Manifest : Type 0 where
  pub source_revision : ℕ
  pub source_digest : Text
  pub files : List Text
  pub pending_reload_commands : List Text

-- The manifest's file: absent, not readable as JSON, or what it decodes to.
pub data ManifestFile : Type 0 where
  absent undecodable : ManifestFile
  decoded : Manifest → ManifestFile

pub record Workspace : Type 0 where
  pub disk : Disk
  pub manifest : ManifestFile

-- How the write of a file ends; a write that fails may leave other bytes.
pub data FileWrite : Type 0 where
  complete untouched : FileWrite
  torn : List ℕ → FileWrite

-- How the write of the manifest's temporary file and its renaming end: the file cannot be opened,
-- it is cut short, or it is not renamed and is removed. `cut` is also the end where it is left.
pub data ManifestWrite : Type 0 where
  saved unopened unrenamed : ManifestWrite
  cut : List ℕ → ManifestWrite

-- What a part of an operation meets in the file system: its faults and, in `write_through`, what
-- the write of the manifest through a symbolic link at the name of its temporary file does.
pub record Faults : Type 0 where
  pub lstat_fails : Text → Bool
  pub read_fails : Text → Bool
  pub mkdir_fails : Text → Bool
  pub write : Text → FileWrite
  pub remove_fails : Text → Bool
  pub manifest_write : ManifestWrite
  pub write_through : Manifest → Workspace → Workspace × Bool

-- `strings.ReplaceAll(s, "\\", "/")`
unfoldable pub to_slashes : Text → Text
to_slashes s = map (λ c. if c == b'\\' then b'/' else c) s

-- The end of `cleanWorkspacePath`, on the cleaned path.
abbrev pub accept_path : Text → Option Text
accept_path path =
    if text_eq path (codes ".") || text_eq path (codes "..") || has_prefix path (codes "../")
    then none
    else if text_eq path manifest_name
    then none
    else some path

abbrev pub clean_slashed : Text → Option Text
clean_slashed raw = if is_empty raw || is_abs raw then none else accept_path (path_clean raw)

-- `cleanWorkspacePath`
unfoldable pub clean_workspace_path : Text → Option Text
unfolding to_slashes
clean_workspace_path raw = clean_slashed (to_slashes (trim_space raw))

-- `validateManagedWorkspacePath`: whether it returns no error.
unfoldable pub is_managed_path : Text → Bool
is_managed_path clean = not (any is_reserved (split clean b'/'))

-- What `Lstat` tells.
pub data Stat : Type 0 where
  missing unknown : Stat
  stat : Node → Stat

abbrev pub stat_of : Option Node → Stat
stat_of none = missing
stat_of (some n) = stat n

unfoldable pub lstat : Faults → Disk → Text → Stat
lstat f d path = if f.lstat_fails path then unknown else stat_of (d path)

-- `strings.Join(parts[:index+1], "/")` from that of the parts before.
abbrev pub extend : Text → Text → Text
extend [] part = part
extend (c ∷ prefix) part = (c ∷ prefix) ++ (b'/' ∷ part)

-- The ends of `ensureExecPathNoSymlink`.
pub data Walk : Type 0 where
  safe on_symlink not_folder unreadable : Walk

abbrev pub is_last : List Text → Bool
is_last [] = true
is_last (p ∷ ps) = false

-- A round of `ensureExecPathNoSymlink`; `rest` is what the later rounds give. A target that is no
-- symbolic link ends the walk well whether it is included or not.
abbrev pub walk_at : Stat → Bool → Walk → Walk
walk_at missing last rest = safe
walk_at unknown last rest = unreadable
walk_at (stat symlink) last rest = on_symlink
walk_at (stat folder) last rest = rest
walk_at (stat _) last rest = if last then safe else not_folder

unfoldable pub walk : Faults → Disk → Text → List Text → Walk
unfolding lstat
walk f d prefix [] = safe
walk f d prefix (part ∷ parts) =
    let rest = walk f d (extend prefix part) parts in
    walk_at (lstat f d (extend prefix part)) (is_last parts) rest

-- `ensureExecPathNoSymlink`
unfoldable pub ensure_no_symlink : Faults → Disk → Text → Walk
unfolding walk
ensure_no_symlink f d clean = walk f d [] (split clean b'/')

abbrev pub is_safe : Walk → Bool
is_safe safe = true
is_safe _ = false
