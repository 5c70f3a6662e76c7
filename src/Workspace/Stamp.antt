-- ===== src/Workspace/Stamp.antt =====
-- The manifest that is stamped after a synchronisation without a revision (`stampPlainSyncManifest`
-- of dev-agent/main.go).
use provider_infrastructure.Prelude.{
  ℕ, suc, Bool, true, false, not, ◌||◌, List, [], ◌∷◌, ◌++◌, Option, none, some, any, map, ◌==◌,
  if◌then◌else◌,
}
use provider_infrastructure.Text.{Text, text_eq, cut_prefix}
use provider_infrastructure.Command.{normalize_source_digest}
use provider_infrastructure.Command.Path.{has_prefix}
use provider_infrastructure.Workspace.{
  regular, Disk, Manifest, Faults, Stat, missing, unknown, stat, Walk, safe, unreadable, lstat,
  ensure_no_symlink, is_managed_path,
}
use provider_infrastructure.Workspace.Digest.{Source, preimage, sort_paths}
use provider_infrastructure.Workspace.Manifests.{write_manifest}
use provider_infrastructure.Workspace.Step.{Handling, ◌>>=◌, give, require, expect, workspace_now}
use provider_infrastructure.Workspace.Stages.{unique, previous_files}

-- The path is deleted, or lies beneath one that is.
unfoldable pub is_deleted : List Text → Text → Bool
unfolding cut_prefix text_eq
is_deleted deleted clean = any (λ p. text_eq clean p || has_prefix clean (p ++ (b'/' ∷ []))) deleted

unfoldable pub keep : (Text → Bool) → List Text → List Text
keep test [] = []
keep test (p ∷ ps) = let rest = keep test ps in if test p then p ∷ rest else rest

-- The managed paths of `stampPlainSyncManifest`, in order.
unfoldable pub managed_set : Option Manifest → List Text → List Text → List Text
unfolding sort_paths unique keep is_deleted
managed_set previous written deleted = sort_paths (
    keep (λ p. not (is_deleted deleted p))
      (unique (previous_files previous ++ keep is_managed_path written)))

-- What a round of its loop does with a path: it digests the bytes, goes past it, or has an error.
pub data Read : Type 0 where
  bytes : List ℕ → Read
  passed_by fault : Read

abbrev pub read_stat : Bool → Stat → Read
read_stat fails missing = passed_by
read_stat fails unknown = fault
read_stat fails (stat (regular content)) = if fails then fault else bytes content
read_stat fails (stat _) = passed_by

abbrev pub read_walk : Walk → Read → Read
read_walk safe at_path = at_path
read_walk unreadable at_path = fault
read_walk _ at_path = passed_by

unfoldable pub read_managed : Faults → Disk → Text → Read
unfolding lstat ensure_no_symlink
read_managed f d path =
    read_walk (ensure_no_symlink f d path) (read_stat (f.read_fails path) (lstat f d path))

abbrev pub add_read : Text → Read → Option (List Source) → Option (List Source)
add_read path (bytes content) (some files) = some ((path, content) ∷ files)
add_read path passed_by rest = rest
add_read path _ _ = none

-- Its loop over the paths.
unfoldable pub disk_sources : Faults → Disk → List Text → Option (List Source)
unfolding read_managed
disk_sources f d [] = some []
disk_sources f d (path ∷ paths) =
    let rest = disk_sources f d paths in add_read path (read_managed f d path) rest

abbrev pub max_revision : ℕ
max_revision = 0xffff_ffff_ffff_ffff

-- The revision and the spelling of the digest that are stamped; none where the revisions are
-- exhausted.
abbrev pub next_stamp : Option Manifest → Text → Option (ℕ × Text)
next_stamp none digest = some (1, digest)
next_stamp (some m) digest =
    if text_eq digest (normalize_source_digest m.source_digest)
    then some (m.source_revision, m.source_digest)
    else if m.source_revision == max_revision
    then none
    else some (suc m.source_revision, digest)

abbrev pub nothing_managed : Option Manifest → List Source → Bool
nothing_managed none [] = true
nothing_managed _ _ = false

-- `writeWorkspaceManifest`, whose error is answered with status 500.
unfoldable pub save_manifest : Faults → Manifest → Handling (Unit {0})
unfolding write_manifest
save_manifest f m w = let (w', fine) = write_manifest f m w in require fine 500 w'

abbrev pub stamp_of : ℕ × Text → List Source → List Text → Manifest
stamp_of stamp files pending = record {
  source_revision = stamp.0;
  source_digest = stamp.1;
  files = map (λ s. s.0) files;
  pending_reload_commands = pending;
}

-- `stampPlainSyncManifest`: the manifest it stamps, if it stamps one.
unfoldable pub stamp_plain :
    (List ℕ → Text)
    → Faults
    → Option Manifest
    → List Text
    → List Text
    → List Text
    → Handling (Option Manifest)
unfolding managed_set disk_sources preimage save_manifest
stamp_plain hash f previous written deleted pending = do
  w ← workspace_now
  files ← expect (disk_sources f w.disk (managed_set previous written deleted)) 500
  if nothing_managed previous files then give none else (do
    stamp ← expect (next_stamp previous (hash (preimage files))) 500
    let manifest : Manifest = stamp_of stamp files pending
    recorded ← save_manifest f manifest
    give (some manifest))
