-- ===== src/Workspace/Links.antt =====
-- The operations on files of a synchronisation or a mutation (dev-agent/main.go) make no symbolic
-- link at the name of the manifest's temporary file, and where there is none the write of the
-- manifest is that of plain files.
use provider_infrastructure.Prelude.{
  ℕ, ◌≡◌, refl, ap, ◌∙◌, inl, inr, Bool, true, false, List, [], ◌∷◌, Option, none, some, Bool-cases,
}
use provider_infrastructure.Text.{Text, text_eq, split}
use provider_infrastructure.Text.Laws.{text_eq_iff}
use provider_infrastructure.Workspace.{
  Node, regular, folder, symlink, socket, Disk, Manifest, decoded, Workspace, FileWrite, complete,
  untouched, torn, ManifestWrite, saved, unopened, unrenamed, cut, Faults, Stat, missing, unknown,
  stat, lstat, is_safe, ensure_no_symlink, clean_workspace_path,
}
use provider_infrastructure.Workspace.Files.{
  set, parents, make_at, make_folders, put_bytes, write_at, write_file, remove_at, remove_clean,
  remove_managed,
}
use provider_infrastructure.Workspace.Files.Laws.{set-same, set-other}
use provider_infrastructure.Workspace.Digest.{sort_paths}
use provider_infrastructure.Workspace.Sync.{Runtime}
use provider_infrastructure.Workspace.Manifests.{manifest_tmp, save_tmp, save_at, write_manifest}

abbrev pub is_symlink : Option Node → Bool
is_symlink (some symlink) = true
is_symlink _ = false

-- No symbolic link stands at the path.
abbrev pub IsUnlinked : Text → Disk → Type 0
IsUnlinked q d = is_symlink (d q) ≡ false

-- No symbolic link stands at the name of the manifest's temporary file.
abbrev pub HasNoLink : Workspace → Type 0
HasNoLink w = IsUnlinked manifest_tmp w.disk

-- A reload puts no symbolic link at the name of the manifest's temporary file.
abbrev pub LeavesNoLink : Runtime → Type 0
LeavesNoLink runtime =
    (commands : List Text) (w : Workspace) → HasNoLink w → HasNoLink (runtime.reload commands w).0

module _ (q : Text) where
  set-IsUnlinked :
      (path : Text) (entry : Option Node) (d : Disk)
      → is_symlink entry ≡ false
      → IsUnlinked q d
      → IsUnlinked q (set path entry d)
  set-IsUnlinked path entry d fine free = elim (Bool-cases (text_eq q path)) [
    | inl same ↦
        ap is_symlink (ap (set path entry d) ((text_eq_iff q path).0 same) ∙ set-same path entry d)
        ∙ fine
    | inr other ↦ ap is_symlink (set-other path q entry d other) ∙ free
  ]

  make_at-IsUnlinked :
      (fails : Bool) (path : Text) (entry : Option Node) (d : Disk)
      → IsUnlinked q d
      → IsUnlinked q (make_at fails path entry d).0
  make_at-IsUnlinked true path none d free = free
  make_at-IsUnlinked false path none d free = set-IsUnlinked path (some folder) d refl free
  make_at-IsUnlinked fails path (some folder) d free = free
  make_at-IsUnlinked fails path (some (regular b)) d free = free
  make_at-IsUnlinked fails path (some symlink) d free = free
  make_at-IsUnlinked fails path (some socket) d free = free

  make_folders-IsUnlinked :
      (f : Faults) (paths : List Text) (d : Disk)
      → IsUnlinked q d
      → IsUnlinked q (make_folders f paths d).0
  unfolding make_folders
  make_folders-IsUnlinked f [] d free = free
  make_folders-IsUnlinked f (path ∷ paths) d free =
      let made = make_at (f.mkdir_fails path) path (d path) d in
      let here = make_at-IsUnlinked (f.mkdir_fails path) path (d path) d free in
      elim (Bool-cases made.1) [
        | inl fine ↦ rw (fine) (make_folders-IsUnlinked f paths made.0 here)
        | inr broken ↦ rw (broken) here
      ]

  put_bytes-IsUnlinked :
      (outcome : FileWrite) (path : Text) (bytes : List ℕ) (d : Disk)
      → IsUnlinked q d
      → IsUnlinked q (put_bytes outcome path bytes d).0
  put_bytes-IsUnlinked complete path bytes d free =
      set-IsUnlinked path (some (regular bytes)) d refl free
  put_bytes-IsUnlinked untouched path bytes d free = free
  put_bytes-IsUnlinked (torn b) path bytes d free =
      set-IsUnlinked path (some (regular b)) d refl free

  write_at-IsUnlinked :
      (outcome : FileWrite) (entry : Option Node) (path : Text) (bytes : List ℕ) (d : Disk)
      → IsUnlinked q d
      → IsUnlinked q (write_at outcome entry path bytes d).0
  write_at-IsUnlinked outcome none path bytes d free =
      put_bytes-IsUnlinked outcome path bytes d free
  write_at-IsUnlinked outcome (some (regular b)) path bytes d free =
      put_bytes-IsUnlinked outcome path bytes d free
  write_at-IsUnlinked outcome (some folder) path bytes d free = free
  write_at-IsUnlinked outcome (some symlink) path bytes d free = free
  write_at-IsUnlinked outcome (some socket) path bytes d free = free

  pub write_file-IsUnlinked :
      (f : Faults) (path : Text) (bytes : List ℕ) (d : Disk)
      → IsUnlinked q d
      → IsUnlinked q (write_file f path bytes d).0
  unfolding write_file
  write_file-IsUnlinked f path bytes d free =
      let made = make_folders f (parents [] (split path b'/')) d in
      let kept = make_folders-IsUnlinked f (parents [] (split path b'/')) d free in
      elim (Bool-cases made.1) [
        | inl fine ↦
            rw (fine) (write_at-IsUnlinked (f.write path) (made.0 path) path bytes made.0 kept)
        | inr broken ↦ rw (broken) kept
      ]

  remove_at-IsUnlinked :
      (fails : Bool) (s : Stat) (path : Text) (d : Disk)
      → IsUnlinked q d
      → IsUnlinked q (remove_at fails s path d).0
  remove_at-IsUnlinked fails missing path d free = free
  remove_at-IsUnlinked fails unknown path d free = free
  remove_at-IsUnlinked true (stat (regular b)) path d free = free
  remove_at-IsUnlinked false (stat (regular b)) path d free = set-IsUnlinked path none d refl free
  remove_at-IsUnlinked fails (stat folder) path d free = free
  remove_at-IsUnlinked fails (stat symlink) path d free = free
  remove_at-IsUnlinked fails (stat socket) path d free = free

  pub remove_managed-IsUnlinked :
      (f : Faults) (raw : Text) (d : Disk)
      → IsUnlinked q d
      → IsUnlinked q (remove_managed f raw d).0
  unfolding remove_managed
  remove_managed-IsUnlinked f raw d free = at_clean (clean_workspace_path raw)
    where
      at_clean : (clean : Option Text) → IsUnlinked q (remove_clean f clean d).0
      at_clean none = free
      at_clean (some path) = elim (Bool-cases (is_safe (ensure_no_symlink f d path))) [
        | inl fine ↦
            rw (fine) (remove_at-IsUnlinked (f.remove_fails path) (lstat f d path) path d free)
        | inr blocked ↦ rw (blocked) free
      ]

-- The manifest in the form in which it is written.
abbrev pub sorted : Manifest → Manifest
sorted m = record m { files = sort_paths m.files }

-- Where no link is at the temporary file's name, what another file or the manifest as it was gives
-- and the manifest that is written keeps is kept by the write.
pub write_manifest-plain :
    (P : Workspace → Type 0) (f : Faults) (m : Manifest) (w : Workspace)
    → HasNoLink w
    → P w
    → ((entry : Option Node)
        → is_symlink entry ≡ false
        → P (record w { disk = set manifest_tmp entry w.disk }))
    → P (record { disk = set manifest_tmp none w.disk; manifest = decoded (sorted m) })
    → P (write_manifest f m w).0
unfolding write_manifest
write_manifest-plain P f m w free before left after = at_entry (w.disk manifest_tmp) free
  where
    at_tmp : (e : ManifestWrite) → P (save_tmp e (sorted m) w).0
    at_tmp saved = after
    at_tmp unopened = before
    at_tmp unrenamed = left none refl
    at_tmp (cut bytes) = left (some (regular bytes)) refl

    at_entry : (entry : Option Node) → is_symlink entry ≡ false → P (save_at f entry (sorted m) w).0
    at_entry none fine = at_tmp f.manifest_write
    at_entry (some (regular b)) fine = at_tmp f.manifest_write
    at_entry (some symlink) fine = absurd (cc)
    at_entry (some folder) fine = before
    at_entry (some socket) fine = before

pub write_manifest-HasNoLink :
    (f : Faults) (m : Manifest) (w : Workspace) → HasNoLink w → HasNoLink (write_manifest f m w).0
write_manifest-HasNoLink f m w free =
    write_manifest-plain HasNoLink f m w free free
      (λ entry fine. set-IsUnlinked manifest_tmp manifest_tmp entry w.disk fine free)
      (set-IsUnlinked manifest_tmp manifest_tmp none w.disk refl free)

pub write_manifest-done :
    (f : Faults) (m : Manifest) (w : Workspace)
    → HasNoLink w
    → (write_manifest f m w).1 ≡ true
    → (write_manifest f m w).0.manifest ≡ decoded (sorted m)
unfolding write_manifest
write_manifest-done f m w free written = at_entry (w.disk manifest_tmp) free written
  where
    at_tmp :
        (e : ManifestWrite)
        → (save_tmp e (sorted m) w).1 ≡ true
        → (save_tmp e (sorted m) w).0.manifest ≡ decoded (sorted m)
    at_tmp saved h = refl
    at_tmp unopened h = cc
    at_tmp unrenamed h = cc
    at_tmp (cut bytes) h = cc

    at_entry :
        (entry : Option Node)
        → is_symlink entry ≡ false
        → (save_at f entry (sorted m) w).1 ≡ true
        → (save_at f entry (sorted m) w).0.manifest ≡ decoded (sorted m)
    at_entry none fine h = at_tmp f.manifest_write h
    at_entry (some (regular b)) fine h = at_tmp f.manifest_write h
    at_entry (some symlink) fine h = absurd (cc)
    at_entry (some folder) fine h = cc
    at_entry (some socket) fine h = cc
