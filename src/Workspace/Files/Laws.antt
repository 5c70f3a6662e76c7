-- ===== src/Workspace/Files/Laws.antt =====
-- What the operations on files (dev-agent/main.go) do to the file at a path.
use provider_infrastructure.Prelude.{
  ℕ, ◌≡◌, ◌≢◌, refl, sym, ap, ◌∙◌, inl, inr, Bool, true, false, List, [], ◌∷◌, Option, none, some,
  Bool-cases, arith,
}
use provider_infrastructure.Text.{Text, text_eq, split}
use provider_infrastructure.Text.Laws.{text_eq_iff, text_eq_refl}
use provider_infrastructure.Workspace.{
  Node, regular, folder, symlink, socket, Disk, FileWrite, complete, untouched, torn, Faults, Stat,
  missing, unknown, stat, lstat, is_safe, ensure_no_symlink, clean_workspace_path,
}
use provider_infrastructure.Workspace.Files.{
  set, parents, make_at, make_folders, put_bytes, write_at, write_file, differs_from,
  content_changed, remove_at, remove_clean, remove_managed,
}

-- The file at the path has the bytes.
abbrev pub Stored : Text → List ℕ → Disk → Type 0
Stored path bytes d = d path ≡ some (regular bytes)

pub set-same : (path : Text) (entry : Option Node) (d : Disk) → set path entry d path ≡ entry
unfolding set
set-same path entry d = ground (arith, text_eq_refl path)

pub set-other :
    (path q : Text) (entry : Option Node) (d : Disk)
    → text_eq q path ≡ false
    → set path entry d q ≡ d q
unfolding set
set-other path q entry d other = ground arith

-- A path where nothing stands is not the path of a file.
set-Stored :
    (path q : Text) (entry : Option Node) (d : Disk) {bytes : List ℕ}
    → d path ≡ none
    → Stored q bytes d
    → Stored q bytes (set path entry d)
set-Stored path q entry d free stored = elim (Bool-cases (text_eq q path)) [
  | inl same ↦ absurd (cc (rw (ap d ((text_eq_iff q path).0 same), free) at stored))
  | inr other ↦ set-other path q entry d other ∙ stored
]

make_at-Stored :
    (fails : Bool) (path q : Text) (entry : Option Node) (d : Disk) {bytes : List ℕ}
    → d path ≡ entry
    → Stored q bytes d
    → Stored q bytes (make_at fails path entry d).0
make_at-Stored true path q none d at_path stored = stored
make_at-Stored false path q none d at_path stored = set-Stored path q (some folder) d at_path stored
make_at-Stored fails path q (some folder) d at_path stored = stored
make_at-Stored fails path q (some (regular b)) d at_path stored = stored
make_at-Stored fails path q (some symlink) d at_path stored = stored
make_at-Stored fails path q (some socket) d at_path stored = stored

make_folders-Stored :
    (f : Faults) (paths : List Text) (q : Text) (d : Disk) {bytes : List ℕ}
    → Stored q bytes d
    → Stored q bytes (make_folders f paths d).0
unfolding make_folders
make_folders-Stored f [] q d stored = stored
make_folders-Stored f (path ∷ paths) q d stored =
    let here = make_at-Stored (f.mkdir_fails path) path q (d path) d refl stored in
    ground (
      arith,
      here,
      make_folders-Stored f paths q (make_at (f.mkdir_fails path) path (d path) d).0 here,
    )

put_bytes-other :
    (outcome : FileWrite) (path q : Text) (bytes : List ℕ) (d : Disk)
    → text_eq q path ≡ false
    → (put_bytes outcome path bytes d).0 q ≡ d q
put_bytes-other complete path q bytes d other = set-other path q _ d other
put_bytes-other untouched path q bytes d other = refl
put_bytes-other (torn b) path q bytes d other = set-other path q _ d other

write_at-other :
    (outcome : FileWrite) (entry : Option Node) (path q : Text) (bytes : List ℕ) (d : Disk)
    → text_eq q path ≡ false
    → (write_at outcome entry path bytes d).0 q ≡ d q
write_at-other outcome none path q bytes d other = put_bytes-other outcome path q bytes d other
write_at-other outcome (some (regular b)) path q bytes d other =
    put_bytes-other outcome path q bytes d other
write_at-other outcome (some folder) path q bytes d other = refl
write_at-other outcome (some symlink) path q bytes d other = refl
write_at-other outcome (some socket) path q bytes d other = refl

put_bytes-done :
    (outcome : FileWrite) (path : Text) (bytes : List ℕ) (d : Disk)
    → (put_bytes outcome path bytes d).1 ≡ true
    → Stored path bytes (put_bytes outcome path bytes d).0
put_bytes-done complete path bytes d written = set-same path _ d
put_bytes-done untouched path bytes d written = cc
put_bytes-done (torn b) path bytes d written = cc

write_at-done :
    (outcome : FileWrite) (entry : Option Node) (path : Text) (bytes : List ℕ) (d : Disk)
    → (write_at outcome entry path bytes d).1 ≡ true
    → Stored path bytes (write_at outcome entry path bytes d).0
write_at-done outcome none path bytes d written = put_bytes-done outcome path bytes d written
write_at-done outcome (some (regular b)) path bytes d written =
    put_bytes-done outcome path bytes d written
write_at-done outcome (some folder) path bytes d written = cc
write_at-done outcome (some symlink) path bytes d written = cc
write_at-done outcome (some socket) path bytes d written = cc

-- The write of a file leaves another file as it is, whether it fails or not.
pub write_file-other :
    (f : Faults) (path q : Text) (bytes other_bytes : List ℕ) (d : Disk)
    → text_eq q path ≡ false
    → Stored q other_bytes d
    → Stored q other_bytes (write_file f path bytes d).0
unfolding write_file
write_file-other f path q bytes other_bytes d other stored =
    let made = make_folders f (parents [] (split path b'/')) d in
    let kept = make_folders-Stored f (parents [] (split path b'/')) q d stored in
    elim (Bool-cases made.1) [
      | inl fine ↦
          rw (fine) (write_at-other (f.write path) (made.0 path) path q bytes made.0 other ∙ kept)
      | inr broken ↦ rw (broken) kept
    ]

-- A write that returns no error leaves the bytes at the path.
pub write_file-done :
    (f : Faults) (path : Text) (bytes : List ℕ) (d : Disk)
    → (write_file f path bytes d).1 ≡ true
    → Stored path bytes (write_file f path bytes d).0
unfolding write_file
write_file-done f path bytes d written =
    let made = make_folders f (parents [] (split path b'/')) d in
    elim (Bool-cases made.1) [
      | inl fine ↦
          rw (fine)
            (write_at-done (f.write path) (made.0 path) path bytes made.0 (rw (fine) at written))
      | inr broken ↦ absurd (cc (rw (broken) at written))
    ]

-- Bytes that do not differ are there already.
pub content_changed-Stored :
    (f : Faults) (d : Disk) (path : Text) (bytes : List ℕ)
    → content_changed f d path bytes ≡ false
    → Stored path bytes d
unfolding content_changed
content_changed-Stored f d path bytes same = at_node (d path) same_node
  where
    at_node :
        (entry : Option Node) → differs_from entry bytes ≡ false → entry ≡ some (regular bytes)
    at_node none h = cc
    at_node (some (regular current)) h =
        ap (λ b. some (regular b)) ((text_eq_iff current bytes).0 (ground arith))
    at_node (some folder) h = cc
    at_node (some symlink) h = cc
    at_node (some socket) h = cc

    same_node : differs_from (d path) bytes ≡ false
    same_node = ground arith

remove_at-other :
    (fails : Bool) (s : Stat) (path q : Text) (d : Disk)
    → text_eq q path ≡ false
    → (remove_at fails s path d).0 q ≡ d q
remove_at-other fails missing path q d other = refl
remove_at-other fails unknown path q d other = refl
remove_at-other true (stat (regular b)) path q d other = refl
remove_at-other false (stat (regular b)) path q d other = set-other path q none d other
remove_at-other fails (stat folder) path q d other = refl
remove_at-other fails (stat symlink) path q d other = refl
remove_at-other fails (stat socket) path q d other = refl

-- The removal of a file leaves what stands at another path.
pub remove_managed-other :
    (f : Faults) (raw q : Text) (d : Disk)
    → clean_workspace_path raw ≢ some q
    → (remove_managed f raw d).0 q ≡ d q
unfolding remove_managed
remove_managed-other f raw q d differs = at_clean (clean_workspace_path raw) differs
  where
    at_clean : (clean : Option Text) → clean ≢ some q → (remove_clean f clean d).0 q ≡ d q
    at_clean none differs = refl
    at_clean (some path) differs = elim (Bool-cases (text_eq q path)) [
      | inl same ↦ absurd (differs (ap some (sym ((text_eq_iff q path).0 same))))
      | inr other ↦ elim (Bool-cases (is_safe (ensure_no_symlink f d path))) [
        | inl fine ↦
            rw (fine) (remove_at-other (f.remove_fails path) (lstat f d path) path q d other)
        | inr blocked ↦ rw (blocked) refl
      ]
    ]
