-- ===== src/Workspace/Mutate/Paths.antt =====
-- The paths of the files that a mutation works on are distinct (`handleWorkspaceMutate` of
-- dev-agent/workspace.go).
use provider_infrastructure.Prelude.{
  ◌≡◌, refl, sym, ap, ◌∙◌, inl, inr, false, List, [], ◌∷◌, some, All, All-map, Bool-cases,
  Option-cases, arith,
}
use mathlib.Core.Path.{subst}
use mathlib.Core.Option.{some-injective}
use provider_infrastructure.Text.{Text, text_eq, text_lt}
use provider_infrastructure.Text.Laws.{text_eq_iff}
use provider_infrastructure.Workspace.{Disk, Faults, clean_workspace_path}
use provider_infrastructure.Workspace.Digest.{insert_path, sort_paths}
use provider_infrastructure.Workspace.Bundle.{has_path}
use provider_infrastructure.Workspace.Manifests.{read_regular}
use provider_infrastructure.Workspace.Sync.{Libraries}
use provider_infrastructure.Workspace.Frame.{text_eq_sym}
use provider_infrastructure.Workspace.Served.{paths_of}
use provider_infrastructure.Workspace.Stages.{unique}
use provider_infrastructure.Workspace.Stages.Stores.{Distinct}
use provider_infrastructure.Workspace.Mutate.{
  WorkspaceFile, classify, normalize_from, read_files, read_managed_files, set_file, drop_file,
  insert_file, sort_files,
}
use provider_infrastructure.Workspace.Commit.{file_paths, in_memory}

abbrev pub IsApart : Text → List Text → Type 0
IsApart p ps = All (λ q. text_eq p q ≡ false) ps

abbrev pub AreDistinct : List Text → Type 0
AreDistinct [] = Unit
AreDistinct (p ∷ ps) = IsApart p ps × AreDistinct ps

insert-IsApart :
    (p new : Text) (ps : List Text)
    → text_eq p new ≡ false
    → IsApart p ps
    → IsApart p (insert_path new ps)
unfolding insert_path
insert-IsApart p new [] apart rest = (apart, tt)
insert-IsApart p new (q ∷ ps) apart (here, rest) = elim (Bool-cases (text_lt q new)) [
  | inl below ↦ rw (below, insert_path) (here, insert-IsApart p new ps apart rest)
  | inr above ↦ rw (above, insert_path) (apart, (here, rest))
]

insert-AreDistinct :
    (new : Text) (ps : List Text)
    → IsApart new ps
    → AreDistinct ps
    → AreDistinct (insert_path new ps)
unfolding insert_path
insert-AreDistinct new [] apart distinct = (tt, tt)
insert-AreDistinct new (q ∷ ps) (apart, others) (first, rest) = elim (Bool-cases (text_lt q new)) [
  | inl below ↦
      rw (below, insert_path)
        (
          insert-IsApart q new ps (text_eq_sym new q apart) first,
          insert-AreDistinct new ps others rest,
        )
  | inr above ↦ rw (above, insert_path) ((apart, others), (first, rest))
]

pub sort-IsApart : (p : Text) (ps : List Text) → IsApart p ps → IsApart p (sort_paths ps)
unfolding sort_paths
sort-IsApart p [] apart = tt
sort-IsApart p (q ∷ ps) (here, rest) =
    insert-IsApart p q (sort_paths ps) here (sort-IsApart p ps rest)

pub sort-AreDistinct : (ps : List Text) → AreDistinct ps → AreDistinct (sort_paths ps)
unfolding sort_paths
sort-AreDistinct [] distinct = tt
sort-AreDistinct (p ∷ ps) (apart, rest) =
    insert-AreDistinct p (sort_paths ps) (sort-IsApart p ps apart) (sort-AreDistinct ps rest)

-- The paths that are normalized differ from those that were seen, and from one another.
normalized_from :
    (seen raws paths : List Text)
    → normalize_from seen raws ≡ some paths
    → AreDistinct paths × All (λ p. has_path p seen ≡ false) paths
unfolding normalize_from has_path
normalized_from seen [] paths is =
    subst (λ ps. AreDistinct ps × All (λ p. has_path p seen ≡ false) ps) (some-injective _ _ is)
      (tt, tt)
normalized_from seen (raw ∷ raws) paths is = elim (Option-cases (clean_workspace_path raw)) [
  | inl refused ↦ absurd (cc (rw (refused, normalize_from) at is))
  | inr (path, cleaned) ↦ elim (Bool-cases (has_path path seen)) [
    | inl twice ↦ absurd (cc (rw (cleaned, twice, normalize_from) at is))
    | inr new ↦ elim (Option-cases (normalize_from (path ∷ seen) raws)) [
      | inl refused ↦ absurd (cc (rw (cleaned, new, refused, normalize_from) at is))
      | inr (rest, found) ↦
          let later = normalized_from (path ∷ seen) raws rest found in
          let same : path ∷ rest ≡ paths =
            some-injective _ _ (rw (cleaned, new, found, normalize_from) at is) in
          subst (λ ps. AreDistinct ps × All (λ p. has_path p seen ≡ false) ps) same
            (
              (All-map rest (λ p free. ground arith) later.1, later.0),
              (new, All-map rest (λ p free. ground arith) later.1),
            )
    ]
  ]
]

file_paths-read_files :
    (lib : Libraries) (f : Faults) (d : Disk) (paths : List Text) (files : List WorkspaceFile)
    → read_files lib f d paths ≡ some files
    → file_paths files ≡ paths
unfolding read_files classify
file_paths-read_files lib f d [] files is = ap file_paths (sym (some-injective _ _ is))
file_paths-read_files lib f d (path ∷ paths) files is =
    elim (Option-cases (read_regular f d path)) [
      | inl unreadable ↦ absurd (cc (rw (unreadable, read_files) at is))
      | inr (bytes, readable) ↦ elim (Option-cases (read_files lib f d paths)) [
        | inl refused ↦ absurd (cc (rw (readable, refused, read_files) at is))
        | inr (rest, found) ↦
            ap file_paths (sym (some-injective _ _ (rw (readable, found, read_files) at is)))
            ∙ ap (λ ps. path ∷ ps) (file_paths-read_files lib f d paths rest found)
      ]
    ]

-- The paths of the managed files are distinct.
pub read_managed_files-AreDistinct :
    (lib : Libraries) (f : Faults) (d : Disk) (paths : List Text) (files : List WorkspaceFile)
    → read_managed_files lib f d paths ≡ some files
    → AreDistinct (file_paths files)
unfolding read_managed_files
read_managed_files-AreDistinct lib f d paths files is =
    elim (Option-cases (normalize_from [] paths)) [
      | inl refused ↦ absurd (cc (rw (refused) at is))
      | inr (cleaned, normal) ↦
          subst AreDistinct
            (sym (file_paths-read_files lib f d (sort_paths cleaned) files (rw (normal) at is)))
            (sort-AreDistinct cleaned (normalized_from [] paths cleaned normal).0)
    ]

-- Paths that cleaning does not change are normalized to themselves.
normalized_stable :
    (seen raws paths : List Text)
    → All (λ p. clean_workspace_path p ≡ some p) raws
    → normalize_from seen raws ≡ some paths
    → raws ≡ paths
unfolding normalize_from
normalized_stable seen [] paths stable is = some-injective _ _ is
normalized_stable seen (raw ∷ raws) paths (here, stable) is =
    elim (Bool-cases (has_path raw seen)) [
      | inl twice ↦ absurd (cc (rw (here, twice, normalize_from) at is))
      | inr new ↦ elim (Option-cases (normalize_from (raw ∷ seen) raws)) [
        | inl refused ↦ absurd (cc (rw (here, new, refused, normalize_from) at is))
        | inr (rest, found) ↦
            ap (λ ps. raw ∷ ps) (normalized_stable (raw ∷ seen) raws rest stable found)
            ∙ some-injective _ _ (rw (here, new, found, normalize_from) at is)
      ]
    ]

-- The files that are read are those of the paths, in order.
pub file_paths-read_managed_files :
    (lib : Libraries) (f : Faults) (d : Disk) (paths : List Text) (files : List WorkspaceFile)
    → All (λ p. clean_workspace_path p ≡ some p) paths
    → read_managed_files lib f d paths ≡ some files
    → file_paths files ≡ sort_paths paths
unfolding read_managed_files
file_paths-read_managed_files lib f d paths files stable is =
    elim (Option-cases (normalize_from [] paths)) [
      | inl refused ↦ absurd (cc (rw (refused) at is))
      | inr (cleaned, normal) ↦
          file_paths-read_files lib f d (sort_paths cleaned) files (rw (normal) at is)
          ∙ ap sort_paths (sym (normalized_stable [] paths cleaned stable normal))
    ]

pub set_file-IsApart :
    (p : Text) (new : WorkspaceFile) (files : List WorkspaceFile)
    → text_eq p new.path ≡ false
    → IsApart p (file_paths files)
    → IsApart p (file_paths (set_file new files))
unfolding set_file
set_file-IsApart p new [] apart rest = (apart, tt)
set_file-IsApart p new (file ∷ files) apart (here, rest) =
    elim (Bool-cases (text_eq file.path new.path)) [
      | inl same ↦ rw (same, set_file) (apart, rest)
      | inr other ↦ rw (other, set_file) (here, set_file-IsApart p new files apart rest)
    ]

pub set_file-AreDistinct :
    (new : WorkspaceFile) (files : List WorkspaceFile)
    → AreDistinct (file_paths files)
    → AreDistinct (file_paths (set_file new files))
unfolding set_file
set_file-AreDistinct new [] distinct = (tt, tt)
set_file-AreDistinct new (file ∷ files) (apart, rest) =
    elim (Bool-cases (text_eq file.path new.path)) [
      | inl same ↦
          rw (same, set_file)
            (
              subst (λ p. IsApart p (file_paths files)) ((text_eq_iff file.path new.path).0 same)
                  apart,
              rest,
            )
      | inr other ↦
          rw (other, set_file)
            (set_file-IsApart file.path new files other apart, set_file-AreDistinct new files rest)
    ]

pub drop_file-IsApart :
    (p path : Text) (files : List WorkspaceFile)
    → IsApart p (file_paths files)
    → IsApart p (file_paths (drop_file path files))
unfolding drop_file
drop_file-IsApart p path [] apart = tt
drop_file-IsApart p path (file ∷ files) (here, rest) = elim (Bool-cases (text_eq file.path path)) [
  | inl same ↦ rw (same, drop_file) (drop_file-IsApart p path files rest)
  | inr other ↦ rw (other, drop_file) (here, drop_file-IsApart p path files rest)
]

pub drop_file-AreDistinct :
    (path : Text) (files : List WorkspaceFile)
    → AreDistinct (file_paths files)
    → AreDistinct (file_paths (drop_file path files))
unfolding drop_file
drop_file-AreDistinct path [] distinct = tt
drop_file-AreDistinct path (file ∷ files) (apart, rest) =
    elim (Bool-cases (text_eq file.path path)) [
      | inl same ↦ rw (same, drop_file) (drop_file-AreDistinct path files rest)
      | inr other ↦
          rw (other, drop_file)
            (drop_file-IsApart file.path path files apart, drop_file-AreDistinct path files rest)
    ]

file_paths-insert_file :
    (new : WorkspaceFile) (files : List WorkspaceFile)
    → file_paths (insert_file new files) ≡ insert_path new.path (file_paths files)
unfolding insert_file insert_path
file_paths-insert_file new [] = refl
file_paths-insert_file new (file ∷ files) = elim (Bool-cases (text_lt file.path new.path)) [
  | inl below ↦
      rw (below, insert_file, insert_path)
        (ap (λ ps. file.path ∷ ps) (file_paths-insert_file new files))
  | inr above ↦ rw (above, insert_file, insert_path) refl
]

-- The files in order have the sorted paths.
pub file_paths-sort_files :
    (files : List WorkspaceFile) → file_paths (sort_files files) ≡ sort_paths (file_paths files)
unfolding sort_files sort_paths
file_paths-sort_files [] = refl
file_paths-sort_files (file ∷ files) =
    file_paths-insert_file file (sort_files files)
    ∙ ap (insert_path file.path) (file_paths-sort_files files)

pub in_memory-apart :
    (p : Text) (files : List WorkspaceFile)
    → IsApart p (file_paths files)
    → All (λ file. text_eq p file.path ≡ false) (in_memory files)
unfolding in_memory
in_memory-apart p [] apart = tt
in_memory-apart p (file ∷ files) (here, rest) = elim (Option-cases file.content) [
  | inl on_disk ↦ rw (on_disk, in_memory) (in_memory-apart p files rest)
  | inr (content, held) ↦ rw (held, in_memory) (here, in_memory-apart p files rest)
]

pub in_memory-Distinct :
    (files : List WorkspaceFile) → AreDistinct (file_paths files) → Distinct (in_memory files)
unfolding in_memory
in_memory-Distinct [] distinct = tt
in_memory-Distinct (file ∷ files) (apart, rest) = elim (Option-cases file.content) [
  | inl on_disk ↦ rw (on_disk, in_memory) (in_memory-Distinct files rest)
  | inr (content, held) ↦
      rw (held, in_memory) (in_memory-apart file.path files apart, in_memory-Distinct files rest)
]

-- A path that no file has is not the path of a file in memory.
pub has_path-in_memory :
    (p : Text) (files : List WorkspaceFile)
    → has_path p (file_paths files) ≡ false
    → has_path p (paths_of (in_memory files)) ≡ false
unfolding in_memory has_path
has_path-in_memory p [] free = refl
has_path-in_memory p (file ∷ files) free = elim (Option-cases file.content) [
  | inl on_disk ↦ rw (on_disk, in_memory) (has_path-in_memory p files (ground arith))
  | inr (content, held) ↦
      rw (held, in_memory) (ground (arith, has_path-in_memory p files (ground arith)))
]

-- What holds of all paths holds of the paths of their set, in order.
pub All-unique : (P : Text → Type 0) (ps : List Text) → All P ps → All P (unique ps)
unfolding unique
All-unique P [] all = tt
All-unique P (p ∷ ps) (here, rest) = elim (Bool-cases (has_path p (unique ps))) [
  | inl twice ↦ rw (twice, unique) (All-unique P ps rest)
  | inr new ↦ rw (new, unique) (here, All-unique P ps rest)
]

All-insert_path :
    (P : Text → Type 0) (new : Text) (ps : List Text)
    → P new
    → All P ps
    → All P (insert_path new ps)
unfolding insert_path
All-insert_path P new [] here rest = (here, tt)
All-insert_path P new (p ∷ ps) here (first, rest) = elim (Bool-cases (text_lt p new)) [
  | inl below ↦ rw (below, insert_path) (first, All-insert_path P new ps here rest)
  | inr above ↦ rw (above, insert_path) (here, (first, rest))
]

pub All-sort_paths : (P : Text → Type 0) (ps : List Text) → All P ps → All P (sort_paths ps)
unfolding sort_paths
All-sort_paths P [] all = tt
All-sort_paths P (p ∷ ps) (here, rest) =
    All-insert_path P p (sort_paths ps) here (All-sort_paths P ps rest)
