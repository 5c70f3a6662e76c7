-- ===== src/Workspace/Mutate/Operations.antt =====
-- The operations of a mutation give the files that they name (`handleWorkspaceMutate` of
-- dev-agent/workspace.go).
use provider_infrastructure.Prelude.{
  ◌≡◌, ◌≢◌, refl, sym, ap, ◌∙◌, inl, inr, Bool, true, false, not, ◌&&◌, ◌||◌, List, [], ◌∷◌, Option,
  none, some, All, Bool-cases, ltb, if◌then◌else◌, arith,
}
use mathlib.Core.Path.{subst}
use provider_infrastructure.Text.{Text, codes, text_eq, byte_len, contains_rune}
use provider_infrastructure.Text.Laws.{text_eq_iff, text_eq_refl}
use provider_infrastructure.Workspace.{Workspace, clean_workspace_path, is_managed_path}
use provider_infrastructure.Workspace.Digest.{utf8}
use provider_infrastructure.Workspace.Bundle.{has_path}
use provider_infrastructure.Workspace.Step.{
  Reply, Outcome, done, stopped, Ends, Triple, ◌>>=◌, give, refuse, require, triple-bind,
  triple-map, require-tells, expect-tells,
}
use provider_infrastructure.Workspace.Sync.{Libraries}
use provider_infrastructure.Workspace.Mutate.{
  Mutation, WorkspaceFile, workspace_max_file_bytes, classify, set_file, drop_file, is_operation,
  apply_operation, apply_operations,
}

-- The file that a map has at a path.
unfoldable pub file_at : Text → List WorkspaceFile → Option WorkspaceFile
unfolding text_eq
file_at path [] = none
file_at path (file ∷ files) =
    let rest = file_at path files in if text_eq file.path path then some file else rest

set_file-same :
    (new : WorkspaceFile) (files : List WorkspaceFile)
    → file_at new.path (set_file new files) ≡ some new
unfolding file_at set_file
set_file-same new [] = ground (arith, text_eq_refl new.path)
set_file-same new (file ∷ files) = elim (Bool-cases (text_eq file.path new.path)) [
  | inl same ↦ rw (same, set_file, file_at) (ground (arith, text_eq_refl new.path))
  | inr other ↦ rw (other, set_file) (rw (other, file_at) (set_file-same new files))
]

set_file-other :
    (new : WorkspaceFile) (p : Text) (files : List WorkspaceFile)
    → text_eq new.path p ≡ false
    → file_at p (set_file new files) ≡ file_at p files
unfolding file_at set_file
set_file-other new p [] other = ground arith
set_file-other new p (file ∷ files) other = elim (Bool-cases (text_eq file.path new.path)) [
  | inl same ↦
      let at_file : text_eq file.path p ≡ false =
        subst (λ q. text_eq q p ≡ false) (sym ((text_eq_iff file.path new.path).0 same)) other in
      rw (same, set_file) (rw (other, at_file, file_at) refl)
  | inr apart ↦ rw (apart, set_file) (ground (arith, set_file-other new p files other))
]

drop_file-same :
    (path : Text) (files : List WorkspaceFile) → file_at path (drop_file path files) ≡ none
unfolding file_at drop_file
drop_file-same path [] = refl
drop_file-same path (file ∷ files) = elim (Bool-cases (text_eq file.path path)) [
  | inl same ↦ rw (same, drop_file) (drop_file-same path files)
  | inr other ↦ rw (other, drop_file) (rw (other, file_at) (drop_file-same path files))
]

drop_file-other :
    (path p : Text) (files : List WorkspaceFile)
    → text_eq path p ≡ false
    → file_at p (drop_file path files) ≡ file_at p files
unfolding file_at drop_file
drop_file-other path p [] other = refl
drop_file-other path p (file ∷ files) other = elim (Bool-cases (text_eq file.path path)) [
  | inl same ↦
      let at_file : text_eq file.path p ≡ false =
        subst (λ q. text_eq q p ≡ false) (sym ((text_eq_iff file.path path).0 same)) other in
      rw (same, drop_file) (rw (at_file, file_at) (drop_file-other path p files other))
  | inr apart ↦ rw (apart, drop_file) (ground (arith, drop_file-other path p files other))
]

abbrev pub is_write : Mutation → Bool
is_write op = is_operation op (codes "write") || is_operation op (codes "upsert")

-- The file that an operation leaves at its path.
abbrev pub file_after : Libraries → Mutation → Text → Option WorkspaceFile
file_after lib op path =
    if is_write op then some (classify lib path (utf8 op.content) true) else none

abbrev pub IsDone : Libraries → List WorkspaceFile → Mutation → Type 0
IsDone lib files op =
    (path : Text) × (clean_workspace_path op.path ≡ some path)
    × (file_at path files ≡ file_after lib op path)

-- The file at every other path is the same.
abbrev KeepsOthers : Text → List WorkspaceFile → List WorkspaceFile → Type 0
KeepsOthers path files files' =
    (p : Text) → text_eq path p ≡ false → file_at p files' ≡ file_at p files

abbrev NoReply : Reply → Workspace → Type 0
NoReply r w = Unit

apply_operation-done :
    (lib : Libraries) (path : Text) (op : Mutation) (files : List WorkspaceFile)
    → Triple
        (λ _. Unit)
        (apply_operation lib path op files)
        (λ files' w. (file_at path files' ≡ file_after lib op path) × KeepsOthers path files files')
        NoReply
unfolding apply_operation classify
apply_operation-done lib path op files =
    choose (is_write op) (is_operation op (codes "delete") || is_operation op (codes "remove")) refl
  where
    S : Bool → List WorkspaceFile → Workspace → Type 0
    S writes files' w =
        (file_at path files'
          ≡ (if writes then some (classify lib path (utf8 op.content) true) else none))
        × KeepsOthers path files files'

    small : Bool
    small = not (ltb workspace_max_file_bytes (byte_len op.content))

    is_text : Bool
    is_text = lib.is_utf8 (utf8 op.content) && not (contains_rune op.content 0)

    new : WorkspaceFile
    new = classify lib path (utf8 op.content) true

    choose :
        (writes deletes : Bool)
        → is_write op ≡ writes
        → Triple
            (λ _. Unit)
            (if writes
              then (do
                small ← require small 413
                text ← require is_text 400
                give (set_file new files))
              else if deletes
              then give (drop_file path files)
              else refuse 400)
            (S writes)
            NoReply
    choose true deletes is =
        triple-bind NoReply (λ _. Unit) (λ _ _. Unit) (S true) _ _
          (λ w _. any_end (require small 413 w))
          (λ _.
            triple-bind NoReply (λ _. Unit) (λ _ _. Unit) (S true) _ _
              (λ w _. any_end (require is_text 400 w))
              (λ _ w _. (set_file-same new files, λ p other. set_file-other new p files other)))
      where
        any_end : (o : Workspace × Outcome (Unit {0})) → Ends (λ _ _. Unit) NoReply o
        any_end (w, done a) = tt
        any_end (w, stopped r) = tt
    choose false true is =
        λ w _. (drop_file-same path files, λ p other. drop_file-other path p files other)
    choose false false is = λ w _. tt

other_than : (path p : Text) → path ≢ p → text_eq path p ≡ false
other_than path p differs = elim (Bool-cases (text_eq path p)) [
  | inl same ↦ absurd (differs ((text_eq_iff path p).0 same))
  | inr other ↦ other
]

-- The paths that were seen, and those that no operation names, keep their files.
abbrev KeepsSeen : List Text → List Mutation → List WorkspaceFile → List WorkspaceFile → Type 0
KeepsSeen seen ops files files' =
    ((p : Text) → has_path p seen ≡ true → file_at p files' ≡ file_at p files)
    × ((p : Text)
        → All (λ op. clean_workspace_path op.path ≢ some p) ops
        → file_at p files' ≡ file_at p files)

abbrev AllDone :
    Libraries → List Text → List Mutation → List WorkspaceFile → List WorkspaceFile → Type 0
AllDone lib seen ops files files' = KeepsSeen seen ops files files' × All (IsDone lib files') ops

all_done :
    (lib : Libraries) (seen : List Text) (op : Mutation) (ops : List Mutation) (path : Text)
    (files next files' : List WorkspaceFile)
    → clean_workspace_path op.path ≡ some path
    → has_path path seen ≡ false
    → (file_at path next ≡ file_after lib op path) × KeepsOthers path files next
    → AllDone lib (path ∷ seen) ops next files'
    → AllDone lib seen (op ∷ ops) files files'
unfolding has_path
all_done lib seen op ops path files next files' cleaned new (at_path, others)
      ((later_seen, later_others), done_later) =
    (
      (
        λ p was_seen.
            later_seen p (ground arith)
            ∙ others p (other_than path p (λ same. cc (rw (sym same, new) at was_seen))),
        λ p (here, rest).
            later_others p rest
            ∙ others p (other_than path p (λ same. here (cleaned ∙ ap some same))),
      ),
      ((path, cleaned, later_seen path (ground (arith, text_eq_refl path)) ∙ at_path), done_later),
    )

apply_operations-done :
    (lib : Libraries) (seen : List Text) (ops : List Mutation) (files : List WorkspaceFile)
    → Triple
        (λ _. Unit)
        (apply_operations lib seen ops files)
        (λ files' w. AllDone lib seen ops files files')
        NoReply
unfolding apply_operations has_path
apply_operations-done lib seen [] files = λ w _. ((λ p _. refl, λ p _. refl), tt)
apply_operations-done lib seen (op ∷ ops) files =
    triple-bind NoReply (λ _. Unit)
      (λ path w. (clean_workspace_path op.path ≡ some path) × Unit {0}) S _ _
      (expect-tells (λ _. Unit) NoReply (clean_workspace_path op.path) 400 (λ w _. tt))
      (λ path w cleaned.
        triple-bind NoReply (λ _. Unit) (λ _ w. (is_managed_path path ≡ true) × Unit {0}) S _ _
          (require-tells (λ _. Unit) NoReply (is_managed_path path) 400 (λ w _. tt))
          (λ _ w managed.
            triple-bind NoReply (λ _. Unit) (λ _ w. (not (has_path path seen) ≡ true) × Unit {0}) S
              _ _ (require-tells (λ _. Unit) NoReply (not (has_path path seen)) 400 (λ w _. tt))
              (λ _ w new.
                triple-bind NoReply (λ _. Unit)
                  (λ next w.
                    (file_at path next ≡ file_after lib op path) × KeepsOthers path files next)
                  S _ _ (apply_operation-done lib path op files)
                  (λ next w step.
                    triple-map (λ _. Unit) (λ _. Unit)
                      (λ files' w. AllDone lib (path ∷ seen) ops next files') S NoReply NoReply
                      (apply_operations lib (path ∷ seen) ops next) (λ w u. u)
                      (λ files' w later.
                        all_done lib seen op ops path files next files' cleaned.0 (ground arith)
                          step later)
                      (λ r w u. u) (apply_operations-done lib (path ∷ seen) ops next) w tt)
                  w tt)
              w tt)
          w tt)
  where
    S : List WorkspaceFile → Workspace → Type 0
    S files' w = AllDone lib seen (op ∷ ops) files files'

-- The operations that are let through leave the written file or none at the path of each of them,
-- and the same file as before at a path that none of them names.
pub apply_operations-IsDone :
    (lib : Libraries) (ops : List Mutation) (files files' : List WorkspaceFile) (w w' : Workspace)
    (p : Text)
    → apply_operations lib [] ops files w ≡ (w', done files')
    → All (λ op. clean_workspace_path op.path ≢ some p) ops
    → All (IsDone lib files') ops × (file_at p files' ≡ file_at p files)
apply_operations-IsDone lib ops files files' w w' p gives apart =
    let ends : AllDone lib [] ops files files' =
      subst (Ends (λ files' w. AllDone lib [] ops files files') NoReply) gives
        (apply_operations-done lib [] ops files w tt) in
    (ends.1, ends.0.1 p apart)
