-- ===== src/Workspace/Mutate/Commits.antt =====
-- What a mutation leaves (`handleWorkspaceMutate` of dev-agent/workspace.go).
use provider_infrastructure.Prelude.{
  ◌≡◌, ◌≢◌, sym, ap, ◌∙◌, inl, inr, Bool, true, false, not, ◌&&◌, ◌||◌, List, [], ◌∷◌, some, All,
  Bool-cases, ltb, if◌then◌else◌,
}
use provider_infrastructure.Text.Laws.{text_eq_iff}
use provider_infrastructure.Text.{Text, codes, text_eq, byte_len, contains_rune}
use provider_infrastructure.Workspace.{Workspace, clean_workspace_path, is_managed_path}
use provider_infrastructure.Workspace.Digest.{utf8}
use provider_infrastructure.Workspace.Bundle.{has_path}
use provider_infrastructure.Workspace.Manifests.{manifest_tmp}
use provider_infrastructure.Workspace.Step.{
  Reply, refused, synced, mutated, Triple, ◌>>=◌, give, refuse, require, triple-bind, require-tells,
  expect-tells,
}
use provider_infrastructure.Workspace.Preflight.{Same}
use provider_infrastructure.Workspace.Sync.{Libraries}
use provider_infrastructure.Workspace.Mutate.{
  Mutation, WorkspaceFile, classify, is_operation, apply_operation, apply_operations, set_file,
  drop_file, workspace_max_file_bytes,
}
use provider_infrastructure.Workspace.Commit.{file_paths}
use provider_infrastructure.Workspace.Mutate.Paths.{
  IsApart, AreDistinct, set_file-IsApart, drop_file-IsApart, set_file-AreDistinct,
  drop_file-AreDistinct,
}

-- The request is refused.
abbrev pub IsRefusal : Reply → Type 0
IsRefusal (refused code) = Unit
IsRefusal (synced resp) = ⊥
IsRefusal (mutated resp) = ⊥

-- The paths are distinct, and none is that of the manifest's temporary file.
abbrev pub ArePlain : List WorkspaceFile → Type 0
ArePlain files = AreDistinct (file_paths files) × IsApart manifest_tmp (file_paths files)

-- No operation is on the manifest's temporary file.
abbrev pub SpareManifest : List Mutation → Type 0
SpareManifest ops = All (λ op. clean_workspace_path op.path ≢ some manifest_tmp) ops

not_manifest :
    (path : Text) (op : Mutation)
    → clean_workspace_path op.path ≢ some manifest_tmp
    → clean_workspace_path op.path ≡ some path
    → text_eq manifest_tmp path ≡ false
not_manifest path op spare cleaned = elim (Bool-cases (text_eq manifest_tmp path)) [
  | inl same ↦ absurd (spare (cleaned ∙ ap some (sym ((text_eq_iff manifest_tmp path).0 same))))
  | inr other ↦ other
]

module _ (w₀ : Workspace) where
  -- A refusal leaves the workspace.
  abbrev pub Refusal : Reply → Workspace → Type 0
  Refusal r w = (w ≡ w₀) × IsRefusal r

  apply_operation-ends :
      (lib : Libraries) (path : Text) (op : Mutation) (files : List WorkspaceFile)
      → text_eq manifest_tmp path ≡ false
      → ArePlain files
      → Triple
          (Same w₀)
          (apply_operation lib path op files)
          (λ files w. ArePlain files × Same w₀ w)
          Refusal
  unfolding apply_operation
  apply_operation-ends lib path op files other (distinct, apart) =
      choose (is_operation op (codes "write") || is_operation op (codes "upsert"))
        (is_operation op (codes "delete") || is_operation op (codes "remove"))
    where
      S : List WorkspaceFile → Workspace → Type 0
      S files w = ArePlain files × Same w₀ w

      small : Bool
      small = not (ltb workspace_max_file_bytes (byte_len op.content))

      is_text : Bool
      is_text = lib.is_utf8 (utf8 op.content) && not (contains_rune op.content 0)

      new : WorkspaceFile
      new = classify lib path (utf8 op.content) true

      written :
          Triple
            (Same w₀)
            (do small ← require small 413; text ← require is_text 400; give (set_file new files))
            S
            Refusal
      written =
          triple-bind Refusal (Same w₀) (λ _ w. (small ≡ true) × Same w₀ w) S _ _
            (require-tells (Same w₀) Refusal small 413 (λ w same. (same, tt)))
            (λ _ w is_small.
              triple-bind Refusal (Same w₀) (λ _ w. (is_text ≡ true) × Same w₀ w) S _ _
                (require-tells (Same w₀) Refusal is_text 400 (λ w same. (same, tt)))
                (λ _ w readable. (
                  (
                    set_file-AreDistinct new files distinct,
                    set_file-IsApart manifest_tmp new files other apart,
                  ),
                  readable.1,
                ))
                w is_small.1)

      choose :
          (writes deletes : Bool)
          → Triple
              (Same w₀)
              (if writes
                then (do
                  small ← require small 413
                  text ← require is_text 400
                  give (set_file new files))
                else if deletes
                then give (drop_file path files)
                else refuse 400)
              S
              Refusal
      choose true deletes = written
      choose false true = λ w same. (
        (
          drop_file-AreDistinct path files distinct,
          drop_file-IsApart manifest_tmp path files apart,
        ),
        same,
      )
      choose false false = λ w same. (same, tt)

  pub apply_operations-ends :
      (lib : Libraries) (seen : List Text) (ops : List Mutation) (files : List WorkspaceFile)
      → SpareManifest ops
      → ArePlain files
      → Triple
          (Same w₀)
          (apply_operations lib seen ops files)
          (λ files w. ArePlain files × Same w₀ w)
          Refusal
  unfolding apply_operations
  apply_operations-ends lib seen [] files spare plain = λ w same. (plain, same)
  apply_operations-ends lib seen (op ∷ ops) files (here, spare) plain =
      triple-bind Refusal (Same w₀)
        (λ path w. (clean_workspace_path op.path ≡ some path) × Same w₀ w) S _ _
        (expect-tells (Same w₀) Refusal (clean_workspace_path op.path) 400 (λ w same. (same, tt)))
        (λ path w cleaned.
          triple-bind Refusal (Same w₀) (λ _ w. (is_managed_path path ≡ true) × Same w₀ w) S _ _
            (require-tells (Same w₀) Refusal (is_managed_path path) 400 (λ w same. (same, tt)))
            (λ _ w managed.
              triple-bind Refusal (Same w₀) (λ _ w. (not (has_path path seen) ≡ true) × Same w₀ w) S
                _ _
                (require-tells (Same w₀) Refusal (not (has_path path seen)) 400
                  (λ w same. (same, tt)))
                (λ _ w new.
                  triple-bind Refusal (Same w₀) S S _ _
                    (apply_operation-ends lib path op files (not_manifest path op here cleaned.0)
                      plain)
                    (λ next w kept.
                      apply_operations-ends lib (path ∷ seen) ops next spare kept.0 w kept.1)
                    w new.1)
                w managed.1)
            w cleaned.1)
    where
      S : List WorkspaceFile → Workspace → Type 0
      S files w = ArePlain files × Same w₀ w
