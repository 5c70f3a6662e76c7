-- ===== src/Workspace/Stages/Unlinked.antt =====
-- The loops of a synchronisation over the files (dev-agent/main.go) from a workspace with no
-- symbolic link at the name of the manifest's temporary file.
use provider_infrastructure.Prelude.{◌≡◌, ℕ, Bool, false, List, All}
use provider_infrastructure.Workspace.{Workspace, Faults}
use provider_infrastructure.Workspace.Bundle.{DecodedFile}
use provider_infrastructure.Workspace.Handler.{All-always}
use provider_infrastructure.Workspace.Files.{write_file}
use provider_infrastructure.Workspace.Links.{HasNoLink, write_file-IsUnlinked}
use provider_infrastructure.Workspace.Manifests.{manifest_tmp}
use provider_infrastructure.Workspace.Step.{
  Reply, refused, Handling, Triple, triple-and, triple-map,
}
use provider_infrastructure.Workspace.Stages.{put_files, restore_files}
use provider_infrastructure.Workspace.Stages.Keeps.{is_early, put_files-keeps, restore_files-keeps}
use provider_infrastructure.Workspace.Stages.Stores.{
  Distinct, AllStored, put_files-AllStored, restore_files-AllStored,
}

-- Still no link, and the property.
abbrev pub Unlinked : (Workspace → Type 0) → Workspace → Type 0
Unlinked P w = HasNoLink w × P w

-- The writes of the files make no link.
writes-HasNoLink :
    (f : Faults) (files : List DecodedFile)
    → All
        (λ file.
          (w : Workspace)
          → HasNoLink w
          → HasNoLink (record w { disk = (write_file f file.path file.content w.disk).0 }))
        files
writes-HasNoLink f files =
    All-always _ files
      (λ file w. write_file-IsUnlinked manifest_tmp f file.path file.content w.disk)

module _ (R : Reply → Workspace → Type 0)
    (refuses : (code : ℕ) (w : Workspace) → R (refused code) w) where
  both {ℓ} :
      {A : Type ℓ} (m : Handling A) (Q : Workspace → Type 0)
      → Triple HasNoLink m (λ _. HasNoLink) (λ _ _. Unit)
      → Triple (λ _. Unit {0}) m (λ _. Q) R
      → Triple HasNoLink m (λ _. Unlinked Q) R
  both m Q kept leaves =
      triple-map (λ w. HasNoLink w × Unit {0}) HasNoLink (λ _. Unlinked Q) (λ _. Unlinked Q)
        (λ r w. Unit {0} × R r w) R m (λ w free. (free, tt)) (λ _ w q. q) (λ r w q. q.1)
        (triple-and HasNoLink (λ _. Unit) (λ _. HasNoLink) (λ _. Q) (λ _ _. Unit) R m kept leaves)

  pub put_files-Unlinked :
      (blocked : ℕ) (f : Faults) (files : List DecodedFile)
      → is_early blocked ≡ false
      → Distinct files
      → Triple HasNoLink (put_files blocked f files) (λ _. Unlinked (AllStored files)) R
  put_files-Unlinked blocked f files late distinct =
      both (put_files blocked f files) (AllStored files)
        (put_files-keeps HasNoLink (λ _ _. Unit) (λ _ _ _ _. tt) blocked f files late
          (writes-HasNoLink f files))
        (put_files-AllStored R refuses blocked f files late distinct)

  pub restore_files-Unlinked :
      (is_utf8 : List ℕ → Bool) (f : Faults) (files : List DecodedFile)
      → Distinct files
      → Triple HasNoLink (restore_files is_utf8 f files) (λ _. Unlinked (AllStored files)) R
  restore_files-Unlinked is_utf8 f files distinct =
      both (restore_files is_utf8 f files) (AllStored files)
        (restore_files-keeps HasNoLink (λ _ _. Unit) (λ _ _ _ _. tt) is_utf8 f files
          (writes-HasNoLink f files))
        (restore_files-AllStored R refuses is_utf8 f files distinct)
