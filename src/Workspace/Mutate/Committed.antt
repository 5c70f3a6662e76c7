-- ===== src/Workspace/Mutate/Committed.antt =====
-- The write of a mutation (`applyManagedContent` and `handleWorkspaceMutate` of
-- dev-agent/workspace.go).
use provider_infrastructure.Prelude.{
  ℕ, suc, ◌≡◌, refl, ap, ◌∙◌, inl, inr, Bool, true, false, not, ◌||◌, List, [], ◌∷◌, none, some,
  All-map, Option-cases, ◌==◌,
}
use mathlib.Core.Path.{subst}
use mathlib.Core.Option.{some-injective}
use provider_infrastructure.Text.{Text}
use provider_infrastructure.Workspace.{Manifest, decoded, Workspace, Faults, clean_workspace_path}
use provider_infrastructure.Workspace.Digest.{sort_paths}
use provider_infrastructure.Workspace.Digest.Sorted.{sort-sort}
use provider_infrastructure.Workspace.Manifests.{write_manifest, manifest_tmp}
use provider_infrastructure.Workspace.Step.{
  MutateResponse, Reply, refused, mutated, Ends, Triple, require, triple-bind, require-tells,
  expect-tells,
}
use provider_infrastructure.Workspace.Stages.{unique}
use provider_infrastructure.Workspace.Stages.Keeps.{delete_from-keeps}
use provider_infrastructure.Workspace.Stages.Stores.{AllStored}
use provider_infrastructure.Workspace.Stamp.{save_manifest, max_revision}
use provider_infrastructure.Workspace.Handler.{NoMore}
use provider_infrastructure.Workspace.Frame.{text_eq_sym}
use provider_infrastructure.Workspace.Applied.{
  AreStable, remove-AllStored, write_manifest-AllStored,
}
use provider_infrastructure.Workspace.Links.{
  HasNoLink, remove_managed-IsUnlinked, write_manifest-done,
}
use provider_infrastructure.Workspace.Stages.Unlinked.{Unlinked, put_files-Unlinked}
use provider_infrastructure.Workspace.Mutate.{MutateRequest, MutateMachine, WorkspaceFile}
use provider_infrastructure.Workspace.Commit.{
  file_paths, in_memory, clean_all, apply_managed_content, fold_always, mutated_manifest, commit,
}
use provider_infrastructure.Workspace.Mutate.Paths.{
  in_memory-apart, in_memory-Distinct, has_path-in_memory, All-unique, All-sort_paths,
}
use provider_infrastructure.Workspace.Mutate.Commits.{ArePlain}

clean_all-stable :
    (raws paths : List Text) → AreStable raws → clean_all raws ≡ some paths → raws ≡ paths
unfolding clean_all
clean_all-stable [] paths stable is = some-injective _ _ is
clean_all-stable (raw ∷ raws) paths (here, stable) is = elim (Option-cases (clean_all raws)) [
  | inl fails ↦ absurd (cc (rw (here, fails, clean_all) at is))
  | inr (rest, found) ↦
      ap (λ ps. raw ∷ ps) (clean_all-stable raws rest stable found)
      ∙ some-injective _ _ (rw (here, found, clean_all) at is)
]

-- The bytes of the files in memory are on the disk, and the manifest is the next one.
abbrev pub IsCommitted : Manifest → Text → List WorkspaceFile → Workspace → Type 0
IsCommitted m digest files w =
    AllStored (in_memory files) w × (w.manifest ≡ decoded (mutated_manifest m digest files))

module _ (R : Reply → Workspace → Type 0)
    (refuses : (code : ℕ) (w : Workspace) → R (refused code) w) (m : Manifest)
    (files : List WorkspaceFile) (stable : AreStable m.files) (plain : ArePlain files) where
  apply_managed_content-AllStored :
      (writing deleting : Faults)
      → Triple HasNoLink
          (apply_managed_content writing deleting files m.files)
          (λ _. Unlinked (AllStored (in_memory files)))
          R
  unfolding apply_managed_content
  apply_managed_content-AllStored writing deleting =
      triple-bind R HasNoLink (λ cleaned w. (clean_all m.files ≡ some cleaned) × HasNoLink w) S _ _
        (expect-tells HasNoLink R (clean_all m.files) 500 (λ w _. refuses 500 w))
        (λ cleaned w tells.
          triple-bind R HasNoLink (λ _. I) S _ _
            (put_files-Unlinked R refuses 500 writing (in_memory files) refl
              (in_memory-Distinct files plain.0))
            (λ changed.
              triple-bind R I (λ _. I) S _ _
                (delete_from-keeps I R (λ code w _ _. refuses code w) deleting none
                  (file_paths files) (sort_paths (unique cleaned))
                  (All-map (sort_paths (unique cleaned))
                    (λ path unchanged w goes held. (
                      remove_managed-IsUnlinked manifest_tmp deleting path w.disk held.0,
                      remove-AllStored deleting none (in_memory files) path w unchanged
                          (has_path-in_memory path files goes) held.1,
                    ))
                    (All-sort_paths (λ p. clean_workspace_path p ≡ some p) (unique cleaned)
                      (All-unique (λ p. clean_workspace_path p ≡ some p) cleaned
                        (subst AreStable (clean_all-stable m.files cleaned stable tells.0)
                          stable)))))
                (λ deleted w stored. stored))
            w tells.1)
    where
      I : Workspace → Type 0
      I = Unlinked (AllStored (in_memory files))

      S : List Text × List Text → Workspace → Type 0
      S _ = I

  save-IsCommitted :
      (f : Faults) (digest : Text)
      → Triple
          (Unlinked (AllStored (in_memory files)))
          (save_manifest f (mutated_manifest m digest files))
          (λ _. IsCommitted m digest files)
          R
  unfolding save_manifest
  save-IsCommitted f digest w (free, stored) = at_end (write_manifest f next w).1 refl
    where
      next : Manifest
      next = mutated_manifest m digest files

      at_end :
          (fine : Bool)
          → (write_manifest f next w).1 ≡ fine
          → Ends (λ _. IsCommitted m digest files) R (require fine 500 (write_manifest f next w).0)
      at_end true written = (
        write_manifest-AllStored f next (in_memory files) w
            (All-map (in_memory files) (λ file apart. text_eq_sym manifest_tmp file.path apart)
              (in_memory-apart manifest_tmp files plain.1))
            free stored,
        write_manifest-done f next w free written
            ∙ ap (λ paths. decoded (record next { files = paths })) (sort-sort (file_paths files)),
      )
      at_end false failed = refuses 500 _

  pub commit-ends :
      (machine : MutateMachine) (req : MutateRequest) (digest : Text)
      → ((resp : MutateResponse) (w : Workspace)
          → resp.is_unchanged ≡ false
          → resp.source_revision ≡ suc m.source_revision
          → IsCommitted m digest files w
          → R (mutated resp) w)
      → Triple HasNoLink (commit machine req m files digest) NoMore R
  unfolding commit
  commit-ends machine req digest replies =
      triple-bind R HasNoLink (λ _. I) NoMore _ _
        (apply_managed_content-AllStored machine.writing machine.deleting)
        (λ paths.
          triple-bind R I (λ _ w. (not (m.source_revision == max_revision) ≡ true) × I w) NoMore _ _
            (require-tells I R (not (m.source_revision == max_revision)) 409 (λ w _. refuses 409 w))
            (λ _ w left.
              triple-bind R I (λ _. J) NoMore _ _ (save-IsCommitted machine.recording digest)
                (λ _.
                  triple-bind R J
                    (λ _ w. (not (fold_always req.restart) || machine.restarts ≡ true) × J w) NoMore
                    _ _
                    (require-tells J R (not (fold_always req.restart) || machine.restarts) 502
                      (λ w _. refuses 502 w))
                    (λ _ w kept. replies _ w refl refl kept.1))
                w left.1))
    where
      I : Workspace → Type 0
      I = Unlinked (AllStored (in_memory files))

      J : Workspace → Type 0
      J = IsCommitted m digest files
