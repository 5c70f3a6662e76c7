-- ===== src/Workspace/Synced.antt =====
-- What a successful synchronisation leaves, and the order of the revisions (`handleSync` of
-- dev-agent/main.go).
use provider_infrastructure.Prelude.{
  ◌≡◌, ◌⊎◌, sym, ap, ◌∙◌, inl, inr, true, false, List, some, All, All-map,
}
use mathlib.Core.Path.{subst}
use mathlib.Core.Option.{some-injective}
use provider_infrastructure.Text.{Text}
use provider_infrastructure.Workspace.{Manifest, decoded, Workspace}
use provider_infrastructure.Workspace.Files.Laws.{Stored}
use provider_infrastructure.Workspace.Digest.{sort_paths}
use provider_infrastructure.Workspace.Digest.Sorted.{sort-sort}
use provider_infrastructure.Workspace.Bundle.{DecodedFile, ok, decode_sync_files, has_path}
use provider_infrastructure.Workspace.Manifests.{read_manifest, manifest_tmp}
use provider_infrastructure.Workspace.Links.{HasNoLink, LeavesNoLink}
use provider_infrastructure.Workspace.Step.{SyncResponse, Reply, refused, synced, mutated, Triple}
use provider_infrastructure.Workspace.Stages.{candidates}
use provider_infrastructure.Workspace.Stages.Stores.{validate-Distinct}
use provider_infrastructure.Workspace.Sync.{
  parsed, Request, Config, Libraries, Machine, Runtime, SyncRequest, Plan, is_authoritative,
  clean_deletes,
}
use provider_infrastructure.Workspace.Served.{
  paths_of, applied, sync_bundle, sync_plain, handle_sync,
}
use provider_infrastructure.Workspace.Preflight.{
  Same, Untouched, IsCurrent, IsChecked, IsAdmitted, IsPrepared,
}
use provider_infrastructure.Workspace.Handler.{NoMore}
use provider_infrastructure.Workspace.Contract.{Replied-some, IsRepeated, handle_sync-ends}
use provider_infrastructure.Workspace.Frame.{text_eq_sym, has_path-paths_of, admitted_unique}
use provider_infrastructure.Workspace.Applied.{IsSettled, AreStable, sync_bundle-IsSettled}

-- The manifest of a bundle.
abbrev pub bundle_manifest : SyncRequest → List DecodedFile → List Text → Manifest
bundle_manifest req files pending = record {
  source_revision = req.source_revision;
  source_digest = req.source_digest;
  files = sort_paths (paths_of files);
  pending_reload_commands = pending;
}

-- The bytes of every file are on the disk, and the manifest is that of the bundle.
abbrev pub IsSynced : SyncRequest → List DecodedFile → Workspace → Type 0
IsSynced req files w =
    All (λ file. Stored file.path file.content w.disk) files
    × (pending : List Text) × (w.manifest ≡ decoded (bundle_manifest req files pending))

settled-IsSynced :
    (plan : Plan) (w : Workspace) → IsSettled plan w → IsSynced plan.request plan.incoming w
settled-IsSynced plan w (stored, (pending, recorded)) = (
  stored,
  pending,
  recorded
      ∙ ap (λ paths. decoded (record (applied plan pending) { files = paths }))
          (sort-sort (paths_of plan.incoming)),
)

-- A success leaves `IsSynced`, or the workspace as it is where that is current.
abbrev IsOutcome :
    Libraries → Machine → Workspace → SyncRequest → List DecodedFile → Reply → Workspace → Type 0
IsOutcome lib machine w₀ req files (refused code) w = Unit
IsOutcome lib machine w₀ req files (mutated resp) w = Unit
IsOutcome lib machine w₀ req files (synced resp) w =
    ((w ≡ w₀) × IsCurrent lib machine w₀ (read_manifest w₀.manifest) req.source_revision)
    ⊎ IsSynced req files w

-- A synchronisation with a revision that replies success leaves the exact bytes of every file of
-- its bundle, and a manifest with its revision, its digest and the sorted paths, or it leaves the
-- workspace as it is, where the manifest names that revision, nothing is pending and the files
-- verify. The paths that it may remove are stable under cleaning, no file has the name of the
-- manifest's temporary file, and no symbolic link stands there, nor is put there by the reload.
pub handle_sync-IsSynced :
    (lib : Libraries) (machine : Machine) (config : Config) (runtime : Runtime) (r : Request)
    (w₀ : Workspace) (req : SyncRequest) (files : List DecodedFile) (deletes : List Text)
    (resp : SyncResponse)
    → r.body ≡ parsed req
    → decode_sync_files lib.decode_base64 req.files ≡ ok files
    → is_authoritative req ≡ true
    → clean_deletes true req.delete_paths ≡ some deletes
    → AreStable (candidates (read_manifest w₀.manifest) deletes)
    → has_path manifest_tmp (paths_of files) ≡ false
    → HasNoLink w₀
    → LeavesNoLink runtime
    → (handle_sync lib machine config runtime r w₀).1 ≡ some (synced resp)
    → (((handle_sync lib machine config runtime r w₀).0 ≡ w₀)
        × IsCurrent lib machine w₀ (read_manifest w₀.manifest) req.source_revision)
      ⊎ IsSynced req files (handle_sync lib machine config runtime r w₀).0
handle_sync-IsSynced lib machine config runtime r w₀ req files deletes resp body decodes
      authoritative cleaned stable free unlinked reloads replied =
    Replied-some R (handle_sync lib machine config runtime r w₀)
      (handle_sync-ends lib machine config runtime r w₀ R early bundle plain) replied
  where
    R : Reply → Workspace → Type 0
    R = IsOutcome lib machine w₀ req files

    early :
        (reply : Reply) (w : Workspace)
        → Untouched w₀ (IsRepeated lib machine r w₀) reply w
        → R reply w
    early (refused code) w untouched = tt
    early (mutated resp) w untouched = tt
    early (synced resp) w (same, (req', files', admitted, current)) = inl (
      same,
      subst (λ q. IsCurrent lib machine w₀ (read_manifest w₀.manifest) q.source_revision)
          (sym (admitted_unique w₀ lib r req req' files files' (body, decodes) admitted).0) current,
    )

    bundle :
        (req' : SyncRequest) (files' : List DecodedFile) (plan : Plan)
        → IsAdmitted w₀ lib r (req', files')
        → IsPrepared w₀ lib req' files' plan
        → is_authoritative req' ≡ true
        → Triple (Same w₀) (sync_bundle lib machine config runtime plan) NoMore R
    bundle req' files' plan admitted
          (same_request, same_files, same_previous, same_deletes, checked) is w same =
        let unique = admitted_unique w₀ lib r req req' files files' (body, decodes) admitted in
        let its_request : plan.request ≡ req = same_request ∙ sym unique.0 in
        let its_files : plan.incoming ≡ files = same_files ∙ sym unique.1 in
        let its_checks : IsChecked w₀ lib plan = rw (is) at checked in
        let its_deletes : deletes ≡ plan.deletes =
          some-injective _ _ (sym cleaned ∙ rw (is, sym unique.0) at same_deletes) in
        sync_bundle-IsSettled plan R (λ _ _. tt)
          (λ resp v settled. inr (
            subst (λ q. IsSynced q files v) its_request
              (subst (λ fs. IsSynced plan.request fs v) its_files
                (settled-IsSynced plan v settled))))
          (validate-Distinct lib.is_utf8 plan.incoming its_checks.0)
          (rw (same_previous, sym its_deletes) stable)
          (All-map plan.incoming (λ file apart. text_eq_sym manifest_tmp file.path apart)
            (has_path-paths_of manifest_tmp plan.incoming (rw (its_files) free)))
          lib machine config runtime reloads w (subst HasNoLink (sym same) unlinked)

    plain :
        (req' : SyncRequest) (files' : List DecodedFile) (plan : Plan)
        → IsAdmitted w₀ lib r (req', files')
        → IsPrepared w₀ lib req' files' plan
        → is_authoritative req' ≡ false
        → Triple (Same w₀) (sync_plain lib machine config runtime plan) NoMore R
    plain req' files' plan admitted prepared not_authoritative =
        let unique = admitted_unique w₀ lib r req req' files files' (body, decodes) admitted in
        absurd (cc (rw (sym unique.0, authoritative) at not_authoritative))
