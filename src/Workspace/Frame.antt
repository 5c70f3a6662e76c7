-- ===== src/Workspace/Frame.antt =====
-- The files that a synchronisation with a revision leaves alone (`handleSync` of dev-agent/main.go).
use provider_infrastructure.Prelude.{
  ℕ, ◌≡◌, ◌≢◌, sym, ◌∙◌, inl, inr, true, false, List, [], ◌∷◌, Option, none, some, All, Bool-cases,
  arith, All-map,
}
use mathlib.Core.Path.{subst}
use provider_infrastructure.Text.{Text, text_eq}
use provider_infrastructure.Text.Laws.{text_eq_iff}
use provider_infrastructure.Workspace.{Manifest, Workspace, Faults, clean_workspace_path}
use provider_infrastructure.Workspace.Files.Laws.{
  Stored, set-other, write_file-other, remove_managed-other,
}
use provider_infrastructure.Workspace.Bundle.{DecodedFile, ok, decode_sync_files, has_path}
use provider_infrastructure.Workspace.Manifests.{read_manifest, write_manifest, manifest_tmp}
use provider_infrastructure.Workspace.Links.{
  HasNoLink, LeavesNoLink, write_file-IsUnlinked, remove_managed-IsUnlinked,
  write_manifest-HasNoLink, write_manifest-plain,
}
use provider_infrastructure.Workspace.Step.{Reply, Triple}
use provider_infrastructure.Workspace.Stages.{is_kept}
use provider_infrastructure.Workspace.Sync.{
  parsed, Request, Config, Libraries, Machine, Runtime, SyncRequest, Plan, is_authoritative,
}
use provider_infrastructure.Workspace.Served.{
  paths_of, applied, sync_bundle, sync_plain, handle_sync,
}
use provider_infrastructure.Workspace.Preflight.{Same, IsAdmitted, IsPrepared}
use provider_infrastructure.Workspace.Handler.{NoMore, sync_bundle-keeps}
use provider_infrastructure.Workspace.Contract.{Replied, handle_sync-ends}

pub text_eq_sym : (s t : Text) → text_eq s t ≡ false → text_eq t s ≡ false
text_eq_sym s t differs = elim (Bool-cases (text_eq t s)) [
  | inl same ↦ absurd (cc (rw ((text_eq_iff s t).1 (sym ((text_eq_iff t s).0 same))) at differs))
  | inr other ↦ other
]

-- A path that is not among the paths of the files differs from each.
pub has_path-paths_of :
    (q : Text) (files : List DecodedFile)
    → has_path q (paths_of files) ≡ false
    → All (λ file. text_eq q file.path ≡ false) files
unfolding has_path
has_path-paths_of q [] free = tt
has_path-paths_of q (file ∷ files) free =
    (text_eq_sym file.path q (ground arith), has_path-paths_of q files (ground arith))

-- What holds of all the paths of a list holds of a path that is among them.
pub has_path-All :
    (P : Text → Type 0) (path : Text) (paths : List Text)
    → has_path path paths ≡ true
    → All P paths
    → P path
unfolding has_path
has_path-All P path [] found all = cc
has_path-All P path (p ∷ ps) found (here, rest) = elim (Bool-cases (text_eq p path)) [
  | inl same ↦ subst P ((text_eq_iff p path).0 same) here
  | inr other ↦ has_path-All P path ps (ground arith) rest
]

pub write_manifest-Stored :
    (f : Faults) (m : Manifest) (w : Workspace) (q : Text) (bytes : List ℕ)
    → text_eq q manifest_tmp ≡ false
    → HasNoLink w
    → Stored q bytes w.disk
    → Stored q bytes (write_manifest f m w).0.disk
write_manifest-Stored f m w q bytes other free stored =
    write_manifest-plain (λ v. Stored q bytes v.disk) f m w free stored
      (λ entry fine. set-other manifest_tmp q entry w.disk other ∙ stored)
      (set-other manifest_tmp q none w.disk other ∙ stored)

-- The admitted request is the one of the body.
pub admitted_unique :
    (w₀ : Workspace) (lib : Libraries) (r : Request) (req req' : SyncRequest)
    (files files' : List DecodedFile)
    → IsAdmitted w₀ lib r (req, files)
    → IsAdmitted w₀ lib r (req', files')
    → (req ≡ req') × (files ≡ files')
admitted_unique w₀ lib r req req' files files' (a, b) (a', b') = (cc, cc)

-- The removals of a plan do not reach a path that the manifest does not manage.
pub is_kept-unmanaged :
    (m : Manifest) (incoming : List Text) (path q : Text)
    → All (λ p. clean_workspace_path p ≢ some q) m.files
    → is_kept (some m) incoming path ≡ false
    → clean_workspace_path path ≢ some q
is_kept-unmanaged m incoming path q unmanaged goes =
    has_path-All (λ p. clean_workspace_path p ≢ some q) path m.files (ground arith) unmanaged

-- Where the manifest is valid and no symbolic link stands at the name of its temporary file, nor is
-- put there by the reload, a file that the bundle does not name, that the manifest does not manage,
-- that is not the manifest's temporary file and that the reload leaves is left by an authoritative
-- synchronisation, whatever paths it is asked to delete and whatever the reply.
pub handle_sync-Stored :
    (lib : Libraries) (machine : Machine) (config : Config) (runtime : Runtime) (r : Request)
    (w₀ : Workspace) (req : SyncRequest) (files : List DecodedFile) (m : Manifest) (q : Text)
    (bytes : List ℕ)
    → r.body ≡ parsed req
    → decode_sync_files lib.decode_base64 req.files ≡ ok files
    → is_authoritative req ≡ true
    → read_manifest w₀.manifest ≡ some m
    → All (λ p. clean_workspace_path p ≢ some q) m.files
    → has_path q (paths_of files) ≡ false
    → text_eq q manifest_tmp ≡ false
    → LeavesNoLink runtime
    → ((commands : List Text) (w : Workspace)
        → Stored q bytes w.disk
        → Stored q bytes (runtime.reload commands w).0.disk)
    → HasNoLink w₀
    → Stored q bytes w₀.disk
    → Stored q bytes (handle_sync lib machine config runtime r w₀).0.disk
handle_sync-Stored lib machine config runtime r w₀ req files m q bytes body decodes authoritative
      read unmanaged unnamed other links reload free stored =
    let replied : Replied R (handle_sync lib machine config runtime r w₀) =
      handle_sync-ends lib machine config runtime r w₀ R
        (λ reply w untouched. subst I (sym untouched.0) (free, stored)) bundle plain in
    at_end (handle_sync lib machine config runtime r w₀) replied
  where
    I : Workspace → Type 0
    I w = HasNoLink w × Stored q bytes w.disk

    R : Reply → Workspace → Type 0
    R _ = I

    at_end : (o : Workspace × Option Reply) → Replied R o → Stored q bytes o.0.disk
    at_end (w, none) e = absurd e
    at_end (w, some reply) e = e.1

    bundle :
        (req' : SyncRequest) (files' : List DecodedFile) (plan : Plan)
        → IsAdmitted w₀ lib r (req', files')
        → IsPrepared w₀ lib req' files' plan
        → is_authoritative req' ≡ true
        → Triple (Same w₀) (sync_bundle lib machine config runtime plan) NoMore R
    bundle req' files' plan admitted prepared _ w same =
        let unique = admitted_unique w₀ lib r req req' files files' (body, decodes) admitted in
        sync_bundle-keeps I R (λ _ _ _ i. i) (λ _ _ i. i) plan runtime
          (λ f.
            All-map plan.incoming
              (λ file differs v kept. (
                write_file-IsUnlinked manifest_tmp f file.path file.content v.disk kept.0,
                write_file-other f file.path q file.content bytes v.disk differs kept.1,
              ))
              (has_path-paths_of q plan.incoming (rw (prepared.1, sym unique.1) unnamed)))
          (λ f path v goes kept. (
            remove_managed-IsUnlinked manifest_tmp f path v.disk kept.0,
            remove_managed-other f path q v.disk (
                  is_kept-unmanaged m (paths_of plan.incoming) path q unmanaged
                    (rw (prepared.2, read) at goes))
                ∙ kept.1,
          ))
          (λ f pending v kept. (
            write_manifest-HasNoLink f (applied plan pending) v kept.0,
            write_manifest-Stored f (applied plan pending) v q bytes other kept.0 kept.1,
          ))
          (λ commands v kept. (links commands v kept.0, reload commands v kept.1)) lib machine
          config w (subst I (sym same) (free, stored))

    plain :
        (req' : SyncRequest) (files' : List DecodedFile) (plan : Plan)
        → IsAdmitted w₀ lib r (req', files')
        → IsPrepared w₀ lib req' files' plan
        → is_authoritative req' ≡ false
        → Triple (Same w₀) (sync_plain lib machine config runtime plan) NoMore R
    plain req' files' plan admitted prepared not_authoritative =
        let unique = admitted_unique w₀ lib r req req' files files' (body, decodes) admitted in
        absurd (cc (rw (sym unique.0, authoritative) at not_authoritative))
