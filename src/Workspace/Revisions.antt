-- ===== src/Workspace/Revisions.antt =====
-- The revisions of the manifest only rise (`handleSync` and `stampPlainSyncManifest` of
-- dev-agent/main.go).
use provider_infrastructure.Prelude.{
  ℕ, ◌≤◌, ◌≡◌, sym, inl, inr, true, false, List, [], Option, none, some, Bool-cases, arith,
}
use mathlib.Core.Path.{subst}
use provider_infrastructure.Text.{Text}
use provider_infrastructure.Workspace.{
  Manifest, ManifestFile, absent, undecodable, decoded, Workspace, Disk, Faults,
}
use provider_infrastructure.Workspace.Bundle.{DecodedFile}
use provider_infrastructure.Workspace.Manifests.{
  read_manifest, with_files, has_revision, clean_files, write_manifest, manifest_tmp,
}
use provider_infrastructure.Workspace.Links.{
  HasNoLink, LeavesNoLink, IsUnlinked, write_file-IsUnlinked, remove_managed-IsUnlinked,
  write_manifest-HasNoLink, write_manifest-plain,
}
use provider_infrastructure.Workspace.Step.{Reply, Triple}
use provider_infrastructure.Workspace.Stamp.{next_stamp, stamp_of}
use provider_infrastructure.Workspace.Sync.{
  Request, Config, Libraries, Machine, Runtime, SyncRequest, Plan, is_authoritative,
}
use provider_infrastructure.Workspace.Served.{applied, sync_bundle, sync_plain, handle_sync}
use provider_infrastructure.Workspace.Preflight.{Same, IsFresh, IsChecked, IsAdmitted, IsPrepared}
use provider_infrastructure.Workspace.Handler.{
  NoMore, All-always, sync_bundle-keeps, sync_plain-keeps,
}
use provider_infrastructure.Workspace.Contract.{Replied, handle_sync-ends}

-- The revision that the manifest's file names.
abbrev pub recorded_revision : ManifestFile → ℕ
recorded_revision absent = 0
recorded_revision undecodable = 0
recorded_revision (decoded m) = m.source_revision

with_files-revision :
    (m m' : Manifest) (paths : Option (List Text))
    → with_files m paths ≡ some m'
    → m'.source_revision ≡ m.source_revision
with_files-revision m m' none is = cc
with_files-revision m m' (some paths) is = ground arith

pub read_manifest-revision :
    (file : ManifestFile) (m : Manifest)
    → read_manifest file ≡ some m
    → recorded_revision file ≡ m.source_revision
unfolding read_manifest
read_manifest-revision absent m is = cc
read_manifest-revision undecodable m is = cc
read_manifest-revision (decoded raw) m is = elim (Bool-cases (has_revision raw)) [
  | inl named ↦ sym (with_files-revision raw m (clean_files [] raw.files) (rw (named) at is))
  | inr unnamed ↦ absurd (cc (rw (unnamed) at is))
]

write_manifest-revision :
    (f : Faults) (m : Manifest) (w : Workspace) (least : ℕ)
    → least ≤ m.source_revision
    → HasNoLink w
    → least ≤ recorded_revision w.manifest
    → least ≤ recorded_revision (write_manifest f m w).0.manifest
write_manifest-revision f m w least below free before =
    write_manifest-plain (λ v. least ≤ recorded_revision v.manifest) f m w free before
      (λ _ _. before) below

next_stamp-revision :
    (m : Manifest) (digest : Text) (stamp : ℕ × Text)
    → next_stamp (some m) digest ≡ some stamp
    → m.source_revision ≤ stamp.0
next_stamp-revision m digest stamp is = ground arith

pub handle_sync-revision :
    (lib : Libraries) (machine : Machine) (config : Config) (runtime : Runtime) (r : Request)
    (w₀ : Workspace) (m : Manifest)
    → read_manifest w₀.manifest ≡ some m
    → HasNoLink w₀
    → ((path : Text) (d : Disk)
        → IsUnlinked manifest_tmp d
        → IsUnlinked manifest_tmp (machine.remove_all path d).0)
    → LeavesNoLink runtime
    → ((commands : List Text) (w : Workspace)
        → m.source_revision ≤ recorded_revision w.manifest
        → m.source_revision ≤ recorded_revision (runtime.reload commands w).0.manifest)
    → m.source_revision ≤ recorded_revision (handle_sync lib machine config runtime r w₀).0.manifest
handle_sync-revision lib machine config runtime r w₀ m read free removes links reload =
    at_end (handle_sync lib machine config runtime r w₀) (
      handle_sync-ends lib machine config runtime r w₀ R
        (λ reply w untouched. subst I (sym untouched.0) first) bundle plain)
  where
    I : Workspace → Type 0
    I w = HasNoLink w × (m.source_revision ≤ recorded_revision w.manifest)

    R : Reply → Workspace → Type 0
    R _ = I

    first : I w₀
    first = (free, ground (arith, read_manifest-revision w₀.manifest m read))

    reloads : (commands : List Text) (w : Workspace) → I w → I (runtime.reload commands w).0
    reloads commands w kept = (links commands w kept.0, reload commands w kept.1)

    at_end :
        (o : Workspace × Option Reply)
        → Replied R o
        → m.source_revision ≤ recorded_revision o.0.manifest
    at_end (w, none) e = absurd e
    at_end (w, some reply) e = e.1

    bundle :
        (req : SyncRequest) (files : List DecodedFile) (plan : Plan)
        → IsAdmitted w₀ lib r (req, files)
        → IsPrepared w₀ lib req files plan
        → is_authoritative req ≡ true
        → Triple (Same w₀) (sync_bundle lib machine config runtime plan) NoMore R
    bundle req files plan admitted prepared is w same =
        let checks : IsChecked w₀ lib plan = rw (is) at prepared.4 in
        let fresh : m.source_revision ≤ plan.request.source_revision =
          subst (λ p. IsFresh p plan.request.source_revision) (rw (read) at prepared.2) checks.2 in
        sync_bundle-keeps I R (λ _ _ _ i. i) (λ _ _ i. i) plan runtime
          (λ f. All-always _ plan.incoming (λ file v kept.
            (write_file-IsUnlinked manifest_tmp f file.path file.content v.disk kept.0, kept.1)))
          (λ f path v _ kept. (remove_managed-IsUnlinked manifest_tmp f path v.disk kept.0, kept.1))
          (λ f pending v kept. (
            write_manifest-HasNoLink f (applied plan pending) v kept.0,
            write_manifest-revision f (applied plan pending) v m.source_revision fresh kept.0
                kept.1,
          ))
          reloads lib machine config w (subst I (sym same) first)

    plain :
        (req : SyncRequest) (files : List DecodedFile) (plan : Plan)
        → IsAdmitted w₀ lib r (req, files)
        → IsPrepared w₀ lib req files plan
        → is_authoritative req ≡ false
        → Triple (Same w₀) (sync_plain lib machine config runtime plan) NoMore R
    plain req files plan admitted prepared is w same =
        sync_plain-keeps I R (λ _ _ _ i. i) (λ _ _ i. i) plan runtime machine
          (All-always _ plan.incoming (λ file v kept. (
            write_file-IsUnlinked manifest_tmp machine.writing file.path file.content v.disk kept.0,
            kept.1,
          )))
          (λ path v kept. (removes path v.disk kept.0, kept.1))
          (λ digest stamp files pending stamps v kept. (
            write_manifest-HasNoLink machine.stamping (stamp_of stamp files pending) v kept.0,
            write_manifest-revision machine.stamping (stamp_of stamp files pending) v
                m.source_revision
                (next_stamp-revision m digest stamp (rw (prepared.2, read) at stamps)) kept.0
                kept.1,
          ))
          reloads lib config w (subst I (sym same) first)
