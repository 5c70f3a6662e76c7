-- ===== src/Workspace/Mutate/Mutated.antt =====
-- A mutation that succeeds (`handleWorkspaceMutate` and `applyManagedContent` of
-- dev-agent/workspace.go).
use provider_infrastructure.Prelude.{
  suc, ◌≡◌, ◌⊎◌, refl, sym, ap, ◌∙◌, inl, inr, Bool, true, false, not, List, [], some, length, ltb,
  if◌then◌else◌,
}
use mathlib.Core.Path.{subst}
use mathlib.Core.Option.{some-injective}
use provider_infrastructure.Text.{Text, text_eq}
use provider_infrastructure.Command.{normalize_source_digest}
use provider_infrastructure.Workspace.{Manifest, Workspace, Faults}
use provider_infrastructure.Workspace.Manifests.{read_manifest, verify_manifest, manifest_tmp}
use provider_infrastructure.Workspace.Step.{
  MutateResponse, Reply, refused, synced, mutated, Outcome, done, stopped, Handling, Ends, Triple,
  ◌>>=◌, give, stop, require, expect, triple-bind, triple-map, require-tells, expect-tells,
}
use provider_infrastructure.Workspace.Preflight.{Same}
use provider_infrastructure.Workspace.Handler.{NoMore}
use provider_infrastructure.Workspace.Links.{HasNoLink}
use provider_infrastructure.Workspace.Contract.{Replied-some, Replied-reply_of}
use provider_infrastructure.Workspace.Applied.{AreStable}
use provider_infrastructure.Workspace.Sync.{Libraries}
use provider_infrastructure.Workspace.Mutate.{
  MutateRequest, MutateMachine, WorkspaceFile, read_managed_files, sort_files, apply_operations,
  workspace_max_files,
}
use provider_infrastructure.Workspace.Commit.{
  has_evidence, is_bounded, matches_evidence, file_paths, commit, check_mutation, digest_files,
  unchanged_reply, mutate_files, mutate_request, mutate_steps, handle_mutate,
}
use provider_infrastructure.Workspace.Mutate.Paths.{
  IsApart, sort-IsApart, sort-AreDistinct, read_managed_files-AreDistinct,
  file_paths-read_managed_files, file_paths-sort_files,
}
use provider_infrastructure.Workspace.Mutate.Commits.{
  ArePlain, SpareManifest, Refusal, apply_operations-ends,
}
use provider_infrastructure.Workspace.Mutate.Committed.{IsCommitted, commit-ends}

-- A step from a workspace ends as it computes there.
computed :
    {A : Type 0} (w₀ : Workspace) (Q : A → Workspace → Type 0) (R : Reply → Workspace → Type 0)
    (step : Handling A)
    → Triple (Same w₀) step Q R
    → Triple (Same w₀) step (λ a w. (step w₀ ≡ (w, done a)) × Q a w) R
computed w₀ Q R step t w same =
    subst (λ v. Ends (λ a w. (step w₀ ≡ (w, done a)) × Q a w) R (step v)) (sym same)
      (at (step w₀) refl (t w₀ refl))
  where
    at :
        (o : Workspace × Outcome _)
        → step w₀ ≡ o
        → Ends Q R o
        → Ends (λ a w. (step w₀ ≡ (w, done a)) × Q a w) R o
    at (w, done a) is e = (is, e)
    at (w, stopped r) is e = e

module _ (lib : Libraries) (machine : MutateMachine) (req : MutateRequest) (w₀ : Workspace)
    (m : Manifest) where
  -- The operations give the files from those that the manifest names, the digest is theirs, the
  -- bytes of those in memory are on the disk, and the manifest is the next one.
  abbrev pub IsApplied : Workspace → Type 0
  IsApplied w =
      (managed : List WorkspaceFile) × (files : List WorkspaceFile) × (digest : Text)
      × (read_managed_files lib machine.reading w₀.disk m.files ≡ some managed)
      × (apply_operations lib [] req.operations managed w₀ ≡ (w₀, done files))
      × (digest_files lib machine.digesting w₀.disk (sort_files files) ≡ some digest)
      × IsCommitted m digest (sort_files files) w

module _ (lib : Libraries) (machine : MutateMachine) (req : MutateRequest) (w₀ : Workspace)
    (m : Manifest) (read : read_manifest w₀.manifest ≡ some m) (stable : AreStable m.files)
    (spare : IsApart manifest_tmp m.files) (free : HasNoLink w₀) where
  -- The checks let through the manifest that the request names, and its files.
  abbrev IsNamed : Manifest × List WorkspaceFile → Workspace → Type 0
  IsNamed (m', files) w =
      (m' ≡ m)
      × (matches_evidence req m ≡ true)
      × (read_managed_files lib machine.reading w₀.disk m.files ≡ some files)
      × Same w₀ w

  read-ArePlain :
      (f : Faults) (files : List WorkspaceFile)
      → read_managed_files lib f w₀.disk m.files ≡ some files
      → ArePlain files
  read-ArePlain f files is = (
    read_managed_files-AreDistinct lib f w₀.disk m.files files is,
    rw (file_paths-read_managed_files lib f w₀.disk m.files files stable is)
        (sort-IsApart manifest_tmp m.files spare),
  )

  after_read :
      (v : Workspace)
      → v ≡ w₀
      → Triple
          (Same w₀)
          (do
            m' ← expect (read_manifest v.manifest) 409
            verified ← require (verify_manifest lib.hash machine.checking m' v.disk) 409
            current ← require (matches_evidence req m') 409
            files ← expect (read_managed_files lib machine.reading v.disk m'.files) 409
            give (m', files))
          IsNamed
          (Refusal w₀)
  after_read v now =
      triple-bind (Refusal w₀) (Same w₀) (λ m' w. (read_manifest v.manifest ≡ some m') × Same w₀ w)
        IsNamed _ _
        (expect-tells (Same w₀) (Refusal w₀) (read_manifest v.manifest) 409 (λ w same. (same, tt)))
        (λ m' w found.
          let same_manifest : m' ≡ m =
            some-injective _ _ (sym found.0 ∙ ap (λ u. read_manifest u.manifest) now ∙ read) in
          triple-bind (Refusal w₀) (Same w₀)
            (λ _ w. (verify_manifest lib.hash machine.checking m' v.disk ≡ true) × Same w₀ w)
            IsNamed _ _
            (require-tells (Same w₀) (Refusal w₀)
              (verify_manifest lib.hash machine.checking m' v.disk) 409 (λ w same. (same, tt)))
            (λ _ w verified.
              triple-bind (Refusal w₀) (Same w₀)
                (λ _ w. (matches_evidence req m' ≡ true) × Same w₀ w) IsNamed _ _
                (require-tells (Same w₀) (Refusal w₀) (matches_evidence req m') 409
                  (λ w same. (same, tt)))
                (λ _ w current.
                  triple-bind (Refusal w₀) (Same w₀)
                    (λ files w.
                      (read_managed_files lib machine.reading v.disk m'.files ≡ some files)
                      × Same w₀ w)
                    IsNamed _ _
                    (expect-tells (Same w₀) (Refusal w₀)
                      (read_managed_files lib machine.reading v.disk m'.files) 409
                      (λ w same. (same, tt)))
                    (λ files w reads. (
                      same_manifest,
                      subst (λ p. matches_evidence req p ≡ true) same_manifest current.0,
                      subst
                          (λ u. read_managed_files lib machine.reading u.disk m.files ≡ some files)
                          now
                          (subst
                            (λ p.
                              read_managed_files lib machine.reading v.disk p.files ≡ some files)
                            same_manifest reads.0),
                      reads.1,
                    ))
                    w current.1)
                w verified.1)
            w found.1)

  check_mutation-ends : Triple (Same w₀) (check_mutation lib machine req) IsNamed (Refusal w₀)
  unfolding check_mutation
  check_mutation-ends =
      triple-bind (Refusal w₀) (Same w₀) (λ _ w. (has_evidence req ≡ true) × Same w₀ w) IsNamed _ _
        (require-tells (Same w₀) (Refusal w₀) (has_evidence req) 400 (λ w same. (same, tt)))
        (λ _ w named.
          triple-bind (Refusal w₀) (Same w₀) (λ _ w. (is_bounded req.operations ≡ true) × Same w₀ w)
            IsNamed _ _
            (require-tells (Same w₀) (Refusal w₀) (is_bounded req.operations) 400
              (λ w same. (same, tt)))
            (λ _ w bounded.
              triple-bind (Refusal w₀) (Same w₀) (λ _ w. (machine.opens ≡ true) × Same w₀ w) IsNamed
                _ _ (require-tells (Same w₀) (Refusal w₀) machine.opens 500 (λ w same. (same, tt)))
                (λ _ w opened.
                  triple-bind (Refusal w₀) (Same w₀) (λ v w. (v ≡ w₀) × Same w₀ w) IsNamed _ _
                    (λ w same. (same, same)) (λ v w now. after_read v now.0 w now.1) w opened.1)
                w bounded.1)
            w named.1)

  -- A success is of the manifest that the request names: it changes nothing, or it is applied and
  -- its revision is the next one.
  abbrev IsSuccess : Reply → Workspace → Type 0
  IsSuccess (refused code) w = Unit
  IsSuccess (synced resp) w = ⊥
  IsSuccess (mutated resp) w =
      (matches_evidence req m ≡ true)
      × (((resp.source_revision ≡ m.source_revision) × (w ≡ w₀))
          ⊎ ((resp.source_revision ≡ suc m.source_revision) × IsApplied lib machine req w₀ m w))

  Refusal-IsSuccess : (r : Reply) (w : Workspace) → Refusal w₀ r w → IsSuccess r w
  Refusal-IsSuccess (refused code) w refusal = tt
  Refusal-IsSuccess (synced resp) w refusal = refusal.1
  Refusal-IsSuccess (mutated resp) w refusal = absurd refusal.1

  sort_files-ArePlain : (files : List WorkspaceFile) → ArePlain files → ArePlain (sort_files files)
  sort_files-ArePlain files plain = rw (file_paths-sort_files files) (
    sort-AreDistinct (file_paths files) plain.0,
    sort-IsApart manifest_tmp (file_paths files) plain.1,
  )

  digested :
      (managed files : List WorkspaceFile) (v : Workspace)
      → v ≡ w₀
      → matches_evidence req m ≡ true
      → read_managed_files lib machine.reading w₀.disk m.files ≡ some managed
      → apply_operations lib [] req.operations managed w₀ ≡ (w₀, done files)
      → ArePlain files
      → Triple
          (Same w₀)
          (do
            digest ← expect (digest_files lib machine.digesting v.disk (sort_files files)) 409
            if text_eq digest (normalize_source_digest m.source_digest)
                then stop (unchanged_reply m)
                else commit machine req m (sort_files files) digest)
          NoMore
          IsSuccess
  digested managed files v now current reads applies plain =
      triple-bind IsSuccess (Same w₀)
        (λ digest w.
          (digest_files lib machine.digesting v.disk (sort_files files) ≡ some digest) × Same w₀ w)
        NoMore _ _
        (expect-tells (Same w₀) IsSuccess
          (digest_files lib machine.digesting v.disk (sort_files files)) 409 (λ w _. tt))
        (λ digest w told.
          choose digest
            (subst (λ u. digest_files lib machine.digesting u.disk (sort_files files) ≡ some digest)
              now told.0)
            (text_eq digest (normalize_source_digest m.source_digest)) w told.1)
    where
      choose :
          (digest : Text)
          → digest_files lib machine.digesting w₀.disk (sort_files files) ≡ some digest
          → (test : Bool)
          → Triple
              (Same w₀)
              (if test
                then stop (unchanged_reply m)
                else commit machine req m (sort_files files) digest)
              NoMore
              IsSuccess
      choose digest is true = λ w same. (current, inl (refl, same))
      choose digest is false = λ w same.
          commit-ends IsSuccess (λ _ _. tt) m (sort_files files) stable
            (sort_files-ArePlain files plain) machine req digest
            (λ resp v _ next committed.
              (current, inr (next, (managed, files, digest, reads, applies, is, committed))))
            w (subst HasNoLink (sym same) free)

  mutate_files-ends :
      (managed : List WorkspaceFile)
      → SpareManifest req.operations
      → matches_evidence req m ≡ true
      → read_managed_files lib machine.reading w₀.disk m.files ≡ some managed
      → Triple (Same w₀) (mutate_files lib machine req m managed) NoMore IsSuccess
  unfolding mutate_files
  mutate_files-ends managed spared current reads =
      triple-bind IsSuccess (Same w₀) Q NoMore _ _
        (triple-map (Same w₀) (Same w₀) Q Q (Refusal w₀) IsSuccess
          (apply_operations lib [] req.operations managed) (λ w same. same) (λ _ w q. q)
          Refusal-IsSuccess
          (computed w₀ (λ files w. ArePlain files × Same w₀ w) (Refusal w₀)
            (apply_operations lib [] req.operations managed)
            (apply_operations-ends w₀ lib [] req.operations managed spared
              (read-ArePlain machine.reading managed reads))))
        (λ files w given.
          triple-bind IsSuccess (Same w₀)
            (λ _ w. (not (ltb workspace_max_files (length files)) ≡ true) × Same w₀ w) NoMore _ _
            (require-tells (Same w₀) IsSuccess (not (ltb workspace_max_files (length files))) 413
              (λ w _. tt))
            (λ _ w few.
              triple-bind IsSuccess (Same w₀) (λ v w. (v ≡ w₀) × Same w₀ w) NoMore _ _
                (λ w same. (same, same))
                (λ v w now.
                  digested managed files v now.0 current reads
                    (given.0 ∙ ap (λ u. (u, done files)) given.1.1) given.1.0 w now.1)
                w few.1)
            w given.1.1)
    where
      Q : List WorkspaceFile → Workspace → Type 0
      Q files w =
          (apply_operations lib [] req.operations managed w₀ ≡ (w, done files))
          × (ArePlain files × Same w₀ w)

  mutate_request-ends :
      SpareManifest req.operations
      → Triple (Same w₀) (mutate_request lib machine req) NoMore IsSuccess
  unfolding mutate_request
  mutate_request-ends spared =
      triple-bind IsSuccess (Same w₀) IsNamed NoMore _ _
        (triple-map (Same w₀) (Same w₀) IsNamed IsNamed (Refusal w₀) IsSuccess
          (check_mutation lib machine req) (λ w same. same) (λ _ w q. q) Refusal-IsSuccess
          check_mutation-ends)
        (λ checked w named.
          subst (λ p. Ends NoMore IsSuccess (mutate_files lib machine req p checked.1 w))
            (sym named.0) (mutate_files-ends checked.1 spared named.1 named.2 w named.3))

  -- Where the manifest is valid, its paths are stable under cleaning, neither they nor the
  -- operations name the manifest's temporary file and no symbolic link stands there, a mutation
  -- that replies success is of a request that names the revision and the digest of the manifest. It
  -- changes nothing and replies that revision, or it replies the next revision and the operations
  -- give files from those of the manifest, whose bytes in memory are on the disk, with the manifest
  -- of that revision, of their digest and of their paths.
  pub handle_mutate-IsApplied :
      (resp : MutateResponse)
      → SpareManifest req.operations
      → (handle_mutate lib machine (some req) w₀).1 ≡ some (mutated resp)
      → (matches_evidence req m ≡ true)
        × (((resp.source_revision ≡ m.source_revision)
              × ((handle_mutate lib machine (some req) w₀).0 ≡ w₀))
            ⊎ ((resp.source_revision ≡ suc m.source_revision)
                × IsApplied lib machine req w₀ m (handle_mutate lib machine (some req) w₀).0))
  unfolding handle_mutate mutate_steps
  handle_mutate-IsApplied resp spared replied =
      Replied-some IsSuccess (handle_mutate lib machine (some req) w₀)
        (Replied-reply_of IsSuccess (mutate_steps lib machine (some req) w₀) (steps w₀ refl))
        replied
    where
      steps : Triple (Same w₀) (mutate_steps lib machine (some req)) NoMore IsSuccess
      steps =
          triple-bind IsSuccess (Same w₀) (λ req' w. (some req ≡ some req') × Same w₀ w) NoMore _ _
            (expect-tells (Same w₀) IsSuccess (some req) 400 (λ w _. tt))
            (λ req' w is.
              subst (λ q. Ends NoMore IsSuccess (mutate_request lib machine q w))
                (some-injective _ _ is.0) (mutate_request-ends spared w is.1))
