-- ===== src/Workspace/Preflight.antt =====
-- What holds after the checks at the start of `handleSync` (dev-agent/main.go).
use provider_infrastructure.Prelude.{
  ℕ, ◌≤◌, ◌≡◌, refl, ap, Bool, true, false, not, ◌&&◌, ◌||◌, List, [], Option, none, some, map, ltb,
  ◌==◌, if◌then◌else◌, arith,
}
use mathlib.Core.Path.{subst}
use provider_infrastructure.Text.{Text, text_eq}
use provider_infrastructure.Command.{normalize_source_digest}
use provider_infrastructure.Workspace.{Manifest, Workspace}
use provider_infrastructure.Workspace.Digest.{digest_sources}
use provider_infrastructure.Workspace.Bundle.{
  DecodedFile, Decoded, ok, err, too_large, invalid, decode_sync_files, source_of, validate_from,
}
use provider_infrastructure.Workspace.Manifests.{read_manifest, verify_manifest}
use provider_infrastructure.Workspace.Step.{
  Reply, refused, synced, mutated, Triple, ◌>>=◌, give, stop, require, expect, workspace_now,
  triple-bind, require-tells, triple-map, expect-tells,
}
use provider_infrastructure.Workspace.Sync.{
  Body, oversized, malformed, parsed, Request, Config, Libraries, Machine, SyncRequest, Plan,
  is_authoritative, names_digest, decoded_files, parsed_body, authorize_control, admit_sync,
  clean_deletes, nothing_pending, unchanged, against_previous, check_bundle, preflight,
}

-- The revision is not below that of the manifest, if there is one.
abbrev pub IsFresh : Option Manifest → ℕ → Type 0
IsFresh none revision = Unit
IsFresh (some m) revision = m.source_revision ≤ revision

-- The manifest names the revision already, nothing is pending, and the files verify.
abbrev pub IsCurrent : Libraries → Machine → Workspace → Option Manifest → ℕ → Type 0
IsCurrent lib machine w none revision = ⊥
IsCurrent lib machine w (some m) revision =
    (m.source_revision ≡ revision)
    × (nothing_pending m.pending_reload_commands ≡ true)
    × (verify_manifest lib.hash machine.checking m w.disk ≡ true)

-- A success is replied at once only where the revision is current.
abbrev pub AtOnce : Type 0 → Reply → Type 0
AtOnce current (refused code) = Unit
AtOnce current (synced resp) = current
AtOnce current (mutated resp) = ⊥

module _ (w₀ : Workspace) where
  abbrev pub Same : Workspace → Type 0
  Same w = w ≡ w₀

  abbrev pub Untouched : Type 0 → Reply → Workspace → Type 0
  Untouched current r w = (w ≡ w₀) × AtOnce current r

  against_previous-ends :
      (lib : Libraries) (machine : Machine) (req : SyncRequest) (digest : Text)
      (previous : Option Manifest)
      → Triple Same
          (against_previous lib machine req digest previous)
          (λ _ w. IsFresh previous req.source_revision × Same w)
          (Untouched (IsCurrent lib machine w₀ previous req.source_revision))
  unfolding against_previous
  against_previous-ends lib machine req digest none = λ w same. (tt, same)
  against_previous-ends lib machine req digest (some m) =
      triple-bind R Same (λ _ w. (not (ltb req.source_revision m.source_revision) ≡ true) × Same w)
        S _ _
        (require-tells Same R (not (ltb req.source_revision m.source_revision)) 409
          (λ w same. (same, tt)))
        (λ _ w q. at_test (req.source_revision == m.source_revision) refl q.0 w q.1)
    where
      R : Reply → Workspace → Type 0
      R = Untouched (IsCurrent lib machine w₀ (some m) req.source_revision)

      S : Unit {0} → Workspace → Type 0
      S _ w = (m.source_revision ≤ req.source_revision) × Same w

      at_now :
          (test : Bool) (v : Workspace)
          → m.source_revision ≡ req.source_revision
          → v ≡ w₀
          → test ≡ (
              nothing_pending m.pending_reload_commands
              && verify_manifest lib.hash machine.checking m v.disk)
          → Triple Same (if test then stop (synced (unchanged m)) else give tt) S R
      at_now true v same_revision now decides w same = (
        same,
        (
          same_revision,
          ground arith,
          subst (λ u. verify_manifest lib.hash machine.checking m u.disk ≡ true) now (ground arith),
        ),
      )
      at_now false v same_revision now decides w same = (ground arith, same)

      at_test :
          (test : Bool)
          → (req.source_revision == m.source_revision) ≡ test
          → not (ltb req.source_revision m.source_revision) ≡ true
          → Triple Same
              (if test
                then (do
                  same ← require (text_eq (normalize_source_digest m.source_digest) digest) 409
                  w ← workspace_now
                  if nothing_pending m.pending_reload_commands
                        && verify_manifest lib.hash machine.checking m w.disk
                      then stop (synced (unchanged m))
                      else give tt)
                else give tt)
              S
              R
      at_test true equal fresh =
          triple-bind R Same
            (λ _ w. (text_eq (normalize_source_digest m.source_digest) digest ≡ true) × Same w) S _
            _
            (require-tells Same R (text_eq (normalize_source_digest m.source_digest) digest) 409
              (λ w same. (same, tt)))
            (λ _ w q.
              triple-bind R Same (λ v w. (v ≡ w₀) × Same w) S _ _ (λ w same. (same, same))
                (λ v w q'. at_now _ v (ground arith) q'.0 refl w q'.1) w q.1)
      at_test false differs fresh = λ w same. (ground arith, same)

  -- What the checks tell of an authoritative plan.
  abbrev pub IsChecked : Libraries → Plan → Type 0
  IsChecked lib plan =
      (validate_from lib.is_utf8 [] plan.incoming ≡ true)
      × (text_eq (normalize_source_digest plan.request.source_digest)
            (digest_sources lib.hash (map source_of plan.incoming))
          ≡ true)
      × IsFresh plan.previous plan.request.source_revision

  check_bundle-ends :
      (lib : Libraries) (machine : Machine) (plan : Plan)
      → Triple Same
          (check_bundle lib machine plan)
          (λ _ w. IsChecked lib plan × Same w)
          (Untouched (IsCurrent lib machine w₀ plan.previous plan.request.source_revision))
  unfolding check_bundle
  check_bundle-ends lib machine plan =
      triple-bind R Same (λ _ w. (validate_from lib.is_utf8 [] plan.incoming ≡ true) × Same w) S _ _
        (require-tells Same R (validate_from lib.is_utf8 [] plan.incoming) 400
          (λ w same. (same, tt)))
        (λ _ w valid.
          triple-bind R Same (λ _ w. (text_eq named digest ≡ true) × Same w) S _ _
            (require-tells Same R (text_eq named digest) 409 (λ w same. (same, tt)))
            (λ _ w equal.
              triple-map Same Same
                (λ _ w. IsFresh plan.previous plan.request.source_revision × Same w) S R R _
                (λ w same. same) (λ _ w fresh. ((valid.0, equal.0, fresh.0), fresh.1))
                (λ r w untouched. untouched)
                (against_previous-ends lib machine plan.request digest plan.previous) w equal.1)
            w valid.1)
    where
      R : Reply → Workspace → Type 0
      R = Untouched (IsCurrent lib machine w₀ plan.previous plan.request.source_revision)

      S : Unit {0} → Workspace → Type 0
      S _ w = IsChecked lib plan × Same w

      named : Text
      named = normalize_source_digest plan.request.source_digest

      digest : Text
      digest = digest_sources lib.hash (map source_of plan.incoming)

  -- What the checks tell of any plan.
  abbrev pub IsPrepared : Libraries → SyncRequest → List DecodedFile → Plan → Type 0
  IsPrepared lib req files plan =
      (plan.request ≡ req)
      × (plan.incoming ≡ files)
      × (plan.previous ≡ read_manifest w₀.manifest)
      × (clean_deletes (is_authoritative req) req.delete_paths ≡ some plan.deletes)
      × (if is_authoritative req then IsChecked lib plan else Unit)

  pub at-once :
      (current current' : Type 0)
      → (current → current')
      → (r : Reply) (w : Workspace) → Untouched current r w
      → Untouched current' r w
  at-once current current' f (refused code) w (same, _) = (same, tt)
  at-once current current' f (synced resp) w (same, now) = (same, f now)
  at-once current current' f (mutated resp) w (same, now) = absurd now

  pub preflight-ends :
      (lib : Libraries) (machine : Machine) (req : SyncRequest) (files : List DecodedFile)
      → Triple Same
          (preflight lib machine req files)
          (λ plan w. IsPrepared lib req files plan × Same w)
          (Untouched (IsCurrent lib machine w₀ (read_manifest w₀.manifest) req.source_revision))
  unfolding preflight
  preflight-ends lib machine req files =
      triple-bind R Same (λ _ w. (machine.opens ≡ true) × Same w) S _ _
        (require-tells Same R machine.opens 500 (λ w same. (same, tt)))
        (λ _ w opened.
          triple-bind R Same (λ _ w. (paired ≡ true) × Same w) S _ _
            (require-tells Same R paired 400 (λ w same. (same, tt)))
            (λ _ w pairs.
              triple-bind R Same (λ v w. (v ≡ w₀) × Same w) S _ _ (λ w same. (same, same))
                (λ v w now. read v now.0 w now.1) w pairs.1)
            w opened.1)
    where
      R : Reply → Workspace → Type 0
      R = Untouched (IsCurrent lib machine w₀ (read_manifest w₀.manifest) req.source_revision)

      S : Plan → Workspace → Type 0
      S plan w = IsPrepared lib req files plan × Same w

      paired : Bool
      paired = not (is_authoritative req) || (not (req.source_revision == 0) && names_digest req)

      checks :
          (test : Bool) (plan : Plan)
          → plan.request ≡ req
          → plan.previous ≡ read_manifest w₀.manifest
          → Triple Same
              (if test then check_bundle lib machine plan else give tt)
              (λ _ w. (if test then IsChecked lib plan else Unit) × Same w)
              R
      checks true plan same_request same_previous =
          triple-map Same Same (λ _ w. IsChecked lib plan × Same w)
            (λ _ w. IsChecked lib plan × Same w)
            (Untouched (IsCurrent lib machine w₀ plan.previous plan.request.source_revision)) R
            (check_bundle lib machine plan) (λ w same. same) (λ _ w q. q)
            (at-once (IsCurrent lib machine w₀ plan.previous plan.request.source_revision)
              (IsCurrent lib machine w₀ (read_manifest w₀.manifest) req.source_revision)
              (λ h.
                subst (λ p. IsCurrent lib machine w₀ p req.source_revision) same_previous
                  (subst (λ q. IsCurrent lib machine w₀ plan.previous q.source_revision)
                    same_request h)))
            (check_bundle-ends lib machine plan)
      checks false plan same_request same_previous = λ w same. (tt, same)

      read :
          (v : Workspace)
          → v ≡ w₀
          → Triple Same
              (do
                deletes ← expect (clean_deletes (is_authoritative req) req.delete_paths) 400
                let plan : Plan = record {
                  request = req;
                  incoming = files;
                  deletes = deletes;
                  previous = read_manifest v.manifest;
                }
                checked ← if is_authoritative req then check_bundle lib machine plan else give tt
                give plan)
              S
              R
      read v now =
          triple-bind R Same
            (λ deletes w.
              (clean_deletes (is_authoritative req) req.delete_paths ≡ some deletes) × Same w)
            S _ _
            (expect-tells Same R (clean_deletes (is_authoritative req) req.delete_paths) 400
              (λ w same. (same, tt)))
            (λ deletes w cleaned.
              let plan : Plan = record {
                request = req;
                incoming = files;
                deletes = deletes;
                previous = read_manifest v.manifest;
              } in
              triple-bind R Same
                (λ _ w. (if is_authoritative req then IsChecked lib plan else Unit) × Same w) S _ _
                (checks (is_authoritative req) plan refl (ap (λ u. read_manifest u.manifest) now))
                (λ _ w q.
                  ((refl, refl, ap (λ u. read_manifest u.manifest) now, cleaned.0, q.0), q.1))
                w cleaned.1)

  decoded_files-ends :
      (current : Type 0) (o : Decoded (List DecodedFile))
      → Triple Same (decoded_files o) (λ files w. (o ≡ ok files) × Same w) (Untouched current)
  decoded_files-ends current (ok files) w same = (refl, same)
  decoded_files-ends current (err too_large) w same = (same, tt)
  decoded_files-ends current (err invalid) w same = (same, tt)

  parsed_body-ends :
      (current : Type 0) (body : Body)
      → Triple Same (parsed_body body) (λ req w. (body ≡ parsed req) × Same w) (Untouched current)
  parsed_body-ends current oversized w same = (same, tt)
  parsed_body-ends current malformed w same = (same, tt)
  parsed_body-ends current (parsed req) w same = (refl, same)

  -- The request that is served is the one of the body, with its files decoded.
  abbrev pub IsAdmitted : Libraries → Request → SyncRequest × List DecodedFile → Type 0
  IsAdmitted lib r (req, files) =
      (r.body ≡ parsed req) × (decode_sync_files lib.decode_base64 req.files ≡ ok files)

  pub admit_sync-ends :
      (current : Type 0) (lib : Libraries) (config : Config) (r : Request)
      → Triple Same
          (admit_sync lib config r)
          (λ a w. IsAdmitted lib r a × Same w)
          (Untouched current)
  unfolding admit_sync
  admit_sync-ends current lib config r =
      triple-bind R Same (λ _ w. (r.is_post ≡ true) × Same w) S _ _
        (require-tells Same R r.is_post 405 (λ w same. (same, tt)))
        (λ _ w post.
          triple-bind R Same (λ _ w. (authorize_control config r.token ≡ true) × Same w) S _ _
            (require-tells Same R (authorize_control config r.token) 401 (λ w same. (same, tt)))
            (λ _ w allowed.
              triple-bind R Same (λ req w. (r.body ≡ parsed req) × Same w) S _ _
                (parsed_body-ends current r.body)
                (λ req w read.
                  triple-bind R Same
                    (λ files w. (decode_sync_files lib.decode_base64 req.files ≡ ok files) × Same w)
                    S _ _
                    (decoded_files-ends current (decode_sync_files lib.decode_base64 req.files))
                    (λ files w made. ((read.0, made.0), made.1)) w read.1)
                w allowed.1)
            w post.1)
    where
      R : Reply → Workspace → Type 0
      R = Untouched current

      S : SyncRequest × List DecodedFile → Workspace → Type 0
      S a w = IsAdmitted lib r a × Same w
