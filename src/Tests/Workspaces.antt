-- ===== src/Tests/Workspaces.antt =====
-- `/sync` on a concrete workspace.
use provider_infrastructure.Prelude.{
  ◌≡◌, ◌≢◌, ◌⊎◌, refl, sym, ◌∙◌, true, false, List, [], ◌∷◌, none, some, All, map, if◌then◌else◌,
}
use mathlib.Core.Option.{some-injective}
use provider_infrastructure.Text.Laws.{text_eq_iff}
use provider_infrastructure.Text.{
  Text, codes, text_eq, trim_space, cut_prefix, split, join, to_lower, contains_rune, trim_prefix,
}
use provider_infrastructure.Command.{normalize_source_digest}
use provider_infrastructure.Command.Path.{path_clean, is_reserved, is_abs}
use provider_infrastructure.Workspace.{
  regular, Manifest, decoded, Workspace, complete, saved, Faults, clean_workspace_path,
}
use provider_infrastructure.Workspace.Files.Laws.{Stored}
use provider_infrastructure.Workspace.Bundle.{DecodedFile, ok, decode_sync_files, has_path}
use provider_infrastructure.Workspace.Manifests.{read_manifest, manifest_tmp}
use provider_infrastructure.Workspace.Step.{SyncResponse, refused, synced, ◌>>=◌}
use provider_infrastructure.Workspace.Stages.{candidates}
use provider_infrastructure.Workspace.Sync.{
  parsed, malformed, Request, Config, Libraries, Machine, Runtime, SyncRequest, clean_deletes,
}
use provider_infrastructure.Workspace.Served.{paths_of, handle_sync}
use provider_infrastructure.Workspace.Preflight.{IsCurrent}
use provider_infrastructure.Workspace.Promises.{handle_sync-early}
use provider_infrastructure.Workspace.Frame.{handle_sync-Stored}
use provider_infrastructure.Workspace.Links.{HasNoLink, LeavesNoLink}
use provider_infrastructure.Workspace.Applied.{AreStable}
use provider_infrastructure.Workspace.Synced.{IsSynced, handle_sync-IsSynced}
use provider_infrastructure.Workspace.Digest.{Source, sort_paths, preimage}
use provider_infrastructure.Workspace.Digest.Reading.{
  HasNoZero, read_preimage, encoded, read-preimage,
}

abbrev pub digest : Text
digest = codes "0123456789abcdef0123456789abcdef0123456789abcdef0123456789abcdef"

abbrev pub lib : Libraries
lib = record {
  hash = λ _. digest;
  decode_base64 = λ _. none;
  is_utf8 = λ _. true;
  matches = text_eq;
}

abbrev pub fine : Faults
fine = record {
  lstat_fails = λ _. false;
  read_fails = λ _. false;
  mkdir_fails = λ _. false;
  write = λ _. complete;
  remove_fails = λ _. false;
  manifest_write = saved;
  write_through = λ _ w. (w, false);
}

abbrev pub machine : Machine
machine = record {
  opens = true;
  remove_all = λ _ d. (d, true);
  checking = fine;
  writing = fine;
  deleting = fine;
  recording = fine;
  restoring = fine;
  recording_again = fine;
  deleting_again = fine;
  verifying = fine;
  clearing = fine;
  stamping = fine;
}

-- The hook writes to the file of the bundle.
abbrev pub runtime : Runtime
runtime = record {
  status = some (record { configured = true; running = true });
  reload = λ _ w. (
    record w {
      disk = λ q. if text_eq q (codes "a.txt") then some (regular (codes "hook")) else w.disk q;
    },
    none,
  );
  restarts = true;
  exits = true;
}

abbrev pub config : Config
config = record {
  control_token = codes "token";
  allow_insecure_control = false;
  reload_rules = record { paths = codes "a.txt" ∷ []; command = codes "install" } ∷ [];
  reload_strategy = codes "process";
}

abbrev sync_request : SyncRequest
sync_request = record {
  files = record { path = codes "a.txt"; content = codes "hi"; encoding = [] } ∷ [];
  delete_paths = [];
  restart = codes "auto";
  source_revision = 2;
  source_digest = digest;
}

abbrev request : Request
request = record { is_post = true; token = codes "token"; body = parsed sync_request }

abbrev bundle : List DecodedFile
bundle = record { path = codes "a.txt"; content = codes "hi"; binary = false } ∷ []

abbrev previous : Manifest
previous = record {
  source_revision = 1;
  source_digest = digest;
  files = codes "b.txt" ∷ [];
  pending_reload_commands = [];
}

-- A managed file, and a log that the process wrote.
abbrev before : Workspace
before = record {
  disk = λ q.
      if text_eq q (codes "b.txt")
      then some (regular (codes "old"))
      else if text_eq q (codes "run.log")
      then some (regular (codes "log"))
      else none;
  manifest = decoded previous;
}

abbrev success : SyncResponse
success = record {
  changed = codes "a.txt" ∷ [];
  deleted = codes "b.txt" ∷ [];
  reload_runs = codes "install" ∷ [];
  restarted = true;
  reload_error = none;
  source_revision = 2;
  source_digest = digest;
}

-- The reload runs, the bundle is restored after it, and the process is restarted.
replies_success : (handle_sync lib machine config runtime request before).1 ≡ some (synced success)
unfolding handle_sync ◌>>=◌ is_abs path_clean split join is_reserved contains_rune
    normalize_source_digest trim_prefix
replies_success = refl

decodes_bundle : decode_sync_files lib.decode_base64 sync_request.files ≡ ok bundle
unfolding decode_sync_files is_abs path_clean split join contains_rune trim_space text_eq cut_prefix
decodes_bundle = refl

reads_previous : read_manifest before.manifest ≡ some previous
unfolding read_manifest is_abs path_clean split join is_reserved normalize_source_digest trim_prefix
    trim_space text_eq to_lower sort_paths
reads_previous = refl

stable_candidates : AreStable (candidates (read_manifest before.manifest) [])
unfolding candidates read_manifest is_abs path_clean split join is_reserved normalize_source_digest
    trim_prefix clean_workspace_path trim_space text_eq to_lower
stable_candidates = (refl, tt)

free_of_manifest : has_path manifest_tmp (paths_of bundle) ≡ false
unfolding has_path text_eq
free_of_manifest = refl

cleaned_b : clean_workspace_path (codes "b.txt") ≡ some (codes "b.txt")
unfolding clean_workspace_path is_abs path_clean split join trim_space text_eq cut_prefix
cleaned_b = refl

log_differs : text_eq (codes "b.txt") (codes "run.log") ≡ false
unfolding text_eq
log_differs = refl

other_name : clean_workspace_path (codes "b.txt") ≢ some (codes "run.log")
other_name = λ same.
    let equal = (text_eq_iff _ _).1 (some-injective _ _ (sym cleaned_b ∙ same)) in
    cc (rw (equal) at log_differs)

log_unnamed : has_path (codes "run.log") (paths_of bundle) ≡ false
unfolding has_path text_eq
log_unnamed = refl

log_not_manifest : text_eq (codes "run.log") manifest_tmp ≡ false
unfolding text_eq
log_not_manifest = refl

log_Stored : Stored (codes "run.log") (codes "log") before.disk
unfolding text_eq
log_Stored = refl

hook_leaves_log :
    (commands : List Text) (w : Workspace)
    → Stored (codes "run.log") (codes "log") w.disk
    → Stored (codes "run.log") (codes "log") (runtime.reload commands w).0.disk
unfolding text_eq
hook_leaves_log commands w stored = stored

abbrev malformed_request : Request
malformed_request = record { is_post = true; token = codes "token"; body = malformed }

replies_malformed :
    (handle_sync lib machine config runtime malformed_request before).1 ≡ some (refused 400)
unfolding handle_sync ◌>>=◌
replies_malformed = refl

unlinked_before : HasNoLink before
unfolding text_eq
unlinked_before = refl

hook-LeavesNoLink : LeavesNoLink runtime
unfolding text_eq
hook-LeavesNoLink commands w free = free

handle_sync-early_example :
    (handle_sync lib machine config runtime malformed_request before).0 ≡ before
handle_sync-early_example =
    handle_sync-early lib machine config runtime malformed_request before 400 replies_malformed refl

handle_sync-Stored_example :
    Stored
      (codes "run.log")
      (codes "log")
      (handle_sync lib machine config runtime request before).0.disk
handle_sync-Stored_example =
    handle_sync-Stored lib machine config runtime request before sync_request bundle previous
      (codes "run.log") (codes "log") refl decodes_bundle refl reads_previous (other_name, tt)
      log_unnamed log_not_manifest hook-LeavesNoLink hook_leaves_log unlinked_before log_Stored

handle_sync-IsSynced_example :
    (((handle_sync lib machine config runtime request before).0 ≡ before)
      × IsCurrent lib machine before (read_manifest before.manifest) 2)
    ⊎ IsSynced sync_request bundle (handle_sync lib machine config runtime request before).0
unfolding clean_deletes
handle_sync-IsSynced_example =
    handle_sync-IsSynced lib machine config runtime request before sync_request bundle [] success
      refl decodes_bundle refl refl stable_candidates free_of_manifest unlinked_before
      hook-LeavesNoLink replies_success

abbrev sources : List Source
sources = (codes "a.txt", codes "hi") ∷ (codes "b.txt", []) ∷ []

no_zeros : All (λ file. HasNoZero file.0 × HasNoZero file.1) sources
unfolding contains_rune
no_zeros = ((refl, refl), ((refl, refl), tt))

read-preimage_example : read_preimage (preimage sources) ≡ some (map encoded sources)
read-preimage_example = read-preimage sources no_zeros

-- Two workspaces, of one file and of two, whose bytes have zeros: one digest.
ambiguous :
    preimage ((codes "a", 120 ∷ 0 ∷ 98 ∷ 0 ∷ 121 ∷ []) ∷ [])
    ≡ preimage ((codes "a", 120 ∷ []) ∷ (codes "b", 121 ∷ []) ∷ [])
unfolding preimage
ambiguous = refl

-- Cleaning a path twice gives another path.
cleaned_once : clean_workspace_path (codes "a /") ≡ some (codes "a ")
unfolding clean_workspace_path is_abs path_clean split join trim_space text_eq cut_prefix
cleaned_once = refl

cleaned_twice : clean_workspace_path (codes "a ") ≡ some (codes "a")
unfolding clean_workspace_path is_abs path_clean split join trim_space text_eq cut_prefix
cleaned_twice = refl

-- A managed file cannot become a directory: the write comes before the deletion.
abbrev folder_request : Request
folder_request = record {
  is_post = true;
  token = codes "token";
  body = parsed (record sync_request {
    files = record { path = codes "b.txt/c"; content = codes "hi"; encoding = [] } ∷ [];
  });
}

replies_conflict :
    (handle_sync lib machine config runtime folder_request before).1 ≡ some (refused 409)
unfolding handle_sync ◌>>=◌ is_abs path_clean split join is_reserved contains_rune
    normalize_source_digest trim_prefix
replies_conflict = refl
