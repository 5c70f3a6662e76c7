-- ===== src/Tests/Mutations.antt =====
-- `/workspace/mutate` on a concrete workspace.
use provider_infrastructure.Prelude.{
  All, ◌≡◌, ◌≢◌, ◌⊎◌, refl, sym, ◌∙◌, true, false, [], ◌∷◌, none, some, length, ◌==◌, if◌then◌else◌,
}
use mathlib.Core.Option.{some-injective}
use provider_infrastructure.Text.{
  Text, codes, text_eq, byte_len, trim_space, cut_prefix, split, join, to_lower, contains_rune,
  trim_prefix,
}
use provider_infrastructure.Text.Laws.{text_eq_iff}
use provider_infrastructure.Command.{normalize_source_digest}
use provider_infrastructure.Command.Path.{path_clean, is_reserved, is_abs}
use provider_infrastructure.Workspace.{regular, Manifest, decoded, Workspace, clean_workspace_path}
use provider_infrastructure.Workspace.Digest.{sort_paths}
use provider_infrastructure.Workspace.Manifests.{read_manifest, manifest_tmp}
use provider_infrastructure.Workspace.Step.{MutateResponse, refused, mutated, done, ◌>>=◌}
use provider_infrastructure.Workspace.Applied.{AreStable}
use provider_infrastructure.Workspace.Sync.{Libraries}
use provider_infrastructure.Workspace.Mutate.{
  WorkspaceFile, apply_operations, MutateRequest, MutateMachine,
}
use provider_infrastructure.Workspace.Commit.{matches_evidence, handle_mutate}
use provider_infrastructure.Workspace.Mutate.Operations.{file_at, IsDone, apply_operations-IsDone}
use provider_infrastructure.Workspace.Mutate.Paths.{IsApart}
use provider_infrastructure.Workspace.Links.{HasNoLink}
use provider_infrastructure.Workspace.Mutate.Commits.{SpareManifest}
use provider_infrastructure.Workspace.Mutate.Mutated.{IsApplied, handle_mutate-IsApplied}
use provider_infrastructure.Tests.Workspaces.{digest, lib, fine}

abbrev next_digest : Text
next_digest = codes "fedcba9876543210fedcba9876543210fedcba9876543210fedcba9876543210"

-- It tells the bytes of the first workspace from those of the second.
abbrev hashing : Libraries
hashing = record lib { hash = λ bytes. if length bytes == 9 then digest else next_digest }

abbrev healthy : MutateMachine
healthy = record {
  opens = true;
  checking = fine;
  reading = fine;
  digesting = fine;
  writing = fine;
  deleting = fine;
  recording = fine;
  restarts = true;
}

abbrev seeded_manifest : Manifest
seeded_manifest = record {
  source_revision = 3;
  source_digest = digest;
  files = codes "a.txt" ∷ [];
  pending_reload_commands = [];
}

abbrev seeded : Workspace
seeded = record {
  disk = λ q. if text_eq q (codes "a.txt") then some (regular (codes "hi")) else none;
  manifest = decoded seeded_manifest;
}

abbrev replace_file : MutateRequest
replace_file = record {
  expected_revision = 3;
  expected_digest = digest;
  operations =
      record { operation = codes "write"; path = codes "b.txt"; content = codes "new" }
      ∷ record { operation = codes "delete"; path = codes "a.txt"; content = [] }
      ∷ [];
  restart = codes "never";
}

abbrev replaced : MutateResponse
replaced = record {
  is_unchanged = false;
  changed = codes "b.txt" ∷ [];
  deleted = codes "a.txt" ∷ [];
  restarted = false;
  source_revision = 4;
  source_digest = next_digest;
}

replies_replaced :
    (handle_mutate hashing healthy (some replace_file) seeded).1 ≡ some (mutated replaced)
unfolding handle_mutate ◌>>=◌ is_abs path_clean split join is_reserved contains_rune
    normalize_source_digest trim_prefix to_lower byte_len
replies_replaced = refl

-- A request with the evidence of an older revision is refused.
replies_stale :
    (handle_mutate hashing healthy (some (record replace_file { expected_revision = 2 })) seeded).1
    ≡ some (refused 409)
unfolding handle_mutate ◌>>=◌ is_abs path_clean split join is_reserved contains_rune
    normalize_source_digest trim_prefix to_lower
replies_stale = refl

reads_seeded : read_manifest seeded.manifest ≡ some seeded_manifest
unfolding read_manifest is_abs path_clean split join is_reserved normalize_source_digest trim_prefix
    trim_space text_eq to_lower sort_paths
reads_seeded = refl

stable_files : AreStable seeded_manifest.files
unfolding clean_workspace_path is_abs path_clean split join trim_space text_eq cut_prefix
stable_files = (refl, tt)

files-IsApart : IsApart manifest_tmp seeded_manifest.files
unfolding text_eq
files-IsApart = (refl, tt)

cleans_b : clean_workspace_path (codes "b.txt") ≡ some (codes "b.txt")
unfolding clean_workspace_path is_abs path_clean split join trim_space text_eq cut_prefix
cleans_b = refl

b_differs : text_eq (codes "b.txt") manifest_tmp ≡ false
unfolding text_eq
b_differs = refl

cleans_a : clean_workspace_path (codes "a.txt") ≡ some (codes "a.txt")
unfolding clean_workspace_path is_abs path_clean split join trim_space text_eq cut_prefix
cleans_a = refl

a_differs : text_eq (codes "a.txt") manifest_tmp ≡ false
unfolding text_eq
a_differs = refl

other_path :
    (path q : Text)
    → clean_workspace_path path ≡ some path
    → text_eq path q ≡ false
    → clean_workspace_path path ≢ some q
other_path path q cleaned differs = λ same.
    let equal = (text_eq_iff _ _).1 (some-injective _ _ (sym cleaned ∙ same)) in
    cc (rw (equal) at differs)

spares_manifest : SpareManifest replace_file.operations
spares_manifest = (
  other_path (codes "b.txt") manifest_tmp cleans_b b_differs,
  (other_path (codes "a.txt") manifest_tmp cleans_a a_differs, tt),
)

unlinked_seeded : HasNoLink seeded
unfolding text_eq
unlinked_seeded = refl

handle_mutate-IsApplied_example :
    (matches_evidence replace_file seeded_manifest ≡ true)
    × (((replaced.source_revision ≡ 3)
          × ((handle_mutate hashing healthy (some replace_file) seeded).0 ≡ seeded))
        ⊎ ((replaced.source_revision ≡ 4)
            × IsApplied hashing healthy replace_file seeded seeded_manifest
                (handle_mutate hashing healthy (some replace_file) seeded).0))
handle_mutate-IsApplied_example =
    handle_mutate-IsApplied hashing healthy replace_file seeded seeded_manifest reads_seeded
      stable_files files-IsApart unlinked_seeded replaced spares_manifest replies_replaced

abbrev managed_a : WorkspaceFile
managed_a = record {
  path = codes "a.txt";
  content = some (codes "hi");
  size = 2;
  digest = next_digest;
}

abbrev written_b : WorkspaceFile
written_b = record {
  path = codes "b.txt";
  content = some (codes "new");
  size = 3;
  digest = next_digest;
}

gives_b :
    apply_operations hashing [] replace_file.operations (managed_a ∷ []) seeded
    ≡ (seeded, done (written_b ∷ []))
unfolding apply_operations ◌>>=◌ is_abs path_clean split join is_reserved contains_rune trim_space
    text_eq cut_prefix to_lower byte_len
gives_b = refl

b_differs_c : text_eq (codes "b.txt") (codes "c.txt") ≡ false
unfolding text_eq
b_differs_c = refl

a_differs_c : text_eq (codes "a.txt") (codes "c.txt") ≡ false
unfolding text_eq
a_differs_c = refl

apply_operations-IsDone_example :
    All (IsDone hashing (written_b ∷ [])) replace_file.operations
    × (file_at (codes "c.txt") (written_b ∷ []) ≡ file_at (codes "c.txt") (managed_a ∷ []))
apply_operations-IsDone_example =
    apply_operations-IsDone hashing replace_file.operations (managed_a ∷ []) (written_b ∷ []) seeded
      seeded (codes "c.txt") gives_b
      (
        other_path (codes "b.txt") (codes "c.txt") cleans_b b_differs_c,
        (other_path (codes "a.txt") (codes "c.txt") cleans_a a_differs_c, tt),
      )
