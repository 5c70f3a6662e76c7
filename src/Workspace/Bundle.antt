-- ===== src/Workspace/Bundle.antt =====
-- The files of a synchronisation as they are sent (`decodeSyncContent`, `decodeSyncFiles` and
-- `validateAuthoritativeSyncFiles` of dev-agent/main.go).
use provider_infrastructure.Prelude.{
  ℕ, ◌+◌, Bool, true, false, not, ◌&&◌, ◌||◌, List, [], ◌∷◌, Option, none, some, any, length, ltb,
  if◌then◌else◌,
}
use provider_infrastructure.Text.{Text, codes, text_eq, is_empty, contains_rune}
use provider_infrastructure.Workspace.{clean_workspace_path, is_managed_path}
use provider_infrastructure.Workspace.Digest.{Source, utf8}

-- `syncFile`
pub record SyncFile : Type 0 where
  pub path : Text
  pub content : Text
  pub encoding : Text

-- `decodedSyncFile`
pub record DecodedFile : Type 0 where
  pub path : Text
  pub content : List ℕ
  pub binary : Bool

-- `errSyncTooLarge`, or another error.
pub data DecodeError : Type 0 where
  too_large invalid : DecodeError

pub data Decoded {ℓ} (A : Type ℓ) : Type ℓ where
  ok : A → Decoded A
  err : DecodeError → Decoded A

infixl 5 ◌>>=◌
abbrev pub ◌>>=◌ {ℓ κ} : {A : Type ℓ} {B : Type κ} → Decoded A → (A → Decoded B) → Decoded B
ok a >>= f = f a
err e >>= f = err e

abbrev pub or_invalid {ℓ} : {A : Type ℓ} → Option A → Decoded A
or_invalid none = err invalid
or_invalid (some a) = ok a

abbrev pub sync_max_files : ℕ
sync_max_files = 500

abbrev pub sync_max_file_bytes : ℕ
sync_max_file_bytes = 26_214_400

abbrev pub sync_max_total_bytes : ℕ
sync_max_total_bytes = 50_331_648

-- `base64.StdEncoding.Strict().DecodeString` is `decode_base64`, and `utf8.Valid` is `is_utf8`.
module _ (decode_base64 : Text → Option (List ℕ)) where
  -- `decodeSyncContent`: the bytes, and whether they were sent as base64.
  unfoldable pub decode_sync_content : SyncFile → Decoded (List ℕ × Bool)
  unfolding utf8
  decode_sync_content file =
      if is_empty file.encoding || text_eq file.encoding (codes "utf-8")
      then ok (utf8 file.content, false)
      else if not (text_eq file.encoding (codes "base64"))
      then err invalid
      else if contains_rune file.content b'\r' || contains_rune file.content b'\n'
      then err invalid
      else (do bytes ← or_invalid (decode_base64 file.content); ok (bytes, true))

  -- The limits on one file, after `total` bytes of earlier ones.
  abbrev pub check_size : ℕ → ℕ → Decoded (Unit {0})
  check_size total size =
      if ltb sync_max_file_bytes size
      then err too_large
      else if ltb sync_max_total_bytes (total + size)
      then err too_large
      else ok tt

  -- The loop of `decodeSyncFiles`, with the limits enforced.
  unfoldable pub decode_from : ℕ → List SyncFile → Decoded (List DecodedFile)
  unfolding decode_sync_content clean_workspace_path
  decode_from total [] = ok []
  decode_from total (file ∷ files) = do
    path ← or_invalid (clean_workspace_path file.path)
    decoded ← decode_sync_content file
    fits ← check_size total (length decoded.0)
    rest ← decode_from (total + length decoded.0) files
    ok (record { path = path; content = decoded.0; binary = decoded.1 } ∷ rest)

  -- `decodeSyncFiles`, with the limits enforced.
  unfoldable pub decode_sync_files : List SyncFile → Decoded (List DecodedFile)
  unfolding decode_from
  decode_sync_files files =
      if ltb sync_max_files (length files) then err too_large else decode_from 0 files

abbrev pub source_of : DecodedFile → Source
source_of file = (file.path, file.content)

-- `_, ok := set[path]` for a set of paths.
unfoldable pub has_path : Text → List Text → Bool
has_path path paths = any (λ p. text_eq p path) paths

abbrev pub is_text_file : (List ℕ → Bool) → DecodedFile → Bool
is_text_file is_utf8 file =
    file.binary || (is_utf8 file.content && not (contains_rune file.content 0))

-- `validateAuthoritativeSyncFiles`, with the paths that were seen: whether it returns no error.
unfoldable pub validate_from : (List ℕ → Bool) → List Text → List DecodedFile → Bool
unfolding is_managed_path has_path
validate_from is_utf8 seen [] = true
validate_from is_utf8 seen (file ∷ files) =
    is_managed_path file.path
    && (is_text_file is_utf8 file
        && (not (has_path file.path seen) && validate_from is_utf8 (file.path ∷ seen) files))
