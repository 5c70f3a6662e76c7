-- ===== src/Workspace/Digest.antt =====
-- The digest of the source files (`syncDigester`, `digestDecodedSyncFiles` and `slices.Sort` of paths
-- in dev-agent/main.go).
pub mod Reading
pub mod Sorted
use provider_infrastructure.Prelude.{
  ℕ, ◌+◌, ◌/◌, ◌%◌, Bool, true, false, List, [], ◌∷◌, ◌++◌, ltb, if◌then◌else◌,
}
use provider_infrastructure.Text.{Text, text_lt}

-- `[]byte(s)`: the UTF-8 encoding.
abbrev pub utf8_rune : ℕ → List ℕ
utf8_rune c =
    if ltb c 0x80
    then c ∷ []
    else if ltb c 0x800
    then (0xc0 + c / 64) ∷ (0x80 + c % 64) ∷ []
    else if ltb c 0x1_0000
    then (0xe0 + c / 4096) ∷ (0x80 + c / 64 % 64) ∷ (0x80 + c % 64) ∷ []
    else (0xf0 + c / 262_144) ∷ (0x80 + c / 4096 % 64) ∷ (0x80 + c / 64 % 64) ∷ (0x80 + c % 64) ∷ []

unfoldable pub utf8 : Text → List ℕ
utf8 [] = []
utf8 (c ∷ s) = utf8_rune c ++ utf8 s

-- A path with the bytes of its file.
abbrev pub Source : Type 0
Source = Text × List ℕ

-- What the digester hashes: each path and each content with a zero byte after it.
unfoldable pub preimage : List Source → List ℕ
unfolding utf8
preimage [] = []
preimage ((path, content) ∷ files) = utf8 path ++ (0 ∷ (content ++ (0 ∷ preimage files)))

unfoldable pub insert_source : Source → List Source → List Source
insert_source s [] = s ∷ []
insert_source (path, content) ((other, bytes) ∷ files) =
    if text_lt other path
    then (other, bytes) ∷ insert_source (path, content) files
    else (path, content) ∷ (other, bytes) ∷ files

-- `slices.SortFunc` by the path.
unfoldable pub sort_sources : List Source → List Source
unfolding insert_source
sort_sources [] = []
sort_sources (s ∷ files) = insert_source s (sort_sources files)

unfoldable pub insert_path : Text → List Text → List Text
insert_path path [] = path ∷ []
insert_path path (other ∷ paths) =
    if text_lt other path then other ∷ insert_path path paths else path ∷ other ∷ paths

-- `slices.Sort`
unfoldable pub sort_paths : List Text → List Text
unfolding insert_path
sort_paths [] = []
sort_paths (path ∷ paths) = insert_path path (sort_paths paths)

-- `digestDecodedSyncFiles`, where `hash` is SHA-256 in hexadecimal digits.
unfoldable pub digest_sources : (List ℕ → Text) → List Source → Text
unfolding preimage sort_sources
digest_sources hash files = hash (preimage (sort_sources files))
