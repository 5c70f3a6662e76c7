-- ===== src/Workspace/Stages/Stores.antt =====
-- The loop that writes the files of a synchronisation (dev-agent/main.go) leaves the bytes of each,
-- as their paths differ.
use provider_infrastructure.Prelude.{
  ℕ, ◌≡◌, refl, Bool, true, false, List, [], ◌∷◌, All, All-map, if◌then◌else◌, arith,
}
use mathlib.Core.Path.{subst}
use provider_infrastructure.Text.{Text, text_eq}
use provider_infrastructure.Workspace.{Workspace, Faults, is_safe, ensure_no_symlink}
use provider_infrastructure.Workspace.Files.{write_file, content_changed}
use provider_infrastructure.Workspace.Files.Laws.{
  Stored, write_file-other, write_file-done, content_changed-Stored,
}
use provider_infrastructure.Workspace.Bundle.{DecodedFile, has_path, validate_from}
use provider_infrastructure.Workspace.Step.{
  Reply, refused, Triple, ◌>>=◌, give, require, on_disk, triple-bind, triple-and, triple-map,
  require-tells,
}
use provider_infrastructure.Workspace.Stages.{put_file, put_files, restore_files}
use provider_infrastructure.Workspace.Stages.Keeps.{put_files-keeps, is_early}

-- Each file's path differs from those after it.
abbrev pub Distinct : List DecodedFile → Type 0
Distinct [] = Unit
Distinct (file ∷ files) = All (λ other. text_eq file.path other.path ≡ false) files × Distinct files

validated-from :
    (is_utf8 : List ℕ → Bool) (seen : List Text) (files : List DecodedFile)
    → validate_from is_utf8 seen files ≡ true
    → Distinct files × All (λ file. has_path file.path seen ≡ false) files
unfolding validate_from has_path
validated-from is_utf8 seen [] valid = (tt, tt)
validated-from is_utf8 seen (file ∷ files) valid =
    let rest = validated-from is_utf8 (file.path ∷ seen) files (ground arith) in
    (
      (All-map files (λ other free. ground arith) rest.1, rest.0),
      (ground arith, All-map files (λ other free. ground arith) rest.1),
    )

-- The paths of a bundle that is valid are distinct.
pub validate-Distinct :
    (is_utf8 : List ℕ → Bool) (files : List DecodedFile)
    → validate_from is_utf8 [] files ≡ true
    → Distinct files
validate-Distinct is_utf8 files valid = (validated-from is_utf8 [] files valid).0

-- The bytes of all the files are in the workspace.
abbrev pub AllStored : List DecodedFile → Workspace → Type 0
AllStored files w = All (λ file. Stored file.path file.content w.disk) files

module _ (R : Reply → Workspace → Type 0)
    (refuses : (code : ℕ) (w : Workspace) → R (refused code) w) where
  put_file-Stored :
      (blocked : ℕ) (f : Faults) (file : DecodedFile)
      → Triple
          (λ _. Unit {0})
          (put_file blocked f file)
          (λ _ w. Stored file.path file.content w.disk)
          R
  unfolding put_file
  put_file-Stored blocked f file =
      triple-bind R (λ _. Unit) (λ v w. v ≡ w) S _ _ (λ w _. refl)
        (λ v.
          triple-bind R (λ w. v ≡ w)
            (λ _ w. (is_safe (ensure_no_symlink f v.disk file.path) ≡ true) × (v ≡ w)) S _ _
            (require-tells (λ w. v ≡ w) R (is_safe (ensure_no_symlink f v.disk file.path)) blocked
              (λ w _. refuses blocked w))
            (λ _ w q. at_test v (content_changed f v.disk file.path file.content) refl w q.1))
    where
      S : Bool → Workspace → Type 0
      S _ w = Stored file.path file.content w.disk

      written : Bool → Workspace → Type 0
      written fine w = fine ≡ true → Stored file.path file.content w.disk

      at_test :
          (v : Workspace) (test : Bool)
          → content_changed f v.disk file.path file.content ≡ test
          → Triple
              (λ w. v ≡ w)
              (if test
                then (do
                  written ← on_disk (write_file f file.path file.content)
                  finished ← require written 500
                  give true)
                else give false)
              S
              R
      at_test v true changed =
          triple-bind R (λ w. v ≡ w) written S _ _
            (λ w _ fine. write_file-done f file.path file.content w.disk fine)
            (λ fine.
              triple-bind R (written fine) (λ _ w. (fine ≡ true) × written fine w) S _ _
                (require-tells (written fine) R fine 500 (λ w _. refuses 500 w)) (λ _ w q. q.1 q.0))
      at_test v false same = λ w now.
          subst (λ u. Stored file.path file.content u.disk) now
            (content_changed-Stored f v.disk file.path file.content same)

  pub put_files-AllStored :
      (blocked : ℕ) (f : Faults) (files : List DecodedFile)
      → is_early blocked ≡ false
      → Distinct files
      → Triple (λ _. Unit {0}) (put_files blocked f files) (λ _. AllStored files) R
  unfolding put_files
  put_files-AllStored blocked f [] late distinct = λ w _. tt
  put_files-AllStored blocked f (file ∷ files) late (differs, distinct) =
      triple-bind R (λ _. Unit) (λ _ w. I w) S _ _ (put_file-Stored blocked f file)
        (λ changed.
          triple-bind R I (λ _ w. I w × AllStored files w) S _ _
            (rest (put_files-AllStored blocked f files late distinct)) (λ paths w all. all))
    where
      I : Workspace → Type 0
      I w = Stored file.path file.content w.disk

      S : List Text → Workspace → Type 0
      S _ = AllStored (file ∷ files)

      rest :
          Triple (λ _. Unit) (put_files blocked f files) (λ _. AllStored files) R
          → Triple I (put_files blocked f files) (λ _ w. I w × AllStored files w) R
      rest later =
          triple-map (λ w. I w × Unit {0}) I (λ _ w. I w × AllStored files w)
            (λ _ w. I w × AllStored files w) (λ r w. Unit {0} × R r w) R (put_files blocked f files)
            (λ w i. (i, tt)) (λ _ w q. q) (λ r w q. q.1)
            (triple-and I (λ _. Unit) (λ _. I) (λ _. AllStored files) (λ _ _. Unit) R
              (put_files blocked f files)
              (put_files-keeps I (λ _ _. Unit) (λ _ _ _ _. tt) blocked f files late
                (All-map files
                  (λ other apart w i.
                    write_file-other f other.path file.path other.content file.content w.disk apart
                      i)
                  differs))
              later)

  pub restore_files-AllStored :
      (is_utf8 : List ℕ → Bool) (f : Faults) (files : List DecodedFile)
      → Distinct files
      → Triple (λ _. Unit {0}) (restore_files is_utf8 f files) (λ _. AllStored files) R
  unfolding restore_files
  restore_files-AllStored is_utf8 f files distinct =
      triple-bind R (λ _. Unit) (λ _ w. (validate_from is_utf8 [] files ≡ true) × Unit {0})
        (λ _. AllStored files) _ _
        (require-tells (λ _. Unit) R (validate_from is_utf8 [] files) 500 (λ w _. refuses 500 w))
        (λ _.
          triple-bind R (λ w. (validate_from is_utf8 [] files ≡ true) × Unit {0})
            (λ _. AllStored files) (λ _. AllStored files) _ _
            (λ w _. put_files-AllStored 500 f files refl distinct w tt) (λ paths w all. all))
