-- ===== src/Workspace/Stages/Keeps.antt =====
-- A property of the workspace is kept by the loops of a synchronisation (dev-agent/main.go) if each
-- operation on files in them keeps it.
use provider_infrastructure.Prelude.{
  ℕ, ◌≡◌, refl, inl, inr, Bool, true, false, ◌||◌, List, [], ◌∷◌, Option, none, some, All,
  Bool-cases, ltb, ◌==◌, if◌then◌else◌,
}
use provider_infrastructure.Text.{Text}
use provider_infrastructure.Workspace.{
  Disk, Manifest, Workspace, Faults, is_safe, ensure_no_symlink,
}
use provider_infrastructure.Workspace.Files.{write_file, content_changed, remove_managed}
use provider_infrastructure.Workspace.Digest.{Source, preimage}
use provider_infrastructure.Workspace.Bundle.{DecodedFile, validate_from}
use provider_infrastructure.Workspace.Manifests.{write_manifest}
use provider_infrastructure.Workspace.Step.{
  Reply, refused, Handling, Triple, ◌>>=◌, give, require, expect, on_disk, triple-bind,
  expect-tells,
}
use provider_infrastructure.Workspace.Stages.{
  put_file, put_files, restore_files, is_kept, removal_of, delete_from, remove_each,
}
use provider_infrastructure.Workspace.Stamp.{
  disk_sources, managed_set, nothing_managed, next_stamp, stamp_of, stamp_plain, save_manifest,
}

-- The statuses of a request that is refused for what it says, before the files are looked at.
abbrev pub is_early : ℕ → Bool
is_early code = ltb code 409 || code == 413

module _ (I : Workspace → Type 0) (R : Reply → Workspace → Type 0)
    (refuses : (code : ℕ) (w : Workspace) → is_early code ≡ false → I w → R (refused code) w) where
  pub bind-keeps {ℓ κ} :
      {A : Type ℓ} {B : Type κ} (m : Handling A) (k : A → Handling B)
      → Triple I m (λ _. I) R
      → ((a : A) → Triple I (k a) (λ _. I) R)
      → Triple I (m >>= k) (λ _. I) R
  bind-keeps m k first next = triple-bind R I (λ _. I) (λ _. I) m k first next

  pub require-keeps :
      (test : Bool) (code : ℕ) → is_early code ≡ false → Triple I (require test code) (λ _. I) R
  require-keeps true code late w i = i
  require-keeps false code late w i = refuses code w late i

  pub expect-keeps {ℓ} :
      {A : Type ℓ} (option : Option A) (code : ℕ)
      → is_early code ≡ false
      → Triple I (expect option code) (λ _. I) R
  expect-keeps none code late w i = refuses code w late i
  expect-keeps (some a) code late w i = i

  write-keeps :
      (f : Faults) (file : DecodedFile)
      → ((w : Workspace)
          → I w
          → I (record w { disk = (write_file f file.path file.content w.disk).0 }))
      → Triple I
          (do
            written ← on_disk (write_file f file.path file.content)
            finished ← require written 500
            give true)
          (λ _. I)
          R
  write-keeps f file kept =
      bind-keeps _ _ kept (λ written. bind-keeps _ _ (require-keeps written 500 refl) (λ _ w i. i))

  pub put_file-keeps :
      (blocked : ℕ) (f : Faults) (file : DecodedFile)
      → is_early blocked ≡ false
      → ((w : Workspace)
          → I w
          → I (record w { disk = (write_file f file.path file.content w.disk).0 }))
      → Triple I (put_file blocked f file) (λ _. I) R
  unfolding put_file
  put_file-keeps blocked f file late kept =
      bind-keeps _ _ (λ w i. i)
        (λ v.
          bind-keeps _ _
            (require-keeps (is_safe (ensure_no_symlink f v.disk file.path)) blocked late)
            (λ _. at_test (content_changed f v.disk file.path file.content)))
    where
      at_test :
          (test : Bool)
          → Triple I
              (if test
                then (do
                  written ← on_disk (write_file f file.path file.content)
                  finished ← require written 500
                  give true)
                else give false)
              (λ _. I)
              R
      at_test true = write-keeps f file kept
      at_test false = λ w i. i

  pub put_files-keeps :
      (blocked : ℕ) (f : Faults) (files : List DecodedFile)
      → is_early blocked ≡ false
      → All
          (λ file.
            (w : Workspace)
            → I w
            → I (record w { disk = (write_file f file.path file.content w.disk).0 }))
          files
      → Triple I (put_files blocked f files) (λ _. I) R
  unfolding put_files
  put_files-keeps blocked f [] late kept = λ w i. i
  put_files-keeps blocked f (file ∷ files) late (kept, rest) =
      bind-keeps _ _ (put_file-keeps blocked f file late kept)
        (λ changed. bind-keeps _ _ (put_files-keeps blocked f files late rest) (λ paths w i. i))

  pub restore_files-keeps :
      (is_utf8 : List ℕ → Bool) (f : Faults) (files : List DecodedFile)
      → All
          (λ file.
            (w : Workspace)
            → I w
            → I (record w { disk = (write_file f file.path file.content w.disk).0 }))
          files
      → Triple I (restore_files is_utf8 f files) (λ _. I) R
  unfolding restore_files
  restore_files-keeps is_utf8 f files kept =
      bind-keeps _ _ (require-keeps (validate_from is_utf8 [] files) 500 refl)
        (λ _. bind-keeps _ _ (put_files-keeps 500 f files refl kept) (λ paths w i. i))

  pub delete_from-keeps :
      (f : Faults) (previous : Option Manifest) (incoming paths : List Text)
      → All
          (λ path.
            (w : Workspace)
            → is_kept previous incoming path ≡ false
            → I w
            → I (record w { disk = (remove_managed f path w.disk).0 }))
          paths
      → Triple I (delete_from f previous incoming paths) (λ _. I) R
  unfolding delete_from
  delete_from-keeps f previous incoming [] kept = λ w i. i
  delete_from-keeps f previous incoming (path ∷ paths) (kept, rest) =
      elim (Bool-cases (is_kept previous incoming path)) [
        | inl keeps ↦ rw (keeps, delete_from) (delete_from-keeps f previous incoming paths rest)
        | inr goes ↦
            rw (goes, delete_from)
              (bind-keeps _ _ (λ w i. kept w goes i)
                (λ removal. bind-keeps _ _ (expect-keeps (removal_of removal) 500 refl) (λ gone.
                  bind-keeps _ _ (delete_from-keeps f previous incoming paths rest)
                    (λ deleted w i. i))))
      ]

  pub save_manifest-keeps :
      (f : Faults) (m : Manifest)
      → ((w : Workspace) → I w → I (write_manifest f m w).0)
      → Triple I (save_manifest f m) (λ _. I) R
  unfolding save_manifest
  save_manifest-keeps f m kept w i =
      require-keeps (write_manifest f m w).1 500 refl (write_manifest f m w).0 (kept w i)

  pub remove_each-keeps :
      (remove_all : Text → Disk → Disk × Bool) (paths : List Text)
      → ((path : Text) (w : Workspace) → I w → I (record w { disk = (remove_all path w.disk).0 }))
      → Triple I (remove_each remove_all paths) (λ _. I) R
  unfolding remove_each
  remove_each-keeps remove_all [] kept = λ w i. i
  remove_each-keeps remove_all (path ∷ paths) kept = bind-keeps _ _ (kept path) (λ gone.
      bind-keeps _ _ (require-keeps gone 500 refl) (λ _. remove_each-keeps remove_all paths kept))

  pub stamp_plain-keeps :
      (hash : List ℕ → Text) (f : Faults) (previous : Option Manifest)
      (written deleted pending : List Text)
      → ((digest : Text) (stamp : ℕ × Text) (files : List Source) (pending : List Text)
          → next_stamp previous digest ≡ some stamp
          → (w : Workspace) → I w
          → I (write_manifest f (stamp_of stamp files pending) w).0)
      → Triple I (stamp_plain hash f previous written deleted pending) (λ _. I) R
  unfolding stamp_plain
  stamp_plain-keeps hash f previous written deleted pending kept =
      bind-keeps _ _ (λ w i. i)
        (λ v.
          bind-keeps _ _
            (expect-keeps (disk_sources f v.disk (managed_set previous written deleted)) 500 refl)
            (λ files. at_test files (nothing_managed previous files)))
    where
      at_test :
          (files : List Source) (test : Bool)
          → Triple I
              (if test then give none else (do
                stamp ← expect (next_stamp previous (hash (preimage files))) 500
                let manifest : Manifest = stamp_of stamp files pending
                recorded ← save_manifest f manifest
                give (some manifest)))
              (λ _. I)
              R
      at_test files true = λ w i. i
      at_test files false =
          triple-bind R I
            (λ stamp w. (next_stamp previous (hash (preimage files)) ≡ some stamp) × I w) (λ _. I) _
            _
            (expect-tells I R (next_stamp previous (hash (preimage files))) 500
              (λ w i. refuses 500 w refl i))
            (λ stamp w told.
              bind-keeps _ _
                (save_manifest-keeps f (stamp_of stamp files pending)
                  (kept _ stamp files pending told.0))
                (λ _ w i. i) w told.1)
