-- ===== src/Tests/Paths.antt =====
-- Paths of a command, cleaned and refused.
use provider_infrastructure.Prelude.{◌≡◌, ◌⊎◌, refl}
use provider_infrastructure.Text.{
  codes, text_eq, byte_len, trim_space, contains_rune, cut_prefix, split, join, to_lower,
}
use provider_infrastructure.Command.Path.{
  clean, rejected, path_escape, reserved_component, reserved_manifest, path_clean, clean_exec_path,
  clean_exec_work_dir,
}
use provider_infrastructure.Command.Path.Safety.{
  IsInside, clean_exec_path-IsInside, clean_exec_work_dir-IsInside,
}

cleaned : clean_exec_path (codes " ./web//src/ ") ≡ clean (codes "web/src")
unfolding clean_exec_path trim_space split text_eq contains_rune path_clean join cut_prefix to_lower
cleaned = refl

parent_refused : clean_exec_path (codes "web/../../etc") ≡ rejected path_escape
unfolding clean_exec_path trim_space split text_eq contains_rune path_clean join cut_prefix to_lower
parent_refused = refl

git_refused : clean_exec_path (codes "web/.GIT/config") ≡ rejected reserved_component
unfolding clean_exec_path trim_space split text_eq contains_rune path_clean join cut_prefix to_lower
git_refused = refl

manifest_refused :
    clean_exec_path (codes "./.railgrid-workspace-manifest.json") ≡ rejected reserved_manifest
unfolding clean_exec_path trim_space split text_eq contains_rune path_clean join cut_prefix to_lower
manifest_refused = refl

cleaned_dir : clean_exec_work_dir (codes "web/src") ≡ clean (codes "web/src")
unfolding clean_exec_work_dir clean_exec_path trim_space split text_eq contains_rune path_clean join
    cut_prefix to_lower byte_len
cleaned_dir = refl

workspace_dir : clean_exec_work_dir (codes "./.") ≡ clean (codes ".")
unfolding clean_exec_work_dir clean_exec_path trim_space split text_eq contains_rune path_clean join
    cut_prefix to_lower byte_len
workspace_dir = refl

clean_exec_path-IsInside_example : IsInside (codes "web/src")
clean_exec_path-IsInside_example =
    clean_exec_path-IsInside (codes " ./web//src/ ") (codes "web/src") cleaned

clean_exec_work_dir-IsInside_example : (codes "web/src" ≡ codes ".") ⊎ IsInside (codes "web/src")
clean_exec_work_dir-IsInside_example =
    clean_exec_work_dir-IsInside (codes "web/src") (codes "web/src") cleaned_dir
