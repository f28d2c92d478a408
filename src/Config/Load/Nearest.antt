-- ===== src/Config/Load/Nearest.antt =====
-- Which configuration `Discover` of config/config.go finds, and that it finds one.
use sqlguard.Prelude.{◌<◌, ◌≡◌, ◌≢◌, ◌⊎◌, Bool, true, false, none, some, Bytes, length}
use sqlguard.Config.Load.{
  Files, Discovery, nothing_found, load, first_file, config_file_names, is_project_root,
}

-- The search from a directory upwards. It ends at a file, at a project's root, or at a directory
-- that is its own parent, and goes on to the parent from any other directory.
pub data Nearest (files : Files) : Bytes → Discovery → Type 0 where
  at_file :
      (dir path : Bytes)
      → first_file files dir config_file_names ≡ some path
      → Nearest files dir (load files path, path)
  at_end :
      (dir : Bytes)
      → first_file files dir config_file_names ≡ none
      → (is_project_root files dir ≡ true) ⊎ (files.dir dir ≡ dir)
      → Nearest files dir nothing_found
  above :
      (dir : Bytes) (found : Discovery)
      → first_file files dir config_file_names ≡ none
      → is_project_root files dir ≡ false
      → files.dir dir ≢ dir
      → Nearest files (files.dir dir) found
      → Nearest files dir found

-- The parent of an absolute path is an absolute path, which is shorter or the same.
abbrev pub Climbs : Files → (Bytes → Bool) → Type 0
Climbs files is_abs =
    (dir : Bytes)
    → is_abs dir ≡ true
    → (is_abs (files.dir dir) ≡ true)
      × ((files.dir dir ≡ dir) ⊎ (length (files.dir dir) < length dir))
