-- ===== src/FilePath.antt =====
-- The functions of package path/filepath that the program calls, on a Unix system, where ToSlash
-- and FromSlash change nothing. Clean is written on the names between the slashes.
pub mod Names
pub mod Clean
pub mod Split
pub mod Laws
pub mod File
use web_template_go.Prelude.{
  ℕ, suc, List, [], ◌∷◌, ◌++◌, Bool, true, false, Option, none, some, if◌then◌else◌, take, drop,
}
use web_template_go.Text.{Bytes, bytes, same, has_prefix, split, join, last_index}
