-- ===== src/Main/Load.antt =====
-- The configuration file of a directory.
use web_template_go.Prelude.{Option, none, some, ◌≡◌}
use web_template_go.Errors.{Result, path_error, permission, is_directory, err}
use web_template_go.Scaffold.Disk.{World, directory, Node, file, read_only, denied, absence}
use web_template_go.Text.{Bytes, bytes}
use web_template_go.Main.{Bootstrap}

module _ {F : Type 0} (unmarshal : Bytes → Result (Bootstrap F)) (w : World) where
  -- What loadBootstrap makes of the directory (`of_directory`) and of the file in it (`of_file`), for
  -- what stands at the file's path. Without it, or where nothing can be done with it, each fails, the
  -- first when it opens the file, the second when it asks what it is.
  unfoldable pub IsAlike :
      Bytes → Option Node → Result (Bootstrap F) × World → Result (Bootstrap F) × World → Type 0
  IsAlike config none of_directory of_file =
      (of_directory ≡ (err (path_error (bytes "open") (absence w.disk config) config), w))
      × (of_file ≡ (err (path_error (bytes "stat") (absence w.disk config) config), w))
  IsAlike config (some denied) of_directory of_file =
      (of_directory ≡ (err (path_error (bytes "open") permission config), w))
      × (of_file ≡ (err (path_error (bytes "stat") permission config), w))
  IsAlike config (some directory) of_directory of_file =
      of_directory ≡ (err (path_error (bytes "read") is_directory config), w)
  IsAlike config (some (file content)) of_directory of_file =
      (of_directory ≡ (unmarshal content, w)) × (of_file ≡ (unmarshal content, w))
  IsAlike config (some (read_only content)) of_directory of_file =
      (of_directory ≡ (unmarshal content, w)) × (of_file ≡ (unmarshal content, w))
