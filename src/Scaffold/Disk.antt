-- ===== src/Scaffold/Disk.antt =====
-- The file system and the commands that the generator works with: the calls of package os, and the
-- Runner of internal/scaffold/proto.go, which starts other programs. A method is an action on the
-- world; what it did before an error stays done.
pub mod Keeps
use web_template_go.Prelude.{
  ℕ, List, [], ◌∷◌, ◌++◌, Bool, true, false, Option, none, some, if◌then◌else◌, ◌==◌, ◌&&◌, ◌||◌,
}
use web_template_go.Text.{Bytes, bytes, same, split}
use web_template_go.FilePath.Names.{slash}
use web_template_go.FilePath.Split.{dir}
use web_template_go.Errors.{
  Error, Reason, message, wrapped, path_error, not_exist, permission, is_directory, not_directory,
  Result, ok, err,
}

-- What stands at a path. Every call on a `denied` path fails with an error other than
-- os.ErrNotExist; a `read_only` file can be read and not written.
pub data Node : Type 0 where
  file read_only : Bytes → Node
  directory denied : Node

abbrev pub Disk : Type 0
Disk = Bytes → Option Node

pub record Command : Type 0 where
  pub dir : Bytes
  pub name : Bytes
  pub args : List Bytes

-- What a run of a command returns and leaves on the disk: the programs that are started are not
-- part of the repository.
abbrev pub Runner : Type 0
Runner = Command → Disk → Option Error × Disk

-- The disk, and the commands that have been run.
pub record World : Type 0 where
  pub disk : Disk
  pub runs : List Command

abbrev pub Io : Type 0 → Type 0
Io A = World → Result A × World

module _ {A : Type 0} where
  unfoldable pub pure : A → Io A
  pure a w = (ok a, w)

  unfoldable pub fail : Error → Io A
  fail e w = (err e, w)

  unfoldable pub lift : Result A → Io A
  lift r w = (r, w)

  unfoldable pub wrap_result : Bytes → Result A → Result A
  wrap_result context (ok a) = ok a
  wrap_result context (err e) = err (wrapped context e)

  -- fmt.Errorf("context: %w", err) on an error
  unfoldable pub wrap : Bytes → Io A → Io A
  unfolding wrap_result
  wrap context m w = let (r, w') = m w in (wrap_result context r, w')

module _ {A B : Type 0} where
  unfoldable pub continue : Result A → (A → Io B) → Io B
  continue (ok a) f w = f a w
  continue (err e) f w = (err e, w)

  infixl 5 ◌>>=◌ ◌>>◌
  unfoldable pub ◌>>=◌ : Io A → (A → Io B) → Io B
  unfolding continue
  ◌>>=◌ m f w = let (r, w') = m w in continue r f w'

  abbrev pub ◌>>◌ : Io A → Io B → Io B
  m >> n = m >>= λ _. n

unfoldable pub is_regular : Option Node → Bool
is_regular (some (file content)) = true
is_regular (some (read_only content)) = true
is_regular _ = false

-- A regular file stands at a directory on the way down `rest` from `above`.
unfoldable pub is_blocked : Disk → Bytes → Bytes → Bool
unfolding is_regular
is_blocked disk above [] = false
is_blocked disk above (c ∷ rest) =
    let below = is_blocked disk (above ++ c ∷ []) rest in
    (c == slash && is_regular (disk above)) || below

-- Why there is nothing at a path: ENOTDIR below a regular file, and else ENOENT.
unfoldable pub absence : Disk → Bytes → Reason
unfolding is_blocked
absence disk path = if is_blocked disk [] path then not_directory else not_exist

-- os.Stat(path), of which the program asks IsDir alone; `why` is the reason where nothing is there.
unfoldable pub stat_node : Reason → Bytes → Option Node → Result Bool
stat_node why path none = err (path_error (bytes "stat") why path)
stat_node why path (some denied) = err (path_error (bytes "stat") permission path)
stat_node why path (some directory) = ok true
stat_node why path (some _) = ok false

unfoldable pub stat : Bytes → Io Bool
unfolding stat_node absence
stat path w = (stat_node (absence w.disk path) path (w.disk path), w)

-- os.Stat(path), with its error as a value
unfoldable pub try_stat : Bytes → Io (Result Bool)
unfolding stat_node absence
try_stat path w = (ok (stat_node (absence w.disk path) path (w.disk path)), w)

unfoldable pub read_node : Reason → Bytes → Option Node → Result Bytes
read_node why path none = err (path_error (bytes "open") why path)
read_node why path (some denied) = err (path_error (bytes "open") permission path)
read_node why path (some directory) = err (path_error (bytes "read") is_directory path)
read_node why path (some (read_only content)) = ok content
read_node why path (some (file content)) = ok content

-- os.ReadFile(path)
unfoldable pub read_file : Bytes → Io Bytes
unfolding read_node absence
read_file path w = (read_node (absence w.disk path) path (w.disk path), w)

unfoldable pub set_node : Bytes → Node → Disk → Disk
set_node path node disk other = if same path other then some node else disk other

-- A file can be made where its directory is there.
unfoldable pub create_in : Reason → Bytes → Option Node → Option Error
create_in why path none = some (path_error (bytes "open") why path)
create_in why path (some directory) = none
create_in why path (some denied) = some (path_error (bytes "open") permission path)
create_in why path (some _) = some (path_error (bytes "open") not_directory path)

-- Why a file cannot be written at a path, where `parent` is what stands at its directory.
unfoldable pub write_fault : Reason → Bytes → Option Node → Option Node → Option Error
unfolding create_in
write_fault why path (some (file old)) parent = none
write_fault why path (some directory) parent = some (path_error (bytes "open") is_directory path)
write_fault why path (some _) parent = some (path_error (bytes "open") permission path)
write_fault why path none parent = create_in why path parent

unfoldable pub finish : Option Error → World → World → Result (Unit {0}) × World
finish none done w = (ok tt, done)
finish (some e) done w = (err e, w)

-- os.WriteFile(path, content, 0o644)
unfoldable pub write_file : Bytes → Bytes → Io (Unit {0})
unfolding write_fault finish set_node absence
write_file path content w =
    finish (write_fault (absence w.disk path) path (w.disk path) (w.disk (dir path)))
      (record w { disk = set_node path (file content) w.disk }) w

-- One directory of os.MkdirAll.
unfoldable pub mkdir_node : Bytes → Option Node → Io (Unit {0})
unfolding set_node
mkdir_node path none w = (ok tt, record w { disk = set_node path directory w.disk })
mkdir_node path (some directory) w = (ok tt, w)
mkdir_node path (some denied) w = (err (path_error (bytes "mkdir") permission path), w)
mkdir_node path (some _) w = (err (path_error (bytes "mkdir") not_directory path), w)

unfoldable pub mkdir_walk : Bytes → List Bytes → Io (Unit {0})
unfolding mkdir_node ◌>>=◌
mkdir_walk above [] w = (ok tt, w)
mkdir_walk above (n ∷ ns) w =
    let path = above ++ (slash ∷ n) in (mkdir_node path (w.disk path) >> mkdir_walk path ns) w

unfoldable pub mkdir_names : List Bytes → Io (Unit {0})
unfolding mkdir_walk
mkdir_names [] w = (ok tt, w)
mkdir_names (n ∷ ns) w = mkdir_walk n ns w

-- os.MkdirAll(path, 0o755) of an absolute path
unfoldable pub mkdir_all : Bytes → Io (Unit {0})
unfolding mkdir_names
mkdir_all path = mkdir_names (split path slash)

-- runner.Run(ctx, dir, name, args...)
unfoldable pub run : Runner → Bytes → Bytes → List Bytes → Io (Unit {0})
run runner d name args w =
    let c : Command = record { dir = d; name = name; args = args } in
    let (e, disk) = runner c w.disk in
    let w' : World = record { disk = disk; runs = w.runs ++ c ∷ [] } in finish e w' w'
