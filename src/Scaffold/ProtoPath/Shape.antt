-- ===== src/Scaffold/ProtoPath/Shape.antt =====
-- A proto path by its parts: directories below api, and a file with a name before ".proto".
use web_template_go.Prelude.{List, [], ◌∷◌, ◌++◌, ◌≢◌, All}
use web_template_go.Text.{Bytes, bytes, join, Lacks}
use web_template_go.FilePath.Names.{slash, IsName}

pub record ProtoPath : Type 0 where
  pub pkg : Bytes
  pub version : Bytes
  pub deeper : List Bytes
  pub stem : Bytes

abbrev pub dirs : ProtoPath → List Bytes
dirs p = p.pkg ∷ p.version ∷ p.deeper

abbrev pub file : ProtoPath → Bytes
file p = p.stem ++ bytes ".proto"

abbrev pub render : ProtoPath → Bytes
render p = join (dirs p ++ file p ∷ []) (slash ∷ [])

-- Every directory is a step down, and the file has a name.
pub record IsValid (p : ProtoPath) : Type 0 where
  pub dirs_names : All IsName (dirs p)
  pub stem_Lacks : Lacks slash p.stem
  pub stem_ne_nil : p.stem ≢ []
