-- ===== src/Plugin/Manifest.antt =====
-- crates/oikade-plugin-host/src/manifest.rs: `validate`, and the components of the executable's path.
use Prim.Native.String.{String}
use text.Mathlib.Text.{◌==◌ as str_eq}
use oikade.Prelude.{ℕ, Bool, true, false, not, ◌||◌, List, ◌==◌, any}
use oikade.Prelude.Result.{Result, ok, fail_if, map_err, ◌>>◌}
use oikade.Prelude.Text.{codes, trim}
use oikade.Core.Model.{ModelError, validate_identifier}
use oikade.Plugin.Wire.{version}

-- A path is its text.
pub record Manifest : Type 0 where
  pub api_version : ℕ
  pub id : String
  pub name : String
  pub version : String
  pub executable : String
  pub args : List String

-- `ManifestError::Invalid`: each text is a constructor with what the text prints.
pub data ManifestError : Type 0 where
  wrong_api_version : ℕ → ManifestError
  bad_id : ModelError → ManifestError
  padded : String → ManifestError
  executable_required nul_in_arguments outside_artifact : ManifestError

unfoldable pub validate_text : String → String → Result ManifestError (Unit {0})
validate_text name value =
    fail_if (str_eq value "" || not (str_eq value (trim value))) (padded name)

abbrev pub has_nul : String → Bool
has_nul arg = any (λ c. c == 0) (codes arg)

unfoldable pub validate : Manifest → Result ManifestError (Unit {0})
validate manifest = do
  fail_if (not (manifest.api_version == version)) (wrong_api_version manifest.api_version)
  map_err bad_id (validate_identifier manifest.id)
  validate_text "name" manifest.name
  validate_text "version" manifest.version
  fail_if (str_eq manifest.executable "") executable_required
  fail_if (any has_nul manifest.args) nul_in_arguments
  ok tt

-- `std::path::Component`
pub data Component : Type 0 where
  root_dir parent_dir cur_dir : Component
  normal : String → Component

-- `matches!(component, ParentDir | RootDir)`
abbrev pub escapes : Component → Bool
escapes Component.root_dir = true
escapes Component.parent_dir = true
escapes Component.cur_dir = false
escapes (Component.normal s) = false

-- `load_manifest`, where `components` is the standard library's reading of the path, and the path is
-- absolute exactly if its first component is the root.
unfoldable pub check_executable :
    (String → List Component) → Manifest → Result ManifestError (Unit {0})
unfolding validate
check_executable components manifest = do
  validate manifest
  fail_if (any escapes (components manifest.executable)) outside_artifact
