-- ===== src/Matter/Endpoints.antt =====
-- apps/oikade-matter-adapter/src/projection.rs: `EndpointMappings`. The file and JSON are
-- parameters.
use oikade.Prelude.{
  ℕ, zero, suc, ◌+◌, ◌-◌, String, Bool, false, not, ◌&&◌, ◌||◌, Option, none, some, List, [], ◌∷◌,
  leb, ◌==◌, max, if◌then◌else◌,
}
use oikade.Prelude.Result.{Result, ok, err}
use oikade.Prelude.Maps.{Map, get, insert, string_key}

abbrev pub first_dynamic_endpoint : ℕ
first_dynamic_endpoint = 3

-- `u16::MAX`
abbrev pub last_endpoint : ℕ
last_endpoint = 65535

pub record EndpointMappings : Type 0 where
  pub version : ℕ
  pub next_endpoint : ℕ
  pub mappings : Map String ℕ

abbrev pub default_mappings : EndpointMappings
default_mappings = record { version = 1; next_endpoint = first_dynamic_endpoint; mappings = [] }

unfoldable pub is_member : ℕ → List ℕ → Bool
is_member e [] = false
is_member e (x ∷ xs) = x == e || is_member e xs

abbrev pub values : Map String ℕ → List ℕ
values [] = []
values ((k, e) ∷ m) = e ∷ values m

-- `retain`: the entries in the order of the keys, and the set of the endpoints seen.
unfoldable pub retain : List ℕ → Map String ℕ → Map String ℕ
unfolding is_member
retain seen [] = []
retain seen ((k, e) ∷ m) =
    if leb first_dynamic_endpoint e && not (is_member e seen)
    then (k, e) ∷ retain (e ∷ seen) m
    else retain seen m

-- `load` of what `fs::read` and `serde_json::from_slice` make of the file.
unfoldable pub load_mappings : Option EndpointMappings → EndpointMappings
unfolding retain
load_mappings none = default_mappings
load_mappings (some state) =
    if state.version == 1
    then record state {
      mappings = retain [] state.mappings;
      next_endpoint = max state.next_endpoint first_dynamic_endpoint;
    }
    else default_mappings

-- `InvalidData`: the endpoint IDs are exhausted.
pub data AllocateError : Type 0 where
  exhausted : AllocateError

-- The loop that looks for a free endpoint; `steps` is how often `checked_add(1)` on the candidate
-- still succeeds.
unfoldable pub find_free : (steps candidate : ℕ) → List ℕ → Result AllocateError ℕ
unfolding is_member
find_free zero candidate used = if is_member candidate used then err exhausted else ok candidate
find_free (suc steps) candidate used =
    let rest = find_free steps (candidate + 1) used in
    if is_member candidate used then rest else ok candidate

-- `candidate.checked_add(1)` for the next endpoint, and the insertion.
unfoldable pub take_endpoint :
    String → ℕ → EndpointMappings → Result AllocateError ℕ × EndpointMappings
take_endpoint key candidate m = if candidate == last_endpoint then (err exhausted, m) else (
  ok candidate,
  record m { next_endpoint = candidate + 1; mappings = insert key candidate m.mappings },
)

abbrev pub first_candidate : EndpointMappings → ℕ
first_candidate m = max m.next_endpoint first_dynamic_endpoint

abbrev pub take_found :
    String → Result AllocateError ℕ → EndpointMappings → Result AllocateError ℕ × EndpointMappings
take_found key (err e) m = (err e, m)
take_found key (ok candidate) m = take_endpoint key candidate m

abbrev pub allocate_new :
    String → Option ℕ → EndpointMappings → Result AllocateError ℕ × EndpointMappings
allocate_new key (some endpoint) m = (ok endpoint, m)
allocate_new key none m =
    take_found key
      (find_free (last_endpoint - first_candidate m) (first_candidate m) (values m.mappings)) m

unfoldable pub allocate : String → EndpointMappings → Result AllocateError ℕ × EndpointMappings
unfolding find_free take_endpoint
allocate key m = allocate_new key (get key m.mappings) m
