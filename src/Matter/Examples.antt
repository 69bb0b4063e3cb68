-- ===== src/Matter/Examples.antt =====
-- The theorems about endpoints at concrete mappings.
use oikade.Matter.ClassifyLaws.{IsProjectable, classify-IsProjectable}
use oikade.Matter.Shapes.{wire_bool, on_off, Profile}
use oikade.Matter.Classify.{classify, value_map, value_verdict}
use oikade.Matter.BuildLaws.{Outcome, build-Outcome}
use oikade.Matter.Build.{build, build_all, add_devices}
use oikade.Matter.NamingLaws.{IsCut, truncate_utf8-IsCut}
use oikade.Matter.Naming.{unique_id, truncate_utf8}
use oikade.Adapter.Wire.{ApiPermissions, ApiCapability, ApiDeviceState, ApiValue}
use oikade.Prelude.Text.{utf8, string_lt}
use oikade.Prelude.{ℕ, ◌≤◌, ◌<◌, ◌≡◌, refl, arith, true, String, some, [], ◌∷◌, none}
use oikade.Prelude.Result.{ok, err, Result}
use oikade.Prelude.Maps.{get, string_key, insert, Map}
use oikade.Matter.Endpoints.{
  EndpointMappings, allocate, load_mappings, exhausted, first_candidate, last_endpoint, is_member,
  values,
}
use oikade.Matter.EndpointLaws.{IsValid}
use oikade.Matter.Allocation.{allocate-IsValid, allocate-allocate, allocate-err}
use oikade.Matter.Loading.{load_mappings-IsValid}

-- A file in which two keys share an endpoint and one has a static one.
abbrev file : EndpointMappings
file = record {
  version = 1;
  next_endpoint = 4;
  mappings = ("a", 3) ∷ ("b", 3) ∷ ("c", 1) ∷ ("d", 5) ∷ [];
}

load_mappings-IsValid_example : IsValid (load_mappings (some file))
load_mappings-IsValid_example =
    load_mappings-IsValid (some file)
      ((omega arith, (omega arith, (omega arith, (omega arith, tt)))), omega arith)

loaded_file :
    load_mappings (some file)
    ≡ record { version = 1; next_endpoint = 4; mappings = ("a", 3) ∷ ("d", 5) ∷ [] }
unfolding load_mappings
loaded_file = refl

allocate-IsValid_example : IsValid (allocate "b" (load_mappings (some file))).1
allocate-IsValid_example =
    allocate-IsValid "b" (load_mappings (some file)) load_mappings-IsValid_example

allocated : (allocate "b" (load_mappings (some file))).0 ≡ ok 4
unfolding allocate load_mappings get
allocated = refl

allocate-allocate_example :
    (allocate "b" (allocate "b" (load_mappings (some file))).1
      ≡ (ok 4, (allocate "b" (load_mappings (some file))).1))
    × ((j : String) (x : ℕ)
        → get j (load_mappings (some file)).mappings ≡ some x
        → get j (allocate "b" (load_mappings (some file))).1.mappings ≡ some x)
allocate-allocate_example =
    allocate-allocate "b" (load_mappings (some file)) 4 load_mappings-IsValid_example allocated

-- Mappings whose next endpoint is the last `u16`.
abbrev at_the_end : EndpointMappings
at_the_end = record { version = 1; next_endpoint = 65535; mappings = [] }

at_the_end-IsValid : IsValid (load_mappings (some at_the_end))
at_the_end-IsValid = load_mappings-IsValid (some at_the_end) (tt, omega arith)

none_at_the_end : (allocate "b" (load_mappings (some at_the_end))).0 ≡ err exhausted
unfolding allocate load_mappings get
none_at_the_end = refl

allocate-err_example :
    ((allocate "b" (load_mappings (some at_the_end))).1 ≡ load_mappings (some at_the_end))
    × ((e : ℕ)
        → first_candidate (load_mappings (some at_the_end)) ≤ e
        → e < last_endpoint
        → is_member e (values (load_mappings (some at_the_end)).mappings) ≡ true)
allocate-err_example =
    allocate-err "b" (load_mappings (some at_the_end)) exhausted at_the_end-IsValid none_at_the_end

-- A light that is on, at a level.
abbrev all_permissions : ApiPermissions
all_permissions = record { read = true; write = true; observe = true }

abbrev lamp_on : ApiCapability
lamp_on = record {
  id = "on";
  capability_type = "oikade.light.on";
  name = "On";
  kind = "bool";
  permissions = all_permissions;
}

abbrev lamp_state : ApiDeviceState
lamp_state = record {
  device = record {
    id = "lamp";
    name = "Lamp";
    manufacturer = "";
    model = "";
    capabilities = lamp_on ∷ [];
  };
  values =
      record {
        capability_id = "on";
        value = record {
          kind = "bool";
          bool = some true;
          integer = none;
          number = none;
          string = none;
        };
      }
      ∷ [];
}

abbrev saved : EndpointMappings → Result String (Unit {0})
saved m = ok tt

abbrev loaded : EndpointMappings
loaded = load_mappings (some file)

build-Outcome_example : Outcome loaded (build saved loaded (lamp_state ∷ []))
build-Outcome_example = build-Outcome saved loaded (lamp_state ∷ []) load_mappings-IsValid_example

lamp_endpoint : get "lamp/on" (build saved loaded (lamp_state ∷ [])).1.mappings ≡ some 4
unfolding build build_all add_devices value_map classify value_verdict wire_bool allocate
    load_mappings get insert string_lt
lamp_endpoint = refl

unique_id_lamp : unique_id "lamp" "on" ≡ "oikade-f92c1dee70884285"
unfolding unique_id
unique_id_lamp = refl

truncate_utf8-IsCut_example : IsCut "Küche" (truncate_utf8 "Küche" 2) 2
truncate_utf8-IsCut_example = truncate_utf8-IsCut "Küche" 2

-- The letter of two bytes does not fit.
cut_name : truncate_utf8 "Küche" 2 ≡ "K"
unfolding truncate_utf8 utf8
cut_name = refl

abbrev lamp_values : Map String ApiValue
lamp_values = value_map lamp_state.values []

lamp_shape :
    (classify "lamp" lamp_values (lamp_on ∷ []) [] lamp_on).1
    ≡ some (on_off Profile.on_off_light true)
unfolding classify value_verdict value_map wire_bool get insert
lamp_shape = refl

classify-IsProjectable_example :
    IsProjectable lamp_values lamp_on (on_off Profile.on_off_light true)
classify-IsProjectable_example =
    classify-IsProjectable "lamp" lamp_values (lamp_on ∷ []) [] lamp_on
      (on_off Profile.on_off_light true) lamp_shape
