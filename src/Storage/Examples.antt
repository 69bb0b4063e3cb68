-- ===== src/Storage/Examples.antt =====
-- The theorems about stored values at concrete values.
use oikade.Prelude.{
  ℕ, String, List, Option, none, some, [], ◌∷◌, Bool, true, false, ◌≡◌, refl, sym, ap, ◌∙◌, ◌==◌,
}
use oikade.Prelude.Result.{Result, ok, err, ok_injective, err_ne_ok}
use oikade.Prelude.Maps.{Map, insert}
use oikade.Prelude.Text.{as_bytes}
use oikade.Prelude.Utf8.{from_utf8, from_utf8-as_bytes}
use oikade.Storage.Persistence.{Ordered, Named, Whole, AllValid, Loaded, record_of, load-save}
use oikade.Core.Model.{
  CapabilityId, Value, bool, integer, number, string, validate_identifier, validate_value,
}
use oikade.Storage.Keys.{encode_key, validate_name, push_scopes, push_bytes, push_length}
use oikade.Storage.Bucket.{set, prepare_set}
use oikade.Storage.Memory.{memory, memory-IsLawful}
use oikade.Storage.DeviceState.{
  Json, PersistedValue, PersistedDeviceState, from_value, save, encode_state, encode_values,
}

-- A format for one Boolean: its bit, and the name.
abbrev bit : Bool → ℕ
bit true = 1
bit false = 0

abbrev print_flag : String → Option Bool → Result String (List ℕ)
print_flag k none = err "not a Boolean"
print_flag k (some b) = ok (bit b ∷ as_bytes k)

abbrev print_values : Map String PersistedValue → Result String (List ℕ)
print_values ((k, v) ∷ []) = print_flag k v.bool
print_values _ = err "not one value"

abbrev flag_record : ℕ → String → PersistedDeviceState
flag_record b k = record_of ((k, bool (b == 1)) ∷ [])

abbrev named_record : ℕ → Option String → Result String PersistedDeviceState
named_record b none = err "no text"
named_record b (some k) = ok (flag_record b k)

abbrev read_values : List ℕ → Result String PersistedDeviceState
read_values [] = err "no bit"
read_values (b ∷ bytes) = named_record b (from_utf8 bytes)

abbrev flags : Json
flags = record { from_slice = read_values; to_vec = λ r. print_values r.values }

flag-kept :
    (k : String) (b : Bool) → read_values (bit b ∷ as_bytes k) ≡ ok (record_of ((k, bool b) ∷ []))
unfolding from_value
flag-kept k true = rw (from_utf8-as_bytes k) refl
flag-kept k false = rw (from_utf8-as_bytes k) refl

flags-reads :
    (vs : Map CapabilityId Value) (bytes : List ℕ)
    → Ordered vs
    → AllValid vs
    → Whole vs
    → flags.to_vec (record_of vs) ≡ ok bytes
    → flags.from_slice bytes ≡ ok (record_of vs)
unfolding from_value
flags-reads [] bytes o a w h = absurd (err_ne_ok h)
flags-reads ((k, bool b) ∷ []) bytes o a w h = ap read_values (sym (ok_injective h)) ∙ flag-kept k b
flags-reads ((k, integer i) ∷ []) bytes o a w h = absurd (err_ne_ok h)
flags-reads ((k, number x) ∷ []) bytes o a w h = absurd (err_ne_ok h)
flags-reads ((k, string s) ∷ []) bytes o a w h = absurd (err_ne_ok h)
flags-reads (x ∷ y ∷ vs) bytes o a w h = absurd (err_ne_ok h)

abbrev lamp_values : Map CapabilityId Value
lamp_values = ("on", bool true) ∷ []

lamp-Named : Named lamp_values
unfolding validate_identifier as_bytes
lamp-Named = (refl, tt)

saved_lamp : (save memory flags "lamp" lamp_values []).0 ≡ ok tt
unfolding save encode_state encode_values validate_value from_value set prepare_set encode_key
    push_scopes push_bytes push_length as_bytes insert validate_name
saved_lamp = refl

load-save_example :
    Loaded memory-IsLawful flags "lamp" lamp_values (save memory flags "lamp" lamp_values []).1
load-save_example =
    load-save memory-IsLawful flags "lamp" lamp_values [] flags-reads (tt, tt) lamp-Named (refl, tt)
      saved_lamp
