-- ===== src/Storage/RoundTrip.antt =====
-- The stored form of a value, and back.
use oikade.Prelude.{◌+◌, ◌≡◌, ◌∙◌, String, Bool, not, Option, none, some, ◌==◌, arith, eq_iff}
use oikade.Prelude.Result.{ok, map_err, guard-ok, bind-ok}
use oikade.Prelude.Float.{F64}
use oikade.Prelude.Int.{ℤ}
use oikade.Core.Model.{Value, bool, integer, number, string, validate_value}
use oikade.Storage.DeviceState.{
  PersistedValue, payload_count, invalid, count, persisted_payloads, from_value, decode_kind,
  try_into,
}

-- A valid value survives the way to its stored form and back.
pub try_into-from_value : (v : Value) → validate_value v ≡ ok tt → try_into (from_value v) ≡ ok v
unfolding try_into from_value decode_kind
try_into-from_value (bool b) h = rw h
try_into-from_value (integer i) h = rw h
try_into-from_value (number x) h = rw h
try_into-from_value (string s) h = rw h

decode_inverse :
    (k : String) (b : Option Bool) (i : Option ℤ) (n : Option F64) (s : Option String) (v : Value)
    → count b + count i + count n + count s ≡ 1
    → decode_kind (record { kind = k; bool = b; integer = i; number = n; string = s }) ≡ ok v
    → from_value v ≡ record { kind = k; bool = b; integer = i; number = n; string = s }
unfolding decode_kind from_value
decode_inverse k (some b) none none none v c h = ground (arith, eq_iff k "bool")
decode_inverse k none (some i) none none v c h = ground (arith, eq_iff k "integer")
decode_inverse k none none (some n) none v c h = ground (arith, eq_iff k "number")
decode_inverse k none none none (some s) v c h = ground (arith, eq_iff k "string")
decode_inverse k none none none none v c h = absurd (ground arith)
decode_inverse k (some b) (some i) n s v c h = absurd (omega arith)
decode_inverse k (some b) none (some n) s v c h = absurd (omega arith)
decode_inverse k (some b) none none (some s) v c h = absurd (omega arith)
decode_inverse k none (some i) (some n) s v c h = absurd (omega arith)
decode_inverse k none (some i) none (some s) v c h = absurd (omega arith)
decode_inverse k none none (some n) (some s) v c h = absurd (omega arith)

-- A stored value is read only if it is what would be stored for the value that is read.
pub from_value-try_into : (p : PersistedValue) (v : Value) → try_into p ≡ ok v → from_value v ≡ p
unfolding try_into
from_value-try_into p v h =
    let (one, h1) = guard-ok (not (persisted_payloads p == 1)) payload_count _ v h in
    let (u, picked, h2) = bind-ok (decode_kind p) _ v h1 in
    let (t, fine, h3) = bind-ok (map_err invalid (validate_value u)) _ v h2 in
    decode_inverse p.kind p.bool p.integer p.number p.string v (ground (arith, one)) (picked ∙ h3)
