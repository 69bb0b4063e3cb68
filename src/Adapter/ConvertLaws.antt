-- ===== src/Adapter/ConvertLaws.antt =====
-- The conversion of values to the adapter protocol and back.
use text.Mathlib.TextEquality.{eq_iff}
use oikade.Prelude.{◌+◌, ◌≡◌, ◌∙◌, String, Bool, not, Option, none, some, ◌==◌, arith}
use oikade.Prelude.Result.{ok, map_err, guard-ok, bind-ok}
use oikade.Prelude.Float.{F64}
use oikade.Prelude.Int.{ℤ}
use oikade.Core.Model.{Value, bool, integer, number, string, validate_value}
use oikade.Adapter.Wire.{ApiValue}
use oikade.Adapter.Convert.{
  pick, payloads, value_from_api, value_to_api, invalid, count, payload_count,
}

-- A valid value survives the way to the adapter protocol and back.
pub value_from_api-value_to_api :
    (v : Value) → validate_value v ≡ ok tt → value_from_api (value_to_api v) ≡ ok v
unfolding value_from_api value_to_api pick
value_from_api-value_to_api (bool b) h = rw h
value_from_api-value_to_api (integer i) h = rw h
value_from_api-value_to_api (number x) h = rw h
value_from_api-value_to_api (string s) h = rw h

pick_inverse :
    (k : String) (b : Option Bool) (i : Option ℤ) (n : Option F64) (s : Option String) (v : Value)
    → count b + count i + count n + count s ≡ 1
    → pick (record { kind = k; bool = b; integer = i; number = n; string = s }) ≡ ok v
    → value_to_api v ≡ record { kind = k; bool = b; integer = i; number = n; string = s }
unfolding pick value_to_api
pick_inverse k (some b) none none none v c h = ground (arith, eq_iff k "bool")
pick_inverse k none (some i) none none v c h = ground (arith, eq_iff k "integer")
pick_inverse k none none (some n) none v c h = ground (arith, eq_iff k "number")
pick_inverse k none none none (some s) v c h = ground (arith, eq_iff k "string")
pick_inverse k none none none none v c h = absurd (ground arith)
pick_inverse k (some b) (some i) n s v c h = absurd (omega arith)
pick_inverse k (some b) none (some n) s v c h = absurd (omega arith)
pick_inverse k (some b) none none (some s) v c h = absurd (omega arith)
pick_inverse k none (some i) (some n) s v c h = absurd (omega arith)
pick_inverse k none (some i) none (some s) v c h = absurd (omega arith)
pick_inverse k none none (some n) (some s) v c h = absurd (omega arith)

-- What `value_from_api` accepts is what `value_to_api` writes: a payload of another kind, a second
-- payload or an unknown kind is refused.
pub value_to_api-value_from_api :
    (w : ApiValue) (v : Value) → value_from_api w ≡ ok v → value_to_api v ≡ w
unfolding value_from_api
value_to_api-value_from_api w v h =
    let (one, h1) = guard-ok (not (payloads w == 1)) payload_count _ v h in
    let (u, picked, h2) = bind-ok (pick w) _ v h1 in
    let (t, fine, h3) = bind-ok (map_err invalid (validate_value u)) _ v h2 in
    pick_inverse w.kind w.bool w.integer w.number w.string v (ground (arith, one)) (picked ∙ h3)
