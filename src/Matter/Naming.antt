-- ===== src/Matter/Naming.antt =====
-- apps/oikade-matter-adapter/src/projection.rs: the names and identifiers of a projection.
use Prim.Native.Nat.{bit_xor}
use Prim.Native.Char.{Char, code}
use Prim.Native.String.{◌++◌ as str_append, ◌∷◌ as str_cons, [] as str_nil}
use oikade.Prelude.{
  ℕ, zero, suc, ◌+◌, ◌-◌, ◌*◌, ◌/◌, ◌%◌, ◌^◌, String, Option, none, some, List, [], ◌∷◌, length,
  leb, ltb, if◌then◌else◌,
}
use oikade.Prelude.Text.{utf8, as_bytes}
use oikade.Prelude.Utf8.{from_u32}

-- `truncate_utf8`: the characters whose bytes end at `max_bytes` or before it.
unfoldable pub truncate_utf8 : String → ℕ → String
truncate_utf8 str_nil max_bytes = str_nil
truncate_utf8 (str_cons c s) max_bytes =
    let rest = truncate_utf8 s (max_bytes - length (utf8 (code c))) in
    if leb (length (utf8 (code c))) max_bytes then str_cons c rest else str_nil

abbrev pub mapping_key : String → String → String
mapping_key device_id capability_id = str_append device_id (str_append "/" capability_id)

-- `hash ^= byte; hash = hash.wrapping_mul(0x100000001b3)` for each byte.
unfoldable pub hash_bytes : ℕ → List ℕ → ℕ
hash_bytes hash [] = hash
hash_bytes hash (byte ∷ bytes) = hash_bytes (bit_xor hash byte * 0x100000001b3 % 2 ^ 64) bytes

abbrev put_char : Option Char → String → String
put_char none s = s
put_char (some c) s = str_cons c s

abbrev hex_digit : ℕ → Option Char
hex_digit d = from_u32 (if ltb d 10 then 0x30 + d else 0x57 + d)

-- The last `digits` hexadecimal digits of a number, before a text.
unfoldable pub hex : ℕ → ℕ → String → String
unfolding from_u32
hex zero n s = s
hex (suc digits) n s = hex digits (n / 16) (put_char (hex_digit (n % 16)) s)

unfoldable pub unique_id : String → String → String
unfolding hash_bytes hex as_bytes
unique_id device_id capability_id =
    str_append "oikade-"
      (hex 16 (hash_bytes 0xcbf29ce484222325 (as_bytes (mapping_key device_id capability_id))) "")
