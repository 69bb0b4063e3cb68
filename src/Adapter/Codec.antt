-- ===== src/Adapter/Codec.antt =====
-- crates/oikade-adapter-api/src/codec.rs: `validate_envelope`, `trim_ascii_whitespace`, and the
-- loop of `decode` that collects one line from the chunks of the reader. `decode_envelope` is that of
-- Strict.antt; serde_json is a parameter.
use oikade.Prelude.{
  ℕ, ◌+◌, String, Bool, true, false, not, ◌||◌, Option, none, some, List, [], ◌∷◌, ◌++◌, ltb, ◌==◌,
  length, if◌then◌else◌,
}
use oikade.Prelude.Result.{Result, ok, err, fail_if, map_err, ◌>>=◌, ◌>>◌}
use oikade.Adapter.Strict.{Visit, Value, decode_envelope}
use oikade.Adapter.Wire.{Envelope, FrameKind, request, response, notification, version}

abbrev pub max_frame_size : ℕ
max_frame_size = 1048576

-- The text of an error of the reader or of JSON is a `String`.
pub data WireError : Type 0 where
  frame_too_large : WireError
  read_error decode_error encode_error write_error : String → WireError
  unsupported_version : ℕ → WireError
  missing_method request_id_zero request_with_error : WireError
  response_id_zero notification_id_non_zero notification_with_error : WireError

abbrev is_some : {A : Type 0} → Option A → Bool
is_some none = false
is_some (some a) = true

abbrev string_is_empty : String → Bool
string_is_empty String.[] = true
string_is_empty (String.◌∷◌ c s) = false

abbrev validate_kind : FrameKind → Envelope → Result WireError (Unit {0})
validate_kind request e = do
  fail_if (e.id == 0) request_id_zero
  fail_if (is_some e.error) request_with_error
validate_kind response e = fail_if (e.id == 0) response_id_zero
validate_kind notification e = do
  fail_if (not (e.id == 0)) notification_id_non_zero
  fail_if (is_some e.error) notification_with_error

unfoldable pub validate_envelope : Envelope → Result WireError (Unit {0})
validate_envelope e = do
  fail_if (not (e.version == version)) (unsupported_version e.version)
  fail_if (string_is_empty e.method) missing_method
  validate_kind e.kind e

abbrev pub newline : ℕ
newline = 10

-- `u8::is_ascii_whitespace`
abbrev pub is_ascii_whitespace : ℕ → Bool
is_ascii_whitespace b = b == 9 || b == 10 || b == 12 || b == 13 || b == 32

unfoldable pub trim_front : List ℕ → List ℕ
trim_front [] = []
trim_front (b ∷ bs) = if is_ascii_whitespace b then trim_front bs else b ∷ bs

unfoldable pub trim_back : List ℕ → List ℕ
trim_back [] = []
trim_back (b ∷ bs) = elim (trim_back bs) [
  | [] ↦ if is_ascii_whitespace b then [] else b ∷ []
  | c ∷ cs ↦ b ∷ c ∷ cs
]

unfoldable pub trim_ascii_whitespace : List ℕ → List ℕ
unfolding trim_front trim_back
trim_ascii_whitespace bs = trim_back (trim_front bs)

-- `available[..take]` and what stays in the buffer.
unfoldable pub take_line : List ℕ → List ℕ × List ℕ
take_line [] = ([], [])
take_line (b ∷ bs) = if b == newline then (b ∷ [], bs) else (b ∷ (take_line bs).0, (take_line bs).1)

abbrev pub ends_line : List ℕ → Bool
ends_line [] = false
ends_line (b ∷ []) = b == newline
ends_line (b ∷ c ∷ bs) = ends_line (c ∷ bs)

-- The buffers that `fill_buf` returns one after another, none of them empty; then the reader is at
-- its end.
abbrev pub Reader : Type 0
Reader = List (List ℕ)

abbrev pub put_back : List ℕ → Reader → Reader
put_back [] r = r
put_back (b ∷ bs) r = (b ∷ bs) ∷ r

-- The loop of `decode`: the line, or none at the end of the input, and the rest.
unfoldable pub read_line : List ℕ → Reader → Result WireError (Option (List ℕ) × Reader)
read_line [] [] = ok (none, [])
read_line (b ∷ line) [] = ok (some (b ∷ line), [])
read_line line (available ∷ rest) =
    elim (ltb max_frame_size (length line + length (take_line available).0)) [
      | true ↦ err frame_too_large
      | false ↦ elim (ends_line (line ++ (take_line available).0)) [
        | true ↦ ok (some (line ++ (take_line available).0), put_back (take_line available).1 rest)
        | false ↦ read_line (line ++ (take_line available).0) rest
      ]
    ]

-- Of serde_json: what its deserializer hands to a visitor, `from_value` and `to_vec`.
module _ (visits : List ℕ → Result String Visit) (from_value : Value → Result String Envelope) where
  abbrev pub decode_frame : Option (List ℕ) × Reader → Result WireError (Option Envelope × Reader)
  decode_frame (none, rest) = ok (none, rest)
  decode_frame (some line, rest) = do
    envelope ← map_err decode_error (decode_envelope visits from_value (trim_ascii_whitespace line))
    validate_envelope envelope
    ok (some envelope, rest)

  unfoldable pub decode : Reader → Result WireError (Option Envelope × Reader)
  decode r = do read ← read_line [] r; decode_frame read

-- What `encode` writes.
unfoldable pub encode : (Envelope → Result String (List ℕ)) → Envelope → Result WireError (List ℕ)
encode to_vec e = do
  validate_envelope e
  encoded ← map_err encode_error (to_vec e)
  fail_if (ltb max_frame_size (length encoded + 1)) frame_too_large
  ok (encoded ++ newline ∷ [])
