-- ===== src/Storage/StoreExamples.antt =====
-- The theorems about the database at a database in memory.
use oikade.Prelude.Utf8.{from_utf8, decode_char, from_u32}
use oikade.Storage.Suffixes.{IsKeyed, lists, keys_with_suffix-lists}
use oikade.Prelude.{
  ℕ, ◌≡◌, refl, List, [], ◌∷◌, Option, true, ap, ◌∙◌, ◌↔◌, inl, inr, Bool-cases, none, some,
}
use oikade.Prelude.Result.{ok}
use oikade.Prelude.Maps
use oikade.Prelude.Text.{as_bytes}
use oikade.Storage.Keys.{
  encode_key, decode_key, push_scopes, push_bytes, push_length, take_length, take_scopes,
  take_string, split_at,
}
use oikade.Storage.KeyLaws.{decode_key-encode_key}
use oikade.Storage.Bucket.{
  Namespace, Bucket, table_for, ends_with, keys_with_suffix, Table, collect, sort, scopes_eq,
  sort_in,
}
use oikade.Storage.Lawful.{view}
use oikade.Storage.Refinement.{Operation, set_value, run, Answered, run-Answered}
use oikade.Storage.Memory.{
  memory, memory-IsLawful, place_key, place_eq_iff, Contents, entries, bytes_eq,
}
use oikade.Storage.Schema.{initialize_schema, prepare_schema}
use oikade.Storage.SchemaLaws.{IsOpened, initialize_schema-IsOpened}

abbrev key_bytes : List ℕ
key_bytes =
    0 ∷ 0 ∷ 0 ∷ 1 ∷ 0 ∷ 0 ∷ 0 ∷ 5 ∷ 115 ∷ 116 ∷ 97 ∷ 116 ∷ 101 ∷ 0 ∷ 0 ∷ 0 ∷ 4 ∷ 108 ∷ 97 ∷ 109
    ∷ 112 ∷ []

lamp_key : encode_key ("state" ∷ []) "lamp" ≡ ok key_bytes
unfolding encode_key push_scopes push_bytes push_length as_bytes
lamp_key = refl

decode_key-encode_key_example : decode_key key_bytes ≡ ok ("state" ∷ [], "lamp")
decode_key-encode_key_example = decode_key-encode_key ("state" ∷ []) "lamp" key_bytes lamp_key

abbrev state_bucket : Bucket
state_bucket = record { namespace = Namespace.devices; scopes = "state" ∷ [] }

abbrev set_lamp : Operation
set_lamp = set_value state_bucket "lamp" (1 ∷ 2 ∷ [])

run-Answered_example :
    Answered set_lamp
      (run memory set_lamp []).0
      (view memory-IsLawful [])
      (view memory-IsLawful (run memory set_lamp []).1)
run-Answered_example = run-Answered memory-IsLawful set_lamp []

new_database : (initialize_schema memory []).0 ≡ ok tt
unfolding initialize_schema prepare_schema Maps.get
new_database = refl

initialize_schema-IsOpened_example :
    IsOpened
      ((memory-IsLawful).contents [])
      ((memory-IsLawful).contents (initialize_schema memory []).1)
initialize_schema-IsOpened_example = initialize_schema-IsOpened memory-IsLawful [] new_database

-- A database with one value.
abbrev one_value : Contents
one_value = ((Table.devices, key_bytes), 1 ∷ 2 ∷ []) ∷ []

one_value-IsKeyed : IsKeyed memory-IsLawful one_value
unfolding Maps.get
one_value-IsKeyed c k v h =
    elim (Bool-cases (place_key.eqb (Table.devices, key_bytes) (table_for c, k))) [
      | inl e ↦
          let same = (place_eq_iff Table.devices (table_for c) key_bytes k).0 e in
          ("state" ∷ [], "lamp", lamp_key ∙ ap (λ p. ok p.1) same)
      | inr e ↦ absurd (none-ne-some (rw e at h))
    ]
  where
    none-ne-some : ◌≡◌ {A = Option (List ℕ)} none (some v) → ⊥
    none-ne-some x = cc

listed_lamp : keys_with_suffix memory state_bucket "mp" one_value ≡ ok ("lamp" ∷ [])
unfolding keys_with_suffix collect entries Maps.get bytes_eq decode_key take_length take_scopes
    take_string split_at from_utf8 decode_char from_u32 sort scopes_eq ends_with sort_in
listed_lamp = refl

keys_with_suffix-lists_example : (lists "lamp" ("lamp" ∷ []) ≡ true) ↔ (
    (ends_with "lamp" "mp" ≡ true)
    × ((v : List ℕ) × (view memory-IsLawful one_value (state_bucket, "lamp") ≡ some v)))
keys_with_suffix-lists_example =
    keys_with_suffix-lists memory-IsLawful state_bucket "mp" "lamp" one_value ("lamp" ∷ [])
      one_value-IsKeyed listed_lamp
