-- ===== src/Prelude/Utf8.antt =====
-- Rust's `String::from_utf8`, which reads what `as_bytes` writes and refuses all else.
use Prim.Native.Nat.{ℕ, zero, suc, Ordering, compare, ◌+◌, ◌-◌, ◌*◌, ◌≤◌, ◌<◌}
use Prim.Native.Char.{Char, char, code, IsLt, IsScalar}
use Prim.Native.String.{String}
use mathlib.Core.Path.{◌≡◌, refl, ap}
use mathlib.Core.Bool.{Bool, ◌&&◌}
use mathlib.Core.Option.{Option, none, some}
use mathlib.Core.List.{List, [], ◌∷◌, ◌++◌}
use native.Mathlib.Omega.{arith}
use oikade.Prelude.Tests.{leb, ltb, if◌then◌else◌}
use oikade.Prelude.Lists.{length, length-append}
use oikade.Prelude.Text.{codes, utf8, encode_codes, as_bytes}

-- The clauses of `IsScalar`, and the test of it.
abbrev Both : Ordering → Ordering → Type 0
Both Ordering.lt o = IsLt o
Both Ordering.eq _ = ⊥
Both Ordering.gt _ = ⊥

abbrev Scalar : Ordering → Ordering → Ordering → Type 0
Scalar Ordering.lt _ _ = Unit
Scalar Ordering.eq o p = Both o p
Scalar Ordering.gt o p = Both o p

abbrev both? : (o p : Ordering) → Option (Both o p)
both? Ordering.lt Ordering.lt = some tt
both? Ordering.lt Ordering.eq = none
both? Ordering.lt Ordering.gt = none
both? Ordering.eq _ = none
both? Ordering.gt _ = none

abbrev scalar? : (o p q : Ordering) → Option (Scalar o p q)
scalar? Ordering.lt _ _ = some tt
scalar? Ordering.eq o p = both? o p
scalar? Ordering.gt o p = both? o p

both?-some : (o p : Ordering) (x : Both o p) → both? o p ≡ some x
both?-some Ordering.lt Ordering.lt x = refl
both?-some Ordering.lt Ordering.eq x = absurd x
both?-some Ordering.lt Ordering.gt x = absurd x
both?-some Ordering.eq _ x = absurd x
both?-some Ordering.gt _ x = absurd x

scalar?-some : (o p q : Ordering) (x : Scalar o p q) → scalar? o p q ≡ some x
scalar?-some Ordering.lt _ _ x = refl
scalar?-some Ordering.eq o p x = both?-some o p x
scalar?-some Ordering.gt o p x = both?-some o p x

abbrev as_char : (n : ℕ) → Option (IsScalar n) → Option Char
as_char n none = none
as_char n (some p) = some (char n p)

-- `char::from_u32`
unfoldable pub from_u32 : ℕ → Option Char
from_u32 n = as_char n (scalar? (compare n 55296) (compare 57343 n) (compare n 1114112))

pub from_u32-code : (c : Char) → from_u32 (code c) ≡ some c
unfolding from_u32
from_u32-code (char n p) =
    ap (as_char n) (scalar?-some (compare n 55296) (compare 57343 n) (compare n 1114112) p)

abbrev is_continuation : ℕ → Bool
is_continuation b = leb 0x80 b && ltb b 0xc0

-- A sequence of two, three or four bytes; the longer ones are not used for what a shorter one holds.
abbrev two : ℕ → List ℕ → Option (ℕ × List ℕ)
two a [] = none
two a (b ∷ bs) = if is_continuation b then some ((a - 0xc0) * 64 + (b - 0x80), bs) else none

abbrev three : ℕ → List ℕ → Option (ℕ × List ℕ)
three a [] = none
three a (b ∷ []) = none
three a (b ∷ c ∷ bs) =
    let n = ((a - 0xe0) * 64 + (b - 0x80)) * 64 + (c - 0x80) in
    if is_continuation b && is_continuation c && leb 0x800 n then some (n, bs) else none

abbrev four : ℕ → List ℕ → Option (ℕ × List ℕ)
four a [] = none
four a (b ∷ []) = none
four a (b ∷ c ∷ []) = none
four a (b ∷ c ∷ d ∷ bs) =
    let n = (((a - 0xf0) * 64 + (b - 0x80)) * 64 + (c - 0x80)) * 64 + (d - 0x80) in
    if is_continuation b && is_continuation c && is_continuation d && leb 0x10000 n
    then some (n, bs)
    else none

unfoldable pub decode_char : List ℕ → Option (ℕ × List ℕ)
decode_char [] = none
decode_char (a ∷ bs) =
    if ltb a 0x80
    then some (a, bs)
    else if leb 0xc2 a && ltb a 0xe0
    then two a bs
    else if leb 0xe0 a && ltb a 0xf0
    then three a bs
    else if leb 0xf0 a && ltb a 0xf5
    then four a bs
    else none

-- A character is read back from its encoding, whatever follows it.
pub decode_char-utf8 :
    (c : ℕ) (rest : List ℕ) → c < 0x110000 → decode_char (utf8 c ++ rest) ≡ some (c, rest)
unfolding decode_char utf8
decode_char-utf8 c rest h = ground arith

abbrev push_char : Option Char → Option String → Option String
push_char none s = none
push_char (some c) none = none
push_char (some c) (some s) = some (String.◌∷◌ c s)

abbrev take_char : (List ℕ → Option String) → Option (ℕ × List ℕ) → Option String
take_char go none = none
take_char go (some p) = push_char (from_u32 p.0) (go p.1)

-- Each round takes a byte at least, so that as many rounds as there are bytes are enough.
unfoldable decode_rounds : ℕ → List ℕ → Option String
decode_rounds n [] = some String.[]
decode_rounds zero (b ∷ bs) = none
decode_rounds (suc n) (b ∷ bs) = take_char (decode_rounds n) (decode_char (b ∷ bs))

unfoldable pub from_utf8 : List ℕ → Option String
unfolding decode_rounds
from_utf8 bytes = decode_rounds (length bytes) bytes

pub code-IsScalar : (c : Char) → code c < 0x110000
code-IsScalar (char n p) =
    in_range (compare n 55296) (compare 57343 n) (compare n 1114112) refl refl p
  where
    in_range :
        (o p q : Ordering)
        → compare n 55296 ≡ o
        → compare n 1114112 ≡ q
        → Scalar o p q
        → n < 0x110000
    in_range Ordering.lt p q e f x = ground (arith, e)
    in_range Ordering.eq Ordering.lt Ordering.lt e f x = ground (arith, f)
    in_range Ordering.eq Ordering.lt Ordering.eq e f x = absurd x
    in_range Ordering.eq Ordering.lt Ordering.gt e f x = absurd x
    in_range Ordering.eq Ordering.eq q e f x = absurd x
    in_range Ordering.eq Ordering.gt q e f x = absurd x
    in_range Ordering.gt Ordering.lt Ordering.lt e f x = ground (arith, f)
    in_range Ordering.gt Ordering.lt Ordering.eq e f x = absurd x
    in_range Ordering.gt Ordering.lt Ordering.gt e f x = absurd x
    in_range Ordering.gt Ordering.eq q e f x = absurd x
    in_range Ordering.gt Ordering.gt q e f x = absurd x

decode_char-nil : (p : ℕ × List ℕ) → decode_char [] ≡ some p → ⊥
unfolding decode_char
decode_char-nil p h = cc

-- One round of the loop takes what one character is decoded from.
decode_rounds-step :
    (n : ℕ) (bytes rest : List ℕ) (c : Char) (s : String)
    → decode_char bytes ≡ some (code c, rest)
    → decode_rounds n rest ≡ some s
    → decode_rounds (suc n) bytes ≡ some (String.◌∷◌ c s)
unfolding decode_rounds
decode_rounds-step n [] rest c s d h = absurd (decode_char-nil (code c, rest) d)
decode_rounds-step n (b ∷ bs) rest c s d h = rw (d, from_u32-code c, h) refl

length-utf8 : (c : ℕ) → 1 ≤ length (utf8 c)
unfolding utf8
length-utf8 c = ground arith

length-encode_codes : (cs : List ℕ) → length cs ≤ length (encode_codes cs)
unfolding encode_codes
length-encode_codes [] = omega arith
length-encode_codes (c ∷ cs) =
    omega (arith, length-utf8 c, length-encode_codes cs, length-append (utf8 c) (encode_codes cs))

decode_rounds-as_bytes :
    (n : ℕ) (s : String) → length (codes s) ≤ n → decode_rounds n (encode_codes (codes s)) ≡ some s
unfolding encode_codes decode_rounds
decode_rounds-as_bytes zero String.[] h = refl
decode_rounds-as_bytes (suc n) String.[] h = refl
decode_rounds-as_bytes zero (String.◌∷◌ c s) h = absurd (omega (arith, h))
decode_rounds-as_bytes (suc n) (String.◌∷◌ c s) h =
    decode_rounds-step n (utf8 (code c) ++ encode_codes (codes s)) (encode_codes (codes s)) c s
      (decode_char-utf8 (code c) (encode_codes (codes s)) (code-IsScalar c))
      (decode_rounds-as_bytes n s (omega (arith, h)))

-- A string is read back from its bytes.
pub from_utf8-as_bytes : (s : String) → from_utf8 (as_bytes s) ≡ some s
unfolding from_utf8 as_bytes
from_utf8-as_bytes s =
    decode_rounds-as_bytes (length (as_bytes s)) s (length-encode_codes (codes s))
