-- ===== src/Matter/NamingLaws.antt =====
-- Names that are cut to a number of bytes.
use Prim.Native.Char.{Char, code}
use Prim.Native.String.{◌∷◌ as str_cons, [] as str_nil}
use oikade.Prelude.{
  ℕ, ◌+◌, ◌-◌, ◌≤◌, ◌<◌, ◌≡◌, refl, sym, ap, ◌∙◌, String, List, [], ◌++◌, length, length-append,
  leb, arith, append_assoc, if_rule,
}
use oikade.Prelude.Text.{utf8, encode_codes, as_bytes}
use oikade.Matter.Naming.{truncate_utf8}

-- What is left of a text: its first whole characters, in the bytes that there is room for.
pub record IsCut (value cut : String) (max_bytes : ℕ) : Type 0 where
  pub rest : List ℕ
  pub bytes_eq : as_bytes value ≡ as_bytes cut ++ rest
  pub fits : length (as_bytes cut) ≤ max_bytes
  pub whole : length (as_bytes value) ≤ max_bytes → cut ≡ value

-- The bytes of a text are those of its first character and of the others.
as_bytes-cons : (c : Char) (s : String) → as_bytes (str_cons c s) ≡ utf8 (code c) ++ as_bytes s
unfolding as_bytes encode_codes
as_bytes-cons c s = refl

length-cons :
    (c : Char) (s : String)
    → length (as_bytes (str_cons c s)) ≡ length (utf8 (code c)) + length (as_bytes s)
length-cons c s = ap length (as_bytes-cons c s) ∙ length-append (utf8 (code c)) (as_bytes s)

nil-IsCut : (n : ℕ) → IsCut str_nil str_nil n
unfolding as_bytes encode_codes
nil-IsCut n = record { rest = []; bytes_eq = refl; fits = omega arith; whole = λ h. refl }

-- The next character fits, or it does not.
kept-IsCut :
    (c : Char) (s cut : String) (n : ℕ)
    → length (utf8 (code c)) ≤ n
    → IsCut s cut (n - length (utf8 (code c)))
    → IsCut (str_cons c s) (str_cons c cut) n
kept-IsCut c s cut n room k = record {
  rest = k.rest;
  bytes_eq =
      as_bytes-cons c s
      ∙ ap (λ x. utf8 (code c) ++ x) k.bytes_eq
      ∙ sym (append_assoc (utf8 (code c)) (as_bytes cut) k.rest)
      ∙ ap (λ x. x ++ k.rest) (sym (as_bytes-cons c cut));
  fits = omega (arith, length-cons c cut, k.fits, room);
  whole = λ h. ap (str_cons c) (k.whole (omega (arith, length-cons c s, h, room)));
}

dropped-IsCut :
    (c : Char) (s : String) (n : ℕ) → n < length (utf8 (code c)) → IsCut (str_cons c s) str_nil n
unfolding as_bytes encode_codes
dropped-IsCut c s n full = record {
  rest = as_bytes (str_cons c s);
  bytes_eq = refl;
  fits = omega arith;
  whole = λ h. absurd (omega (arith, length-cons c s, h, full));
}

-- A text that is cut to a number of bytes is the start of the text, made of whole characters, has no more
-- bytes than that, and is the whole text if that has no more.
pub truncate_utf8-IsCut :
    (value : String) (max_bytes : ℕ) → IsCut value (truncate_utf8 value max_bytes) max_bytes
unfolding truncate_utf8
truncate_utf8-IsCut str_nil n = nil-IsCut n
truncate_utf8-IsCut (str_cons c s) n =
    if_rule (λ cut. IsCut (str_cons c s) cut n) (leb (length (utf8 (code c))) n)
      (λ e.
        kept-IsCut c s _ n (ground (arith, e)) (truncate_utf8-IsCut s (n - length (utf8 (code c)))))
      (λ e. dropped-IsCut c s n (ground (arith, e)))
