-- ===== src/Storage/KeyLaws.antt =====
-- Keys of the database, read back.
use oikade.Prelude.{
  ℕ, suc, ◌^◌, ◌<◌, ltb, not, ◌≡◌, refl, sym, ap, ◌∙◌, String, some, List, [], ◌∷◌, ◌++◌, length,
  arith, append_assoc, append-nil,
}
use oikade.Prelude.Result.{ok, bind-ok, guard-ok, ok_injective}
use oikade.Prelude.Text.{as_bytes}
use oikade.Prelude.Utf8.{from_utf8-as_bytes}
use oikade.Storage.Keys.{
  to_be_bytes, push_length, push_bytes, push_scopes, encode_key, split_at, take_length, take_string,
  take_scopes, decode_key,
}

take_length-to_be_bytes :
    (n : ℕ) (rest : List ℕ) → n < 2 ^ 32 → take_length (to_be_bytes n ++ rest) ≡ ok (n, rest)
unfolding take_length to_be_bytes
take_length-to_be_bytes n rest h = ap (λ m. ok (m, rest)) (ground arith)

split_at-append : (v rest : List ℕ) → split_at (length v) (v ++ rest) ≡ some (v, rest)
unfolding split_at
split_at-append [] rest = refl
split_at-append (b ∷ v) rest = rw (split_at-append v rest) refl

-- What a successful `push_length` and `push_bytes` append.
push_length-ok :
    (target : List ℕ) (n : ℕ) (r : List ℕ)
    → push_length target n ≡ ok r
    → (n < 2 ^ 32) × (r ≡ target ++ to_be_bytes n)
unfolding push_length
push_length-ok target n r h =
    let (small, done) = guard-ok (not (ltb n (2 ^ 32))) _ _ _ h in
    ((ground (arith, small)), sym (ok_injective done))

abbrev framed : List ℕ → List ℕ
framed v = to_be_bytes (length v) ++ v

push_bytes-ok :
    (target v r : List ℕ)
    → push_bytes target v ≡ ok r
    → (length v < 2 ^ 32) × (r ≡ target ++ framed v)
unfolding push_bytes
push_bytes-ok target v r h =
    let (t, pushed, done) = bind-ok (push_length target (length v)) _ _ h in
    let (small, t_eq) = push_length-ok target (length v) t pushed in
    (small, rw (sym (ok_injective done), t_eq) (append_assoc target (to_be_bytes (length v)) v))

take_string-framed :
    (s : String) (rest : List ℕ)
    → length (as_bytes s) < 2 ^ 32
    → take_string (framed (as_bytes s) ++ rest) ≡ ok (s, rest)
unfolding take_string
take_string-framed s rest h =
    rw
      (
        append_assoc (to_be_bytes (length (as_bytes s))) (as_bytes s) rest,
        take_length-to_be_bytes (length (as_bytes s)) (as_bytes s ++ rest) h,
        split_at-append (as_bytes s) rest,
        from_utf8-as_bytes s,
      )
      refl

-- The scopes are read back from what was appended for them.
record Scoped (scopes : List String) (target r : List ℕ) : Type 0 where
  appended : List ℕ
  r_eq : r ≡ target ++ appended
  taken :
      (acc : List String) (rest : List ℕ)
      → take_scopes (length scopes) acc (appended ++ rest) ≡ ok (acc ++ scopes, rest)

take_scopes-framed :
    (scope : String) (scopes acc : List String) (bytes rest : List ℕ)
    → length (as_bytes scope) < 2 ^ 32
    → ((acc : List String)
        → take_scopes (length scopes) acc (bytes ++ rest) ≡ ok (acc ++ scopes, rest))
    → take_scopes (suc (length scopes)) acc ((framed (as_bytes scope) ++ bytes) ++ rest)
      ≡ ok (acc ++ scope ∷ scopes, rest)
unfolding take_scopes
take_scopes-framed scope scopes acc bytes rest small taken =
    rw
      (
        append_assoc (framed (as_bytes scope)) bytes rest,
        take_string-framed scope (bytes ++ rest) small,
        taken (acc ++ scope ∷ []),
        append_assoc acc (scope ∷ []) scopes,
      )
      refl

push_scopes-ok :
    (scopes : List String) (target r : List ℕ)
    → push_scopes target scopes ≡ ok r
    → Scoped scopes target r
unfolding push_scopes take_scopes
push_scopes-ok [] target r h = record {
  appended = [];
  r_eq = rw append-nil (sym (ok_injective h));
  taken = λ acc rest. rw append-nil refl;
}
push_scopes-ok (scope ∷ scopes) target r h =
    let (t, pushed, done) = bind-ok (push_bytes target (as_bytes scope)) _ _ h in
    let (small, t_eq) = push_bytes-ok target (as_bytes scope) t pushed in
    let more = push_scopes-ok scopes t r done in
    record {
      appended = framed (as_bytes scope) ++ more.appended;
      r_eq =
          more.r_eq
          ∙ ap (λ x. x ++ more.appended) t_eq
          ∙ append_assoc target (framed (as_bytes scope)) more.appended;
      taken = λ acc rest.
          take_scopes-framed scope scopes acc more.appended rest small (λ a. more.taken a rest);
    }

decode_key-parts :
    (scopes : List String) (key : String) (bytes : List ℕ)
    → length scopes < 2 ^ 32
    → length (as_bytes key) < 2 ^ 32
    → ((rest : List ℕ) → take_scopes (length scopes) [] (bytes ++ rest) ≡ ok (scopes, rest))
    → decode_key (to_be_bytes (length scopes) ++ (bytes ++ framed (as_bytes key)))
      ≡ ok (scopes, key)
unfolding decode_key
decode_key-parts scopes key bytes few small taken =
    rw
      (
        take_length-to_be_bytes (length scopes) (bytes ++ framed (as_bytes key)) few,
        taken (framed (as_bytes key)),
        sym (append-nil (framed (as_bytes key))),
        take_string-framed key [] small,
      )
      refl

-- A key that was encoded is decoded to the scopes and the name it was made of.
pub decode_key-encode_key :
    (scopes : List String) (key : String) (encoded : List ℕ)
    → encode_key scopes key ≡ ok encoded
    → decode_key encoded ≡ ok (scopes, key)
unfolding encode_key
decode_key-encode_key scopes key encoded h =
    let (c, counted, h1) = bind-ok (push_length [] (length scopes)) _ _ h in
    let (few, c_eq) = push_length-ok [] (length scopes) c counted in
    let (t, pushed, done) = bind-ok (push_scopes c scopes) _ _ h1 in
    let scoped = push_scopes-ok scopes c t pushed in
    let (small, r_eq) = push_bytes-ok t (as_bytes key) encoded done in
    let encoded_eq : encoded
        ≡ to_be_bytes (length scopes) ++ (scoped.appended ++ framed (as_bytes key)) =
      r_eq
      ∙ ap (λ x. x ++ framed (as_bytes key)) (scoped.r_eq ∙ ap (λ x. x ++ scoped.appended) c_eq)
      ∙ append_assoc (to_be_bytes (length scopes)) scoped.appended (framed (as_bytes key)) in
    rw encoded_eq
      (decode_key-parts scopes key scoped.appended few small (λ rest. scoped.taken [] rest))

-- Distinct buckets or names never share a key: what is encoded alike is alike.
pub encode_key-injective :
    (s t : List String) (j k : String) (encoded : List ℕ)
    → encode_key s j ≡ ok encoded
    → encode_key t k ≡ ok encoded
    → ◌≡◌ {A = List String × String} (s, j) (t, k)
encode_key-injective s t j k encoded p q =
    ok_injective (sym (decode_key-encode_key s j encoded p) ∙ decode_key-encode_key t k encoded q)
