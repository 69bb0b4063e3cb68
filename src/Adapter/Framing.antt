-- ===== src/Adapter/Framing.antt =====
-- The frames of the adapter protocol do not depend on how the bytes arrive.
use oikade.Prelude.{
  ℕ, ◌+◌, ◌≤◌, ◌<◌, ◌≡◌, ◌≢◌, refl, sym, ap, ◌∙◌, Bool, true, false, Option, none, some, List, [],
  ◌∷◌, ◌++◌, ltb, ◌==◌, length, length-append, if◌then◌else◌, arith, Bool-cases, inl, inr,
}
use oikade.Prelude.Result.{Result, ok, err}
use oikade.Adapter.Codec.{
  max_frame_size, WireError, frame_too_large, newline, take_line, ends_line, put_back, Reader,
  read_line,
}

-- `BufRead::fill_buf` returns an empty buffer at the end of the input only.
abbrev pub IsChunked : Reader → Type 0
IsChunked [] = Unit {0}
IsChunked (b ∷ r) = (b ≢ []) × IsChunked r

abbrev pub joined : Reader → List ℕ
joined [] = []
joined (b ∷ r) = b ++ joined r

-- The bytes that are left, whatever buffers they are in.
abbrev pub forget :
    Result WireError (Option (List ℕ) × Reader) → Result WireError (Option (List ℕ) × List ℕ)
forget (ok (line, rest)) = ok (line, joined rest)
forget (err e) = err e

-- The specification: the bytes up to the first newline, unless there are too many of them.
abbrev pub checked_line : List ℕ → List ℕ → Result WireError (Option (List ℕ) × List ℕ)
checked_line line rest =
    if ltb max_frame_size (length line) then err frame_too_large else ok (some line, rest)

abbrev pub next_line : List ℕ → List ℕ → Result WireError (Option (List ℕ) × List ℕ)
next_line [] [] = ok (none, [])
next_line [] (b ∷ bytes) = checked_line (take_line (b ∷ bytes)).0 (take_line (b ∷ bytes)).1
next_line (a ∷ line) bytes = checked_line (a ∷ line ++ (take_line bytes).0) (take_line bytes).1

abbrev pub has_newline : List ℕ → Bool
has_newline [] = false
has_newline (b ∷ bs) = if b == newline then true else has_newline bs

pub take_line-append :
    (xs ys : List ℕ)
    → has_newline xs ≡ true
    → take_line (xs ++ ys) ≡ ((take_line xs).0, (take_line xs).1 ++ ys)
unfolding take_line
take_line-append [] ys h = absurd (ground (arith, h))
take_line-append (x ∷ xs) ys h = elim (Bool-cases (x == newline)) [
  | inl e ↦ rw e
  | inr e ↦ rw (e, take_line-append xs ys (ground (arith, e, h)))
]

pub take_line-append_open :
    (xs ys : List ℕ)
    → has_newline xs ≡ false
    → take_line (xs ++ ys) ≡ (xs ++ (take_line ys).0, (take_line ys).1)
unfolding take_line
take_line-append_open [] ys h = refl
take_line-append_open (x ∷ xs) ys h = elim (Bool-cases (x == newline)) [
  | inl e ↦ absurd (ground (arith, e, h))
  | inr e ↦ rw (e, take_line-append_open xs ys (ground (arith, e, h)))
]

append_nil : (xs : List ℕ) → xs ++ [] ≡ xs
append_nil [] = refl
append_nil (x ∷ xs) = ap (λ ys. x ∷ ys) (append_nil xs)

pub append_assoc : (xs ys zs : List ℕ) → (xs ++ ys) ++ zs ≡ xs ++ (ys ++ zs)
append_assoc [] ys zs = refl
append_assoc (x ∷ xs) ys zs = ap (λ ws. x ∷ ws) (append_assoc xs ys zs)

take_line_open : (xs : List ℕ) → has_newline xs ≡ false → take_line xs ≡ (xs, [])
unfolding take_line
take_line_open [] h = refl
take_line_open (x ∷ xs) h = elim (Bool-cases (x == newline)) [
  | inl e ↦ absurd (ground (arith, e, h))
  | inr e ↦ rw (e, take_line_open xs (ground (arith, e, h)))
]

ends_line-append :
    (xs : List ℕ) (y : ℕ) (ys : List ℕ) → ends_line (xs ++ y ∷ ys) ≡ ends_line (y ∷ ys)
ends_line-append [] y ys = refl
ends_line-append (x ∷ []) y ys = refl
ends_line-append (x ∷ x' ∷ xs) y ys = ends_line-append (x' ∷ xs) y ys

ends_line-take_line : (xs : List ℕ) → ends_line (take_line xs).0 ≡ has_newline xs
unfolding take_line
ends_line-take_line [] = refl
ends_line-take_line (x ∷ []) = ground arith
ends_line-take_line (x ∷ y ∷ xs) = ground (arith, ends_line-take_line (y ∷ xs))

ends_line-line :
    (line : List ℕ) (b : ℕ) (bs : List ℕ)
    → ends_line (line ++ (take_line (b ∷ bs)).0) ≡ has_newline (b ∷ bs)
unfolding take_line
ends_line-line line b bs = elim (Bool-cases (b == newline)) [
  | inl e ↦ ground (arith, e, ends_line-append line b [])
  | inr e ↦
      ground (arith, e, ends_line-append line b (take_line bs).0, ends_line-take_line (b ∷ bs))
]

module _ (line : List ℕ) (b : ℕ) (bs more : List ℕ) where
  next-closed :
      has_newline (b ∷ bs) ≡ true
      → next_line line (b ∷ bs ++ more)
        ≡ checked_line (line ++ (take_line (b ∷ bs)).0) ((take_line (b ∷ bs)).1 ++ more)
  next-closed h =
      start line
      ∙ ap (λ (p : List ℕ × List ℕ). checked_line (line ++ p.0) p.1)
          (take_line-append (b ∷ bs) more h)
    where
      start :
          (l : List ℕ)
          → next_line l (b ∷ bs ++ more)
            ≡ checked_line (l ++ (take_line (b ∷ bs ++ more)).0) (take_line (b ∷ bs ++ more)).1
      start [] = refl
      start (a ∷ l) = refl

  next-open :
      has_newline (b ∷ bs) ≡ false
      → next_line line (b ∷ bs ++ more)
        ≡ checked_line (line ++ (b ∷ bs ++ (take_line more).0)) (take_line more).1
  next-open h =
      start line
      ∙ ap (λ (p : List ℕ × List ℕ). checked_line (line ++ p.0) p.1)
          (take_line-append_open (b ∷ bs) more h)
    where
      start :
          (l : List ℕ)
          → next_line l (b ∷ bs ++ more)
            ≡ checked_line (l ++ (take_line (b ∷ bs ++ more)).0) (take_line (b ∷ bs ++ more)).1
      start [] = refl
      start (a ∷ l) = refl

  next-append :
      next_line (line ++ b ∷ bs) more
      ≡ checked_line (line ++ (b ∷ bs ++ (take_line more).0)) (take_line more).1
  next-append =
      finish line
      ∙ ap (λ l. checked_line l (take_line more).1) (append_assoc line (b ∷ bs) (take_line more).0)
    where
      finish :
          (l : List ℕ)
          → next_line (l ++ b ∷ bs) more
            ≡ checked_line ((l ++ b ∷ bs) ++ (take_line more).0) (take_line more).1
      finish [] = refl
      finish (a ∷ l) = refl

  -- A line that a first chunk makes too long is too long.
  too_long :
      max_frame_size < length line + length (take_line (b ∷ bs)).0
      → next_line line (b ∷ bs ++ more) ≡ err frame_too_large
  too_long h = elim (Bool-cases (has_newline (b ∷ bs))) [
    | inl e ↦ next-closed e ∙ ground (arith, length-append line (take_line (b ∷ bs)).0, h)
    | inr e ↦
        next-open e
        ∙ ground (
          arith,
          length-append line (b ∷ bs ++ (take_line more).0),
          length-append (b ∷ bs) (take_line more).0,
          ap (λ (p : List ℕ × List ℕ). length p.0) (take_line_open (b ∷ bs) e),
          h,
        )
  ]

joined-put_back : (u : List ℕ) (r : Reader) → joined (put_back u r) ≡ u ++ joined r
joined-put_back [] r = refl
joined-put_back (b ∷ u) r = refl

last_line :
    (a : ℕ) (line : List ℕ)
    → length (a ∷ line) ≤ max_frame_size
    → next_line (a ∷ line) [] ≡ ok (some (a ∷ line), [])
unfolding take_line
last_line a line small = rw (append_nil line) (ground (arith, small))

pub checked_fits :
    (line rest : List ℕ)
    → length line ≤ max_frame_size
    → checked_line line rest ≡ ok (some line, rest)
checked_fits line rest small = ground (arith, small)

-- One round of the loop.
module _ (line available : List ℕ) (rest : Reader) where
  read-big :
      ltb max_frame_size (length line + length (take_line available).0) ≡ true
      → read_line line (available ∷ rest) ≡ err frame_too_large
  unfolding read_line
  read-big e = rw (e, read_line)

  read-closed :
      ltb max_frame_size (length line + length (take_line available).0) ≡ false
      → ends_line (line ++ (take_line available).0) ≡ true
      → read_line line (available ∷ rest)
        ≡ ok (some (line ++ (take_line available).0), put_back (take_line available).1 rest)
  unfolding read_line
  read-closed e h = rw (e, h, read_line)

  read-more :
      ltb max_frame_size (length line + length (take_line available).0) ≡ false
      → ends_line (line ++ (take_line available).0) ≡ false
      → read_line line (available ∷ rest) ≡ read_line (line ++ (take_line available).0) rest
  unfolding read_line
  read-more e h = rw (e, h, read_line)

-- If no chunk is empty and what was collected before is not too long, the loop that collects a line
-- takes the bytes up to the first newline, or refuses them if they are too many, in whatever chunks
-- they arrive.
pub read_line-next_line :
    (line : List ℕ) (r : Reader)
    → IsChunked r
    → length line ≤ max_frame_size
    → forget (read_line line r) ≡ next_line line (joined r)
unfolding read_line
read_line-next_line [] [] c small = refl
read_line-next_line (a ∷ line) [] c small = sym (last_line a line small)
read_line-next_line line ([] ∷ rest) c small = absurd (c.0 refl)
read_line-next_line line ((b ∷ bs) ∷ rest) c small =
    elim (Bool-cases (ltb max_frame_size (length line + length (take_line (b ∷ bs)).0))) [
      | inl big ↦
          ap forget (read-big line (b ∷ bs) rest big)
          ∙ sym (too_long line b bs (joined rest) (ground (arith, big)))
      | inr fits ↦ elim (Bool-cases (has_newline (b ∷ bs))) [
        | inl closed ↦
            ap forget (read-closed line (b ∷ bs) rest fits (ends_line-line line b bs ∙ closed))
            ∙ ap (λ u. ok (some (line ++ (take_line (b ∷ bs)).0), u))
                (joined-put_back (take_line (b ∷ bs)).1 rest)
            ∙ sym (
                next-closed line b bs (joined rest) closed
                ∙ checked_fits _ _
                    (ground (arith, fits, length-append line (take_line (b ∷ bs)).0)))
        | inr more ↦
            let whole : (take_line (b ∷ bs)).0 ≡ b ∷ bs =
              ap (λ (p : List ℕ × List ℕ). p.0) (take_line_open (b ∷ bs) more) in
            ap forget (read-more line (b ∷ bs) rest fits (ends_line-line line b bs ∙ more))
            ∙ ap (λ l. forget (read_line (line ++ l) rest)) whole
            ∙ read_line-next_line (line ++ b ∷ bs) rest c.1
                (ground (arith, fits, length-append line (b ∷ bs), ap (λ l. length l) whole))
            ∙ next-append line b bs (joined rest)
            ∙ sym (next-open line b bs (joined rest) more)
      ]
    ]
