-- ===== src/Helper/Codec/Lines.antt =====
-- Lines and messages, whatever the chunks that the bytes come in.
use corivo_desktop.Base.{
  ℕ, ◌≡◌, refl, sym, ap, ◌∙◌, inl, inr, true, List, [], ◌∷◌, ◌++◌, none, some, arith, ltb,
  if◌then◌else◌, Bool-cases, Option-cases, All, length, length-append, ◌≤◌, ◌<◌, ◌+◌,
}
use corivo_desktop.Base.Result.{Result, ok, err}
use corivo_desktop.Helper.Codec.{
  Bytes, Json, CodecError, max_line_bytes, Fill, newline, carriage_return, split_newline, unread,
  read_line_capped, strip_last, read_message, write_message, line_too_long, invalid_json, eof,
  chunk, io_error,
}
use mathlib.Core.List.{append_assoc}

-- The bytes that are still to come, up to an error.
abbrev pub flatten : List Fill → Bytes
flatten [] = []
flatten (chunk b ∷ fills) = b ++ flatten fills
flatten (io_error ∷ fills) = []

-- A stream without errors: `fill_buf` gives no empty chunk before the end.
abbrev pub IsFlowing : List Fill → Type 0
IsFlowing [] = Unit {0}
IsFlowing (chunk [] ∷ fills) = ⊥
IsFlowing (chunk (b ∷ bs) ∷ fills) = IsFlowing fills
IsFlowing (io_error ∷ fills) = ⊥

-- The reference: the line in the bytes as a whole, after those in `buf`.
abbrev pub line_of : ℕ → Bytes → Bytes → Result (Bytes × Bytes) CodecError
line_of limit buf flat = elim (split_newline flat) [
  | some (l, after) ↦
      if ltb limit (length buf + length l) then err line_too_long else ok (buf ++ l, after)
  | none ↦ if ltb limit (length buf + length flat) then err line_too_long else err eof
]

abbrev pub flat_rest : Result (Bytes × List Fill) CodecError → Result (Bytes × Bytes) CodecError
flat_rest (err e) = err e
flat_rest (ok (line, rest)) = ok (line, flatten rest)

flatten-unread : (bs : Bytes) (fills : List Fill) → flatten (unread bs fills) ≡ bs ++ flatten fills
flatten-unread [] fills = refl
flatten-unread (b ∷ bs) fills = refl

split_newline-append :
    (xs ys : Bytes)
    → split_newline (xs ++ ys) ≡ (elim (split_newline xs) [
      | some (l, r) ↦ some (l, r ++ ys)
      | none ↦ elim (split_newline ys) [ none ↦ none | some (l, r) ↦ some (xs ++ l, r) ]
    ])
unfolding split_newline
split_newline-append [] ys = ground arith
split_newline-append (x ∷ xs) ys = ground (arith, split_newline-append xs ys)

split_newline_nil : split_newline [] ≡ none
unfolding split_newline
split_newline_nil = refl

line_of-append :
    (limit : ℕ) (buf c f : Bytes)
    → split_newline c ≡ none
    → length buf + length c ≤ limit
    → line_of limit (buf ++ c) f ≡ line_of limit buf (c ++ f)
line_of-append limit buf c f h k = elim (Option-cases (split_newline f)) [
  | inl e ↦ ground (arith, split_newline-append c f, length-append buf c, length-append c f)
  | inr ((l, r), e) ↦ ground (
    arith,
    split_newline-append c f,
    length-append buf c,
    length-append c l,
    append_assoc buf c l,
  )
]

line_of_too_long :
    (limit : ℕ) (buf c f : Bytes)
    → split_newline c ≡ none
    → limit < length buf + length c
    → line_of limit buf (c ++ f) ≡ err line_too_long
line_of_too_long limit buf c f h k = elim (Option-cases (split_newline f)) [
  | inl e ↦ ground (arith, split_newline-append c f, length-append c f)
  | inr ((l, r), e) ↦ ground (arith, split_newline-append c f, length-append c l)
]

-- Whatever the chunks, the outcome and the bytes left are those of the reference on the bytes as a whole: the line up
-- to the first newline if it fits the limit, an error for a line or a rest that does not, and the end of the stream otherwise.
pub read_line_capped-line_of :
    (limit : ℕ) (buf : Bytes) (fills : List Fill)
    → length buf ≤ limit
    → IsFlowing fills
    → flat_rest (read_line_capped limit buf fills) ≡ line_of limit buf (flatten fills)
unfolding read_line_capped
read_line_capped-line_of limit buf [] h k = ground (arith, split_newline_nil)
read_line_capped-line_of limit buf (io_error ∷ fills) h k = absurd k
read_line_capped-line_of limit buf (chunk [] ∷ fills) h k = absurd k
read_line_capped-line_of limit buf (chunk (b ∷ bs) ∷ fills) h k =
    elim (Option-cases (split_newline (b ∷ bs))) [
      | inl e ↦ elim (Bool-cases (ltb limit (length buf + length (b ∷ bs)))) [
        | inl long ↦
            rw (e, read_line_capped)
              (rw (long, read_line_capped)
                (sym (line_of_too_long limit buf (b ∷ bs) (flatten fills) e (ground arith))))
        | inr short ↦
            rw (e, read_line_capped)
              (rw (short, read_line_capped)
                (read_line_capped-line_of limit (buf ++ (b ∷ bs)) fills
                    (ground (arith, length-append buf (b ∷ bs))) k
                  ∙ line_of-append limit buf (b ∷ bs) (flatten fills) e (ground arith)))
      ]
      | inr ((l, r), e) ↦
          ground (arith, split_newline-append (b ∷ bs) (flatten fills), flatten-unread r fills)
    ]

-- A reading of a message, with the bytes left.
module _ {M : Type 0} where
  abbrev pub flat_message : Result (M × List Fill) CodecError → Result (M × Bytes) CodecError
  flat_message (err e) = err e
  flat_message (ok (m, rest)) = ok (m, flatten rest)

flat_rest_ok :
    (r : Result (Bytes × List Fill) CodecError) (l rest : Bytes)
    → flat_rest r ≡ ok (l, rest)
    → (fills : List Fill) × (r ≡ ok (l, fills)) × (flatten fills ≡ rest)
flat_rest_ok (err e) l rest h = ground arith
flat_rest_ok (ok (l', fills)) l rest h = (fills, cc, cc)

split_newline-line :
    (b rest : Bytes)
    → All (λ c. 0x20 ≤ c) b
    → split_newline (b ++ newline ∷ rest) ≡ some (b ++ newline ∷ [], rest)
unfolding split_newline
split_newline-line [] rest h = ground arith
split_newline-line (c ∷ b) rest h = ground (arith, split_newline-line b rest h.1)

strip_last-line : (b : Bytes) → strip_last newline (b ++ newline ∷ []) ≡ b
unfolding strip_last
strip_last-line [] = ground arith
strip_last-line (c ∷ []) = ground arith
strip_last-line (c ∷ (d ∷ b)) = ap (◌∷◌ c) (strip_last-line (d ∷ b))

strip_last_printable : (b : Bytes) → All (λ c. 0x20 ≤ c) b → strip_last carriage_return b ≡ b
unfolding strip_last
strip_last_printable [] h = refl
strip_last_printable (c ∷ []) h = ground arith
strip_last_printable (c ∷ (d ∷ b)) h = ap (◌∷◌ c) (strip_last_printable (d ∷ b) h.1)

module _ {M : Type 0} (json : Json M) where
  open json use {to_vec, from_slice, to_vec_printable}

  -- What serde makes of a line, with the bytes that follow it.
  abbrev pub received : Bytes → Bytes → Result (M × Bytes) CodecError
  received b rest = elim (from_slice b) [ none ↦ err invalid_json | some m ↦ ok (m, rest) ]

  read_message_of_line :
      (b : Bytes) (fills : List Fill) (rest : Bytes)
      → All (λ c. 0x20 ≤ c) b
      → flat_rest (read_line_capped max_line_bytes [] fills) ≡ ok (b ++ newline ∷ [], rest)
      → flat_message (read_message json fills) ≡ received b rest
  unfolding read_message
  read_message_of_line b fills rest p h =
      let (left, r, f) =
        flat_rest_ok (read_line_capped max_line_bytes [] fills) (b ++ newline ∷ []) rest h in
      rw (r, read_message)
        (rw (strip_last-line b) (
          rw (strip_last_printable b p) (elim (Option-cases (from_slice b)) [
            | inl e ↦ rw (e, received) refl
            | inr (m, e) ↦ rw (e, received) (ap (λ x. ok (m, x)) f)
          ])))

  -- Whatever the chunks that the line of a written message comes in and whatever follows it, the reader hands serde exactly the bytes that
  -- serde gave the writer, and answers with the message that serde makes of them and with what follows left to be read, or with an
  -- error if serde makes none, if the line with its newline is not above the limit of 1 MiB.
  pub read_message-write_message :
      (m : M) (b line : Bytes) (fills : List Fill) (rest : Bytes)
      → to_vec m ≡ some b
      → length b < max_line_bytes
      → write_message json true m [] ≡ ok line
      → IsFlowing fills
      → flatten fills ≡ line ++ rest
      → flat_message (read_message json fills) ≡ received b rest
  unfolding write_message
  read_message-write_message m b line fills rest e h w k f =
      let whole : line ≡ b ++ newline ∷ [] = ground (arith, e, w) in
      let flat : flatten fills ≡ b ++ newline ∷ rest =
        f ∙ ap (λ x. x ++ rest) whole ∙ append_assoc b (newline ∷ []) rest in
      read_message_of_line b fills rest (to_vec_printable m b e) (
        read_line_capped-line_of max_line_bytes [] fills (ground arith) k
        ∙ ap (line_of max_line_bytes []) flat
        ∙ ground (
          arith,
          h,
          split_newline-line b rest (to_vec_printable m b e),
          length-append b (newline ∷ []),
        ))
