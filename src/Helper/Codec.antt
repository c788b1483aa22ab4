-- ===== src/Helper/Codec.antt =====
-- services/capture_client/codec.rs: one JSON object per line. serde_json is the parameter `Json`; the stream is
-- what `fill_buf` gives from call to call, and after a partial `consume` the rest of the chunk.
pub mod Lines
use corivo_desktop.Base.{
  ℕ, ◌+◌, ◌*◌, ◌≡◌, ◌≤◌, Bool, List, [], ◌∷◌, ◌++◌, Option, none, some, if◌then◌else◌, ltb, ◌==◌,
  length, All,
}
use corivo_desktop.Base.Result.{Result, ok, err}

abbrev pub Bytes : Type 0
Bytes = List ℕ

-- `to_vec` and `from_slice`. Compact JSON has no control characters; that what is read equals what was written is not assumed.
pub record Json (M : Type 0) : Type 0 where
  pub to_vec : M → Option Bytes
  pub from_slice : Bytes → Option M
  pub to_vec_printable : (m : M) (b : Bytes) → to_vec m ≡ some b → All (λ c. 0x20 ≤ c) b

pub data CodecError : Type 0 where
  io line_too_long invalid_json eof : CodecError

abbrev pub max_line_bytes : ℕ
max_line_bytes = 1024 * 1024

-- What a `fill_buf` gives: bytes, none of them at the end, or an error.
pub data Fill : Type 0 where
  chunk : Bytes → Fill
  io_error : Fill

abbrev pub newline : ℕ
newline = 10

abbrev pub carriage_return : ℕ
carriage_return = 13

-- The bytes up to and with the first newline, and those after it.
unfoldable pub split_newline : Bytes → Option (Bytes × Bytes)
split_newline [] = none
split_newline (b ∷ bs) =
    if b == newline
    then some (b ∷ [], bs)
    else elim (split_newline bs) [ none ↦ none | some (l, rest) ↦ some (b ∷ l, rest) ]

-- The rest of a chunk, if there is any, comes with the next call.
abbrev pub unread : Bytes → List Fill → List Fill
unread [] fills = fills
unread (b ∷ bs) fills = chunk (b ∷ bs) ∷ fills

unfoldable pub read_line_capped : ℕ → Bytes → List Fill → Result (Bytes × List Fill) CodecError
read_line_capped limit buf [] = err eof
read_line_capped limit buf (io_error ∷ fills) = err io
read_line_capped limit buf (chunk [] ∷ fills) = err eof
read_line_capped limit buf (chunk (b ∷ bs) ∷ fills) =
    let rest = read_line_capped limit (buf ++ (b ∷ bs)) fills in
    elim (split_newline (b ∷ bs)) [
      | some (l, after) ↦
          if ltb limit (length buf + length l)
          then err line_too_long
          else ok (buf ++ l, unread after fills)
      | none ↦ if ltb limit (length buf + length (b ∷ bs)) then err line_too_long else rest
    ]

-- The line less its last byte, if that is `c`.
unfoldable pub strip_last : ℕ → Bytes → Bytes
strip_last c [] = []
strip_last c (b ∷ []) = if b == c then [] else b ∷ []
strip_last c (b ∷ (d ∷ bs)) = b ∷ strip_last c (d ∷ bs)

module _ {M : Type 0} (json : Json M) where
  open json use {to_vec, from_slice}

  unfoldable pub read_message : List Fill → Result (M × List Fill) CodecError
  read_message fills = elim (read_line_capped max_line_bytes [] fills) [
    | err e ↦ err e
    | ok (line, rest) ↦ elim (from_slice (strip_last carriage_return (strip_last newline line))) [
      | none ↦ err invalid_json
      | some m ↦ ok (m, rest)
    ]
  ]

  -- What the writer has taken before, and after the call; whether it takes the bytes is its own matter.
  unfoldable pub write_message : Bool → M → Bytes → Result Bytes CodecError
  write_message writable m written = elim (to_vec m) [
    | none ↦ err invalid_json
    | some bytes ↦ if writable then ok (written ++ (bytes ++ newline ∷ [])) else err io
  ]
