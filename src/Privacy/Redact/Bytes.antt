-- ===== src/Privacy/Redact/Bytes.antt =====
-- Character offsets and byte offsets: `char_to_byte` finds the boundary at which `replace_range` cuts.
use corivo_desktop.Base.{
  ℕ, zero, suc, ◌+◌, ◌≤◌, ◌<◌, ◌≡◌, refl, [], ◌∷◌, ◌++◌, some, arith, length, take, drop,
}
use corivo_desktop.Base.Text.{Text}
use corivo_desktop.Privacy.Label.{PiiSpan, redact_placeholder}
use corivo_desktop.Privacy.Redact.{
  utf8_len, char_to_byte_from, char_to_byte, split_bytes, replace_range, replace_span,
}

abbrev pub bytes : Text → ℕ
bytes [] = 0
bytes (c ∷ s) = utf8_len c + bytes s

pub utf8_len_pos : (c : ℕ) → 0 < utf8_len c
unfolding utf8_len
utf8_len_pos c = ground arith

char_to_byte_from-take :
    (s : Text) (byte count idx k : ℕ)
    → count + k ≡ idx
    → k ≤ length s
    → char_to_byte_from s byte count idx ≡ some (byte + bytes (take k s))
unfolding char_to_byte_from
char_to_byte_from-take [] byte count idx zero e h = ground arith
char_to_byte_from-take [] byte count idx (suc k) e h = absurd (omega arith)
char_to_byte_from-take (c ∷ s) byte count idx zero e h = ground arith
char_to_byte_from-take (c ∷ s) byte count idx (suc k) e h =
    ground (arith, char_to_byte_from-take s (byte + utf8_len c) (count + 1) idx k)

pub char_to_byte-take :
    (s : Text) (k : ℕ) → k ≤ length s → char_to_byte s k ≡ some (bytes (take k s))
unfolding char_to_byte
char_to_byte-take s zero h = refl
char_to_byte-take s (suc k) h = ground (arith, char_to_byte_from-take s 0 0 (suc k) (suc k))

pub split_bytes-take :
    (s : Text) (k : ℕ) → k ≤ length s → split_bytes s (bytes (take k s)) ≡ some (take k s, drop k s)
unfolding split_bytes
split_bytes-take [] zero h = refl
split_bytes-take [] (suc k) h = absurd (omega arith)
split_bytes-take (c ∷ s) zero h = refl
split_bytes-take (c ∷ s) (suc k) h = ground (arith, utf8_len_pos c, split_bytes-take s k)

bytes-take_mono : (s : Text) (a b : ℕ) → a ≤ b → bytes (take a s) ≤ bytes (take b s)
bytes-take_mono s zero b h = omega arith
bytes-take_mono [] (suc a) b h = omega arith
bytes-take_mono (c ∷ s) (suc a) zero h = absurd (omega arith)
bytes-take_mono (c ∷ s) (suc a) (suc b) h = omega (arith, bytes-take_mono s a b (omega arith))

replace_range-take :
    (s new : Text) (a b : ℕ)
    → a ≤ b
    → b ≤ length s
    → replace_range s (bytes (take a s)) (bytes (take b s)) new
      ≡ some (take a s ++ (new ++ drop b s))
unfolding replace_range
replace_range-take s new a b h k =
    ground
      (arith, split_bytes-take s a (omega arith), split_bytes-take s b k, bytes-take_mono s a b h)

-- Within the text, one round of the loop puts the placeholder for exactly the span's characters.
pub replace_span-take :
    {S : Type 0} (result : Text) (span : PiiSpan S)
    → span.start ≤ span.end
    → span.end ≤ length result
    → replace_span result span
      ≡ some (take span.start result ++ (redact_placeholder span.label ++ drop span.end result))
unfolding replace_span
replace_span-take result span h k =
    rw (char_to_byte-take result span.start (omega arith), replace_span)
      (rw (char_to_byte-take result span.end k, replace_span)
        (replace_range-take result (redact_placeholder span.label) span.start span.end h k))
