-- ===== src/Privacy/Session/Offsets.antt =====
-- The table from bytes to characters, against what it is meant to be.
use corivo_desktop.Base.{
  ℕ, zero, suc, replicate, length-append, get_elem?, take, ◌≡◌, refl, sym, ap, ◌∙◌, subst, true,
  List, [], ◌∷◌, ◌++◌, some, arith, ltb, All, length, All-append, ◌≤◌, ◌+◌, ◌-◌,
}
use corivo_desktop.Base.Text.{Text}
use corivo_desktop.Privacy.Session.{
  set_at, fill, Mapping, fill_inside, map_char, map_chars, build_byte_to_char_map,
}
use corivo_desktop.Privacy.Redact.{utf8_len, char_to_byte}
use corivo_desktop.Privacy.Redact.Bytes.{bytes, char_to_byte-take, utf8_len_pos}
use mathlib.Core.List.{append_assoc}

-- Each byte's entry is the number of the character that it is part of, and the end's the number of characters.
abbrev pub byte_table : Text → ℕ → List ℕ
byte_table [] idx = idx ∷ []
byte_table (c ∷ s) idx = replicate (utf8_len c) idx ++ byte_table s (suc idx)

set_at-append :
    (pre : List ℕ) (x v : ℕ) (xs : List ℕ) → set_at (length pre) v (pre ++ x ∷ xs) ≡ pre ++ v ∷ xs
unfolding set_at
set_at-append [] x v xs = refl
set_at-append (p ∷ pre) x v xs = ap (◌∷◌ p) (set_at-append pre x v xs)

length-replicate : (n x : ℕ) → length (replicate n x) ≡ n
length-replicate zero x = refl
length-replicate (suc n) x = ap suc (length-replicate n x)

fill-append :
    (n k v : ℕ) (pre : List ℕ)
    → fill (length pre) n v (pre ++ replicate (n + k) 0) ≡ (pre ++ replicate n v) ++ replicate k 0
unfolding fill
fill-append zero k v pre =
    let e : 0 + k ≡ k = omega arith in rw e (sym (append_assoc pre [] (replicate k 0)))
fill-append (suc n) k v pre =
    let e : suc n + k ≡ suc (n + k) = omega arith in
    let l : length (pre ++ v ∷ []) ≡ suc (length pre) = omega (arith, length-append pre (v ∷ [])) in
    rw e (
      rw (set_at-append pre 0 v (replicate (n + k) 0)) (
        rw (← append_assoc pre (v ∷ []) (replicate (n + k) 0)) (
          rw (← l) (
            fill-append n k v (pre ++ v ∷ [])
            ∙ ap (λ x. x ++ replicate k 0) (append_assoc pre (v ∷ []) (replicate n v))))))

-- One round: what is set so far is `pre`, and `inside` bytes of the last character are to be set.
map_char-table :
    (byte idx prev inside k : ℕ) (pre table : List ℕ)
    → length pre ≡ prev + 1
    → byte ≡ prev + 1 + inside
    → table ≡ pre ++ replicate (inside + suc k) 0
    → map_char byte (record { map = table; char_idx = suc idx; prev_char_start = prev }) ≡ record {
      map = (pre ++ replicate inside idx) ++ suc idx ∷ replicate k 0;
      char_idx = suc (suc idx);
      prev_char_start = byte;
    }
unfolding map_char fill_inside
map_char-table byte idx prev inside k pre table h b t =
    let d : byte - (prev + 1) ≡ inside = omega arith in
    let i : suc idx - 1 ≡ idx = omega arith in
    let n : suc idx + 1 ≡ suc (suc idx) = omega arith in
    let l : byte ≡ length (pre ++ replicate inside idx) =
      omega (arith, length-append pre (replicate inside idx), length-replicate inside idx) in
    let z : ltb 0 (suc idx) ≡ true = ground arith in
    rw (d, i, n, z)
      (rw (← h, t)
        (ap (λ m. record { map = m; char_idx = suc (suc idx); prev_char_start = byte })
          (ap (set_at byte (suc idx)) (fill-append inside (suc k) idx pre)
            ∙ ap (λ x. set_at x (suc idx) ((pre ++ replicate inside idx) ++ 0 ∷ replicate k 0)) l
            ∙ set_at-append (pre ++ replicate inside idx) 0 (suc idx) (replicate k 0))))

map_chars-table :
    (s : Text) (byte idx prev inside : ℕ) (pre table : List ℕ)
    → length pre ≡ prev + 1
    → byte ≡ prev + 1 + inside
    → table ≡ pre ++ replicate (inside + suc (bytes s)) 0
    → (map_char
        (byte + bytes s)
        (map_chars s byte (record { map = table; char_idx = suc idx; prev_char_start = prev }))).map
      ≡ (pre ++ replicate inside idx) ++ byte_table s (suc idx)
unfolding map_chars
map_chars-table [] byte idx prev inside pre table h b t =
    let e : byte + 0 ≡ byte = omega arith in
    rw (e, map_char-table byte idx prev inside 0 pre table h b t) refl
map_chars-table (c ∷ s) byte idx prev inside pre table h b t =
    let k = utf8_len c - 1 in
    let done = pre ++ replicate inside idx in
    let lk : utf8_len c ≡ suc k = omega (arith, utf8_len_pos c) in
    let l : length (done ++ suc idx ∷ []) ≡ byte + 1 = omega (
      arith,
      length-append done (suc idx ∷ []),
      length-append pre (replicate inside idx),
      length-replicate inside idx,
    ) in
    let r : utf8_len c + bytes s ≡ k + suc (bytes s) = omega (arith, utf8_len_pos c) in
    let e : byte + (utf8_len c + bytes s) ≡ byte + utf8_len c + bytes s = omega arith in
    rw (map_char-table byte idx prev inside (utf8_len c + bytes s) pre table h b t, e)
      (map_chars-table s (byte + utf8_len c) (suc idx) byte k (done ++ suc idx ∷ []) _ l
          (omega (arith, utf8_len_pos c))
          (sym (append_assoc done (suc idx ∷ []) _)
            ∙ ap (λ x. (done ++ suc idx ∷ []) ++ replicate x 0) r)
        ∙ ap (λ x. x ++ byte_table s (suc (suc idx)))
            (append_assoc done (suc idx ∷ []) (replicate k (suc idx)))
        ∙ append_assoc done (suc idx ∷ replicate k (suc idx)) (byte_table s (suc (suc idx)))
        ∙ ap (λ x. done ++ (replicate x (suc idx) ++ byte_table s (suc (suc idx)))) (sym lk))

-- The loop's table is the reference.
pub build_byte_to_char_map-byte_table :
    (text : Text) → build_byte_to_char_map text ≡ byte_table text 0
unfolding build_byte_to_char_map map_chars map_char fill_inside set_at
build_byte_to_char_map-byte_table [] = refl
build_byte_to_char_map-byte_table (c ∷ s) =
    let k = utf8_len c - 1 in
    let lk : utf8_len c ≡ suc k = omega (arith, utf8_len_pos c) in
    let t : set_at 0 0 (replicate (utf8_len c + bytes s + 1) 0)
        ≡ 0 ∷ replicate (k + suc (bytes s)) 0 =
      ap (λ n. set_at 0 0 (replicate n 0)) (first c s) in
    let start : Mapping = record {
      map = set_at 0 0 (replicate (utf8_len c + bytes s + 1) 0);
      char_idx = 1;
      prev_char_start = 0;
    } in
    let e : utf8_len c + bytes s ≡ 0 + utf8_len c + bytes s = omega arith in
    ap (λ n. (map_char n (map_chars s (0 + utf8_len c) start)).map) e
    ∙ map_chars-table s (0 + utf8_len c) 0 0 k (0 ∷ []) _ (omega arith)
        (omega (arith, utf8_len_pos c)) t
    ∙ ap (λ n. replicate n 0 ++ byte_table s 1) (sym lk)
  where
    first : (c : ℕ) (s : Text) → utf8_len c + bytes s + 1 ≡ suc (utf8_len c - 1 + suc (bytes s))
    first c s = omega (arith, utf8_len_pos c)

get_elem?-replicate :
    (n x m : ℕ) (ys : List ℕ) → get_elem? (replicate n x ++ ys) (n + m) ≡ get_elem? ys m
get_elem?-replicate zero x m ys = let e : 0 + m ≡ m = omega arith in rw e refl
get_elem?-replicate (suc n) x m ys =
    let e : suc n + m ≡ suc (n + m) = omega arith in rw e (get_elem?-replicate n x m ys)

get_elem?-byte_table :
    (s : Text) (k idx : ℕ)
    → k ≤ length s
    → get_elem? (byte_table s idx) (bytes (take k s)) ≡ some (idx + k)
get_elem?-byte_table [] zero idx h = ap some (omega arith)
get_elem?-byte_table [] (suc k) idx h = absurd (omega arith)
get_elem?-byte_table (c ∷ s) zero idx h =
    let lk : utf8_len c ≡ suc (utf8_len c - 1) = omega (arith, utf8_len_pos c) in
    ap (λ n. get_elem? (replicate n idx ++ byte_table s (suc idx)) 0) lk ∙ ap some (omega arith)
get_elem?-byte_table (c ∷ s) (suc k) idx h =
    get_elem?-replicate (utf8_len c) idx (bytes (take k s)) (byte_table s (suc idx))
    ∙ get_elem?-byte_table s k (suc idx) (omega arith)
    ∙ ap some (omega arith)

-- The table takes the byte offset that `char_to_byte` finds for a character's position back to the position.
pub build_byte_to_char_map-char_to_byte :
    (text : Text) (k : ℕ)
    → k ≤ length text
    → (b : ℕ) × (char_to_byte text k ≡ some b)
      × (get_elem? (build_byte_to_char_map text) b ≡ some k)
build_byte_to_char_map-char_to_byte text k h = (
  bytes (take k text),
  char_to_byte-take text k h,
  ap (λ m. get_elem? m (bytes (take k text))) (build_byte_to_char_map-byte_table text)
      ∙ get_elem?-byte_table text k 0 h
      ∙ ap some (omega arith),
)

All-replicate : (P : ℕ → Type 0) (n x : ℕ) → P x → All P (replicate n x)
All-replicate P zero x h = tt
All-replicate P (suc n) x h = (h, All-replicate P n x h)

byte_table-bound : (s : Text) (idx n : ℕ) → idx + length s ≤ n → All (λ v. v ≤ n) (byte_table s idx)
byte_table-bound [] idx n h = (omega arith, tt)
byte_table-bound (c ∷ s) idx n h =
    All-append (λ v. v ≤ n) _ _ (All-replicate (λ v. v ≤ n) (utf8_len c) idx (omega arith))
      (byte_table-bound s (suc idx) n (omega arith))

All-get_elem? : (P : ℕ → Type 0) (xs : List ℕ) (i v : ℕ) → All P xs → get_elem? xs i ≡ some v → P v
All-get_elem? P [] i v h e = absurd (cc e)
All-get_elem? P (x ∷ xs) zero v h e = subst P (cc e) h.0
All-get_elem? P (x ∷ xs) (suc i) v h e = All-get_elem? P xs i v h.1 e

pub build_byte_to_char_map-bound :
    (text : Text) (i v : ℕ) → get_elem? (build_byte_to_char_map text) i ≡ some v → v ≤ length text
build_byte_to_char_map-bound text i v e =
    All-get_elem? (λ x. x ≤ length text) (byte_table text 0) i v
      (byte_table-bound text 0 (length text) (omega arith))
      (ap (λ m. get_elem? m i) (sym (build_byte_to_char_map-byte_table text)) ∙ e)
