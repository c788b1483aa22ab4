-- ===== src/Privacy/Decode/Order.antt =====
-- The spans that `decode_bioes` emits lie in order, apart from one another and within the input.
use corivo_desktop.Base.{
  ℕ, suc, ◌+◌, ◌≤◌, ◌<◌, ◌≡◌, refl, inl, inr, Bool-cases, List, [], ◌∷◌, ◌++◌, Option, none, some,
  arith, length,
}
use corivo_desktop.Base.Float.{F32}
use corivo_desktop.Privacy.Label.{PiiLabel, label_eq}
use corivo_desktop.Privacy.Decode.{
  TokenSpan, OpenSpan, Decoder, Reading, LabelMap, silent, quiet, tagged, outside, begin, inside,
  end, single, react, reading, finish, decode_from, decode_bioes, fresh, close_into, token_span,
  push,
}

-- Non-empty spans that follow one another from `lo` to `hi`.
abbrev pub Chain : {S : Type 0} → ℕ → List (TokenSpan S) → ℕ → Type 0
Chain lo [] hi = lo ≤ hi
Chain lo (s ∷ ss) hi =
    (lo ≤ s.token_start) × (s.token_start < s.token_end) × Chain s.token_end ss hi

Chain-push :
    {S : Type 0} (lo : ℕ) (ss : List (TokenSpan S)) (hi : ℕ) (s : TokenSpan S)
    → Chain lo ss hi
    → hi ≤ s.token_start
    → s.token_start < s.token_end
    → Chain lo (ss ++ s ∷ []) s.token_end
Chain-push lo [] hi s h a b = (omega arith, b, omega arith)
Chain-push lo (x ∷ ss) hi s h a b = (h.0, h.1, Chain-push x.token_end ss hi s h.2 a b)

Chain-mono :
    {S : Type 0} (lo : ℕ) (ss : List (TokenSpan S)) (hi hi' : ℕ)
    → Chain lo ss hi
    → hi ≤ hi'
    → Chain lo ss hi'
Chain-mono lo [] hi hi' h a = omega arith
Chain-mono lo (x ∷ ss) hi hi' h a = (h.0, h.1, Chain-mono x.token_end ss hi hi' h.2 a)

-- Before token `i`: the emitted spans end before the open one, and that before `i`.
abbrev Within : {S : Type 0} → ℕ → Option (OpenSpan S) → List (TokenSpan S) → Type 0
Within i none out = Chain 0 out i
Within i (some o) out = Chain 0 out o.start × (o.start < i)

close-Chain :
    {S : Type 0} (i : ℕ) (o : Option (OpenSpan S)) (out : List (TokenSpan S))
    → Within i o out
    → Chain 0 (close_into o out).out i
unfolding close_into
close-Chain i none out w = w
close-Chain i (some o) out w =
    Chain-mono 0 _ (o.start + 1) i
      (Chain-push 0 out o.start (token_span o.start (o.start + 1) o.label o.min_score) w.0
        (omega arith) (omega arith))
      (omega arith)

close_none :
    {S : Type 0} (o : Option (OpenSpan S)) (out : List (TokenSpan S))
    → (close_into o out).open_span ≡ none
unfolding close_into
close_none none out = refl
close_none (some o) out = refl

-- A span that ends behind token `i`, put after spans that end where it starts.
end-Chain :
    {S : Type 0} (a i : ℕ) (l : PiiLabel) (s : S) (out : List (TokenSpan S))
    → Chain 0 out a
    → a < suc i
    → Chain 0 (push out (token_span a (i + 1) l s)) (suc i)
end-Chain a i l s out w h =
    Chain-mono 0 _ (i + 1) (suc i)
      (Chain-push 0 out a (token_span a (i + 1) l s) w (omega arith) (omega arith)) (omega arith)

module _ {S : Type 0} (min : S → S → S) where
  abbrev WithinState : ℕ → Decoder S → Type 0
  WithinState i d = Within i d.open_span d.out

  react-Within :
      (i : ℕ) (r : Reading S) (o : Option (OpenSpan S)) (out : List (TokenSpan S))
      → Within i o out
      → WithinState (suc i) (react min i r (record { open_span = o; out = out }))
  unfolding react
  react-Within i silent none out w = Chain-mono 0 out i (suc i) w (omega arith)
  react-Within i silent (some o) out w = (w.0, omega arith)
  react-Within i quiet none out w = Chain-mono 0 out i (suc i) w (omega arith)
  react-Within i quiet (some o) out w =
      Chain-mono 0 _ i (suc i) (close-Chain i (some o) out w) (omega arith)
  react-Within i (tagged outside l s) none out w = Chain-mono 0 out i (suc i) w (omega arith)
  react-Within i (tagged outside l s) (some o) out w =
      Chain-mono 0 _ i (suc i) (close-Chain i (some o) out w) (omega arith)
  react-Within i (tagged begin l s) o out w = (close-Chain i o out w, omega arith)
  react-Within i (tagged inside l s) none out w = (w, omega arith)
  react-Within i (tagged inside l s) (some o) out w = elim (Bool-cases (label_eq o.label l)) [
    | inl e ↦ rw e (w.0, omega arith)
    | inr e ↦ rw e (close-Chain i (some o) out w, omega arith)
  ]
  react-Within i (tagged end l s) none out w = end-Chain i i l s out w (omega arith)
  react-Within i (tagged end l s) (some o) out w = elim (Bool-cases (label_eq o.label l)) [
    | inl e ↦ rw e (end-Chain o.start i l _ out w.0 (omega arith))
    | inr e ↦ rw e (
        end-Chain i i l s _
          (Chain-push 0 out o.start (token_span o.start i o.label o.min_score) w.0 (omega arith)
            (omega arith))
          (omega arith))
  ]
  react-Within i (tagged single l s) none out w = end-Chain i i l s out w (omega arith)
  react-Within i (tagged single l s) (some o) out w =
      end-Chain i i l s _ (close-Chain i (some o) out w) (omega arith)

finish-Chain :
    {S : Type 0} (n : ℕ) (o : Option (OpenSpan S)) (out : List (TokenSpan S))
    → Within n o out
    → Chain 0 (finish n (record { open_span = o; out = out })) n
unfolding finish
finish-Chain n none out w = w
finish-Chain n (some o) out w =
    Chain-push 0 out o.start (token_span o.start n o.label o.min_score) w.0 (omega arith) w.1

module _ (F : F32) (m : LabelMap) (threshold : F.Carrier) where
  open F use {Carrier}

  decode_from-Within :
      (i n : ℕ) (rows : List (List Carrier)) (d : Decoder Carrier)
      → i + length rows ≡ n
      → Within i d.open_span d.out
      → WithinState F.min n (decode_from F m threshold i rows d)
  unfolding decode_from
  decode_from-Within i n [] d e w = let e' : i ≡ n = omega arith in rw (← e') w
  decode_from-Within i n (row ∷ rows) d e w =
      decode_from-Within (suc i) n rows (react F.min i (reading F m threshold row) d) (omega arith)
        (react-Within F.min i (reading F m threshold row) d.open_span d.out w)

  -- Whatever the logits, the label map and the threshold, the emitted spans are not empty, follow one
  -- another without overlap in the order of the tokens, and end within the input.
  pub decode_bioes-Chain :
      (logits : List (List Carrier)) → Chain 0 (decode_bioes F m threshold logits) (length logits)
  unfolding decode_bioes
  decode_bioes-Chain logits =
      let d = decode_from F m threshold 0 logits fresh in
      finish-Chain (length logits) d.open_span d.out
        (decode_from-Within 0 (length logits) logits fresh (omega arith) (omega arith))
