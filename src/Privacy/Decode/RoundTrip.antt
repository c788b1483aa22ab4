-- ===== src/Privacy/Decode/RoundTrip.antt =====
-- Well-formed BIOES sequences: what `decode_bioes` makes of an input that is the encoding of a list
-- of entities, and of one whose last entity lacks its `E` token.
use corivo_desktop.Base.{
  ℕ, suc, ◌+◌, ◌≡◌, refl, ap, ◌∙◌, List, [], ◌∷◌, ◌++◌, map, none, some, arith, length,
}
use corivo_desktop.Base.Float.{F32}
use corivo_desktop.Privacy.Label.{PiiLabel, label_eq_refl}
use corivo_desktop.Privacy.Decode.{
  TokenSpan, Decoder, Reading, LabelMap, quiet, tagged, begin, inside, end, single, react, reading,
  finish, decode_from, decode_bioes, fresh, token_span, push,
}
use mathlib.Core.List.{append-nil, append_assoc}

-- What an annotator marks: a token outside of every entity, an entity of one token, and one of
-- several tokens with the scores of the first, the middle ones and the last.
pub data Segment (S : Type 0) : Type 0 where
  gap : Segment S
  one : PiiLabel → S → Segment S
  many : PiiLabel → S → List S → S → Segment S

abbrev pub encode : {S : Type 0} → List (Segment S) → List (Reading S)
encode [] = []
encode (gap ∷ g) = quiet ∷ encode g
encode (one l s ∷ g) = tagged single l s ∷ encode g
encode (many l s mids t ∷ g) =
    tagged begin l s ∷ (map (tagged inside l) mids ++ (tagged end l t ∷ encode g))

module _ {S : Type 0} (min : S → S → S) where
  abbrev pub lowest : S → List S → S
  lowest s [] = s
  lowest s (m ∷ ms) = lowest (min s m) ms

  -- The marked entities, placed from token `i` on.
  abbrev pub spans_of : ℕ → List (Segment S) → List (TokenSpan S)
  spans_of i [] = []
  spans_of i (gap ∷ g) = spans_of (suc i) g
  spans_of i (one l s ∷ g) = token_span i (i + 1) l s ∷ spans_of (suc i) g
  spans_of i (many l s mids t ∷ g) =
      token_span i (suc i + length mids + 1) l (min (lowest s mids) t)
      ∷ spans_of (suc (suc i + length mids)) g

  -- The loop over readings.
  pub run : ℕ → List (Reading S) → Decoder S → Decoder S
  run i [] d = d
  run i (r ∷ rs) d = run (suc i) rs (react min i r d)

  run_inside :
      (i : ℕ) (l : PiiLabel) (a : ℕ) (s t : S) (out : List (TokenSpan S))
      → react min i
          (tagged inside l t)
          (record { open_span = some (record { start = a; label = l; min_score = s }); out = out })
        ≡ record {
          open_span = some (record { start = a; label = l; min_score = min s t });
          out = out;
        }
  unfolding react
  run_inside i l a s t out = rw (label_eq_refl l)

  pub run_insides :
      (i j : ℕ) (l : PiiLabel) (a : ℕ) (s : S) (mids : List S) (rest : List (Reading S))
      (out : List (TokenSpan S))
      → i + length mids ≡ j
      → run i
          (map (tagged inside l) mids ++ rest)
          (record { open_span = some (record { start = a; label = l; min_score = s }); out = out })
        ≡ run j rest (record {
          open_span = some (record { start = a; label = l; min_score = lowest s mids });
          out = out;
        })
  unfolding run
  run_insides i j l a s [] rest out e = let e' : i ≡ j = omega arith in rw e'
  run_insides i j l a s (m ∷ ms) rest out e =
      ap (run (suc i) (map (tagged inside l) ms ++ rest)) (run_inside i l a s m out)
      ∙ run_insides (suc i) j l a (min s m) ms rest out (omega arith)

  run_end :
      (i : ℕ) (l : PiiLabel) (a : ℕ) (s t : S) (out : List (TokenSpan S))
      → react min i
          (tagged end l t)
          (record { open_span = some (record { start = a; label = l; min_score = s }); out = out })
        ≡ record { open_span = none; out = push out (token_span a (i + 1) l (min s t)) }
  unfolding react
  run_end i l a s t out = rw (label_eq_refl l)

  pub run-encode :
      (i : ℕ) (g : List (Segment S)) (out : List (TokenSpan S))
      → run i (encode g) (record { open_span = none; out = out })
        ≡ record { open_span = none; out = out ++ spans_of i g }
  unfolding run react
  run-encode i [] out = rw append-nil
  run-encode i (gap ∷ g) out = run-encode (suc i) g out
  run-encode i (one l s ∷ g) out =
      run-encode (suc i) g (push out (token_span i (i + 1) l s)) ∙ rw append_assoc
  run-encode i (many l s mids t ∷ g) out =
      run_insides (suc i) (suc i + length mids) l i s mids (tagged end l t ∷ encode g) out refl
      ∙ ap (run (suc (suc i + length mids)) (encode g))
          (run_end (suc i + length mids) l i (lowest s mids) t out)
      ∙ run-encode (suc (suc i + length mids)) g _
      ∙ rw append_assoc

  -- An entity of which the `E` token is missing.
  abbrev pub unclosed : PiiLabel → S → List S → List (Reading S)
  unclosed l s mids = tagged begin l s ∷ map (tagged inside l) mids

  pub run-unclosed :
      (l : PiiLabel) (s : S) (mids : List S) (rest : List (Reading S))
      → run 0 (unclosed l s mids ++ rest) fresh
        ≡ run (1 + length mids) rest (record {
          open_span = some (record { start = 0; label = l; min_score = lowest s mids });
          out = [];
        })
  unfolding run react
  run-unclosed l s mids rest = run_insides 1 (1 + length mids) l 0 s mids rest [] refl

module _ (F : F32) (m : LabelMap) (threshold : F.Carrier) where
  open F use {Carrier}

  decode_from-run :
      (i : ℕ) (rows : List (List Carrier)) (d : Decoder Carrier)
      → decode_from F m threshold i rows d ≡ run F.min i (map (reading F m threshold) rows) d
  unfolding decode_from run
  decode_from-run i [] d = refl
  decode_from-run i (row ∷ rows) d =
      decode_from-run (suc i) rows (react F.min i (reading F m threshold row) d)

  -- If the rows read as the encoding of a list of entities, `decode_bioes` gives back exactly these
  -- entities: their places, labels, and the lowest score among each one's tokens.
  pub decode_bioes-encode :
      (rows : List (List Carrier)) (g : List (Segment Carrier))
      → map (reading F m threshold) rows ≡ encode g
      → decode_bioes F m threshold rows ≡ spans_of F.min 0 g
  unfolding decode_bioes finish
  decode_bioes-encode rows g e = rw (decode_from-run 0 rows fresh, e, run-encode F.min 0 g [])

  -- An entity without its `E` token that the input ends with is reported whole, with the lowest score.
  pub decode_bioes-unclosed_at_end :
      (rows : List (List Carrier)) (l : PiiLabel) (s : Carrier) (mids : List Carrier)
      → map (reading F m threshold) rows ≡ unclosed F.min l s mids
      → decode_bioes F m threshold rows ≡ token_span 0 (length rows) l (lowest F.min s mids) ∷ []
  unfolding decode_bioes finish run react
  decode_bioes-unclosed_at_end rows l s mids e =
      rw
        (
          decode_from-run 0 rows fresh,
          e,
          ← append-nil (unclosed F.min l s mids),
          run-unclosed F.min l s mids [],
        )
        refl

  -- An entity without its `E` token that a token outside of every entity follows is reported as its
  -- first token only, however many tokens it has.
  pub decode_bioes-unclosed_before_outside :
      (rows : List (List Carrier)) (l : PiiLabel) (s : Carrier) (mids : List Carrier)
      → map (reading F m threshold) rows ≡ unclosed F.min l s mids ++ quiet ∷ []
      → decode_bioes F m threshold rows ≡ token_span 0 1 l (lowest F.min s mids) ∷ []
  unfolding decode_bioes finish run react
  decode_bioes-unclosed_before_outside rows l s mids e =
      rw (decode_from-run 0 rows fresh, e, run-unclosed F.min l s mids (quiet ∷ [])) refl
