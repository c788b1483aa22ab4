-- ===== src/Privacy/Examples.antt =====
-- Concrete inputs to the properties of the privacy filter.
use corivo_desktop.Base.{
  Bool-cases, ℕ, ◌≡◌, refl, sym, ◌⊎◌, inl, inr, Bool, true, false, List, [], ◌∷◌, Option, none,
  some, if◌then◌else◌, arith, get_elem?, keep, All, Any,
}
use corivo_desktop.Base.Text.{Text, codes, text_eq, text_eq_sound, text_eq_refl}
use corivo_desktop.Base.Float.{counting}
use corivo_desktop.Privacy.Label.{
  PiiSpan, PrivacySettings, private_email, private_person, default_toggles,
}
use corivo_desktop.Privacy.Decode.{
  LabelMap, outside, begin, inside, end, single, reading, argmax_with_softmax, lookup, decode_bioes,
}
use corivo_desktop.Privacy.Decode.Order.{Chain, decode_bioes-Chain}
use corivo_desktop.Privacy.Decode.RoundTrip.{gap, many, spans_of, decode_bioes-encode}
use corivo_desktop.Privacy.Redact.{redact, chosen, is_active}
use corivo_desktop.Privacy.Redact.Render.{render, in_bounds}
use corivo_desktop.Privacy.Redact.Redacted.{redact-render, chosen-Covers, Covers}
use corivo_desktop.Privacy.Redact.{char_to_byte}
use corivo_desktop.Privacy.Session.{Token, Logits, build_byte_to_char_map, classify_loaded}
use corivo_desktop.Privacy.Session.Offsets.{build_byte_to_char_map-char_to_byte}
use corivo_desktop.Privacy.Session.Spans.{redact-classify_loaded, InText}
use corivo_desktop.Privacy.Filter.{LruCache, PrivacyFilter, classify_and_enforce}
use corivo_desktop.Privacy.Filter.Cached.{
  IsCoherent, classify_and_enforce-IsCoherent, classify_and_enforce_after_failure,
}

abbrev mail : Text
mail = codes "to ann@b.c, ok"

abbrev mail_span : PiiSpan ℕ
mail_span = record {
  start = 3;
  end = 10;
  label = private_email;
  score = 9;
  redacted_in_storage = false;
}

abbrev name_span : PiiSpan ℕ
name_span = record {
  start = 1;
  end = 6;
  label = private_person;
  score = 9;
  redacted_in_storage = false;
}

redact-render_example :
    redact mail (mail_span ∷ name_span ∷ []) default_toggles
    ≡ some
        (render mail 14 (keep (in_bounds 14) (chosen (mail_span ∷ name_span ∷ []) default_toggles)))
redact-render_example = redact-render mail (mail_span ∷ name_span ∷ []) default_toggles

chosen-Covers_example :
    All
      (λ s. Any (Covers s) (chosen (mail_span ∷ name_span ∷ []) default_toggles))
      (keep (is_active default_toggles) (mail_span ∷ name_span ∷ []))
chosen-Covers_example = chosen-Covers (mail_span ∷ name_span ∷ []) default_toggles

-- Class 0 is `O`, and 1 to 4 are the tags of an e-mail address.
abbrev classes : LabelMap
classes = record {
  entries =
      some (record { label = none; tag = outside })
      ∷ some (record { label = some private_email; tag = begin })
      ∷ some (record { label = some private_email; tag = inside })
      ∷ some (record { label = some private_email; tag = end })
      ∷ some (record { label = some private_email; tag = single })
      ∷ [];
}

abbrev begins : List ℕ
begins = 1 ∷ 9 ∷ 1 ∷ 1 ∷ 1 ∷ []

abbrev goes_on : List ℕ
goes_on = 1 ∷ 1 ∷ 9 ∷ 1 ∷ 1 ∷ []

abbrev finishes : List ℕ
finishes = 1 ∷ 1 ∷ 1 ∷ 9 ∷ 1 ∷ []

abbrev stays_out : List ℕ
stays_out = 9 ∷ 1 ∷ 1 ∷ 1 ∷ 1 ∷ []

decode_bioes-Chain_example :
    Chain 0 (decode_bioes counting classes 1 (begins ∷ goes_on ∷ stays_out ∷ [])) 3
decode_bioes-Chain_example =
    decode_bioes-Chain counting classes 1 (begins ∷ goes_on ∷ stays_out ∷ [])

decode_bioes-encode_example :
    decode_bioes counting classes 1 (stays_out ∷ begins ∷ goes_on ∷ finishes ∷ [])
    ≡ spans_of counting.min 0 (gap ∷ many private_email 20 (20 ∷ []) 20 ∷ [])
unfolding reading argmax_with_softmax lookup
decode_bioes-encode_example =
    decode_bioes-encode counting classes 1 (stays_out ∷ begins ∷ goes_on ∷ finishes ∷ [])
      (gap ∷ many private_email 20 (20 ∷ []) 20 ∷ []) refl

-- A cache that never evicts: the newest entry first.
abbrev find : {V : Type 0} → Text → List (Text × V) → Option V
find k [] = none
find k ((j, v) ∷ s) = if text_eq j k then some v else find k s

find_old :
    {V : Type 0} (j k : Text) (v w : V) (s : List (Text × V))
    → find j ((k, v) ∷ s) ≡ some w
    → (j ≡ k) ⊎ (find j s ≡ some w)
find_old j k v w s h = elim (Bool-cases (text_eq k j)) [
  | inl e ↦ inl (sym (text_eq_sound k j e))
  | inr e ↦ inr (ground arith)
]

find_put : {V : Type 0} (k : Text) (v : V) (s : List (Text × V)) → find k ((k, v) ∷ s) ≡ some v
find_put k v s = ground (arith, text_eq_refl k)

abbrev entries_list : LruCache Text (List (PiiSpan ℕ))
entries_list = record {
  Store = List (Text × List (PiiSpan ℕ));
  get = λ k s. (find k s, s);
  put = λ k v s. (k, v) ∷ s;
  clear = λ s. [];
  empty = [];
  get-empty = λ k. refl;
  get-clear = λ k s. refl;
  get-put = λ k v s. find_put k v s;
  put_old = λ j k v w s h. find_old j k v w s h;
  get-get = λ j k s. refl;
}

abbrev settings_on : PrivacySettings
settings_on = record { enabled = true; categories = default_toggles }

-- A model that finds the address if its session has been loaded.
abbrev if_loaded : Bool → Text → List (PiiSpan ℕ) × Bool
if_loaded loaded text = (if loaded then mail_span ∷ [] else [], loaded)

abbrev always : Bool → Text → List (PiiSpan ℕ) × Bool
always loaded text = (mail_span ∷ [], loaded)

abbrev filter_of : Bool → PrivacyFilter (List (Text × List (PiiSpan ℕ))) Bool
filter_of loaded = record { settings = settings_on; cache = []; session = loaded }

nothing_cached : IsCoherent entries_list (λ t. t) always (λ t. mail_span ∷ []) []
nothing_cached text spans h = ground arith

classify_and_enforce-IsCoherent_example :
    ((classify_and_enforce entries_list (λ t. t) always (filter_of true) mail).0
      ≡ redact mail (mail_span ∷ []) default_toggles)
    × IsCoherent entries_list
        (λ t. t)
        always
        (λ t. mail_span ∷ [])
        (classify_and_enforce entries_list (λ t. t) always (filter_of true) mail).1.cache
classify_and_enforce-IsCoherent_example =
    classify_and_enforce-IsCoherent entries_list (λ t. t) always (λ t. mail_span ∷ []) (λ s t. refl)
      (λ s t e. e) (filter_of true) mail nothing_cached

classify_and_enforce_after_failure_example :
    (classify_and_enforce entries_list
      (λ t. t)
      if_loaded
      (let f' : PrivacyFilter (List (Text × List (PiiSpan ℕ))) Bool =
          (classify_and_enforce entries_list (λ t. t) if_loaded (filter_of false) mail).1 in
        record f' { session = true })
      mail).0
    ≡ some mail
classify_and_enforce_after_failure_example =
    classify_and_enforce_after_failure entries_list (λ t. t) if_loaded (filter_of false) mail true
      refl refl refl

-- A letter of two bytes in the middle.
abbrev cafe : Text
cafe = 99 ∷ (233 ∷ (102 ∷ []))

build_byte_to_char_map-char_to_byte_example :
    (b : ℕ) × (char_to_byte cafe 2 ≡ some b) × (get_elem? (build_byte_to_char_map cafe) b ≡ some 2)
build_byte_to_char_map-char_to_byte_example =
    build_byte_to_char_map-char_to_byte cafe 2 (ground arith)

-- One token for the whole text, whose one class is that of a single token's entity.
abbrev one_token : Text → Option (List Token)
one_token text = some (record { id = 7; mask = 1; start_byte = 0; end_byte = 3 } ∷ [])

abbrev one_row : List Token → Option (Logits ℕ)
one_row tokens = some (record { shape = 1 ∷ (1 ∷ (1 ∷ [])); data' = 5 ∷ [] })

abbrev single_email : LabelMap
single_email = record { entries = some (record { label = some private_email; tag = single }) ∷ [] }

redact-classify_loaded_example :
    let spans = classify_loaded counting single_email 0 one_token one_row cafe in
    All (InText cafe) spans
    × (redact cafe spans default_toggles ≡ some (render cafe 3 (chosen spans default_toggles)))
redact-classify_loaded_example =
    redact-classify_loaded counting single_email 0 one_token one_row cafe default_toggles
