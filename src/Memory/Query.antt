-- ===== src/Memory/Query.antt =====
-- services/tokenize.rs: the expression for the full-text search.
use corivo_desktop.Base.{
  ℕ, zero, suc, drop, ◌≡◌, refl, sym, ap, ◌∙◌, inl, inr, Bool, false, ◌&&◌, List, [], ◌∷◌, ◌++◌,
  map, Option, none, some, arith, ◌==◌, if◌then◌else◌, Bool-cases, any, keep, length, ◌<◌,
}
use mathlib.Core.List.{append_assoc}
use corivo_desktop.Base.Text.{Text, codes, starts_with}

-- `'"'`.
abbrev pub quote : ℕ
quote = 34

-- `tok.replace('"', "\"\"")`.
unfoldable pub escape : Text → Text
escape [] = []
escape (c ∷ s) = if c == quote then quote ∷ (quote ∷ escape s) else c ∷ escape s

unfoldable pub sanitize_for_match : Text → Text
sanitize_for_match tok = quote ∷ (escape tok ++ quote ∷ [])

-- `phrases.join(" OR ")`.
unfoldable pub join_or : List Text → Text
join_or [] = []
join_or (p ∷ []) = p
join_or (p ∷ (q ∷ ps)) = p ++ (codes " OR " ++ join_or (q ∷ ps))

module _ (cut_for_search : Text → List Text) (is_alphanumeric : ℕ → Bool) where
  abbrev pub is_meaningful : Text → Bool
  is_meaningful tok = any is_alphanumeric tok

  unfoldable pub tokenize_for_query : Text → Option Text
  tokenize_for_query text =
      elim (map sanitize_for_match (keep is_meaningful (cut_for_search text))) [
        | [] ↦ none
        | p ∷ ps ↦ some (join_or (p ∷ ps))
      ]

-- How SQLite's FTS5 reads a string from after its first quote: two quotes are one of the string, a single one ends it.
unfoldable pub read_phrase : Text → Option (Text × Text)
read_phrase [] = none
read_phrase (c ∷ []) = if c == quote then some ([], []) else none
read_phrase (c ∷ (d ∷ s)) =
    let more = read_phrase s in
    let next = read_phrase (d ∷ s) in
    if c == quote
    then (if d == quote
        then (elim more [ none ↦ none | some (x, y) ↦ some (quote ∷ x, y) ])
        else some ([], d ∷ s))
    else (elim next [ none ↦ none | some (x, y) ↦ some (c ∷ x, y) ])

-- A text that goes on without a quote.
abbrev IsUnquoted : Text → Type 0
IsUnquoted [] = Unit {0}
IsUnquoted (c ∷ s) = (c == quote) ≡ false

read_phrase_cons :
    (c : ℕ) (s : Text)
    → (c == quote) ≡ false
    → read_phrase (c ∷ s) ≡ (elim (read_phrase s) [ none ↦ none | some (x, y) ↦ some (c ∷ x, y) ])
unfolding read_phrase
read_phrase_cons c [] h = ground arith
read_phrase_cons c (d ∷ s) h = rw h refl

read_phrase_quotes :
    (s : Text)
    → read_phrase (quote ∷ (quote ∷ s))
      ≡ (elim (read_phrase s) [ none ↦ none | some (x, y) ↦ some (quote ∷ x, y) ])
unfolding read_phrase
read_phrase_quotes s = refl

read_phrase_end : (rest : Text) → IsUnquoted rest → read_phrase (quote ∷ rest) ≡ some ([], rest)
unfolding read_phrase
read_phrase_end [] h = refl
read_phrase_end (c ∷ s) h = rw h refl

read_phrase-escape :
    (tok rest : Text)
    → IsUnquoted rest
    → read_phrase (escape tok ++ quote ∷ rest) ≡ some (tok, rest)
unfolding escape
read_phrase-escape [] rest h = read_phrase_end rest h
read_phrase-escape (c ∷ tok) rest h = elim (Bool-cases (c == quote)) [
  | inl e ↦
      let q : c ≡ quote = ground arith in
      rw e (
        read_phrase_quotes (escape tok ++ quote ∷ rest)
        ∙ rw (read_phrase-escape tok rest h) (ap (λ x. some (x ∷ tok, rest)) (sym q)))
  | inr e ↦
      rw e (
        read_phrase_cons c (escape tok ++ quote ∷ rest) e ∙ rw (read_phrase-escape tok rest h) refl)
]

-- A list of phrases with ` OR ` between them, the number being fuel.
unfoldable pub read_query : ℕ → Text → Option (List Text)
read_query zero s = none
read_query (suc n) [] = none
read_query (suc n) (c ∷ s) = elim (read_phrase s) [
  | none ↦ none
  | some (tok, rest) ↦ elim rest [
    | [] ↦ some (tok ∷ [])
    | d ∷ ds ↦
        if (c == quote) && starts_with (codes " OR ") (d ∷ ds)
        then (elim (read_query n (drop 4 (d ∷ ds))) [ none ↦ none | some toks ↦ some (tok ∷ toks) ])
        else none
  ]
]

read_query-join_or :
    (n : ℕ) (tok : Text) (toks : List Text)
    → length toks < n
    → read_query n (join_or (map sanitize_for_match (tok ∷ toks))) ≡ some (tok ∷ toks)
unfolding read_query join_or sanitize_for_match
read_query-join_or zero tok toks h = absurd (omega arith)
read_query-join_or (suc n) tok [] h = rw (read_phrase-escape tok [] tt, read_query) refl
read_query-join_or (suc n) tok (t ∷ toks) h =
    let more = codes " OR " ++ join_or (map sanitize_for_match (t ∷ toks)) in
    rw (append_assoc (escape tok) (quote ∷ []) more, read_query)
      (rw (read_phrase-escape tok more refl, read_query)
        (rw (read_query-join_or n t toks (omega arith)) refl))

-- The expression for the search reads, by FTS5's rule for quotes, as the words that the question was cut into and that have a letter
-- or a digit, whatever quotes or operators they contain; and there is none if there are no such words.
pub tokenize_for_query-read_query :
    (cut_for_search : Text → List Text) (is_alphanumeric : ℕ → Bool) (text : Text)
    → let toks = keep (is_meaningful cut_for_search is_alphanumeric) (cut_for_search text) in
      (elim (tokenize_for_query cut_for_search is_alphanumeric text) [
        | none ↦ some []
        | some query ↦ read_query (length toks) query
      ])
      ≡ some toks
unfolding tokenize_for_query
tokenize_for_query-read_query cut is_alphanumeric text =
    go (keep (is_meaningful cut is_alphanumeric) (cut text))
  where
    go :
        (toks : List Text)
        → (elim (elim (map sanitize_for_match toks) as (λ _. Option Text) [
          | [] ↦ none
          | p ∷ ps ↦ some (join_or (p ∷ ps))
        ]) [ none ↦ some [] | some query ↦ read_query (length toks) query ])
          ≡ some toks
    go [] = refl
    go (t ∷ toks) = read_query-join_or (suc (length toks)) t toks (omega arith)
