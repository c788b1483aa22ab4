-- ===== src/Privacy/Redact/Render.antt =====
-- The replacement from the end to the start of the text, in closed form.
use mathlib.Core.List.{append_assoc}
use corivo_desktop.Base.{
  ℕ, zero, suc, ◌-◌, ◌≤◌, ◌<◌, ◌≡◌, refl, ◌∙◌, ap, List, [], ◌∷◌, ◌++◌, some, arith, length, take,
  drop, false, ltb, Bool, not, keep, Bool-cases, Option-cases, inl, inr, length-append, length-take,
}
use corivo_desktop.Base.Text.{Text}
use corivo_desktop.Privacy.Label.{PiiSpan, redact_placeholder}
use corivo_desktop.Privacy.Redact.{replace_all, replace_span}
use corivo_desktop.Privacy.Redact.Bytes.{replace_span-take}

take-take-append :
    {A : Type 0} (a b : ℕ) (s t : List A) → a ≤ b → b ≤ length s → take a (take b s ++ t) ≡ take a s
take-take-append zero b s t h k = refl
take-take-append (suc a) zero s t h k = absurd (omega arith)
take-take-append (suc a) (suc b) [] t h k = absurd (omega arith)
take-take-append (suc a) (suc b) (c ∷ s) t h k =
    ap (◌∷◌ c) (take-take-append a b s t (omega arith) (omega arith))

drop-take-append :
    {A : Type 0} (a b : ℕ) (s t : List A)
    → a ≤ b
    → b ≤ length s
    → drop a (take b s ++ t) ≡ take (b - a) (drop a s) ++ t
drop-take-append zero b s t h k = let e : b - 0 ≡ b = omega arith in rw e
drop-take-append (suc a) zero s t h k = absurd (omega arith)
drop-take-append (suc a) (suc b) [] t h k = absurd (omega arith)
drop-take-append (suc a) (suc b) (c ∷ s) t h k =
    let e : suc b - suc a ≡ b - a = omega arith in
    rw e (drop-take-append a b s t (omega arith) (omega arith))

pub take_all : {A : Type 0} (s : List A) → take (length s) s ≡ s
take_all [] = refl
take_all (c ∷ s) = ap (◌∷◌ c) (take_all s)

module _ {S : Type 0} where
  -- Spans that are not empty and lie apart, the last one in the text first, all before `hi`.
  abbrev pub Desc : ℕ → List (PiiSpan S) → Type 0
  Desc hi [] = Unit {0}
  Desc hi (s ∷ ds) = (s.end ≤ hi) × (s.start < s.end) × Desc s.start ds

  -- The original text up to `hi`, with the placeholder of each span in place of its characters.
  abbrev pub render : Text → ℕ → List (PiiSpan S) → Text
  render text hi [] = take hi text
  render text hi (s ∷ ds) =
      render text s.start ds ++ (redact_placeholder s.label ++ take (hi - s.end) (drop s.end text))

  abbrev pub in_bounds : ℕ → PiiSpan S → Bool
  in_bounds total s = not (ltb total s.end)

  round :
      (text tail : Text) (hi : ℕ) (s : PiiSpan S)
      → s.end ≤ hi
      → s.start < s.end
      → hi ≤ length text
      → replace_span (take hi text ++ tail) s
        ≡ some (
            take s.start text
            ++ (redact_placeholder s.label ++ (take (hi - s.end) (drop s.end text) ++ tail)))
  round text tail hi s a b c =
      replace_span-take (take hi text ++ tail) s (omega arith)
        (omega (arith, length-append (take hi text) tail, length-take hi text))
      ∙ rw (
        take-take-append s.start hi text tail (omega arith) c,
        drop-take-append s.end hi text tail a c,
      )

  pub replace_all-Desc :
      (total hi : ℕ) (ds : List (PiiSpan S)) (text tail : Text)
      → hi ≤ length text
      → hi ≤ total
      → Desc hi ds
      → replace_all total ds (take hi text ++ tail) ≡ some (render text hi ds ++ tail)
  unfolding replace_all
  replace_all-Desc total hi [] text tail h k d = refl
  replace_all-Desc total hi (s ∷ ds) text tail h k d =
      let e : ltb total s.end ≡ false = ground arith in
      rw (e, replace_all)
        (rw (round text tail hi s d.0 d.1 h, replace_all)
          (replace_all-Desc total s.start ds text _ (omega arith) (omega arith) d.2
            ∙ rw (append_assoc, append_assoc)))

  pub replace_all-keep :
      (total : ℕ) (ds : List (PiiSpan S)) (text : Text)
      → replace_all total ds text ≡ replace_all total (keep (in_bounds total) ds) text
  unfolding replace_all
  replace_all-keep total [] text = refl
  replace_all-keep total (s ∷ ds) text = elim (Bool-cases (ltb total s.end)) [
    | inl e ↦ ground (arith, replace_all-keep total ds text)
    | inr e ↦ elim (Option-cases (replace_span text s)) [
      | inl f ↦ ground arith
      | inr (r, f) ↦ ground (arith, replace_all-keep total ds r)
    ]
  ]
