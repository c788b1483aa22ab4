-- ===== src/Base/Sift.antt =====
-- What is left of a list when some of its elements are taken out.
use corivo_desktop.Base.{◌≡◌, inl, inr, Bool, true, false, List, [], ◌∷◌, Bool-cases, keep, All}

-- What is left, in its order, has `P`, and what is taken out has `Q`.
pub data Sifted {A : Type 0} (P Q : A → Type 0) : List A → List A → Type 0 where
  ended : Sifted P Q [] []
  keeps : (x : A) (xs ys : List A) → P x → Sifted P Q xs ys → Sifted P Q (x ∷ xs) (x ∷ ys)
  drops : (x : A) (xs ys : List A) → Q x → Sifted P Q xs ys → Sifted P Q (x ∷ xs) ys

-- A test that decides between the two.
abbrev pub Separates : {A : Type 0} (P Q : A → Type 0) (p : A → Bool) (x : A) → Type 0
Separates P Q p x = (p x ≡ true → P x) × (p x ≡ false → Q x)

module _ {A : Type 0} (P Q : A → Type 0) where
  pub keep-Sifted :
      (p : A → Bool) (xs : List A) → All (Separates P Q p) xs → Sifted P Q xs (keep p xs)
  keep-Sifted p [] h = ended
  keep-Sifted p (x ∷ xs) h = elim (Bool-cases (p x)) [
    | inl e ↦ rw e (keeps x xs (keep p xs) (h.0.0 e) (keep-Sifted p xs h.1))
    | inr e ↦ rw e (drops x xs (keep p xs) (h.0.1 e) (keep-Sifted p xs h.1))
  ]

  pub Sifted_whole : (xs : List A) → ((x : A) → P x) → Sifted P Q xs xs
  Sifted_whole [] h = ended
  Sifted_whole (x ∷ xs) h = keeps x xs xs (h x) (Sifted_whole xs h)

pub All-each : {A : Type 0} (P : A → Type 0) (xs : List A) → ((x : A) → P x) → All P xs
All-each P [] h = tt
All-each P (x ∷ xs) h = (h x, All-each P xs h)
