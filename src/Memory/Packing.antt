-- ===== src/Memory/Packing.antt =====
-- The budget of a layer.
use corivo_desktop.Base.{
  ℕ, ◌≡◌, refl, ap, ◌⊎◌, inl, inr, Bool, true, false, ◌&&◌, List, [], ◌∷◌, ◌++◌, map, arith, ltb,
  Bool-cases, All, length, ◌≤◌, ◌<◌, ◌+◌, ◌-◌,
}
use corivo_desktop.Memory.{MemoryItem, pack_from, pack_within_budget}

module _ {C : Type 0} (cost_of : MemoryItem C → ℕ) where
  abbrev pub total : List (MemoryItem C) → ℕ
  total [] = 0
  total (x ∷ xs) = cost_of x + total xs

  fits : (c b t : ℕ) → c ≤ b → t ≤ b - c → c + t ≤ b
  fits c b t h k = omega arith

  pack_from-total :
      (budget : ℕ) (scored : List (C × MemoryItem C))
      → total (pack_from cost_of true budget scored) ≤ budget
  unfolding pack_from
  pack_from-total budget [] = omega arith
  pack_from-total budget (x ∷ scored) = elim (Bool-cases (ltb budget (cost_of x.1))) [
    | inl e ↦ rw e (omega arith)
    | inr e ↦
        rw e (
          fits (cost_of x.1) budget _ (ground arith)
            (pack_from-total (budget - cost_of x.1) scored))
  ]

  -- The first item left out would go over the budget.
  abbrev pub IsFull : ℕ → ℕ → List (MemoryItem C) → Type 0
  IsFull budget used [] = Unit {0}
  IsFull budget used (y ∷ rest) = budget < used + cost_of y

  IsFull-add :
      (budget c used : ℕ) (rest : List (MemoryItem C))
      → IsFull (budget - c) used rest
      → IsFull budget (c + used) rest
  IsFull-add budget c used [] h = tt
  IsFull-add budget c used (y ∷ rest) h = omega arith

  -- What is packed is the first part of the items, in their order, and as much of them as fits.
  pack_from-prefix :
      (started : Bool) (budget : ℕ) (scored : List (C × MemoryItem C))
      → (rest : List (MemoryItem C)) × (map (λ x. x.1) scored
          ≡ pack_from cost_of started budget scored ++ rest)
        × IsFull budget (total (pack_from cost_of started budget scored)) rest
  unfolding pack_from
  pack_from-prefix started budget [] = ([], refl, tt)
  pack_from-prefix started budget (x ∷ scored) =
      elim (Bool-cases (ltb budget (cost_of x.1) && started)) [
        | inl e ↦ rw e (map (λ y. y.1) (x ∷ scored), refl, ground arith)
        | inr e ↦
            let (rest, h, full) = pack_from-prefix true (budget - cost_of x.1) scored in
            rw e (rest, ap (◌∷◌ x.1) h, IsFull-add budget (cost_of x.1) _ rest full)
      ]

  pack_from_spent :
      (scored : List (C × MemoryItem C))
      → All (λ x. 0 < cost_of x.1) scored
      → pack_from cost_of true 0 scored ≡ []
  unfolding pack_from
  pack_from_spent [] p = refl
  pack_from_spent (x ∷ scored) p = ground arith

  pack_from-first :
      (budget : ℕ) (scored : List (C × MemoryItem C))
      → All (λ x. 0 < cost_of x.1) scored
      → (total (pack_from cost_of false budget scored) ≤ budget)
        ⊎ (length (pack_from cost_of false budget scored) ≡ 1)
  unfolding pack_from
  pack_from-first budget [] p = inl (omega arith)
  pack_from-first budget (x ∷ scored) p = elim (Bool-cases (ltb budget (cost_of x.1))) [
    | inl e ↦
        let spent : budget - cost_of x.1 ≡ 0 = ground arith in
        rw e (rw spent (rw (pack_from_spent scored p.1) (inr refl)))
    | inr e ↦ rw e (
        inl (
          fits (cost_of x.1) budget _ (ground arith)
            (pack_from-total (budget - cost_of x.1) scored)))
  ]

  -- The first of the candidates, in their order: no more than the budget, but for a single one, and no fewer than fit.
  abbrev pub IsPacked : ℕ → List (MemoryItem C) → List (MemoryItem C) → Type 0
  IsPacked budget candidates packed =
      ((total packed ≤ budget) ⊎ (length packed ≡ 1))
      × ((rest : List (MemoryItem C)) × (candidates ≡ packed ++ rest)
          × IsFull budget (total packed) rest)

  -- If each item costs something, the items packed are the first ones in their order, they cost no more than the budget unless there is
  -- one of them only, and the next one would cost more than what is left.
  pub pack_within_budget-IsPacked :
      (scored : List (C × MemoryItem C)) (budget : ℕ)
      → All (λ x. 0 < cost_of x.1) scored
      → IsPacked budget (map (λ x. x.1) scored) (pack_within_budget scored budget cost_of)
  unfolding pack_within_budget
  pack_within_budget-IsPacked scored budget p =
      (pack_from-first budget scored p, pack_from-prefix false budget scored)
