-- ===== src/Helper/Router/Tickets.antt =====
-- Where a channel is: in the table, or resolved.
use corivo_desktop.Base.{
  ℕ, ◌≡◌, refl, inl, inr, Bool, not, List, [], ◌∷◌, ◌++◌, map, arith, ltb, ◌==◌, if◌then◌else◌,
  Bool-cases, keep, ◌+◌,
}
use corivo_desktop.Helper.Router.{
  Channel, Resolution, Router, is_for, new_router, resolve, remove, insert_channel, register,
  cancel_request, dispatch_response, close_with_crash, Step, Steps, answered, sender_dropped,
  registers, cancels, dispatches, closes, stay, go,
}

abbrev one_if : Bool → ℕ
one_if b = if b then 1 else 0

abbrev pub held : ℕ → List Channel → ℕ
held n [] = 0
held n (c ∷ cs) = one_if (c.number == n) + held n cs

held-keep :
    (n id : ℕ) (cs : List Channel)
    → held n (keep (λ c. not (is_for id c)) cs) + held n (keep (is_for id) cs) ≡ held n cs
held-keep n id [] = omega arith
held-keep n id (c ∷ cs) = elim (Bool-cases (is_for id c)) [
  | inl e ↦ rw e (omega (arith, held-keep n id cs))
  | inr e ↦ rw e (omega (arith, held-keep n id cs))
]

module _ {V : Type 0} where
  abbrev pub resolutions : ℕ → List (Channel × Resolution V) → ℕ
  resolutions n [] = 0
  resolutions n (x ∷ xs) = one_if (x.0.number == n) + resolutions n xs

  -- How often channel `n` is anywhere.
  abbrev pub places : ℕ → Router V → ℕ
  places n r = held n r.in_flight + resolutions n r.resolved

  resolutions-append :
      (n : ℕ) (xs ys : List (Channel × Resolution V))
      → resolutions n (xs ++ ys) ≡ resolutions n xs + resolutions n ys
  resolutions-append n [] ys = omega arith
  resolutions-append n (x ∷ xs) ys = omega (arith, resolutions-append n xs ys)

  resolutions-map :
      (n : ℕ) (x : Resolution V) (cs : List Channel)
      → resolutions n (map (resolve x) cs) ≡ held n cs
  resolutions-map n x [] = refl
  resolutions-map n x (c ∷ cs) = omega (arith, resolutions-map n x cs)

  remove-places :
      (n id : ℕ) (x : Resolution V) (r : Router V) → places n (remove id x r) ≡ places n r
  unfolding remove
  remove-places n id x r = omega (
    arith,
    resolutions-append n r.resolved (map (resolve x) (keep (is_for id) r.in_flight)),
    resolutions-map n x (keep (is_for id) r.in_flight),
    held-keep n id r.in_flight,
  )

  close_with_crash-places : (n : ℕ) (r : Router V) → places n (close_with_crash r) ≡ places n r
  unfolding close_with_crash
  close_with_crash-places n r = omega (
    arith,
    resolutions-append n r.resolved (map (resolve sender_dropped) r.in_flight),
    resolutions-map n sender_dropped r.in_flight,
  )

  -- Channel `n` is in one place if it was made and nowhere if not.
  abbrev pub IsAccounted : ℕ → Router V → Type 0
  IsAccounted n r = places n r ≡ one_if (ltb n r.issued)

  insert_channel-IsAccounted :
      (n id : ℕ) (r : Router V) → IsAccounted n r → IsAccounted n (insert_channel id r)
  unfolding insert_channel
  insert_channel-IsAccounted n id r h = ground (arith, remove-places n id sender_dropped r)

  Step-IsAccounted : {r s : Router V} (n : ℕ) → Step r s → IsAccounted n r → IsAccounted n s
  unfolding register cancel_request dispatch_response remove close_with_crash
  Step-IsAccounted n (registers id r) h = ground (arith, insert_channel-IsAccounted n id r h)
  Step-IsAccounted n (cancels id r) h = ground (arith, remove-places n id sender_dropped r)
  Step-IsAccounted n (dispatches response r) h =
      ground (arith, remove-places n response.id (answered response) r)
  Step-IsAccounted n (closes r) h = ground (arith, close_with_crash-places n r)

  -- Whatever the order of the calls, each channel that was made is in one place, once: in the table, or resolved by a
  -- response or a dropped sender. So no request gets two outcomes, and none is lost.
  pub Steps-IsAccounted : {r : Router V} (n : ℕ) → Steps new_router r → IsAccounted n r
  Steps-IsAccounted n (stay r) = ground arith
  Steps-IsAccounted n (go steps step) = Step-IsAccounted n step (Steps-IsAccounted n steps)
