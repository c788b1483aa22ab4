-- ===== src/Helper/Router/Answers.antt =====
-- Which response a channel gets, and what is left after the helper is gone.
use corivo_desktop.Base.{
  ℕ, ◌≡◌, refl, sym, subst, ◌⊎◌, inl, inr, true, false, not, List, [], ◌∷◌, map, arith, Bool-cases,
  All, keep, All-append,
}
use corivo_desktop.Helper.Protocol.{Response}
use corivo_desktop.Helper.Router.{
  Channel, Resolution, Router, is_for, new_router, resolve, remove, insert_channel, register,
  cancel_request, dispatch_response, close_with_crash, Step, Steps, answered, sender_dropped,
  registers, cancels, dispatches, closes, stay, go,
}

keep_of_nil : (id : ℕ) (cs : List Channel) → cs ≡ [] → keep (λ c. not (is_for id c)) cs ≡ []
keep_of_nil id [] h = refl
keep_of_nil id (c ∷ cs) h = ground arith

module _ {V : Type 0} where
  -- A response goes to the request with its id.
  abbrev pub IsFit : Channel × Resolution V → Type 0
  IsFit (c, sender_dropped) = Unit {0}
  IsFit (c, answered response) = c.waiting_for ≡ response.id

  All-IsFit_dropped :
      (r : Router V) (cs : List Channel) → All IsFit (map (resolve {V = V} sender_dropped) cs)
  All-IsFit_dropped r [] = tt
  All-IsFit_dropped r (c ∷ cs) = (tt, All-IsFit_dropped r cs)

  All-IsFit_answered :
      (response : Response V) (cs : List Channel)
      → All IsFit (map (resolve (answered response)) (keep (is_for response.id) cs))
  All-IsFit_answered response [] = tt
  All-IsFit_answered response (c ∷ cs) = elim (Bool-cases (is_for response.id c)) [
    | inl e ↦ rw e (ground arith, All-IsFit_answered response cs)
    | inr e ↦ rw e (All-IsFit_answered response cs)
  ]

  -- Once closed, the table stays empty.
  abbrev pub IsSettled : Router V → Type 0
  IsSettled r = r.closed ≡ true → r.in_flight ≡ []

  abbrev pub IsSound : Router V → Type 0
  IsSound r = All IsFit r.resolved × IsSettled r

  remove_dropped-IsSound :
      (id : ℕ) (r : Router V) → IsSound r → IsSound (remove id sender_dropped r)
  unfolding remove
  remove_dropped-IsSound id r (fits, settled) = (
    All-append IsFit r.resolved _ fits (All-IsFit_dropped r (keep (is_for id) r.in_flight)),
    λ c. keep_of_nil id r.in_flight (settled c),
  )

  register_cases :
      (id : ℕ) (r : Router V)
      → ((register id r).1 ≡ r) ⊎ ((r.closed ≡ false) × ((register id r).1 ≡ insert_channel id r))
  unfolding register
  register_cases id r = ground arith

  insert_channel-IsSound :
      (id : ℕ) (r : Router V) → r.closed ≡ false → IsSound r → IsSound (insert_channel id r)
  unfolding insert_channel remove
  insert_channel-IsSound id r e h = ((remove_dropped-IsSound id r h).0, λ c. ground arith)

  Step-IsSound : {r s : Router V} → Step r s → IsSound r → IsSound s
  unfolding cancel_request dispatch_response close_with_crash remove
  Step-IsSound (registers id r) h = elim (register_cases id r) [
    | inl same ↦ subst IsSound (sym same) h
    | inr (e, new) ↦ subst IsSound (sym new) (insert_channel-IsSound id r e h)
  ]
  Step-IsSound (cancels id r) h = remove_dropped-IsSound id r h
  Step-IsSound (dispatches response r) (fits, settled) = (
    All-append IsFit r.resolved _ fits (All-IsFit_answered response r.in_flight),
    λ c. keep_of_nil response.id r.in_flight (settled c),
  )
  Step-IsSound (closes r) (fits, settled) =
      (All-append IsFit r.resolved _ fits (All-IsFit_dropped r r.in_flight), λ c. refl)

  -- Whatever the order of the calls, a response has only been handed to a request with its own id, and a closed router has no
  -- request pending.
  pub Steps-IsSound : {r : Router V} → Steps new_router r → IsSound r
  Steps-IsSound (stay r) = (tt, λ c. refl)
  Steps-IsSound (go steps step) = Step-IsSound step (Steps-IsSound steps)
