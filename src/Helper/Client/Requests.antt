-- ===== src/Helper/Client/Requests.antt =====
-- What a caller of `request` gets, and what the table keeps.
use corivo_desktop.Base.{
  ℕ, ◌≡◌, refl, sym, ap, ◌∙◌, subst, inl, inr, Bool, true, false, not, List, [], ◌∷◌, Option, none,
  some, arith, Bool-cases, any, keep, length, ◌+◌, ◌↔◌,
}
use corivo_desktop.Base.Result.{ok, err}
use corivo_desktop.Base.Text.{Text}
use corivo_desktop.Helper.Protocol.{Response, helper_unavailable, timed_out}
use corivo_desktop.Helper.Router.{
  Resolution, Router, is_for, remove, insert_channel, register, cancel_request, dispatch_response,
  in_flight_count, answered, sender_dropped,
}
use corivo_desktop.Helper.Client.{
  Waited, begin_request, answer, finish_request, received, sender_lost, deadline_passed,
}
use mathlib.Core.List.{append-nil}

module _ {A : Type 0} (p : A → Bool) where
  keep-keep : (xs : List A) → keep p (keep p xs) ≡ keep p xs
  keep-keep [] = refl
  keep-keep (x ∷ xs) = elim (Bool-cases (p x)) [
    | inl e ↦ rw e (rw e (ap (◌∷◌ x) (keep-keep xs)))
    | inr e ↦ rw e (keep-keep xs)
  ]

  keep-keep-not : (xs : List A) → keep p (keep (λ x. not (p x)) xs) ≡ []
  keep-keep-not [] = refl
  keep-keep-not (x ∷ xs) = elim (Bool-cases (p x)) [
    | inl e ↦ rw e (keep-keep-not xs)
    | inr e ↦ rw e (rw e (keep-keep-not xs))
  ]

  keep_none : (xs : List A) → any p xs ≡ false → length (keep (λ x. not (p x)) xs) ≡ length xs
  keep_none [] h = refl
  keep_none (x ∷ xs) h = ground (arith, keep_none xs)

module _ {V : Type 0} where
  received_inj : {r x : Response V} → received r ≡ received x → r ≡ x
  received_inj e = cc e

  remove-remove :
      (id : ℕ) (x y : Resolution V) (r : Router V) → remove id x (remove id y r) ≡ remove id y r
  unfolding remove
  remove-remove id x y r =
      rw (keep-keep (λ c. not (is_for id c)) r.in_flight, keep-keep-not (is_for id) r.in_flight)
        (rw append-nil)

module _ {V T : Type 0} (text_at : Text → V → Option Text) (null : V) (decode : V → Option T) where
  -- After a request has timed out, a response to it that comes all the same changes nothing: neither the table nor what
  -- any request has been answered.
  pub finish_request_late :
      (deadline id : ℕ) (router : Router V) (late : Response V)
      → late.id ≡ id
      → let (result, after) =
          finish_request text_at null decode deadline id deadline_passed router in
        (result ≡ err (timed_out deadline)) × (dispatch_response late after ≡ after)
  unfolding finish_request dispatch_response cancel_request
  finish_request_late deadline id router late e = (
    refl,
    ap (λ i. remove i (answered late) (remove id sender_dropped router)) e
        ∙ remove-remove id (answered late) sender_dropped router,
  )

  answer-ok :
      (r : Response V) (t : T)
      → (answer text_at null decode r ≡ ok t)
        ↔ ((r.ok ≡ true) × (decode (elim r.result [ none ↦ null | some v ↦ v ]) ≡ some t))
  unfolding answer
  answer-ok r t = ground arith

  -- A caller gets a value only from a response that came in time, says ok and has a result, null if it is missing, that
  -- decodes to the value; and from each such response.
  pub finish_request-ok :
      (deadline id : ℕ) (waited : Waited V) (router : Router V) (t : T)
      → ((finish_request text_at null decode deadline id waited router).0 ≡ ok t) ↔ (
          (r : Response V) × (waited ≡ received r)
          × (r.ok ≡ true)
          × (decode (elim r.result [ none ↦ null | some v ↦ v ]) ≡ some t))
  unfolding finish_request
  finish_request-ok deadline id (received r) router t = (
    λ h. (r, refl, ((answer-ok r t).0 h).0, ((answer-ok r t).0 h).1),
    λ (x, e, is_ok, decodes).
        subst (λ y. answer text_at null decode y ≡ ok t) (sym (received_inj e))
          ((answer-ok x t).1 (is_ok, decodes)),
  )
  finish_request-ok deadline id sender_lost router t = ground arith
  finish_request-ok deadline id deadline_passed router t = ground arith

module _ {V : Type 0} where
  -- A request under a new id that an open router takes but the writer's queue does not leaves its entry in the table, where
  -- only the end of the helper removes it.
  pub begin_request_unsent :
      (id : ℕ) (router : Router V)
      → router.closed ≡ false
      → any (is_for id) router.in_flight ≡ false
      → let (result, after) = begin_request false id router in
        (result ≡ err helper_unavailable)
        × (any (is_for id) after.in_flight ≡ true)
        × (in_flight_count after ≡ in_flight_count router + 1)
  unfolding begin_request register insert_channel remove in_flight_count
  begin_request_unsent id router h k =
      (ground arith, ground arith, ground (arith, keep_none (is_for id) router.in_flight k))
