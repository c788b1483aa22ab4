-- ===== src/Helper/Client.antt =====
-- services/capture_client/client.rs: one request, cut where it waits. Whether the writer's queue takes the message
-- and how the waiting ends are arguments; the type `T` is what the caller wants, and `decode` what serde reads of it.
pub mod Requests
use corivo_desktop.Base.{ℕ, Bool, Option, none, some, if◌then◌else◌}
use corivo_desktop.Base.Result.{Result, ok, err}
use corivo_desktop.Base.Text.{Text, codes}
use corivo_desktop.Helper.Protocol.{
  Response, CaptureError, helper_unavailable, helper_crashed, timed_out, protocol_violation,
  from_response_error,
}
use corivo_desktop.Helper.Router.{Router, Channel, register, cancel_request}

-- How `timeout(deadline, rx)` ends.
pub data Waited (V : Type 0) : Type 0 where
  received : Response V → Waited V
  sender_lost : Waited V
  deadline_passed : Waited V

module _ {V : Type 0} where
  -- Up to the wait: `register` and `send`.
  unfoldable pub begin_request : Bool → ℕ → Router V → Result Channel (CaptureError V) × Router V
  begin_request sent id router =
      let (registered, router') = register id router in
      elim registered [
        | err e ↦ (err e, router')
        | ok channel ↦ (if sent then ok channel else err helper_unavailable, router')
      ]

  -- From the end of the wait on.
  module _ {T : Type 0} (text_at : Text → V → Option Text) (null : V) (decode : V → Option T) where
    abbrev value_of : Option V → V
    value_of none = null
    value_of (some v) = v

    unfoldable pub answer : Response V → Result T (CaptureError V)
    answer r =
        if r.ok
        then (elim (decode (value_of r.result)) [
          | none ↦ err (protocol_violation (codes "response decode"))
          | some t ↦ ok t
        ])
        else (elim r.error [
          | none ↦ err (protocol_violation (codes "response.ok=false but no error field"))
          | some e ↦ err (from_response_error text_at e)
        ])

    unfoldable pub finish_request :
        ℕ → ℕ → Waited V → Router V → Result T (CaptureError V) × Router V
    finish_request deadline id (received r) router = (answer r, router)
    finish_request deadline id sender_lost router = (err helper_crashed, router)
    finish_request deadline id deadline_passed router =
        (err (timed_out deadline), cancel_request id router)
