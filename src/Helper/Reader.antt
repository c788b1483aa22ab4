-- ===== src/Helper/Reader.antt =====
-- services/capture_client/process.rs: the task that reads the helper's output until it fails or ends. What other tasks
-- do with the router while the loop waits for its n-th message is the parameter `calls`, and the clock `now`.
pub mod Ends
use corivo_desktop.Base.{ℕ, zero, suc, List, [], ◌∷◌, ◌++◌, Option, none, some}
use corivo_desktop.Base.Result.{ok, err}
use corivo_desktop.Helper.Protocol.{
  Message, HealthMonitor, WireEvent, mark_alive, heartbeat, log, response, event, hello, hello_ack,
  request_message,
}
use corivo_desktop.Helper.Codec.{Json, Fill, read_message}
use corivo_desktop.Helper.Router.{
  Router, register, cancel_request, dispatch_response, close_with_crash,
}

-- What a caller does with the router.
pub data Call : Type 0 where
  registering : ℕ → Call
  cancelling : ℕ → Call

-- What the loop shares with the rest: the router, the health, and the events that were published.
pub record HelperProcess (V : Type 0) : Type 0 where
  pub router : Router V
  pub health : HealthMonitor
  pub events : List (WireEvent V)

module _ {V : Type 0} where
  unfoldable pub run_calls : List Call → Router V → Router V
  run_calls [] r = r
  run_calls (registering id ∷ calls) r = run_calls calls (register id r).1
  run_calls (cancelling id ∷ calls) r = run_calls calls (cancel_request id r)

  -- One message. A log is forwarded, and a message that is not expected is only logged.
  unfoldable pub handle_message : ℕ → Message V → HelperProcess V → HelperProcess V
  handle_message now (heartbeat h) p = record p { health = mark_alive now p.health }
  handle_message now (log l) p = p
  handle_message now (response r) p = record p { router = dispatch_response r p.router }
  handle_message now (event e) p = record p { events = p.events ++ e ∷ [] }
  handle_message now (hello h) p = p
  handle_message now (hello_ack h) p = p
  handle_message now (request_message r) p = p

module _ {V : Type 0} (json : Json (Message V)) (calls : ℕ → List Call) (now : ℕ → ℕ) where
  -- The first number is fuel, the second that of the message; `none` is that the fuel was not enough.
  unfoldable pub reader_loop : ℕ → ℕ → List Fill → HelperProcess V → Option (HelperProcess V)
  reader_loop zero n fills p = none
  reader_loop (suc fuel) n fills p =
      let shared : HelperProcess V = record p { router = run_calls (calls n) p.router } in
      elim (read_message json fills) [
        | ok (m, rest) ↦ reader_loop fuel (suc n) rest (handle_message (now n) m shared)
        | err e ↦ some (record shared { router = close_with_crash shared.router })
      ]
