-- ===== src/Helper/Examples.antt =====
-- Witnesses: each theorem at a concrete input.
use corivo_desktop.Base.{
  inl, inr, Bool-cases, ℕ, ◌≡◌, refl, subst, Bool, true, false, List, [], ◌∷◌, ◌++◌, Option, none,
  some, arith, ◌==◌, if◌then◌else◌, All, ◌≤◌,
}
use corivo_desktop.Base.Result.{err, ok}
use corivo_desktop.Base.Text.{codes, text_eq}
use corivo_desktop.Helper.Protocol.{
  Request, Response, Message, with_default_threshold, hello, hello_ack, heartbeat, log,
  request_message, response, event, timed_out,
}
use corivo_desktop.Helper.Codec.{
  Bytes, Json, Fill, newline, read_line_capped, read_message, write_message, chunk, io_error,
}
use corivo_desktop.Helper.Codec.Lines.{
  read_message-write_message, read_line_capped-line_of, flat_message, flat_rest, line_of,
}
use corivo_desktop.Helper.Router.{
  Router, new_router, remove, insert_channel, register, dispatch_response, close_with_crash, Steps,
  registers, dispatches, closes, stay, go,
}
use corivo_desktop.Helper.Router.Tickets.{Steps-IsAccounted, places}
use corivo_desktop.Helper.Router.Answers.{Steps-IsSound, IsSound}
use corivo_desktop.Helper.Reader.{HelperProcess, Call, registering, cancelling, reader_loop}
use corivo_desktop.Helper.Reader.Ends.{reader_loop-IsResolved, IsResolved}
use corivo_desktop.Helper.Client.{finish_request, deadline_passed}
use corivo_desktop.Helper.Client.Requests.{finish_request_late}

abbrev ping : Request Bool
ping = record { id = 7; method = codes "ping"; payload = none }

abbrev ping_line : Bytes
ping_line = codes "{\"type\":\"request\",\"id\":7,\"method\":\"ping\"}"

-- A format in which one request can be written and read.
abbrev write_ping : Message Bool → Option Bytes
write_ping (hello m) = none
write_ping (hello_ack m) = none
write_ping (heartbeat m) = none
write_ping (log m) = none
write_ping (request_message r) = if text_eq r.method (codes "ping") then some ping_line else none
write_ping (response m) = none
write_ping (event m) = none

printable_ping : All (λ c. 0x20 ≤ c) ping_line
printable_ping = ground arith

write_ping_printable :
    (m : Message Bool) (b : Bytes) → write_ping m ≡ some b → All (λ c. 0x20 ≤ c) b
write_ping_printable (hello m) b = λ h. absurd cc
write_ping_printable (hello_ack m) b = λ h. absurd cc
write_ping_printable (heartbeat m) b = λ h. absurd cc
write_ping_printable (log m) b = λ h. absurd cc
write_ping_printable (request_message r) b = elim (Bool-cases (text_eq r.method (codes "ping"))) [
  | inl e ↦
      rw e (λ h. let same : ping_line ≡ b = cc h in subst (All (λ c. 0x20 ≤ c)) same printable_ping)
  | inr e ↦ rw e (λ h. absurd cc)
]
write_ping_printable (response m) b = λ h. absurd cc
write_ping_printable (event m) b = λ h. absurd cc

abbrev ping_json : Json (Message Bool)
ping_json = record {
  to_vec = write_ping;
  from_slice = λ b. if text_eq b ping_line then some (request_message ping) else none;
  to_vec_printable = write_ping_printable;
}

-- The line comes in two chunks, and the next one has begun.
abbrev ping_stream : List Fill
ping_stream =
    chunk (codes "{\"type\":\"req")
    ∷ (chunk (codes "uest\",\"id\":7,\"method\":\"ping\"}" ++ newline ∷ codes "{") ∷ [])

read_message-write_message_example :
    flat_message (read_message ping_json ping_stream) ≡ ok (request_message ping, codes "{")
unfolding write_message
read_message-write_message_example =
    read_message-write_message ping_json (request_message ping) ping_line
      (ping_line ++ newline ∷ []) ping_stream (codes "{") refl (ground arith) refl tt refl

abbrev cut_stream : List Fill
cut_stream = chunk (codes "tr") ∷ (chunk (codes "ue" ++ newline ∷ codes "f") ∷ [])

read_line_capped-line_of_example :
    flat_rest (read_line_capped 4 [] cut_stream)
    ≡ line_of 4 [] (codes "true" ++ newline ∷ codes "f")
read_line_capped-line_of_example = read_line_capped-line_of 4 [] cut_stream (ground arith) tt

abbrev response_to : ℕ → Response Bool
response_to id = record { id = id; ok = true; result = some true; error = none }

-- Two requests are registered, the first one again, the second one is answered and the helper exits.
abbrev registered : Router Bool
registered = (register 7 new_router).1

abbrev registered_two : Router Bool
registered_two = (register 8 registered).1

abbrev registered_again : Router Bool
registered_again = (register 7 registered_two).1

abbrev answered_one : Router Bool
answered_one = dispatch_response (response_to 8) registered_again

abbrev after_steps : Router Bool
after_steps = close_with_crash answered_one

abbrev some_steps : Steps new_router after_steps
some_steps =
    go
      (go
        (go (go (go (stay new_router) (registers 7 new_router)) (registers 8 registered))
          (registers 7 registered_two))
        (dispatches (response_to 8) registered_again))
      (closes answered_one)

Steps-IsAccounted_example : places 1 after_steps ≡ 1
unfolding close_with_crash dispatch_response register insert_channel remove
Steps-IsAccounted_example = Steps-IsAccounted 1 some_steps

Steps-IsSound_example : IsSound after_steps
Steps-IsSound_example = Steps-IsSound some_steps

nothing_written : {P : Type 0} (b : Bytes) → Path (Option Bytes) none (some b) → P
nothing_written b h = absurd (cc h)

-- A helper that says `pong` answers request 7.
abbrev pong_json : Json (Message Bool)
pong_json = record {
  to_vec = λ m. none;
  from_slice = λ t. if text_eq t (codes "pong") then some (response (response_to 7)) else none;
  to_vec_printable = λ m b. nothing_written b;
}

abbrev before_loop : HelperProcess Bool
before_loop = record { router = new_router; health = with_default_threshold; events = [] }

abbrev pong_stream : List Fill
pong_stream = chunk (codes "pong" ++ newline ∷ []) ∷ (io_error ∷ [])

abbrev calls_before : ℕ → List Call
calls_before n = if n == 0 then registering 7 ∷ (registering 8 ∷ []) else cancelling 8 ∷ []

reader_loop-IsResolved_example :
    (q : HelperProcess Bool) × (reader_loop pong_json calls_before
        (λ n. n)
        6
        0
        pong_stream
        before_loop
      ≡ some q)
    × (q.router.closed ≡ true)
    × IsResolved q.router
reader_loop-IsResolved_example =
    reader_loop-IsResolved pong_json calls_before (λ n. n) 6 0 pong_stream before_loop
      (stay new_router) (ground arith)

finish_request_late_example :
    let (result, after) =
      finish_request {V = Bool} {T = Bool}
        (λ key v. none)
        false
        (λ v. some v)
        5000
        7
        deadline_passed
        registered in
    (result ≡ err (timed_out 5000)) × (dispatch_response (response_to 7) after ≡ after)
finish_request_late_example =
    finish_request_late (λ key v. none) false (λ v. some v) 5000 7 registered (response_to 7) refl
