-- ===== src/Helper/Reader/Ends.antt =====
-- The loop ends, and with it every request.
use corivo_desktop.Base.{
  suc, zero, ℕ, ◌≡◌, refl, inl, inr, true, List, [], ◌∷◌, ◌++◌, none, some, arith, ltb,
  if◌then◌else◌, Option-cases, length, ◌≤◌, ◌<◌, ◌+◌,
}
use corivo_desktop.Base.Result.{Result, ok, err, Result-cases}
use corivo_desktop.Helper.Protocol.{
  Message, hello, hello_ack, heartbeat, log, request_message, response, event,
}
use corivo_desktop.Helper.Codec.{
  Bytes, Json, CodecError, max_line_bytes, Fill, newline, carriage_return, split_newline, unread,
  read_line_capped, strip_last, read_message, invalid_json, chunk, io_error,
}
use corivo_desktop.Helper.Router.{
  Router, new_router, register, cancel_request, close_with_crash, Steps, registers, cancels,
  dispatches, closes, go,
}
use corivo_desktop.Helper.Router.Tickets.{resolutions, Steps-IsAccounted}
use corivo_desktop.Helper.Reader.{
  Call, HelperProcess, run_calls, handle_message, reader_loop, registering, cancelling,
}

-- The bytes that are to come.
abbrev pub size : List Fill → ℕ
size [] = 0
size (chunk b ∷ fills) = length b + size fills
size (io_error ∷ fills) = size fills

split_newline-size : (b l r : Bytes) → split_newline b ≡ some (l, r) → suc (length r) ≤ length b
unfolding split_newline
split_newline-size [] l r h = ground arith
split_newline-size (c ∷ b) l r h = elim (Option-cases (split_newline b)) [
  | inl e ↦ ground arith
  | inr ((l', r'), e) ↦ ground (arith, split_newline-size b l' r' e)
]

size-unread : (b : Bytes) (fills : List Fill) → size (unread b fills) ≡ length b + size fills
size-unread [] fills = omega arith
size-unread (c ∷ b) fills = refl

read_line_capped-size :
    (limit : ℕ) (buf line : Bytes) (fills rest : List Fill)
    → read_line_capped limit buf fills ≡ ok (line, rest)
    → size rest < size fills
unfolding read_line_capped
read_line_capped-size limit buf line [] rest h = ground arith
read_line_capped-size limit buf line (io_error ∷ fills) rest h = ground arith
read_line_capped-size limit buf line (chunk [] ∷ fills) rest h = ground arith
read_line_capped-size limit buf line (chunk (b ∷ bs) ∷ fills) rest h =
    elim (Option-cases (split_newline (b ∷ bs))) [
      | inl e ↦ ground (arith, read_line_capped-size limit (buf ++ (b ∷ bs)) line fills rest)
      | inr ((l, r), e) ↦ ground (arith, split_newline-size (b ∷ bs) l r e, size-unread r fills)
    ]

module _ {V : Type 0} (json : Json (Message V)) where
  read_message-size :
      (m : Message V) (fills rest : List Fill)
      → read_message json fills ≡ ok (m, rest)
      → size rest < size fills
  unfolding read_message
  read_message-size m fills rest h =
      go (read_line_capped max_line_bytes [] fills)
        (λ l r. read_line_capped-size max_line_bytes [] l fills r) h
    where
      go :
          (x : Result (Bytes × List Fill) CodecError)
          → ((l : Bytes) (r : List Fill) → x ≡ ok (l, r) → size r < size fills)
          → (elim x as (λ _. Result (Message V × List Fill) CodecError) [
            | err e ↦ err e
            | ok (line, left) ↦
                elim (json.from_slice (strip_last carriage_return (strip_last newline line))) [
                  | none ↦ err invalid_json
                  | some m' ↦ ok (m', left)
                ]
          ])
            ≡ ok (m, rest)
          → size rest < size fills
      go (err e) small k = ground arith
      go (ok (line, left)) small k = ground (arith, small line left refl)

module _ {V : Type 0} where
  run_calls-Steps :
      {r : Router V} (calls : List Call) (s : Router V) → Steps r s → Steps r (run_calls calls s)
  unfolding run_calls
  run_calls-Steps [] s steps = steps
  run_calls-Steps (registering id ∷ calls) s steps =
      run_calls-Steps calls (register id s).1 (go steps (registers id s))
  run_calls-Steps (cancelling id ∷ calls) s steps =
      run_calls-Steps calls (cancel_request id s) (go steps (cancels id s))

  handle_message-Steps :
      {r : Router V} (now : ℕ) (m : Message V) (p : HelperProcess V)
      → Steps r p.router
      → Steps r (handle_message now m p).router
  unfolding handle_message
  handle_message-Steps now (heartbeat h) p steps = steps
  handle_message-Steps now (log l) p steps = steps
  handle_message-Steps now (response x) p steps = go steps (dispatches x p.router)
  handle_message-Steps now (event e) p steps = steps
  handle_message-Steps now (hello h) p steps = steps
  handle_message-Steps now (hello_ack h) p steps = steps
  handle_message-Steps now (request_message x) p steps = steps

  -- Each channel that was made has been resolved, once.
  abbrev pub IsResolved : Router V → Type 0
  IsResolved r = (k : ℕ) → resolutions k r.resolved ≡ (if ltb k r.issued then 1 else 0)

  close_with_crash-closed : (r : Router V) → (close_with_crash r).closed ≡ true
  unfolding close_with_crash
  close_with_crash-closed r = refl

  close_with_crash-IsResolved :
      {r : Router V} → Steps new_router r → IsResolved (close_with_crash r)
  unfolding close_with_crash
  close_with_crash-IsResolved {r} steps k =
      ground (arith, Steps-IsAccounted k (go steps (closes r)))

module _ {V : Type 0} (json : Json (Message V)) (calls : ℕ → List Call) (now : ℕ → ℕ) where
  -- Whatever the helper sends, however it fails, and whatever other tasks register and cancel meanwhile, the loop ends
  -- after at most as many messages as there are bytes, with the router closed and every channel that was ever made
  -- resolved, once: no request waits for ever.
  pub reader_loop-IsResolved :
      (fuel n : ℕ) (fills : List Fill) (p : HelperProcess V)
      → Steps new_router p.router
      → size fills < fuel
      → (q : HelperProcess V) × (reader_loop json calls now fuel n fills p ≡ some q)
        × (q.router.closed ≡ true)
        × IsResolved q.router
  unfolding reader_loop
  reader_loop-IsResolved zero n fills p steps h = absurd (omega arith)
  reader_loop-IsResolved (suc fuel) n fills p steps h =
      elim (Result-cases (read_message json fills)) [
        | inl ((m, rest), e) ↦
            rw (e, reader_loop)
              (reader_loop-IsResolved fuel (suc n) rest
                (handle_message (now n) m (record p { router = run_calls (calls n) p.router }))
                (handle_message-Steps (now n) m _ (run_calls-Steps (calls n) p.router steps))
                (ground (arith, read_message-size json m fills rest e)))
        | inr (x, e) ↦
            rw (e, reader_loop)
              (
                record p { router = close_with_crash (run_calls (calls n) p.router) },
                refl,
                close_with_crash-closed (run_calls (calls n) p.router),
                close_with_crash-IsResolved (run_calls-Steps (calls n) p.router steps),
              )
      ]
