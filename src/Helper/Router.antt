-- ===== src/Helper/Router.antt =====
-- services/capture_client/router.rs: the table of pending requests. A `oneshot` channel is its number, its `Sender`
-- being in the table until it is used or dropped; what became of it is kept in `resolved`, which the receiver's
-- `await` sees. With it stands the id that it was registered for.
pub mod Tickets
pub mod Answers
use corivo_desktop.Base.{
  ℕ, ◌+◌, suc, Bool, true, false, not, List, [], ◌∷◌, ◌++◌, map, keep, length, if◌then◌else◌, ◌==◌,
  any, none,
}
use corivo_desktop.Base.Result.{Result, ok, err}
use corivo_desktop.Base.Text.{codes}
use corivo_desktop.Helper.Protocol.{Response, CaptureError, helper_unavailable, internal_error}

pub record Channel : Type 0 where
  pub number : ℕ
  pub waiting_for : ℕ

pub data Resolution (V : Type 0) : Type 0 where
  answered : Response V → Resolution V
  sender_dropped : Resolution V

-- `issued` counts the channels that were made.
pub record Router (V : Type 0) : Type 0 where
  pub in_flight : List Channel
  pub closed : Bool
  pub issued : ℕ
  pub resolved : List (Channel × Resolution V)

abbrev pub is_for : ℕ → Channel → Bool
is_for id c = c.waiting_for == id

module _ {V : Type 0} where
  abbrev pub new_router : Router V
  new_router = record { in_flight = []; closed = false; issued = 0; resolved = [] }

  abbrev pub resolve : Resolution V → Channel → Channel × Resolution V
  resolve r c = (c, r)

  -- `in_flight.remove(id)`, with what becomes of the sender that was there.
  unfoldable pub remove : ℕ → Resolution V → Router V → Router V
  remove id resolution r = record r {
    in_flight = keep (λ c. not (is_for id c)) r.in_flight;
    resolved = r.resolved ++ map (resolve resolution) (keep (is_for id) r.in_flight);
  }

  abbrev pub next_channel : ℕ → Router V → Channel
  next_channel id r = record { number = r.issued; waiting_for = id }

  -- `in_flight.insert(id, tx)`, which drops a sender that is under the id.
  unfoldable pub insert_channel : ℕ → Router V → Router V
  insert_channel id r =
      let freed = remove id sender_dropped r in
      record freed { in_flight = next_channel id r ∷ freed.in_flight; issued = suc r.issued }

  unfoldable pub register : ℕ → Router V → Result Channel (CaptureError V) × Router V
  register id r =
      if r.closed
      then (err helper_unavailable, r)
      else if any (is_for id) r.in_flight
      then (err (internal_error (codes "duplicate request id")), insert_channel id r)
      else (ok (next_channel id r), insert_channel id r)

  unfoldable pub cancel_request : ℕ → Router V → Router V
  cancel_request id r = remove id sender_dropped r

  unfoldable pub dispatch_response : Response V → Router V → Router V
  dispatch_response response r = remove response.id (answered response) r

  unfoldable pub close_with_crash : Router V → Router V
  close_with_crash r = record r {
    in_flight = [];
    closed = true;
    resolved = r.resolved ++ map (resolve sender_dropped) r.in_flight;
  }

  unfoldable pub in_flight_count : Router V → ℕ
  in_flight_count r = length r.in_flight

  -- The calls on one router, in the order in which they take its lock.
  pub data Step : Router V → Router V → Type 0 where
    registers : (id : ℕ) (r : Router V) → Step r (register id r).1
    cancels : (id : ℕ) (r : Router V) → Step r (cancel_request id r)
    dispatches : (response : Response V) (r : Router V) → Step r (dispatch_response response r)
    closes : (r : Router V) → Step r (close_with_crash r)

  pub data Steps : Router V → Router V → Type 0 where
    stay : (r : Router V) → Steps r r
    go : {r s t : Router V} → Steps r s → Step s t → Steps r t
