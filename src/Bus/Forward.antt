-- ===== src/Bus/Forward.antt =====
-- subscription.go: the loop that decodes what a reader yields, over the reads until the reader is
-- closed. Each read comes with what the loop's send meets: the channel, or `done`.
use psrpc.Base.{
  ℕ, Bool, true, false, ◌&&◌, List, [], ◌∷◌, ◌++◌, Option, none, some, Text, if◌then◌else◌,
  list_beq, not, Result, ok, failed,
}
use psrpc.Bus.Serialization.{Unread}

pub record Read : Type 0 where
  pub payload : Text
  pub subject : Text
  pub done : Bool

-- What the loop has sent on its channel, and whether it returned for `done`; it closes the channel
-- whichever way it returns.
pub record Forwarded (M : Type 0) : Type 0 where
  pub sent : List M
  pub stopped : Bool

-- P are the messages, M those of the type that is subscribed to. `unanswered` is set where the
-- reader is one of an inbox, and stands in for what nothing received.
module _ {P M : Type 0} (deserialize : Text → ℕ → Result Unread P) (as_type : P → Option M)
    (unanswered : Option (Text → M)) where
  unfoldable pub typed : Result Unread P → Option M
  typed (failed e) = none
  typed (ok p) = as_type p

  -- The message of a read, with the function that stands in.
  unfoldable pub read_with : Option (Text → M) → ℕ → Read → Option M
  unfolding typed
  read_with none max_size r = typed (deserialize r.payload max_size)
  read_with (some f) max_size r =
      if list_beq r.payload [] && not (list_beq r.subject [])
      then some (f r.subject)
      else typed (deserialize r.payload max_size)

  unfoldable pub read_message : ℕ → Read → Option M
  unfolding read_with
  read_message max_size r = read_with unanswered max_size r

  -- One read: nothing to send, or a message that is sent before the rest or that meets `done`.
  unfoldable pub forward_one : Option M → Bool → Forwarded M → Forwarded M
  forward_one none done rest = rest
  forward_one (some m) true rest = record { sent = []; stopped = true }
  forward_one (some m) false rest = record rest { sent = m ∷ rest.sent }

  unfoldable pub forward : ℕ → List Read → Forwarded M
  unfolding forward_one
  forward max_size [] = record { sent = []; stopped = false }
  forward max_size (r ∷ rs) = forward_one (read_message max_size r) r.done (forward max_size rs)

  -- The messages that can be read, in order.
  abbrev pub listed : Option M → List M → List M
  listed none ms = ms
  listed (some m) ms = m ∷ ms

  unfoldable pub readable : ℕ → List Read → List M
  readable max_size [] = []
  readable max_size (r ∷ rs) = listed (read_message max_size r) (readable max_size rs)

  -- What is sent before a stop, and the rest.
  pub data Sends : Forwarded M → List M → Type 0 where
    sends_all : {ms : List M} → Sends (record { sent = ms; stopped = false }) ms
    sends_some :
        {ms : List M} (rest : List M) → Sends (record { sent = ms; stopped = true }) (ms ++ rest)

  Sends-cons :
      {f : Forwarded M} {ms : List M} (m : M)
      → Sends f ms
      → Sends (record f { sent = m ∷ f.sent }) (m ∷ ms)
  Sends-cons m sends_all = sends_all
  Sends-cons m (sends_some rest) = sends_some rest

  Sends-one :
      {f : Forwarded M} {ms : List M} (o : Option M) (done : Bool)
      → Sends f ms
      → Sends (forward_one o done f) (listed o ms)
  unfolding forward_one
  Sends-one none done s = s
  Sends-one {ms} (some m) true s = sends_some (m ∷ ms)
  Sends-one (some m) false s = Sends-cons m s

  -- The loop skips what it cannot read and sends the other messages in order: all of them, or those
  -- before the one at which it found the subscription closed.
  pub forwards_in_order :
      (max_size : ℕ) (rs : List Read) → Sends (forward max_size rs) (readable max_size rs)
  unfolding forward readable
  forwards_in_order max_size [] = sends_all
  forwards_in_order max_size (r ∷ rs) =
      Sends-one (read_message max_size r) r.done (forwards_in_order max_size rs)
