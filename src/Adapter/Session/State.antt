-- ===== src/Adapter/Session/State.antt =====
-- crates/oikade-adapter-host/src/session.rs: the state of a session and of the calls made on it.
use oikade.Prelude.{ℕ, String, Option, none, some, List, [], if◌then◌else◌, ◌==◌, ◌∷◌}
use oikade.Prelude.Result.{Result, err}
use oikade.Prelude.Maps.{Map, nat_key, get, insert}
use oikade.Adapter.Wire.{Envelope}

abbrev pub max_pending_calls : ℕ
max_pending_calls = 1024

abbrev pub max_ignored_responses : ℕ
max_ignored_responses = 2048

abbrev pub max_inbound_calls : ℕ
max_inbound_calls = 128

pub data SessionError : Type 0 where
  closed invalid : String → SessionError
  protocol : String → String → SessionError
  timeout pending_limit : SessionError

-- The types that `decode_body` is asked for; that of a response goes with the method of the call.
pub data Expected : Type 0 where
  hello_body command_body : Expected
  response_body : String → Expected

abbrev pub Response : Type 0
Response = Result String Envelope

-- The receiver of a call's `oneshot` channel. The sender is in `pending`, under the call's id.
pub data Receiver : Type 0 where
  empty dropped : Receiver
  sent : Response → Receiver

-- Where `call` is: it has an id; its sender is in `pending`; the channel to the writer was closed;
-- it waits for the response; its deadline is over; it has left `pending` in `abandon`; it returned.
-- The body of a response is its JSON text.
pub data Phase : Type 0 where
  starting registered withdrawing waiting expiring ignoring : Phase
  finished : Result SessionError String → Phase

pub record Call : Type 0 where
  pub method : String
  pub phase : Phase
  pub receiver : Receiver

-- Where `read_loop` is: at a frame, or at a response that `ignored` does not name.
pub data Reader : Type 0 where
  reading stopped : Reader
  matching : Envelope → Reader

pub record Session : Type 0 where
  pub pending : List ℕ
  pub ignored : List ℕ
  pub next_id : ℕ
  pub failure : Option String
  -- The errors of calls of `fail` that have yet to empty `pending`.
  pub failing : List String
  pub pid : ℕ
  -- The process groups that were killed.
  pub killed : List ℕ
  pub hello : Option String
  pub reader : Reader
  -- The frames that were handed to the writer, the last one first.
  pub outbound : List Envelope
  -- The commands that were spawned, and those that hold a permit of `inbound`.
  pub spawned : List Envelope
  pub running : List Envelope
  pub calls : Map ℕ Call

-- `Session::spawn`
abbrev pub spawn : Session
spawn = record {
  pending = [];
  ignored = [];
  next_id = 0;
  failure = none;
  failing = [];
  pid = 0;
  killed = [];
  hello = none;
  reader = reading;
  outbound = [];
  spawned = [];
  running = [];
  calls = [];
}

-- `closed`
abbrev pub closed_error : Session → SessionError
closed_error s = elim s.failure [ none ↦ closed "adapter session closed" | some e ↦ closed e ]

abbrev pub update_call : (Call → Call) → Option Call → ℕ → Map ℕ Call → Map ℕ Call
update_call f none id calls = calls
update_call f (some c) id calls = insert id (f c) calls

abbrev pub at_call : (Call → Call) → ℕ → Session → Session
at_call f id s = record s { calls = update_call f (get id s.calls) id s.calls }

abbrev pub move_to : Phase → Call → Call
move_to p c = record c { phase = p }

-- What comes to a receiver: nothing does once it has something.
abbrev pub first : Receiver → Receiver → Receiver
first empty x = x
first dropped x = dropped
first (sent y) x = sent y

abbrev pub receive : Receiver → Call → Call
receive x c = record c { receiver = first c.receiver x }

-- The change of the failure, before the lock of `pending`.
abbrev pub send_failure : String → Session → Session
send_failure error s = record s { failure = some error; failing = error ∷ s.failing }

abbrev pub fail_after : Option String → String → Session → Session
fail_after (some e) error s = s
fail_after none error s = send_failure error s

-- `fail`, up to the lock of `pending`, where no other task comes between the test of the failure and
-- its change. Where one does, the rest of this task's `fail` is `late_fail`.
unfoldable pub fail : String → Session → Session
fail error s = fail_after s.failure error s

abbrev pub late_fail_after : Option String → String → Session → Option Session
late_fail_after (some e) error s = some (send_failure error s)
late_fail_after none error s = none

-- The change of the failure by a task whose test came before another task's change.
unfoldable pub late_fail : String → Session → Option Session
late_fail error s = late_fail_after s.failure error s

-- The senders that `fail` took out of `pending` send its error.
unfoldable pub send_all : Response → List ℕ → Map ℕ Call → Map ℕ Call
send_all response [] calls = calls
send_all response (id ∷ ids) calls =
    send_all response ids (update_call (receive (sent response)) (get id calls) id calls)

abbrev pub kill : Session → Session
kill s = record s { killed = if s.pid == 0 then s.killed else s.pid ∷ s.killed }

abbrev pub sweep_first : List String → Session → Option Session
sweep_first [] s = none
sweep_first (error ∷ failing) s = some (
    kill (record s {
      failing = failing;
      pending = [];
      calls = send_all (err error) s.pending s.calls;
    }))

-- `fail`, from the lock of `pending` on.
unfoldable pub sweep : Session → Option Session
unfolding send_all
sweep s = sweep_first s.failing s
