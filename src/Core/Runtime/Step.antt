-- ===== src/Core/Runtime/Step.antt =====
-- The calls that change a runtime, as one type, and what a sequence of them does.
use oikade.Prelude.{ℕ, Option, List, [], ◌∷◌, ◌≡◌, refl}
use oikade.Prelude.Result.{Result, ok, err}
use oikade.Core.Model.{DeviceId, CapabilityId, Value, Device}
use oikade.Core.Runtime.Types.{Host, Command, CommandHandler, RuntimeError, Runtime}
use oikade.Core.Runtime.Ops.{
  start, stop, register, unregister, write_value, publish, subscribe, subscribe_topology, receive,
  receive_topology, cancel_events, cancel_topology,
}

pub data Call (H : Host) : Type 0 where
  starts stops : Call H
  registers : Device → Option (CommandHandler H) → Call H
  unregisters : DeviceId → Call H
  writes : Command → Call H
  publishes : DeviceId → CapabilityId → Value → Call H
  subscribes subscribes_topology receives receives_topology cancels cancels_topology : ℕ → Call H
  -- Something outside the runtime changes the world.
  changes : H.World → Call H

module _ {H : Host} where
  -- The value of an answer is left out: what counts is the error, if there is one.
  abbrev pub discard :
      {A : Type 0} → Result RuntimeError A × Runtime H → Result RuntimeError (Unit {0}) × Runtime H
  discard (ok a, r) = (ok tt, r)
  discard (err e, r) = (err e, r)

  unfoldable pub perform : Call H → Runtime H → Result RuntimeError (Unit {0}) × Runtime H
  perform starts r = start r
  perform stops r = stop r
  perform (registers d handler) r = register d handler r
  perform (unregisters id) r = unregister id r
  perform (writes c) r = discard (write_value c r)
  perform (publishes id capability v) r = publish id capability v r
  perform (subscribes buffer) r = discard (subscribe buffer r)
  perform (subscribes_topology buffer) r = discard (subscribe_topology buffer r)
  perform (receives id) r = discard (receive id r)
  perform (receives_topology id) r = discard (receive_topology id r)
  perform (cancels id) r = cancel_events id r
  perform (cancels_topology id) r = cancel_topology id r
  perform (changes w) r = (ok tt, record r { world = w })

  unfoldable pub step : Call H → Runtime H → Runtime H
  unfolding perform
  step c r = (perform c r).1

  unfoldable pub run : List (Call H) → Runtime H → Runtime H
  unfolding step
  run [] r = r
  run (c ∷ cs) r = run cs (step c r)

  pub discard_keeps :
      {A : Type 0} (out : Result RuntimeError A × Runtime H) → (discard out).1 ≡ out.1
  discard_keeps (ok a, r) = refl
  discard_keeps (err e, r) = refl

  pub discard-err :
      {A : Type 0} (out : Result RuntimeError A × Runtime H) (e : RuntimeError)
      → (discard out).0 ≡ err e
      → out.0 ≡ err e
  discard-err (ok a, r) e h = cc
  discard-err (err x, r) e h = cc
