-- ===== src/Adapter/Handle.antt =====
-- Commands that reach the runtime through an adapter.
use oikade.Prelude.{◌≡◌, refl, sym, ap, subst, ◌∙◌, true}
use oikade.Prelude.Result.{Result, ok, err, ok_ne_err, err_ne_ok, err_injective, ok_injective}
use oikade.Core.Model.{Value, value_eq}
use oikade.Core.Runtime.Types.{Host, Command, RuntimeError, Runtime}
use oikade.Core.Runtime.Ops.{write_value, read}
use oikade.Core.Runtime.Step.{writes, perform, step, discard, discard_keeps}
use oikade.Core.Runtime.Atomic.{step-err}
use oikade.Core.Runtime.ReadWrite.{IsReadable, read-write_value}
use oikade.Core.Runtime.Invariant.{Inv}
use oikade.Adapter.Wire.{CommandRequest, CommandResponse}
use oikade.Adapter.Convert.{value_to_api}
use oikade.Adapter.Projection.{handle, parse_command, ErrorCode, answer, submit}

module _ {H : Host} where
  answer_keeps : (out : Result RuntimeError Value × Runtime H) → (answer out).1 ≡ out.1
  answer_keeps (ok v, r) = refl
  answer_keeps (err e, r) = refl

  answer-err :
      (out : Result RuntimeError Value × Runtime H) (code : ErrorCode)
      → (answer out).0 ≡ err code
      → (e : RuntimeError) × (out.0 ≡ err e)
  answer-err (ok v, r) code h = absurd (ok_ne_err h)
  answer-err (err e, r) code h = (e, refl)

  answer-ok :
      (out : Result RuntimeError Value × Runtime H) (response : CommandResponse)
      → (answer out).0 ≡ ok response
      → (v : Value) × (out.0 ≡ ok v) × (response.value ≡ value_to_api v)
  answer-ok (ok v, r) response h =
      (v, refl, sym (ap (λ (x : CommandResponse). x.value) (ok_injective h)))
  answer-ok (err e, r) response h = absurd (err_ne_ok h)

  discard-of-err :
      (out : Result RuntimeError Value × Runtime H) (e : RuntimeError)
      → out.0 ≡ err e
      → (discard out).0 ≡ err e
  discard-of-err (ok v, r) e h = absurd (ok_ne_err h)
  discard-of-err (err x, r) e h = ap err (err_injective h)

  submit-err :
      (x : Result ErrorCode Command) (r : Runtime H) (code : ErrorCode)
      → (submit x r).0 ≡ err code
      → (submit x r).1.state ≡ r.state
  unfolding step perform
  submit-err (err c) r code h = refl
  submit-err (ok c) r code h =
      let (e, failed) = answer-err (write_value c r) code h in
      ap (λ (s : Runtime H). s.state)
        (answer_keeps (write_value c r) ∙ sym (discard_keeps (write_value c r)))
      ∙ step-err (writes c) r e (discard-of-err (write_value c r) e failed)

  -- If the command of an adapter is answered with an error, the state of the runtime is what it was.
  pub handle-err :
      (request : CommandRequest) (r : Runtime H) (code : ErrorCode)
      → (handle request r).0 ≡ err code
      → (handle request r).1.state ≡ r.state
  unfolding handle
  handle-err request r code h = submit-err (parse_command request) r code h

  submit-ok :
      (c : Command) (r : Runtime H) (response : CommandResponse)
      → Inv r.state
      → IsReadable r.state c.device_id c.capability_id
      → (submit (ok c) r).0 ≡ ok response
      → (v w : Value) × (response.value ≡ value_to_api v)
        × ((read c.device_id c.capability_id (submit (ok c) r).1).0 ≡ ok w)
        × (value_eq w v ≡ true)
  submit-ok c r response inv readable h =
      let (v, written, sent) = answer-ok (write_value c r) response h in
      let (w, got, same) = read-write_value r c v inv readable written in
      (
        v,
        w,
        sent,
        subst (λ (s : Runtime H). (read c.device_id c.capability_id s).0 ≡ ok w)
            (sym (answer_keeps (write_value c r))) got,
        same,
      )

  -- Where the invariant of the runtime holds, if the command of an adapter on a readable capability
  -- succeeds, the response holds a value that equals what a read of the capability then returns.
  pub read-handle :
      (request : CommandRequest) (c : Command) (r : Runtime H) (response : CommandResponse)
      → Inv r.state
      → parse_command request ≡ ok c
      → IsReadable r.state c.device_id c.capability_id
      → (handle request r).0 ≡ ok response
      → (v w : Value) × (response.value ≡ value_to_api v)
        × ((read c.device_id c.capability_id (handle request r).1).0 ≡ ok w)
        × (value_eq w v ≡ true)
  unfolding handle
  read-handle request c r response inv parsed readable h =
      subst
        (λ x.
          (submit x r).0 ≡ ok response
          → (v w : Value) × (response.value ≡ value_to_api v)
            × ((read c.device_id c.capability_id (submit x r).1).0 ≡ ok w)
            × (value_eq w v ≡ true))
        (sym parsed) (submit-ok c r response inv readable) h
