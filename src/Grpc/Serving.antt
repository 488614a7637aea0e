-- ===== src/Grpc/Serving.antt =====
-- grpc/boundary.go: what a call is answered with.
use effect_golang_web.Common.{
  ◌≡◌, refl, sym, ap, subst, ◌↔◌, inl, inr, true, false, none, some, [], ◌∷◌, ◌++◌, append_assoc,
  Text, codes, ok, err, Bool-cases, Option-cases, Result-cases,
}
use effect_golang_web.Grpc.{
  Calls, Boundary, Procedure, CallAnswer, invalid_argument, internal, unsatisfied, plain_message,
  handler_failed, unencoded, unencoded_response, refused_with, failure_for_cause, handle_call,
  input_answer, exit_answer, encoded_answer, procedure_path,
}

module _ (c : Calls) {In Out : Type 0} (boundary : Boundary c)
    (procedure : Procedure c.Shape c.Mistake In Out) (handle : In → c.Effect Out) where
  -- How a call ends, with what is reported of it to whoever runs the service: the request cannot be
  -- read; the handler failed with a defect, with an error of its type, or in another way; its answer
  -- cannot be written; or the answer is sent.
  pub data Ends (request : Text) : CallAnswer c → Type 0 where
    unread :
        (mistake : c.Mistake)
        → procedure.request.decode request ≡ err mistake
        → Ends request (
          err (record {
            code = invalid_argument;
            message =
                unsatisfied
                  (codes "/" ++ procedure.service ++ codes "/" ++ procedure.method)
                  mistake;
          }),
          [],
        )
    defective :
        (input : In) (cause : c.Cause)
        → procedure.request.decode request ≡ ok input
        → c.run (handle input) ≡ err cause
        → c.contains_defect cause ≡ true
        → Ends request (err (boundary.on_defect cause), handler_failed cause ∷ [])
    typed :
        (input : In) (cause : c.Cause) (error : c.Error)
        → procedure.request.decode request ≡ ok input
        → c.run (handle input) ≡ err cause
        → c.contains_defect cause ≡ false
        → c.typed_failure cause ≡ some error
        → Ends request (err (boundary.on_failure error), [])
    untyped :
        (input : In) (cause : c.Cause)
        → procedure.request.decode request ≡ ok input
        → c.run (handle input) ≡ err cause
        → c.contains_defect cause ≡ false
        → c.typed_failure cause ≡ none
        → Ends request (err (boundary.on_defect cause), [])
    unwritten :
        (input : In) (given : Out) (mistake : c.Mistake)
        → procedure.request.decode request ≡ ok input
        → c.run (handle input) ≡ ok given
        → procedure.response.encode given ≡ err mistake
        → Ends request (
          err (record {
            code = internal;
            message = plain_message (codes "the response could not be encoded");
          }),
          unencoded (
                unencoded_response
                  (codes "/" ++ procedure.service ++ codes "/" ++ procedure.method)
                  mistake)
              ∷ [],
        )
    served :
        (input : In) (given : Out) (message : Text)
        → procedure.request.decode request ≡ ok input
        → c.run (handle input) ≡ ok given
        → procedure.response.encode given ≡ ok message
        → Ends request (ok message, [])

  path_text :
      procedure_path procedure.service procedure.method
      ≡ codes "/" ++ procedure.service ++ codes "/" ++ procedure.method
  path_text = ap (λ t. b'/' ∷ t) (sym (append_assoc procedure.service (codes "/") procedure.method))

  failed-Ends :
      (request : Text) (input : In) (cause : c.Cause)
      → procedure.request.decode request ≡ ok input
      → c.run (handle input) ≡ err cause
      → Ends request (refused_with c (failure_for_cause c boundary cause))
  unfolding failure_for_cause
  failed-Ends request input cause read ran = elim (Bool-cases (c.contains_defect cause)) [
    | inl defect ↦ rw defect (defective input cause read ran defect)
    | inr sound ↦ elim (Option-cases (c.typed_failure cause)) [
      | inl missing ↦ rw (sound, missing) (untyped input cause read ran sound missing)
      | inr (error, found) ↦ rw (sound, found) (typed input cause error read ran sound found)
    ]
  ]

  encoded-Ends :
      (request : Text) (input : In) (given : Out)
      → procedure.request.decode request ≡ ok input
      → c.run (handle input) ≡ ok given
      → Ends request (
          encoded_answer c
            (procedure_path procedure.service procedure.method)
            (procedure.response.encode given))
  encoded-Ends request input given read ran =
      elim (Result-cases (procedure.response.encode given)) [
        | inl (message, wrote) ↦ rw wrote (served input given message read ran wrote)
        | inr (mistake, failed) ↦
            rw (failed, path_text) (unwritten input given mistake read ran failed)
      ]

  handle_call-Ends :
      (request : Text) → Ends request (handle_call c boundary procedure handle request)
  unfolding handle_call input_answer exit_answer
  handle_call-Ends request = elim (Result-cases (procedure.request.decode request)) [
    | inr (mistake, unreadable) ↦ rw (unreadable, path_text) (unread mistake unreadable)
    | inl (input, read) ↦ elim (Result-cases (c.run (handle input))) [
      | inr (cause, ran) ↦ rw (read, ran) (failed-Ends request input cause read ran)
      | inl (given, ran) ↦ rw (read, ran) (encoded-Ends request input given read ran)
    ]
  ]

  Ends-handle_call :
      (request : Text) (end : CallAnswer c)
      → Ends request end
      → handle_call c boundary procedure handle request ≡ end
  unfolding handle_call input_answer exit_answer failure_for_cause
  Ends-handle_call request end (unread mistake unreadable) = rw (unreadable, path_text) refl
  Ends-handle_call request end (defective input cause read ran defect) = rw (read, ran, defect) refl
  Ends-handle_call request end (typed input cause error read ran sound found) =
      rw (read, ran, sound, found) refl
  Ends-handle_call request end (untyped input cause read ran sound missing) =
      rw (read, ran, sound, missing) refl
  Ends-handle_call request end (unwritten input given mistake read ran failed) =
      rw (read, ran, failed, path_text) refl
  Ends-handle_call request end (served input given message read ran wrote) =
      rw (read, ran, wrote) refl

  -- A call has an answer and reports exactly if it ends with them: with a message only if the request
  -- is read, the handler gives an answer and that is written as the message; otherwise with the failure
  -- of the part that failed, which is reported if it is a defect or an answer that cannot be written.
  pub handle_call_iff :
      (request : Text) (end : CallAnswer c)
      → (handle_call c boundary procedure handle request ≡ end) ↔ Ends request end
  handle_call_iff request end =
      (λ same. subst (Ends request) same (handle_call-Ends request), Ends-handle_call request end)
