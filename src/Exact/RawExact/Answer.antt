-- ===== src/Exact/RawExact/Answer.antt =====
-- What an execution returns is an answer to its request.
use eliot_search.Prelude.{◌≡◌, ℕ, Option, List, Bytes}
use eliot_search.Exec.{Result, Env, ok, Exec}
use eliot_search.Exec.Ensures.{Ensures, Ensures-pure, Ensures-bind, Ensures-then, Ensures-map_err}
use eliot_search.Registry.{ObjectRef, CurrentSourceRecord}
use eliot_search.Protocol.Message.Request.{RawExactRequest}
use eliot_search.Protocol.Message.Raw.{RawExactResult}
use eliot_search.Protocol.Message.Raw.Literal.{IsAnswer, validate_raw_answer-Ensures}
use eliot_search.Exact.{QueryFailure}
use eliot_search.Exact.RawExact.{ObjectStoreError, refuse, execute}

module _ (read_object : ObjectRef → ℕ → Exec QueryFailure (Result ObjectStoreError Bytes))
    (inventory_of : Option (List Bytes) → Exec QueryFailure (List CurrentSourceRecord)) where
  execute-Ensures :
      (generation : ℕ) (request : RawExactRequest)
      → Ensures
          (λ result. IsAnswer result request)
          (execute read_object inventory_of generation request)
  unfolding execute
  execute-Ensures generation request = Ensures-then _ _ λ _. Ensures-then _ _ λ _.
      Ensures-then _ _ λ _. Ensures-then _ _ λ _. Ensures-then _ _ λ _. Ensures-then _ _ λ _.
        Ensures-then _ _ λ _. Ensures-then _ _ λ settled.
          Ensures-bind _ _ (Ensures-map_err refuse _ (validate_raw_answer-Ensures settled request))
            λ _ answer. Ensures-pure settled answer

  -- Whatever the environment, the store and the inventory do: a result that `execute` returns is an
  -- answer to its request. It is consistent within the limit, has only sources of the selection, and each
  -- match in it spells the literal of the request.
  pub execute-IsAnswer :
      (generation : ℕ) (request : RawExactRequest) (result : RawExactResult) (env env' : Env)
      → execute read_object inventory_of generation request env ≡ ok (result, env')
      → IsAnswer result request
  execute-IsAnswer generation request result env env' h =
      (execute-Ensures generation request).at env result env' h
