-- ===== src/Client/Http.antt =====
-- The calls of the server's HTTP interface, of internal/client/worker.go: `register`, `heartbeat`,
-- `lease`, `reportProgress`, `uploadResult`, `uploadResultOnce` and `fail`. The HTTP client is an
-- argument: what it gives back for a request, which is an error or a status and a body.
use moe_asset_updater_client.Base.{
  ℕ, zero, suc, ◌+◌, ◌^◌, Bool, ◌||◌, Option, none, some, List, leb, if◌then◌else◌, Bytes,
}
use moe_asset_updater_client.Base.Int.{ℤ, is_nonpos, ltb_ℤ}
use moe_asset_updater_client.Base.Outcome.{Outcome, ok, err, panic}
use moe_asset_updater_client.Protocol.{TaskPayload}

-- An answer of the server, with the body that was decoded.
pub data Answer (E B : Type 0) : Type 0 where
  no_answer : E → Answer E B
  answered : ℕ → B → Answer E B

pub data HttpError (E : Type 0) : Type 0 where
  transport_error : E → HttpError E
  returned : ℕ → HttpError E

-- `if err != nil { return err }; if r.StatusCode() >= 300 { return … }`.
unfoldable pub checked : {E B : Type 0} → Answer E B → Outcome (HttpError E) B
checked (no_answer e) = err (transport_error e)
checked (answered status body) = if leb 300 status then err (returned status) else ok body

pub record ClientRegistrationResponse : Type 0 where
  pub client_id : Bytes
  pub heartbeat_after : ℤ
  pub lease_ttl : ℤ

-- The client's id after the call, with the one before.
unfoldable pub register :
    {E : Type 0} → Bytes → Answer E ClientRegistrationResponse → Bytes × Option (HttpError E)
unfolding checked
register client_id answer = elim (checked answer) [
  | ok response ↦ (response.client_id, none)
  | err e ↦ (client_id, some e)
  | panic ↦ (client_id, none)
]

pub record HeartbeatRequest : Type 0 where
  pub client_id : Bytes
  pub active_task_ids : List Bytes

pub record LeaseRequest : Type 0 where
  pub client_id : Bytes
  pub max_tasks : ℤ
  pub wait_seconds : ℤ

-- The request that `lease` sends: a count out of range asks for as many as the worker takes.
unfoldable pub lease_request : Bytes → ℤ → ℤ → ℤ → LeaseRequest
lease_request client_id worker_max wait_seconds max_tasks = record {
  client_id = client_id;
  max_tasks = if is_nonpos max_tasks || ltb_ℤ worker_max max_tasks then worker_max else max_tasks;
  wait_seconds = wait_seconds;
}

unfoldable pub lease :
    {E : Type 0} → Answer E (List TaskPayload) → Outcome (HttpError E) (List TaskPayload)
unfolding checked
lease answer = checked answer

-- `heartbeat`, `reportProgress`, `fail` and `uploadResultOnce` look at the status alone.
unfoldable pub post : {E : Type 0} → Answer E (Unit {0}) → Option (HttpError E)
unfolding checked
post answer = elim (checked answer) [ ok _ ↦ none | err e ↦ some e | panic ↦ none ]

-- What the server, the timer and the context do, by the number of the attempt.
pub record UploadSurroundings (E : Type 0) : Type 0 where
  pub answer : ℕ → Answer E (Unit {0})
  pub ended_after : ℕ → Bool
  pub while_waiting : ℕ → Option E

pub record UploadReport (E : Type 0) : Type 0 where
  pub tries : ℕ
  pub waited : ℕ
  pub error : Option (HttpError E)

-- An attempt, with what the later ones give. A context that has ended stops the attempts with the
-- error of the last one, not its own.
abbrev pub upload_attempt :
    {E : Type 0} → UploadSurroundings E → ℕ → ℕ → (HttpError E → UploadReport E) → UploadReport E
upload_attempt s attempt waited later = elim (post (s.answer attempt)) [
  | none ↦ record { tries = attempt + 1; waited = waited; error = none }
  | some e ↦
      if s.ended_after attempt
      then record { tries = attempt + 1; waited = waited; error = some e }
      else later e
]

-- `for attempt := 0; attempt < maxAttempts; attempt++`, with the rounds left.
unfoldable pub upload_loop :
    {E : Type 0} → UploadSurroundings E → ℕ → ℕ → ℕ → Option (HttpError E) → UploadReport E
unfolding post
upload_loop s zero attempt waited last_err = record {
  tries = attempt;
  waited = waited;
  error = last_err;
}
upload_loop s (suc left) zero waited last_err =
    upload_attempt s zero waited (λ e. upload_loop s left 1 waited (some e))
upload_loop s (suc left) (suc before) waited last_err = elim (s.while_waiting (suc before)) [
  | some ended ↦ record {
    tries = suc before;
    waited = waited;
    error = some (transport_error ended);
  }
  | none ↦
      upload_attempt s (suc before) (waited + 2 ^ before)
        (λ e. upload_loop s left (suc before + 1) (waited + 2 ^ before) (some e))
]

unfoldable pub upload_result : {E : Type 0} → UploadSurroundings E → UploadReport E
unfolding upload_loop
upload_result s = upload_loop s 4 0 0 none
