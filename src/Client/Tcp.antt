-- ===== src/Client/Tcp.antt =====
-- One TCP connection of the worker: `runTCPOnce`, `runTCPConnection` and the message of the heartbeat,
-- of internal/client/tcp_worker.go, and `sendTCPMessage`, `setTCPConn` and `clearTCPConn` of
-- internal/client/worker.go. What the connection gives is an argument: the error of the dial and of
-- the first send, the answer, and what comes in afterwards, in order. The tasks that are started run
-- as in Pool.
pub mod Closed
use moe_asset_updater_client.Base.{
  ℕ, Bool, true, false, Option, none, some, List, [], ◌∷◌, ◌++◌, ltb, ◌==◌, if◌then◌else◌, Bytes,
  codes, equal, length, take,
}
use moe_asset_updater_client.Base.Int.{ℤ, pos}
use moe_asset_updater_client.Base.Outcome.{Outcome, ok, err, panic}
use moe_asset_updater_client.Config.{Config}
use moe_asset_updater_client.Protocol.{TaskPayload}
use moe_asset_updater_client.Tcpclient.{Message}

pub record TcpWorker : Type 0 where
  pub client_id : Bytes
  -- which connection messages are sent on
  pub conn : Option ℕ
  pub started : List TaskPayload

-- A message, and how many of its tasks get a slot before the context ends; none where all do.
pub data Incoming (E : Type 0) : Type 0 where
  heartbeat_failed : E → Incoming E
  receive_failed : E → Incoming E
  received : Message → Option ℕ → Incoming E

pub data Ended (E : Type 0) : Type 0 where
  waiting rejected unexpected parent_done : Ended E
  returned : E → Ended E

pub record Session (E : Type 0) : Type 0 where
  pub number : ℕ
  pub dialled : Option E
  pub sent : Message → Option E
  pub answer : Outcome E Message
  pub incoming : List (Incoming E)

abbrev pub empty_message : Message
empty_message = record {
  type = [];
  client_id = [];
  name = [];
  version = [];
  max_tasks = pos 0;
  tags = [];
  user_agent = [];
  bearer_token = [];
  active_task_ids = [];
  task_id = [];
  stage = [];
  progress = 0;
  message = [];
  error = [];
  tasks = [];
  heartbeat_after = pos 0;
  lease_ttl = pos 0;
}

abbrev pub message_register : Bytes
message_register = codes "register"

abbrev pub message_registered : Bytes
message_registered = codes "registered"

abbrev pub message_task_push : Bytes
message_task_push = codes "task_push"

abbrev pub message_error : Bytes
message_error = codes "error"

abbrev pub message_heartbeat : Bytes
message_heartbeat = codes "heartbeat"

unfoldable pub register_message : Config → Bytes → List Bytes → Message
unfolding equal
register_message cfg client_id active = record empty_message {
  type = message_register;
  client_id = if equal client_id [] then cfg.worker.id else client_id;
  name = cfg.worker.name;
  version = cfg.worker.version;
  max_tasks = cfg.worker.max_tasks;
  tags = cfg.worker.tags;
  user_agent = cfg.client.user_agent;
  bearer_token = cfg.client.bearer_token;
  active_task_ids = active;
}

unfoldable pub heartbeat_message : Bytes → List Bytes → Message
heartbeat_message client_id active = record empty_message {
  type = message_heartbeat;
  client_id = client_id;
  active_task_ids = active;
}

abbrev pub start_tasks : TcpWorker → List TaskPayload → TcpWorker
start_tasks w tasks = record w { started = w.started ++ tasks }

-- The loop, with what comes in.
unfoldable pub connection_loop : {E : Type 0} → TcpWorker → List (Incoming E) → TcpWorker × Ended E
unfolding equal
connection_loop w [] = (w, waiting)
connection_loop w (heartbeat_failed e ∷ rest) = (w, returned e)
connection_loop w (receive_failed e ∷ rest) = (w, returned e)
connection_loop w (received m none ∷ rest) =
    let pushed = connection_loop (start_tasks w m.tasks) rest in
    let ignored = connection_loop w rest in
    if equal m.type message_task_push then pushed else ignored
connection_loop w (received m (some n) ∷ rest) =
    let pushed = connection_loop (start_tasks w m.tasks) rest in
    let ignored = connection_loop w rest in
    if equal m.type message_task_push
    then if ltb n (length m.tasks) then (start_tasks w (take n m.tasks), parent_done) else pushed
    else ignored

abbrev pub set_tcp_conn : ℕ → TcpWorker → TcpWorker
set_tcp_conn number w = record w { conn = some number }

abbrev pub cleared : ℕ → Option ℕ → Option ℕ
cleared number none = none
cleared number (some c) = if c == number then none else some c

abbrev pub clear_tcp_conn : ℕ → TcpWorker → TcpWorker
clear_tcp_conn number w = record w { conn = cleared number w.conn }

-- The deferred call runs once the loop has ended.
abbrev pub when_ended : {E : Type 0} → ℕ → TcpWorker × Ended E → TcpWorker × Ended E
when_ended number (w, waiting) = (w, waiting)
when_ended number (w, rejected) = (clear_tcp_conn number w, rejected)
when_ended number (w, unexpected) = (clear_tcp_conn number w, unexpected)
when_ended number (w, parent_done) = (clear_tcp_conn number w, parent_done)
when_ended number (w, returned e) = (clear_tcp_conn number w, returned e)

abbrev pub after_answer :
    {E : Type 0} → Session E → TcpWorker → Outcome E Message → TcpWorker × Ended E
after_answer s w (err e) = (w, returned e)
after_answer s w panic = (w, unexpected)
after_answer s w (ok m) =
    if equal m.type message_error
    then (w, rejected)
    else if equal m.type message_registered
    then when_ended s.number
        (connection_loop (set_tcp_conn s.number (record w { client_id = m.client_id })) s.incoming)
    else (w, unexpected)

abbrev pub after_send : {E : Type 0} → Session E → TcpWorker → Option E → TcpWorker × Ended E
after_send s w (some e) = (w, returned e)
after_send s w none = after_answer s w s.answer

abbrev pub after_dial :
    {E : Type 0} → Session E → TcpWorker → Message → Option E → TcpWorker × Ended E
after_dial s w register (some e) = (w, returned e)
after_dial s w register none = after_send s w (s.sent register)

unfoldable pub run_tcp_once :
    {E : Type 0} → Session E → Config → List Bytes → TcpWorker → TcpWorker × Ended E
unfolding register_message connection_loop equal
run_tcp_once s cfg active w = after_dial s w (register_message cfg w.client_id active) s.dialled

-- Sending: the error, if there is one, and the connection that is closed for it.
pub data SendError (E : Type 0) : Type 0 where
  not_connected : SendError E
  send_failed : E → SendError E

abbrev pub sent_on : {E : Type 0} → ℕ → Option E → Option ℕ × Option (SendError E)
sent_on c none = (none, none)
sent_on c (some e) = (some c, some (send_failed e))

unfoldable pub send_tcp_message :
    {E : Type 0} → (ℕ → Message → Option E) → TcpWorker → Message → Option ℕ × Option (SendError E)
send_tcp_message send w m = elim w.conn [
  | none ↦ (none, some not_connected)
  | some c ↦ sent_on c (send c m)
]
