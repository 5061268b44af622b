-- ===== src/Client/Tcp/Closed.antt =====
-- What a connection leaves behind.
use moe_asset_updater_client.Base.{
  ℕ, ◌≡◌, refl, sym, ap, ◌∙◌, ◌⊎◌, inl, inr, true, Option, none, some, List, [], ◌∷◌, ◌++◌,
  append_assoc, append-nil, arith, ltb, if◌then◌else◌, Bytes, equal, length, take, drop,
  take-append-drop, ==_iff, Bool-cases,
}
use moe_asset_updater_client.Base.Outcome.{Outcome, ok, err, panic}
use moe_asset_updater_client.Config.{Config}
use moe_asset_updater_client.Protocol.{TaskPayload}
use moe_asset_updater_client.Tcpclient.{Message}
use moe_asset_updater_client.Client.Tcp.{
  TcpWorker, Incoming, heartbeat_failed, receive_failed, received, Ended, waiting, rejected,
  unexpected, parent_done, returned, Session, register_message, message_task_push, message_error,
  message_registered, start_tasks, connection_loop, set_tcp_conn, cleared, clear_tcp_conn,
  when_ended, after_answer, after_send, after_dial, run_tcp_once,
}

-- The tasks that the messages push, in their order.
abbrev pub pushed : {E : Type 0} → List (Incoming E) → List TaskPayload
pushed [] = []
pushed (heartbeat_failed e ∷ rest) = pushed rest
pushed (receive_failed e ∷ rest) = pushed rest
pushed (received m n ∷ rest) =
    (if equal m.type message_task_push then m.tasks else []) ++ pushed rest

-- Of these tasks a front part was started; the rest of the worker is as it was.
pub record Ran (tasks : List TaskPayload) (before after : TcpWorker) : Type 0 where
  pub now : List TaskPayload
  pub left : List TaskPayload
  pub all : tasks ≡ now ++ left
  pub started : after.started ≡ before.started ++ now
  pub conn : after.conn ≡ before.conn
  pub client_id : after.client_id ≡ before.client_id

none_started : (tasks : List TaskPayload) (w : TcpWorker) → Ran tasks w w
none_started tasks w = record {
  now = [];
  left = tasks;
  all = refl;
  started = sym (append-nil w.started);
  conn = refl;
  client_id = refl;
}

more_started :
    (first tasks : List TaskPayload) (w after : TcpWorker)
    → Ran tasks (start_tasks w first) after
    → Ran (first ++ tasks) w after
more_started first tasks w after r = record {
  now = first ++ r.now;
  left = r.left;
  all = ap (λ l. first ++ l) r.all ∙ sym (append_assoc first r.now r.left);
  started = r.started ∙ append_assoc w.started first r.now;
  conn = r.conn;
  client_id = r.client_id;
}

some_started :
    (n : ℕ) (first tasks : List TaskPayload) (w : TcpWorker)
    → Ran (first ++ tasks) w (start_tasks w (take n first))
some_started n first tasks w = record {
  now = take n first;
  left = drop n first ++ tasks;
  all =
      ap (λ l. l ++ tasks) (sym (take-append-drop n first))
      ∙ append_assoc (take n first) (drop n first) tasks;
  started = refl;
  conn = refl;
  client_id = refl;
}

connection_loop-Ran :
    {E : Type 0} (w : TcpWorker) (incoming : List (Incoming E))
    → Ran (pushed incoming) w (connection_loop w incoming).0
unfolding connection_loop
connection_loop-Ran w [] = none_started [] w
connection_loop-Ran w (heartbeat_failed e ∷ rest) = none_started (pushed rest) w
connection_loop-Ran w (receive_failed e ∷ rest) = none_started (pushed rest) w
connection_loop-Ran w (received m none ∷ rest) =
    elim (Bool-cases (equal m.type message_task_push)) [
      | inl e ↦ rw e (
          more_started m.tasks (pushed rest) w _ (connection_loop-Ran (start_tasks w m.tasks) rest))
      | inr e ↦ rw e (connection_loop-Ran w rest)
    ]
connection_loop-Ran w (received m (some n) ∷ rest) =
    elim (Bool-cases (equal m.type message_task_push)) [
      | inl e ↦ rw e (elim (Bool-cases (ltb n (length m.tasks))) [
        | inl few ↦ rw few (some_started n m.tasks (pushed rest) w)
        | inr all ↦ rw all (
            more_started m.tasks (pushed rest) w _
              (connection_loop-Ran (start_tasks w m.tasks) rest))
      ])
      | inr e ↦ rw e (connection_loop-Ran w rest)
    ]

-- What one connection leaves: a connection to send on only while it lasts; tasks that were pushed, a
-- front part of them in their order; and the client's id, from the answer where it registered.
pub record IsClosed {E : Type 0} (s : Session E) (before : TcpWorker) (after : TcpWorker × Ended E)
    : Type 0 where
  pub conn : (after.1 ≡ waiting) ⊎ (after.0.conn ≡ none)
  pub now : List TaskPayload
  pub left : List TaskPayload
  pub all : pushed s.incoming ≡ now ++ left
  pub started : after.0.started ≡ before.started ++ now
  pub client_id :
      (after.0.client_id ≡ before.client_id)
      ⊎ ((m : Message) × (s.answer ≡ ok m)
          × (equal m.type message_registered ≡ true)
          × (after.0.client_id ≡ m.client_id))

cleared_own : (number : ℕ) (c : Option ℕ) → c ≡ some number → cleared number c ≡ none
cleared_own number none e = cc
cleared_own number (some c) e = ground (arith, ==_iff c number)

module _ {E : Type 0} (s : Session E) (w : TcpWorker) (idle : w.conn ≡ none) where
  unchanged : (e : Ended E) → IsClosed s w (w, e)
  unchanged e = record {
    conn = inr idle;
    now = [];
    left = pushed s.incoming;
    all = refl;
    started = sym (append-nil w.started);
    client_id = inl refl;
  }

  over :
      (m : Message) (after : TcpWorker) (e : Ended E)
      → s.answer ≡ ok m
      → equal m.type message_registered ≡ true
      → Ran (pushed s.incoming) (set_tcp_conn s.number (record w { client_id = m.client_id })) after
      → IsClosed s w (clear_tcp_conn s.number after, e)
  over m after e a t ran = record {
    conn = inr (cleared_own s.number after.conn ran.conn);
    now = ran.now;
    left = ran.left;
    all = ran.all;
    started = ran.started;
    client_id = inr (m, a, t, ran.client_id);
  }

  when_ended-IsClosed :
      (m : Message) (r : TcpWorker × Ended E)
      → s.answer ≡ ok m
      → equal m.type message_registered ≡ true
      → Ran (pushed s.incoming) (set_tcp_conn s.number (record w { client_id = m.client_id })) r.0
      → IsClosed s w (when_ended s.number r)
  when_ended-IsClosed m (after, waiting) a t ran = record {
    conn = inl refl;
    now = ran.now;
    left = ran.left;
    all = ran.all;
    started = ran.started;
    client_id = inr (m, a, t, ran.client_id);
  }
  when_ended-IsClosed m (after, rejected) a t ran = over m after rejected a t ran
  when_ended-IsClosed m (after, unexpected) a t ran = over m after unexpected a t ran
  when_ended-IsClosed m (after, parent_done) a t ran = over m after parent_done a t ran
  when_ended-IsClosed m (after, returned e) a t ran = over m after (returned e) a t ran

  after_answer-IsClosed :
      (answer : Outcome E Message) → s.answer ≡ answer → IsClosed s w (after_answer s w answer)
  after_answer-IsClosed (err e) a = unchanged (returned e)
  after_answer-IsClosed panic a = unchanged unexpected
  after_answer-IsClosed (ok m) a = elim (Bool-cases (equal m.type message_error)) [
    | inl e ↦ rw e (unchanged rejected)
    | inr e ↦ elim (Bool-cases (equal m.type message_registered)) [
      | inl t ↦
          rw (e, t)
            (when_ended-IsClosed m _ a t (
              connection_loop-Ran (set_tcp_conn s.number (record w { client_id = m.client_id }))
                s.incoming))
      | inr t ↦ rw (e, t) (unchanged unexpected)
    ]
  ]

  after_dial-IsClosed :
      (register : Message) (dialled : Option E) → IsClosed s w (after_dial s w register dialled)
  after_dial-IsClosed register (some e) = unchanged (returned e)
  after_dial-IsClosed register none = sent_all (s.sent register)
    where
      sent_all : (o : Option E) → IsClosed s w (after_send s w o)
      sent_all (some e) = unchanged (returned e)
      sent_all none = after_answer-IsClosed s.answer refl

-- Where no connection is set before, whatever the server and the network do: after runTCPOnce has
-- returned none is set; the tasks that it started are a front part of those that were pushed, in their
-- order; and the client's id is as before, or that of the answer that registered the client.
pub run_tcp_once-IsClosed :
    {E : Type 0} (s : Session E) (cfg : Config) (active : List Bytes) (w : TcpWorker)
    → w.conn ≡ none
    → IsClosed s w (run_tcp_once s cfg active w)
unfolding run_tcp_once
run_tcp_once-IsClosed s cfg active w idle =
    after_dial-IsClosed s w idle (register_message cfg w.client_id active) s.dialled
