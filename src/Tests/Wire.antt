-- ===== src/Tests/Wire.antt =====
-- The configuration, the masks and the frames on concrete values.
use moe_asset_updater_client.Base.{
  false, ◌≡◌, refl, sym, ap, ◌∙◌, none, some, [], ◌++◌, arith, append-nil, length, take,
  take-length_append, Bytes, codes, equal,
}
use moe_asset_updater_client.Base.Int.{pos}
use moe_asset_updater_client.Base.Outcome.{ok}
use moe_asset_updater_client.Config.{zero_config, apply_defaults}
use moe_asset_updater_client.Config.Trim.{text}
use moe_asset_updater_client.Config.Defaults.{IsUsable, apply_defaults-IsUsable}
use moe_asset_updater_client.Tcpclient.{
  write_all, write_loop, put_uint32, Message, Json, Conn, read_message, write_message,
}
use moe_asset_updater_client.Tcpclient.Framing.{
  KeepsContract, IsDelivered, frame, write_message-IsDelivered, read_message-frame,
}
use moe_asset_updater_client.Tcpclient.Roundtrip.{read_message-write_message}

apply_defaults-IsUsable_example :
    IsUsable (apply_defaults (λ _. none) (some (text "worker-1")) zero_config)
apply_defaults-IsUsable_example =
    apply_defaults-IsUsable (λ _. none) (some (text "worker-1")) zero_config

-- A connection that takes every slice whole, and remembers it.
abbrev whole : Conn Bytes (Unit {0})
whole = record { write = λ c bytes. (c ++ bytes, pos (length bytes), none) }

take_all : (bytes : Bytes) → take (length bytes) bytes ≡ bytes
take_all bytes = ap (take (length bytes)) (sym (append-nil bytes)) ∙ take-length_append bytes []

whole-KeepsContract : KeepsContract whole (λ c. c)
whole-KeepsContract = record {
  count = λ c bytes. (length bytes, refl, omega arith);
  sends = λ c bytes. ap (λ x. c ++ x) (sym (take_all bytes));
}

abbrev heartbeat : Message
heartbeat = record {
  type = codes "heartbeat";
  client_id = codes "c1";
  name = [];
  version = [];
  max_tasks = pos 0;
  tags = [];
  user_agent = [];
  bearer_token = [];
  active_task_ids = [];
  task_id = [];
  stage = [];
  progress = 0;
  message = [];
  error = [];
  tasks = [];
  heartbeat_after = pos 0;
  lease_ttl = pos 0;
}

abbrev heartbeat_text : Bytes
heartbeat_text = codes "{\"type\":\"heartbeat\",\"client_id\":\"c1\"}"

abbrev one_message : Json (Unit {0})
one_message = record { marshal = λ _. ok heartbeat_text; unmarshal = λ _. ok heartbeat }

write_message-IsDelivered_example :
    IsDelivered (λ c. c) [] (frame heartbeat_text) (write_message whole one_message [] heartbeat)
write_message-IsDelivered_example =
    write_message-IsDelivered whole (λ c. c) whole-KeepsContract one_message [] heartbeat
      heartbeat_text refl

read_message-frame_example :
    read_message one_message
      (record { content = frame heartbeat_text ++ codes "more"; fault = none; cut = false })
    ≡ ok (heartbeat, record { content = codes "more"; fault = none; cut = false })
unfolding equal
read_message-frame_example =
    read_message-frame one_message heartbeat heartbeat_text (codes "more") none false (omega arith)
      (omega arith) refl refl

read_message-write_message_example :
    read_message one_message
      (record { content = frame heartbeat_text ++ codes "more"; fault = none; cut = false })
    ≡ ok (heartbeat, record { content = codes "more"; fault = none; cut = false })
unfolding write_message write_all write_loop put_uint32 equal
read_message-write_message_example =
    read_message-write_message whole (λ c. c) one_message [] heartbeat whole-KeepsContract
      (λ p e. refl) refl refl {c' = frame heartbeat_text} refl (codes "more") none false
