-- ===== src/Tcpclient.antt =====
-- The framed messages of the TCP connection: internal/tcpclient/protocol.go and client.go. The JSON
-- encoding is an argument, and so is what the connection does with the bytes of one `Write`.
pub mod Framing
pub mod Roundtrip
use moe_asset_updater_client.Base.{
  ℕ, zero, suc, ◌+◌, ◌*◌, ◌/◌, ◌%◌, ◌^◌, Bool, true, false, ◌||◌, Option, none, some, List, [], ◌∷◌,
  ltb, leb, ◌==◌, if◌then◌else◌, length, drop, Bytes, equal,
}
use moe_asset_updater_client.Base.Int.{ℤ, pos, negsuc, is_nonpos, to_ℕ}
use moe_asset_updater_client.Base.Outcome.{Outcome, ok, err, panic, ◌>>=◌}
use moe_asset_updater_client.Base.Io.{Reader, ReadResult, full, ended, cut_off, failed, read_full}
use moe_asset_updater_client.Protocol.{TaskPayload}

abbrev pub max_frame_size : ℕ
max_frame_size = 32 * 1024 * 1024

pub record Message : Type 0 where
  pub type : Bytes
  pub client_id : Bytes
  pub name : Bytes
  pub version : Bytes
  pub max_tasks : ℤ
  pub tags : List (Bytes × Bytes)
  pub user_agent : Bytes
  pub bearer_token : Bytes
  pub active_task_ids : List Bytes
  pub task_id : Bytes
  pub stage : Bytes
  -- the bits of the `float64`
  pub progress : ℕ
  pub message : Bytes
  pub error : Bytes
  pub tasks : List TaskPayload
  pub heartbeat_after : ℤ
  pub lease_ttl : ℤ

-- The errors; E is what the connection and the JSON package report.
pub data FrameError (E : Type 0) : Type 0 where
  eof unexpected_eof empty_message message_too_large type_required size_out_of_range short_write :
      FrameError E
  reported : E → FrameError E

-- `binary.BigEndian.Uint32` and `PutUint32`.
unfoldable pub get_uint32 : Bytes → ℕ
get_uint32 (a ∷ b ∷ c ∷ d ∷ _) = ((a * 256 + b) * 256 + c) * 256 + d
get_uint32 _ = 0

unfoldable pub put_uint32 : ℕ → Bytes
put_uint32 n = n / 2 ^ 24 % 256 ∷ n / 2 ^ 16 % 256 ∷ n / 2 ^ 8 % 256 ∷ n % 256 ∷ []

-- The encoding of messages.
pub record Json (E : Type 0) : Type 0 where
  pub marshal : Message → Outcome E Bytes
  pub unmarshal : Bytes → Outcome E Message

-- An error that the caller hands on.
unfoldable pub report : {E A : Type 0} → Outcome E A → Outcome (FrameError E) A
report (ok a) = ok a
report (err e) = err (reported e)
report panic = panic

-- The end of a stream is `io.EOF` only where no byte was read.
unfoldable pub ended_after : {E A : Type 0} → Bytes → Outcome (FrameError E) A
ended_after [] = err eof
ended_after (b ∷ bs) = err unexpected_eof

-- The message and the reader after it.
abbrev pub read_payload :
    {E : Type 0} → Json E → ReadResult E → Outcome (FrameError E) (Message × Reader E)
read_payload json (full payload r) = do
  msg ← report (json.unmarshal payload)
  if equal msg.type [] then err type_required else ok (msg, r)
read_payload json (ended got) = ended_after got
read_payload json (cut_off got) = err unexpected_eof
read_payload json (failed e) = err (reported e)

abbrev pub read_header :
    {E : Type 0} → Json E → ReadResult E → Outcome (FrameError E) (Message × Reader E)
read_header json (full header r) =
    let size = get_uint32 header in
    if size == 0
    then err empty_message
    else if ltb max_frame_size size
    then err message_too_large
    else read_payload json (read_full r size)
read_header json (ended got) = ended_after got
read_header json (cut_off got) = err unexpected_eof
read_header json (failed e) = err (reported e)

unfoldable pub read_message :
    {E : Type 0} → Json E → Reader E → Outcome (FrameError E) (Message × Reader E)
unfolding get_uint32 report ended_after read_full equal
read_message json r = read_header json (read_full r 4)

-- The connection as the state C: what one `Write` makes of it, and the count and the error it returns.
pub record Conn (C E : Type 0) : Type 0 where
  pub write : C → Bytes → C × ℤ × Option E

-- What writing leaves behind: the connection, and the error, if there is one.
abbrev pub Sent : Type 0 → Type 0 → Type 0
Sent C E = C × Outcome (FrameError E) (Unit {0})

-- After one `Write` of a slice that is not empty, with what the rounds for `data[n:]` give. A slice
-- from past its end panics.
abbrev pub after_write : {C E : Type 0} → C → ℤ → Option E → Bytes → Sent C E → Sent C E
after_write c n (some e) bytes rest = (c, err (reported e))
after_write c n none bytes rest =
    if is_nonpos n
    then (c, err short_write)
    else if ltb (length bytes) (to_ℕ n)
    then (c, panic)
    else rest

-- `for len(data) > 0`, on fuel for the rounds; the case without fuel is not reached.
unfoldable pub write_loop : {C E : Type 0} → Conn C E → ℕ → C → Bytes → Sent C E
write_loop conn fuel c [] = (c, ok tt)
write_loop conn zero c (b ∷ bs) = (c, panic)
write_loop conn (suc fuel) c (b ∷ bs) =
    let done = conn.write c (b ∷ bs) in
    let rest = write_loop conn fuel done.0 (drop (to_ℕ done.1) (b ∷ bs)) in
    after_write done.0 done.1 done.2 (b ∷ bs) rest

-- Each round of the loop takes a byte at least, so the length is fuel enough.
unfoldable pub write_all : {C E : Type 0} → Conn C E → C → Bytes → Sent C E
unfolding write_loop
write_all conn c bytes = write_loop conn (length bytes) c bytes

-- `if err := …; err != nil { return err }`, and then the next write.
abbrev pub then_write : {C E : Type 0} → Sent C E → (C → Sent C E) → Sent C E
then_write (c, ok _) next = next c
then_write (c, err e) next = (c, err e)
then_write (c, panic) next = (c, panic)

abbrev pub write_frame : {C E : Type 0} → Conn C E → C → Bytes → Sent C E
write_frame conn c payload =
    if length payload == 0 || ltb max_frame_size (length payload)
    then (c, err size_out_of_range)
    else then_write (write_all conn c (put_uint32 (length payload)))
        (λ c'. write_all conn c' payload)

-- With what `json.Marshal` gives.
abbrev pub write_marshalled : {C E : Type 0} → Conn C E → C → Outcome E Bytes → Sent C E
write_marshalled conn c (ok payload) = write_frame conn c payload
write_marshalled conn c (err e) = (c, err (reported e))
write_marshalled conn c panic = (c, panic)

unfoldable pub write_message : {C E : Type 0} → Conn C E → Json E → C → Message → Sent C E
unfolding write_all put_uint32
write_message conn json c msg = write_marshalled conn c (json.marshal msg)
