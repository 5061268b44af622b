-- ===== src/Tcpclient/Roundtrip.antt =====
-- A message from one end of the connection to the other.
use moe_asset_updater_client.Base.{
  Bool, ◌≤◌, ◌<◌, ◌≡◌, refl, ap, ◌∙◌, false, ◌||◌, Option, [], ◌++◌, arith, ltb, ◌==◌, length,
  Bytes, equal, Bool-cases, inl, inr,
}
use moe_asset_updater_client.Base.Outcome.{Outcome, ok, err, panic}
use mathlib.Core.Path.{subst}
use moe_asset_updater_client.Tcpclient.{
  Message, FrameError, Json, Conn, Sent, max_frame_size, read_message, size_out_of_range, reported,
  write_frame, write_marshalled, write_message,
}
use moe_asset_updater_client.Tcpclient.Framing.{
  KeepsContract, IsDelivered, frame, write_message-IsDelivered, read_message-frame,
}

module _ {C E : Type 0} (conn : Conn C E) (json : Json E) (c : C) (msg : Message) where
  -- A frame that was written has a size in range.
  in_range :
      (payload : Bytes) {c' : C}
      → write_frame conn c payload ≡ (c', ok tt)
      → (0 < length payload) × (length payload ≤ max_frame_size)
  in_range payload e =
      elim (Bool-cases (length payload == 0 || ltb max_frame_size (length payload))) [
        | inl out ↦ absurd (refused (rw out at e))
        | inr within ↦ (ground arith, ground arith)
      ]
    where
      refused : {c' : C} → ◌≡◌ {A = Sent C E} (c, err size_out_of_range) (c', ok tt) → ⊥
      refused h =
          let k : ◌≡◌ {A = Outcome (FrameError E) (Unit {0})} (err size_out_of_range) (ok tt) =
            ap (λ p. p.1) h in
          cc

  -- A message that was written has an encoding.
  encoded :
      (m : Outcome E Bytes) {c' : C}
      → write_marshalled conn c m ≡ (c', ok tt)
      → (payload : Bytes) × (m ≡ ok payload) × (write_frame conn c payload ≡ (c', ok tt))
  encoded (ok payload) e = (payload, refl, e)
  encoded (err x) e =
      let k : ◌≡◌ {A = Outcome (FrameError E) (Unit {0})} (err (reported x)) (ok tt) =
        ap (λ p. p.1) e in
      cc
  encoded panic e =
      let k : ◌≡◌ {A = Outcome (FrameError E) (Unit {0})} panic (ok tt) = ap (λ p. p.1) e in cc

  found :
      {c' : C}
      → write_message conn json c msg ≡ (c', ok tt)
      → (payload : Bytes) × (json.marshal msg ≡ ok payload)
        × (write_frame conn c payload ≡ (c', ok tt))
  unfolding write_message
  found e = encoded (json.marshal msg) e

-- Over a connection that keeps the contract of `io.Writer` and on which nothing was sent before, and
-- with a JSON package that decodes the message from its encoding: a message with a type that was
-- written without an error is read back at the other end, and what was sent after it is still to be
-- read.
pub read_message-write_message :
    {C E : Type 0} (conn : Conn C E) (sent : C → Bytes) (json : Json E) (c : C) (msg : Message)
    → KeepsContract conn sent
    → ((p : Bytes) → json.marshal msg ≡ ok p → json.unmarshal p ≡ ok msg)
    → sent c ≡ []
    → equal msg.type [] ≡ false
    → {c' : C} → write_message conn json c msg ≡ (c', ok tt)
    → (rest : Bytes) (fault : Option E) (cut : Bool)
    → read_message json (record { content = sent c' ++ rest; fault = fault; cut = cut })
      ≡ ok (msg, record { content = rest; fault = fault; cut = cut })
read_message-write_message {E = E} conn sent json c msg keeps decodes fresh typed {c'} written rest
      fault cut =
    let (payload, m, w) = found conn json c msg written in
    let (filled, le) = in_range conn json c msg payload w in
    let d : IsDelivered {E = E} sent c (frame payload) (c', ok tt) =
      subst (IsDelivered sent c (frame payload)) written
        (write_message-IsDelivered conn sent keeps json c msg payload m) in
    let all_sent : sent c' ≡ frame payload = d ∙ ap (λ x. x ++ frame payload) fresh in
    rw all_sent
      (read_message-frame json msg payload rest fault cut filled le (decodes payload m) typed)
