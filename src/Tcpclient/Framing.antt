-- ===== src/Tcpclient/Framing.antt =====
-- What a connection carries, and that a written message is read back.
use moe_asset_updater_client.Base.{
  Bool, ℕ, zero, suc, ◌+◌, ◌^◌, ◌≤◌, ◌<◌, ◌≡◌, refl, sym, ap, ◌∙◌, true, false, ◌||◌, Option, none,
  some, [], ◌∷◌, ◌++◌, append-nil, append_assoc, arith, ltb, ◌==◌, if◌then◌else◌, length, take,
  drop, length-drop, length-append, take-append-drop, take-length_append, drop-length_append,
  take-split, drop-split, Bytes, equal, le→leb, le→not_ltb, pos→not_zero,
}
use moe_asset_updater_client.Base.Int.{pos, to_ℕ}
use moe_asset_updater_client.Base.Outcome.{ok, err, panic}
use moe_asset_updater_client.Base.Io.{full, read_full}
use moe_asset_updater_client.Tcpclient.{
  Message, Json, Conn, Sent, max_frame_size, get_uint32, put_uint32, report, read_payload,
  read_header, read_message, after_write, then_write, write_loop, write_all, write_frame,
  write_message, size_out_of_range,
}

-- The contract of `io.Writer`: the count lies within the slice, and that many bytes of it are sent.
pub record KeepsContract {C E : Type 0} (conn : Conn C E) (sent : C → Bytes) : Type 0 where
  pub count :
      (c : C) (bytes : Bytes) → (k : ℕ) × ((conn.write c bytes).1 ≡ pos k) × (k ≤ length bytes)
  pub sends :
      (c : C) (bytes : Bytes)
      → sent (conn.write c bytes).0 ≡ sent c ++ take (to_ℕ (conn.write c bytes).1) bytes

-- From c, the bytes were sent, or with an error a part of them from the front, and nothing panicked.
abbrev pub IsDelivered : {C E : Type 0} → (C → Bytes) → C → Bytes → Sent C E → Type 0
IsDelivered sent c bytes (c', ok _) = sent c' ≡ sent c ++ bytes
IsDelivered sent c bytes (c', err e) =
    (k : ℕ) × (k ≤ length bytes) × (sent c' ≡ sent c ++ take k bytes)
IsDelivered sent c bytes (c', panic) = ⊥

take_more :
    (k m : ℕ) (bytes : Bytes)
    → k ≤ length bytes
    → take k bytes ++ take m (drop k bytes) ≡ take (k + m) bytes
take_more zero m bytes h = let e : m ≡ 0 + m = omega arith in ap (λ n. take n bytes) e
take_more (suc k) m [] h = absurd (omega arith)
take_more (suc k) m (b ∷ bs) h =
    let e : suc k + m ≡ suc (k + m) = omega arith in
    rw e (ap (◌∷◌ b) (take_more k m bs (omega arith)))

module _ {C E : Type 0} (sent : C → Bytes) where
  -- First k bytes, then what the other rounds make of the rest.
  rest-IsDelivered :
      (c c' : C) (k : ℕ) (bytes : Bytes) (rest : Sent C E)
      → k ≤ length bytes
      → sent c' ≡ sent c ++ take k bytes
      → IsDelivered sent c' (drop k bytes) rest
      → IsDelivered sent c bytes rest
  rest-IsDelivered c c' k bytes (c'', ok _) le e d =
      d
      ∙ ap (λ x. x ++ drop k bytes) e
      ∙ append_assoc (sent c) (take k bytes) (drop k bytes)
      ∙ ap (λ x. sent c ++ x) (take-append-drop k bytes)
  rest-IsDelivered c c' k bytes (c'', err x) le e (m, lm, d) = (
    k + m,
    omega (arith, length-drop k bytes),
    d
        ∙ ap (λ x. x ++ take m (drop k bytes)) e
        ∙ append_assoc (sent c) (take k bytes) (take m (drop k bytes))
        ∙ ap (λ x. sent c ++ x) (take_more k m bytes le),
  )
  rest-IsDelivered c c' k bytes (c'', panic) le e d = d

  after_write-IsDelivered :
      (c c' : C) (k : ℕ) (error : Option E) (bytes : Bytes) (rest : Sent C E)
      → k ≤ length bytes
      → sent c' ≡ sent c ++ take k bytes
      → (0 < k → IsDelivered sent c' (drop k bytes) rest)
      → IsDelivered sent c bytes (after_write c' (pos k) error bytes rest)
  after_write-IsDelivered c c' k (some x) bytes rest le e d = (k, le, e)
  after_write-IsDelivered c c' zero none bytes rest le e d = (0, omega arith, e)
  after_write-IsDelivered c c' (suc k) none bytes rest le e d =
      rw (pos→not_zero (suc k) (omega arith), le→not_ltb (suc k) (length bytes) le)
        (rest-IsDelivered c c' (suc k) bytes rest le e (d (omega arith)))

module _ {C E : Type 0} (conn : Conn C E) (sent : C → Bytes) (keeps : KeepsContract conn sent) where
  write_loop-IsDelivered :
      (fuel : ℕ) (c : C) (bytes : Bytes)
      → length bytes ≤ fuel
      → IsDelivered sent c bytes (write_loop conn fuel c bytes)
  unfolding write_loop
  write_loop-IsDelivered fuel c [] h = sym (append-nil (sent c))
  write_loop-IsDelivered zero c (b ∷ bs) h = absurd (omega arith)
  write_loop-IsDelivered (suc fuel) c (b ∷ bs) h =
      let (k, n_k, le) = keeps.count c (b ∷ bs) in
      let done = conn.write c (b ∷ bs) in
      let taken : sent done.0 ≡ sent c ++ take k (b ∷ bs) =
        keeps.sends c (b ∷ bs) ∙ ap (λ n. sent c ++ take (to_ℕ n) (b ∷ bs)) n_k in
      rw n_k (
        after_write-IsDelivered sent c done.0 k done.2 (b ∷ bs) _ le taken λ some_sent.
          write_loop-IsDelivered fuel done.0 (drop k (b ∷ bs))
            (omega (arith, length-drop k (b ∷ bs))))

  write_all-IsDelivered :
      (c : C) (bytes : Bytes) → IsDelivered sent c bytes (write_all conn c bytes)
  unfolding write_all
  write_all-IsDelivered c bytes = write_loop-IsDelivered (length bytes) c bytes (omega arith)

-- The size in four bytes, and the payload.
abbrev pub frame : Bytes → Bytes
frame payload = put_uint32 (length payload) ++ payload

take-take_append : (k : ℕ) (xs ys : Bytes) → k ≤ length xs → take k (xs ++ ys) ≡ take k xs
take-take_append zero xs ys h = refl
take-take_append (suc k) [] ys h = absurd (omega arith)
take-take_append (suc k) (x ∷ xs) ys h = ap (◌∷◌ x) (take-take_append k xs ys (omega arith))

module _ {C E : Type 0} (sent : C → Bytes) where
  -- One delivery after another.
  both-IsDelivered :
      (c : C) (xs ys : Bytes) (first : Sent C E) (second : C → Sent C E)
      → IsDelivered sent c xs first
      → ((c' : C) → IsDelivered sent c' ys (second c'))
      → IsDelivered sent c (xs ++ ys) (then_write first second)
  both-IsDelivered c xs ys (c', ok _) second d h =
      rest-IsDelivered sent c c' (length xs) (xs ++ ys) (second c')
        (omega (arith, length-append xs ys))
        (d ∙ ap (λ x. sent c ++ x) (sym (take-length_append xs ys)))
        (rw (drop-length_append xs ys) (h c'))
  both-IsDelivered c xs ys (c', err x) second (k, le, d) h = (
    k,
    omega (arith, length-append xs ys),
    d ∙ ap (λ x. sent c ++ x) (sym (take-take_append k xs ys le)),
  )
  both-IsDelivered c xs ys (c', panic) second d h = d

module _ {C E : Type 0} (conn : Conn C E) (sent : C → Bytes) (keeps : KeepsContract conn sent)
    (json : Json E) where
  write_frame-IsDelivered :
      (c : C) (payload : Bytes) → IsDelivered sent c (frame payload) (write_frame conn c payload)
  write_frame-IsDelivered c payload =
      elim (length payload == 0 || ltb max_frame_size (length payload))
        as (λ out. IsDelivered sent c (frame payload) (
          if out
          then (c, err size_out_of_range)
          else then_write (write_all conn c (put_uint32 (length payload)))
              (λ c'. write_all conn c' payload))) [
                | true ↦ (0, omega arith, sym (append-nil (sent c)))
                | false ↦
                    both-IsDelivered sent c (put_uint32 (length payload)) payload
                      (write_all conn c (put_uint32 (length payload)))
                      (λ c'. write_all conn c' payload)
                      (write_all-IsDelivered conn sent keeps c (put_uint32 (length payload)))
                      (λ c'. write_all-IsDelivered conn sent keeps c' payload)
              ]

  marshalled :
      (c : C) (msg : Message) (payload : Bytes)
      → json.marshal msg ≡ ok payload
      → write_message conn json c msg ≡ write_frame conn c payload
  unfolding write_message
  marshalled c msg payload e = rw (write_message, e)

  -- Where the connection keeps the contract of `io.Writer` and the message has an encoding, the call
  -- does not panic: without an error the whole frame was sent, and with one a front part of it.
  pub write_message-IsDelivered :
      (c : C) (msg : Message) (payload : Bytes)
      → json.marshal msg ≡ ok payload
      → IsDelivered sent c (frame payload) (write_message conn json c msg)
  write_message-IsDelivered c msg payload e =
      rw (marshalled c msg payload e) (write_frame-IsDelivered c payload)

get_uint32-put_uint32 : (n : ℕ) → n < 2 ^ 32 → get_uint32 (put_uint32 n) ≡ n
unfolding get_uint32 put_uint32
get_uint32-put_uint32 n h = omega arith

read_full-append :
    {E : Type 0} (n : ℕ) (xs ys : Bytes) (fault : Option E) (cut : Bool)
    → length xs ≡ n
    → read_full (record { content = xs ++ ys; fault = fault; cut = cut }) n
      ≡ full xs (record { content = ys; fault = fault; cut = cut })
unfolding read_full
read_full-append n xs ys fault cut e = rw (
  read_full,
  le→leb n (length (xs ++ ys)) (omega (arith, length-append xs ys)),
  take-split n xs ys e,
  drop-split n xs ys e,
)

length-put_uint32 : (n : ℕ) → length (put_uint32 n) ≡ 4
unfolding put_uint32
length-put_uint32 n = refl

module _ {E : Type 0} (json : Json E) (msg : Message) (payload rest : Bytes) (fault : Option E)
    (cut : Bool) where
  payload_read :
      json.unmarshal payload ≡ ok msg
      → equal msg.type [] ≡ false
      → read_payload json (full payload (record { content = rest; fault = fault; cut = cut }))
        ≡ ok (msg, record { content = rest; fault = fault; cut = cut })
  unfolding report
  payload_read e t = rw (e, t)

  header_read :
      0 < length payload
      → length payload ≤ max_frame_size
      → read_header json (
          full
            (put_uint32 (length payload))
            (record { content = payload ++ rest; fault = fault; cut = cut }))
        ≡ read_payload json (full payload (record { content = rest; fault = fault; cut = cut }))
  header_read filled le = rw (
    get_uint32-put_uint32 (length payload) (omega arith),
    pos→not_zero (length payload) filled,
    le→not_ltb (length payload) max_frame_size le,
    read_full-append (length payload) payload rest fault cut refl,
  )

  -- A frame whose size is in range and whose payload decodes to a message with a type is read whole,
  -- and the reader stands after it, whatever follows.
  pub read_message-frame :
      0 < length payload
      → length payload ≤ max_frame_size
      → json.unmarshal payload ≡ ok msg
      → equal msg.type [] ≡ false
      → read_message json (record { content = frame payload ++ rest; fault = fault; cut = cut })
        ≡ ok (msg, record { content = rest; fault = fault; cut = cut })
  unfolding read_message
  read_message-frame filled le e t = rw (append_assoc (put_uint32 (length payload)) payload rest) (
      ap (read_header json) (
        read_full-append 4 (put_uint32 (length payload)) (payload ++ rest) fault cut
          (length-put_uint32 (length payload)))
      ∙ header_read filled le
      ∙ payload_read e t)
