-- ===== src/WebSocketProtocol/Outcomes.antt =====
-- What a turn of the loop of web_socket_protocol.cc may leave, and the turns that end one.
use brickred_server.Base.{
  ℕ, ◌≤◌, ◌<◌, ◌≡◌, refl, Bool, true, false, not, ◌&&◌, List, [], ◌⊎◌, length, if◌then◌else◌, arith,
  Bool-cases, inl, inr, All,
}
use brickred_server.WebSocketProtocol.{
  connected, finished, closed, RetCode, ping_received, pong_received, waiting, special, Impl,
  is_connected, send, send_close_frame, send_pong_frame, Next, failed, again, Turn, turn, on_close,
  on_ping,
}
use brickred_server.WebSocketProtocol.Frame.{close_frame, pong_frame}
use brickred_server.WebSocketProtocol.RoundTrip.{length-mask_payload}

-- The stack buffers of `sendPongFrame` have 256 bytes at a client and 128 at a server.
abbrev pub Fits : Bool → List ℕ → Type 0
Fits is_client frame = length frame ≤ (if is_client then 256 else 128)

pong_frame-Fits :
    (is_client : Bool) (key : ℕ → ℕ) (payload : List ℕ)
    → length payload ≤ 125
    → Fits is_client (pong_frame is_client key payload)
unfolding pong_frame
pong_frame-Fits true key payload h = omega (arith, length-mask_payload key 0 payload)
pong_frame-Fits false key payload h = omega arith

close_frame-Fits : (is_client : Bool) → Fits is_client (close_frame is_client)
unfolding close_frame
close_frame-Fits true = omega arith
close_frame-Fits false = omega arith

send-Fits :
    (s : Impl) (frame : List ℕ) → Fits s.is_client frame → All (Fits s.is_client) (send s frame)
send-Fits s frame h = elim (Bool-cases (not (is_connected s.status))) [
  | inl shut ↦ rw shut tt
  | inr opened ↦ elim (Bool-cases s.close_frame_sent) [
    | inl sent ↦ rw (opened, sent) tt
    | inr unsent ↦ elim (Bool-cases s.has_output) [
      | inl out ↦ rw (opened, unsent, out) (h, tt)
      | inr silent ↦ rw (opened, unsent, silent) tt
    ]
  ]
]

-- A turn at an open connection: the message stays within its limit, the frames that answer fit
-- their buffers, control_message_ is empty unless the turn failed, and a turn after which the loop
-- goes on has read some bytes.
pub record IsTurn (message_size_max : ℕ) (is_client : Bool) (buffer : List ℕ) (t : Turn)
    : Type 0 where
  pub bounded : length t.state.message ≤ message_size_max
  pub same_max : t.state.message_size_max ≡ message_size_max
  pub same_side : t.state.is_client ≡ is_client
  pub fitting : All (Fits is_client) t.sent
  pub calm : (t.next ≡ failed) ⊎ (t.state.control_message ≡ [])
  pub status :
      (t.state.status ≡ connected)
      ⊎ ((t.next ≡ again) × ((t.state.status ≡ finished) ⊎ (t.state.status ≡ closed)))
  pub shrinks : t.next ≡ again → length t.buffer < length buffer
  pub code :
      t.next ≡ special → (t.state.ret_code ≡ ping_received) ⊎ (t.state.ret_code ≡ pong_received)

-- The result 2 of a status handler.
abbrev pub is_special : Next → Bool
is_special special = true
is_special _ = false

no_code :
    (next : Next) (code : RetCode)
    → is_special next ≡ false
    → next ≡ special
    → (code ≡ ping_received) ⊎ (code ≡ pong_received)
no_code failed code h e = cc
no_code waiting code h e = cc
no_code again code h e = cc
no_code special code h e = cc

pub on_close-IsTurn :
    (s : Impl) (buffer left : List ℕ)
    → length left < length buffer
    → IsTurn s.message_size_max s.is_client buffer (on_close s left)
unfolding send_close_frame
on_close-IsTurn s buffer left less =
    let sent = send-Fits s (close_frame s.is_client) (close_frame-Fits s.is_client) in
    elim (Bool-cases (is_connected s.status && not s.close_frame_sent)) [
      | inl first ↦ rw first (record {
        bounded = omega arith;
        same_max = refl;
        same_side = refl;
        fitting = sent;
        calm = inr refl;
        status = inr (refl, inr refl);
        shrinks = λ e. less;
        code = no_code again s.ret_code refl;
      })
      | inr later ↦ rw later (record {
        bounded = omega arith;
        same_max = refl;
        same_side = refl;
        fitting = sent;
        calm = inr refl;
        status = inr (refl, inr refl);
        shrinks = λ e. less;
        code = no_code again s.ret_code refl;
      })
    ]

pub on_ping-IsTurn :
    (s : Impl) (key : ℕ → ℕ) (buffer left : List ℕ)
    → s.status ≡ connected
    → length s.message ≤ s.message_size_max
    → length s.control_message ≤ 125
    → length left < length buffer
    → IsTurn s.message_size_max s.is_client buffer (on_ping s key left)
unfolding send_pong_frame
on_ping-IsTurn s key buffer left opened bound short less = record {
  bounded = bound;
  same_max = refl;
  same_side = refl;
  fitting =
      send-Fits s (pong_frame s.is_client key s.control_message)
        (pong_frame-Fits s.is_client key s.control_message short);
  calm = inr refl;
  status = inl opened;
  shrinks = λ e. less;
  code = λ e. inl refl;
}

-- A turn that sends nothing and stays connected.
pub quiet_turn :
    (s : Impl) (buffer left : List ℕ) (next : Next)
    → is_special next ≡ false
    → s.status ≡ connected
    → length s.message ≤ s.message_size_max
    → (next ≡ failed) ⊎ (s.control_message ≡ [])
    → (next ≡ again → length left < length buffer)
    → IsTurn s.message_size_max s.is_client buffer (turn s left next)
quiet_turn s buffer left next plain opened bound calm less = record {
  bounded = bound;
  same_max = refl;
  same_side = refl;
  fitting = tt;
  calm = calm;
  status = inl opened;
  shrinks = less;
  code = no_code next s.ret_code plain;
}

-- The turn at a pong frame.
pub pong_turn :
    (s : Impl) (buffer left : List ℕ)
    → s.status ≡ connected
    → length s.message ≤ s.message_size_max
    → s.control_message ≡ []
    → s.ret_code ≡ pong_received
    → IsTurn s.message_size_max s.is_client buffer (turn s left special)
pong_turn s buffer left opened bound calm code = record {
  bounded = bound;
  same_max = refl;
  same_side = refl;
  fitting = tt;
  calm = inr calm;
  status = inl opened;
  shrinks = λ e. absurd (ground (arith, e));
  code = λ e. inr code;
}

-- A turn that ends a message.
pub finished_turn :
    (s : Impl) (buffer left : List ℕ)
    → length s.message ≤ s.message_size_max
    → s.control_message ≡ []
    → length left < length buffer
    → IsTurn s.message_size_max s.is_client buffer
        (turn (record s { status = finished }) left again)
finished_turn s buffer left bound calm less = record {
  bounded = bound;
  same_max = refl;
  same_side = refl;
  fitting = tt;
  calm = inr calm;
  status = inr (refl, inl refl);
  shrinks = λ e. less;
  code = no_code again s.ret_code refl;
}
