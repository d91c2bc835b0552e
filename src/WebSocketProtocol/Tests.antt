-- ===== src/WebSocketProtocol/Tests.antt =====
-- Connections of web_socket_protocol.cc at concrete inputs.
use brickred_server.Base.{
  ℕ, ◌+◌, ◌*◌, ◌≡◌, refl, true, List, [], ◌∷◌, ◌++◌, Option, none, some, arith,
}
use brickred_server.WebSocketProtocol.{
  connected, message_ready, Impl, new, failed, Turn, turn, send_message, send_pong_frame,
  read_frame, process_frame, dispatch, Received, recv_message, retrieve_message,
}
use brickred_server.WebSocketProtocol.Frame.{
  mask_payload, message_frame, length_bytes, pong_frame, parse_frame, read_rest, payload_length,
  frame_key, frame_payload,
}
use brickred_server.WebSocketProtocol.Loop.{IsOpen, IsAnswer, recv_message_lem}
use brickred_server.WebSocketProtocol.Delivery.{with_message, emptied, message_delivered}

abbrev no_handshake : Impl → (ℕ → ℕ) → List ℕ → Turn
no_handshake s key buffer = turn s buffer failed

abbrev server : Impl
server = record new { status = connected; has_output = true }

abbrev client : Impl
client = record new { status = connected; has_output = true; is_client = true }

abbrev key : ℕ → ℕ
key i = 17 * i + 200

server-IsOpen : IsOpen server
server-IsOpen = record { opened = refl; bounded = omega arith; small = omega arith; calm = refl }

client-IsOpen : IsOpen client
client-IsOpen = record { opened = refl; bounded = omega arith; small = omega arith; calm = refl }

code_of : Option Received → Option (List (List ℕ))
code_of none = none
code_of (some r) = some (r.state.message ∷ r.buffer ∷ r.sent)

-- A fragment, a ping with one byte, and the end of the message.
abbrev three_frames : List ℕ
three_frames = 0x01 ∷ 1 ∷ 97 ∷ 0x89 ∷ 1 ∷ 5 ∷ 0x80 ∷ 1 ∷ 98 ∷ []

ping_between_fragments :
    code_of (recv_message no_handshake 10 client key three_frames)
    ≡ some
        ((97 ∷ []) ∷ (0x80 ∷ 1 ∷ 98 ∷ []) ∷ (0x8a ∷ 0x81 ∷ 200 ∷ 217 ∷ 234 ∷ 251 ∷ 205 ∷ []) ∷ [])
unfolding code_of recv_message read_frame process_frame dispatch parse_frame read_rest
    payload_length frame_key frame_payload send_pong_frame pong_frame mask_payload
ping_between_fragments = refl

masked_message :
    message_frame true key (104 ∷ 105 ∷ []) ≡ 0x82 ∷ 0x82 ∷ 200 ∷ 217 ∷ 234 ∷ 251 ∷ 160 ∷ 176 ∷ []
unfolding message_frame length_bytes mask_payload
masked_message = refl

unmasked_frame_refused :
    code_of (recv_message no_handshake 4 server key (0x82 ∷ 1 ∷ 97 ∷ []))
    ≡ some ([] ∷ (0x82 ∷ 1 ∷ 97 ∷ []) ∷ [])
unfolding code_of recv_message read_frame parse_frame read_rest payload_length frame_key
unmasked_frame_refused = refl

recv_message_lem_example :
    (r : Received) × ((recv_message no_handshake 10 client key three_frames ≡ some r)
      × IsAnswer client r)
recv_message_lem_example =
    recv_message_lem no_handshake 10 client key three_frames client-IsOpen (omega arith)
      (omega arith)

message_delivered_example :
    (frame : List ℕ) × ((send_message client key (104 ∷ 105 ∷ []) ≡ frame ∷ [])
      × ((recv_message no_handshake 3 server key (frame ++ (0x88 ∷ []))
            ≡ some (record {
              state = with_message server (104 ∷ 105 ∷ []);
              buffer = 0x88 ∷ [];
              sent = [];
              code = message_ready;
            }))
          × (retrieve_message (with_message server (104 ∷ 105 ∷ []))
              ≡ some (server.message ++ (104 ∷ 105 ∷ []), emptied server))))
message_delivered_example =
    message_delivered no_handshake client server key key (104 ∷ 105 ∷ []) (0x88 ∷ []) 2 refl refl
      refl server-IsOpen refl refl (omega arith)
