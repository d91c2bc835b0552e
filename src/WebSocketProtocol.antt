-- ===== src/WebSocketProtocol.antt =====
-- src/brickred/protocol/web_socket_protocol.cc: the frames and the states of a connection. A
-- `DynamicBuffer` is its readable bytes, `random_generator_` the four bytes of the next mask key,
-- and each call of `output_cb_` one string of bytes. The handshake, which is HTTP, is a function
-- that `recv_message` takes.
pub mod Frame
pub mod RoundTrip
pub mod Limits
pub mod Outcomes
pub mod Turns
pub mod Loop
pub mod Delivery
mod Tests
use brickred_server.Base.{
  ℕ, zero, suc, ◌==◌, Bool, true, false, not, ◌&&◌, Option, none, some, List, [], ◌∷◌, ◌++◌, length,
  drop, leb, if◌then◌else◌,
}
use brickred_server.WebSocketProtocol.Frame.{
  message_frame, close_frame, ping_frame, pong_frame, wait, fail, go, Frame as ParsedFrame,
  is_control, parse_frame,
}

pub data Status : Type 0 where
  detached waiting_handshake_request waiting_handshake_response connected : Status
  finished closed pending_error : Status

pub data RetCode : Type 0 where
  error waiting_more_data connection_established message_ready peer_closed : RetCode
  ping_received pong_received : RetCode

-- `last_op_code` is `none` for -1, and `has_output` says that output_cb_ is set.
pub record Impl : Type 0 where
  pub status : Status
  pub has_output : Bool
  pub control_message : List ℕ
  pub message : List ℕ
  pub is_client : Bool
  pub close_frame_sent : Bool
  pub last_op_code : Option ℕ
  pub ret_code : RetCode
  pub message_size_max : ℕ

-- The constructors of `Impl` and of `WebSocketProtocol`.
abbrev pub new : Impl
new = record {
  status = detached;
  has_output = false;
  control_message = [];
  message = [];
  is_client = false;
  close_frame_sent = false;
  last_op_code = none;
  ret_code = error;
  message_size_max = 1048576;
}

abbrev pub is_connected : Status → Bool
is_connected connected = true
is_connected _ = false

abbrev pub is_finished : Status → Bool
is_finished finished = true
is_finished _ = false

abbrev pub is_detached : Status → Bool
is_detached detached = true
is_detached _ = false

unfoldable pub start_as_server : Impl → Impl × Bool
start_as_server s =
    if not (is_detached s.status)
    then (s, false)
    else (record s { status = waiting_handshake_request; is_client = false }, true)

unfoldable pub set_message_max_size : Impl → ℕ → Impl
set_message_max_size s size = if size == 0 then s else record s { message_size_max = size }

-- A frame is sent on an open connection only.
abbrev pub send : Impl → List ℕ → List (List ℕ)
send s frame =
    if not (is_connected s.status)
    then []
    else if s.close_frame_sent
    then []
    else if s.has_output
    then frame ∷ []
    else []

unfoldable pub send_message : Impl → (ℕ → ℕ) → List ℕ → List (List ℕ)
send_message s mask_key payload = send s (message_frame s.is_client mask_key payload)

unfoldable pub send_ping_frame : Impl → List (List ℕ)
send_ping_frame s = send s (ping_frame s.is_client)

unfoldable pub send_pong_frame : Impl → (ℕ → ℕ) → List (List ℕ)
send_pong_frame s mask_key = send s (pong_frame s.is_client mask_key s.control_message)

unfoldable pub send_close_frame : Impl → Impl × List (List ℕ)
send_close_frame s = (
  (if is_connected s.status && not s.close_frame_sent
      then record s { close_frame_sent = true }
      else s),
  send s (close_frame s.is_client),
)

unfoldable pub retrieve_message : Impl → Option (List ℕ × Impl)
retrieve_message s =
    if not (is_finished s.status)
    then none
    else some (s.message, record s { message = []; status = connected })

-- The int of a status handler: -1, 0, 1 and 2.
pub data Next : Type 0 where
  failed waiting again special : Next

-- What a status handler leaves: the state, the bytes not read yet, what was sent, the result.
pub record Turn : Type 0 where
  pub state : Impl
  pub buffer : List ℕ
  pub sent : List (List ℕ)
  pub next : Next

abbrev pub turn : Impl → List ℕ → Next → Turn
turn s buffer next = record { state = s; buffer = buffer; sent = []; next = next }

abbrev pub keep_payload : Impl → Bool → List ℕ → Impl
keep_payload s control payload =
    if control
    then record s { control_message = s.control_message ++ payload }
    else record s { message = s.message ++ payload }

-- A close frame is answered by one, and ends the connection.
abbrev pub on_close : Impl → List ℕ → Turn
on_close s buffer =
    let (s', sent) = send_close_frame s in
    record {
      state = record s' { status = closed; control_message = []; message = [] };
      buffer = buffer;
      sent = sent;
      next = again;
    }

-- A ping frame is answered by a pong frame with its payload.
abbrev pub on_ping : Impl → (ℕ → ℕ) → List ℕ → Turn
on_ping s mask_key buffer = record {
  state = record s { control_message = []; ret_code = ping_received };
  buffer = buffer;
  sent = send_pong_frame s mask_key;
  next = special;
}

-- The kinds of frames that end a message, by their opcode.
unfoldable pub dispatch : Impl → (ℕ → ℕ) → List ℕ → ℕ → Turn
dispatch s mask_key buffer opcode =
    if opcode == 0x1
    then turn (record s { status = finished }) buffer again
    else if opcode == 0x2
    then turn (record s { status = finished }) buffer again
    else if opcode == 0x8
    then on_close s buffer
    else if opcode == 0x9
    then on_ping s mask_key buffer
    else if opcode == 0xa
    then turn (record s { control_message = []; ret_code = pong_received }) buffer special
    else turn s buffer failed

-- A fragment that does not end its message.
abbrev pub fragment : Impl → List ℕ → ℕ → Turn
fragment s buffer opcode =
    if not (opcode == 0)
    then elim s.last_op_code [
      | none ↦ turn (record s { last_op_code = some opcode }) buffer again
      | some _ ↦ turn s buffer failed
    ]
    else elim s.last_op_code [ none ↦ turn s buffer failed | some _ ↦ turn s buffer again ]

-- A frame that ends its message, or is one.
abbrev pub final : Impl → (ℕ → ℕ) → List ℕ → ℕ → Turn
final s mask_key buffer opcode =
    if opcode == 0
    then elim s.last_op_code [
      | none ↦ turn s buffer failed
      | some first ↦ dispatch (record s { last_op_code = none }) mask_key buffer first
    ]
    else elim s.last_op_code [
      | none ↦ dispatch s mask_key buffer opcode
      | some _ ↦
          if is_control opcode then dispatch s mask_key buffer opcode else turn s buffer failed
    ]

unfoldable pub process_frame : Impl → (ℕ → ℕ) → List ℕ → ParsedFrame → Turn
process_frame s mask_key buffer f =
    let s' = keep_payload s (is_control f.opcode) f.payload in
    let buffer' = drop f.end buffer in
    if not f.fin then fragment s' buffer' f.opcode else final s' mask_key buffer' f.opcode

unfoldable pub read_frame : Impl → (ℕ → ℕ) → List ℕ → Turn
read_frame s mask_key buffer =
    elim (parse_frame s.is_client (length s.message) s.message_size_max buffer) [
      | wait ↦ turn s buffer waiting
      | fail ↦ turn s buffer failed
      | go f ↦ process_frame s mask_key buffer f
    ]

-- What `recvMessage` leaves, with the code that it returns.
pub record Received : Type 0 where
  pub state : Impl
  pub buffer : List ℕ
  pub sent : List (List ℕ)
  pub code : RetCode

abbrev pub received : Turn → RetCode → Received
received t code = record { state = t.state; buffer = t.buffer; sent = t.sent; code = code }

-- What was sent before a later turn.
abbrev pub sent_before : List (List ℕ) → Option Received → Option Received
sent_before sent none = none
sent_before sent (some r) = some (record r { sent = sent ++ r.sent })

-- The end of a turn of the loop of `recvMessage`; `rest` is what the later turns leave.
abbrev pub after_turn : Turn → Option Received → Option Received
after_turn t rest = elim t.next [
  | waiting ↦ some (received t waiting_more_data)
  | failed ↦ some (received (record t { state = record t.state { status = pending_error } }) error)
  | special ↦ some (received t t.state.ret_code)
  | again ↦ elim t.state.status [
    | finished ↦ some (received t message_ready)
    | closed ↦ some (received t peer_closed)
    | _ ↦ sent_before t.sent rest
  ]
]

module _ (handshake : Impl → (ℕ → ℕ) → List ℕ → Turn) where
  -- s_status_handler_, `none` for a null pointer.
  abbrev pub status_handler : Status → Impl → (ℕ → ℕ) → List ℕ → Option Turn
  status_handler status s mask_key buffer = elim status [
    | waiting_handshake_request ↦ some (handshake s mask_key buffer)
    | waiting_handshake_response ↦ some (handshake s mask_key buffer)
    | connected ↦ some (read_frame s mask_key buffer)
    | _ ↦ none
  ]

  -- The loop of `recvMessage`; `none` when the fuel runs out.
  unfoldable pub recv_message : ℕ → Impl → (ℕ → ℕ) → List ℕ → Option Received
  recv_message zero s mask_key buffer = none
  recv_message (suc fuel) s mask_key buffer = elim (status_handler s.status s mask_key buffer) [
    | none ↦ some (received (turn s buffer failed) error)
    | some t ↦ after_turn t (recv_message fuel t.state mask_key t.buffer)
  ]
