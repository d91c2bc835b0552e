-- ===== src/WebSocketProtocol/Turns.antt =====
-- What one turn of `readFrame` of web_socket_protocol.cc leaves.
use brickred_server.Base.{
  ℕ, ◌^◌, ◌≤◌, ◌<◌, ◌≡◌, refl, Bool, true, false, not, List, [], ◌++◌, none, ◌⊎◌, length, drop,
  ◌==◌, if◌then◌else◌, arith, Bool-cases, Option-cases, inl, inr, length-append, length-drop,
}
use brickred_server.WebSocketProtocol.{
  connected, Impl, failed, waiting, again, turn, keep_payload, dispatch, fragment, final,
  process_frame, read_frame,
}
use brickred_server.WebSocketProtocol.Frame.{
  Step, wait, fail, go, is_control, parse_frame, Frame as ParsedFrame,
}
use brickred_server.WebSocketProtocol.Limits.{OnGo, IsAccepted, parse_frame_lem}
use brickred_server.WebSocketProtocol.Outcomes.{
  IsTurn, on_close-IsTurn, on_ping-IsTurn, quiet_turn, pong_turn, finished_turn,
}

dispatch-IsTurn :
    (s : Impl) (key : ℕ → ℕ) (buffer left : List ℕ) (opcode : ℕ)
    → s.status ≡ connected
    → length s.message ≤ s.message_size_max
    → length s.control_message ≤ 125
    → (is_control opcode ≡ true) ⊎ (s.control_message ≡ [])
    → length left < length buffer
    → IsTurn s.message_size_max s.is_client buffer (dispatch s key left opcode)
unfolding dispatch
dispatch-IsTurn s key buffer left opcode opened bound short calm less =
    let empty : is_control opcode ≡ false → s.control_message ≡ [] = λ d. ground (arith, calm, d) in
    elim (Bool-cases (opcode == 0x1)) [
      | inl e ↦ rw e (finished_turn s buffer left bound (empty (ground (arith, e))) less)
      | inr n1 ↦ elim (Bool-cases (opcode == 0x2)) [
        | inl e ↦ rw (n1, e) (finished_turn s buffer left bound (empty (ground (arith, e))) less)
        | inr n2 ↦ elim (Bool-cases (opcode == 0x8)) [
          | inl e ↦ rw (n1, n2, e) (on_close-IsTurn s buffer left less)
          | inr n8 ↦ elim (Bool-cases (opcode == 0x9)) [
            | inl e ↦ rw (n1, n2, n8, e) (on_ping-IsTurn s key buffer left opened bound short less)
            | inr n9 ↦ elim (Bool-cases (opcode == 0xa)) [
              | inl e ↦ rw (n1, n2, n8, n9, e) (pong_turn _ buffer left opened bound refl refl)
              | inr na ↦
                  rw (n1, n2, n8, n9, na)
                    (quiet_turn _ buffer left failed refl opened bound (inl refl) (λ e. less))
            ]
          ]
        ]
      ]
    ]

fragment-IsTurn :
    (s : Impl) (buffer left : List ℕ) (opcode : ℕ)
    → s.status ≡ connected
    → length s.message ≤ s.message_size_max
    → s.control_message ≡ []
    → length left < length buffer
    → IsTurn s.message_size_max s.is_client buffer (fragment s left opcode)
fragment-IsTurn s buffer left opcode opened bound calm less = elim (Bool-cases (opcode == 0)) [
  | inl e ↦ elim (Option-cases s.last_op_code) [
    | inl none_yet ↦
        rw (e, none_yet) (quiet_turn _ buffer left failed refl opened bound (inl refl) (λ e. less))
    | inr (first, begun) ↦
        rw (e, begun) (quiet_turn _ buffer left again refl opened bound (inr calm) (λ e. less))
  ]
  | inr n ↦ elim (Option-cases s.last_op_code) [
    | inl none_yet ↦
        rw (n, none_yet) (quiet_turn _ buffer left again refl opened bound (inr calm) (λ e. less))
    | inr (first, begun) ↦
        rw (n, begun) (quiet_turn _ buffer left failed refl opened bound (inl refl) (λ e. less))
  ]
]

final-IsTurn :
    (s : Impl) (key : ℕ → ℕ) (buffer left : List ℕ) (opcode : ℕ)
    → s.status ≡ connected
    → length s.message ≤ s.message_size_max
    → length s.control_message ≤ 125
    → (is_control opcode ≡ true) ⊎ (s.control_message ≡ [])
    → length left < length buffer
    → IsTurn s.message_size_max s.is_client buffer (final s key left opcode)
final-IsTurn s key buffer left opcode opened bound short calm less =
    elim (Bool-cases (opcode == 0)) [
      | inl e ↦ elim (Option-cases s.last_op_code) [
        | inl none_yet ↦
            rw (e, none_yet)
              (quiet_turn _ buffer left failed refl opened bound (inl refl) (λ e. less))
        | inr (first, begun) ↦
            rw (e, begun)
              (dispatch-IsTurn (record s { last_op_code = none }) key buffer left first opened bound
                short (inr (ground (arith, calm, e))) less)
      ]
      | inr n ↦ elim (Option-cases s.last_op_code) [
        | inl none_yet ↦
            rw (n, none_yet) (dispatch-IsTurn s key buffer left opcode opened bound short calm less)
        | inr (first, begun) ↦ elim (Bool-cases (is_control opcode)) [
          | inl c ↦
              rw (n, begun, c)
                (dispatch-IsTurn s key buffer left opcode opened bound short calm less)
          | inr d ↦
              rw (n, begun, d)
                (quiet_turn _ buffer left failed refl opened bound (inl refl) (λ e. less))
        ]
      ]
    ]

-- The kind of the frame is a variable here, so that the state it is kept in computes.
kept-IsTurn :
    (s : Impl) (key : ℕ → ℕ) (buffer : List ℕ) (f : ParsedFrame) (control : Bool)
    → is_control f.opcode ≡ control
    → s.status ≡ connected
    → length s.message ≤ s.message_size_max
    → s.control_message ≡ []
    → IsAccepted (length s.message) s.message_size_max buffer f
    → length (drop f.end buffer) < length buffer
    → IsTurn s.message_size_max s.is_client buffer (
        if not f.fin
        then fragment (keep_payload s control f.payload) (drop f.end buffer) f.opcode
        else final (keep_payload s control f.payload) key (drop f.end buffer) f.opcode)
kept-IsTurn s key buffer f true c opened bound calm a less =
    let short : length (s.control_message ++ f.payload) ≤ 125 = rw calm (a.short c) in
    rw (a.whole c) (
      final-IsTurn (record s { control_message = s.control_message ++ f.payload }) key buffer
        (drop f.end buffer) f.opcode opened bound short (inl c) less)
kept-IsTurn s key buffer f false d opened bound calm a less =
    let room : length (s.message ++ f.payload) ≤ s.message_size_max =
      omega (arith, length-append s.message f.payload, a.room d) in
    let s' : Impl = record s { message = s.message ++ f.payload } in
    elim (Bool-cases f.fin) [
      | inl last ↦ rw last (
          final-IsTurn s' key buffer (drop f.end buffer) f.opcode opened room
            (rw calm (omega arith)) (inr calm) less)
      | inr more ↦
          rw more (fragment-IsTurn s' buffer (drop f.end buffer) f.opcode opened room calm less)
    ]

process_frame-IsTurn :
    (s : Impl) (key : ℕ → ℕ) (buffer : List ℕ) (f : ParsedFrame)
    → s.status ≡ connected
    → length s.message ≤ s.message_size_max
    → s.control_message ≡ []
    → IsAccepted (length s.message) s.message_size_max buffer f
    → IsTurn s.message_size_max s.is_client buffer (process_frame s key buffer f)
unfolding process_frame
process_frame-IsTurn s key buffer f opened bound calm a =
    kept-IsTurn s key buffer f (is_control f.opcode) refl opened bound calm a
      (omega (arith, length-drop f.end buffer, a.header, a.inside))

step-IsTurn :
    (s : Impl) (key : ℕ → ℕ) (buffer : List ℕ) (step : Step ParsedFrame)
    → s.status ≡ connected
    → length s.message ≤ s.message_size_max
    → s.control_message ≡ []
    → OnGo (IsAccepted (length s.message) s.message_size_max buffer) step
    → IsTurn s.message_size_max s.is_client buffer (elim step [
      | wait ↦ turn s buffer waiting
      | fail ↦ turn s buffer failed
      | go f ↦ process_frame s key buffer f
    ])
step-IsTurn s key buffer wait opened bound calm a =
    quiet_turn s buffer buffer waiting refl opened bound (inr calm)
      (λ e. absurd (ground (arith, e)))
step-IsTurn s key buffer fail opened bound calm a =
    quiet_turn s buffer buffer failed refl opened bound (inr calm) (λ e. absurd (ground (arith, e)))
step-IsTurn s key buffer (go f) opened bound calm a =
    process_frame-IsTurn s key buffer f opened bound calm a

pub read_frame-IsTurn :
    (s : Impl) (key : ℕ → ℕ) (buffer : List ℕ)
    → s.status ≡ connected
    → length s.message ≤ s.message_size_max
    → s.message_size_max < 2 ^ 63
    → s.control_message ≡ []
    → length buffer < 2 ^ 63
    → IsTurn s.message_size_max s.is_client buffer (read_frame s key buffer)
unfolding read_frame
read_frame-IsTurn s key buffer opened bound small calm fits =
    step-IsTurn s key buffer (parse_frame s.is_client (length s.message) s.message_size_max buffer)
      opened bound calm
      (parse_frame_lem s.is_client (length s.message) s.message_size_max buffer (omega arith) fits)
