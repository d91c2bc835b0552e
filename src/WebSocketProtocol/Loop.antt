-- ===== src/WebSocketProtocol/Loop.antt =====
-- `recvMessage` of web_socket_protocol.cc on an open connection.
use brickred_server.Base.{
  ℕ, zero, suc, ◌^◌, ◌≤◌, ◌<◌, ◌≡◌, refl, sym, ap, ◌∙◌, subst, List, [], ◌++◌, Option, none, some,
  ◌⊎◌, length, arith, inl, inr, All, All-append,
}
use brickred_server.WebSocketProtocol.{
  Status, connected, finished, closed, pending_error, RetCode, error, message_ready, peer_closed,
  ping_received, pong_received, waiting_more_data, Impl, Next, failed, waiting, again, special,
  Turn, read_frame, Received, received, sent_before, recv_message, after_turn, status_handler, turn,
}
use brickred_server.WebSocketProtocol.Outcomes.{Fits, IsTurn}
use brickred_server.WebSocketProtocol.Turns.{read_frame-IsTurn}

-- A connection between two calls of `recvMessage`.
pub record IsOpen (s : Impl) : Type 0 where
  pub opened : s.status ≡ connected
  pub bounded : length s.message ≤ s.message_size_max
  pub small : s.message_size_max < 2 ^ 63
  pub calm : s.control_message ≡ []

-- The states in which `recvMessage` leaves an open connection, with the code it returns.
pub data Reached : Status → RetCode → Type 0 where
  waits_for_more : Reached connected waiting_more_data
  had_ping : Reached connected ping_received
  had_pong : Reached connected pong_received
  has_message : Reached finished message_ready
  peer_left : Reached closed peer_closed
  broken : Reached pending_error error

-- The message is within its limit, what was sent in answer fits its buffer, control_message_ is
-- empty unless there was an error, and the state goes with the code.
pub record IsAnswer (s : Impl) (r : Received) : Type 0 where
  pub bounded : length r.state.message ≤ s.message_size_max
  pub same_max : r.state.message_size_max ≡ s.message_size_max
  pub same_side : r.state.is_client ≡ s.is_client
  pub fitting : All (Fits s.is_client) r.sent
  pub calm : (r.code ≡ error) ⊎ (r.state.control_message ≡ [])
  pub reached : Reached r.state.status r.code

Next-cases : (n : Next) → ((n ≡ failed) ⊎ (n ≡ waiting)) ⊎ ((n ≡ again) ⊎ (n ≡ special))
Next-cases failed = inl (inl refl)
Next-cases waiting = inl (inr refl)
Next-cases again = inr (inl refl)
Next-cases special = inr (inr refl)

special_code :
    (t : Turn)
    → (t.state.ret_code ≡ ping_received) ⊎ (t.state.ret_code ≡ pong_received)
    → Reached connected t.state.ret_code
special_code t (inl e) = subst (Reached connected) (sym e) had_ping
special_code t (inr e) = subst (Reached connected) (sym e) had_pong

-- A turn that ends the loop with the connection still open.
open-IsAnswer :
    (s : Impl) (buffer : List ℕ) (t : Turn) (code : RetCode)
    → IsTurn s.message_size_max s.is_client buffer t
    → (t.next ≡ waiting) ⊎ (t.next ≡ special)
    → Reached connected code
    → IsAnswer s (received t code)
open-IsAnswer s buffer t code v ends goes = record {
  bounded = v.bounded;
  same_max = v.same_max;
  same_side = v.same_side;
  fitting = v.fitting;
  calm = inr (ground (arith, v.calm, ends));
  reached =
      let opened : t.state.status ≡ connected = ground (arith, v.status, ends) in
      subst (λ st. Reached st code) (sym opened) goes;
}

-- A turn that fails breaks the connection.
failed-IsAnswer :
    (s : Impl) (buffer : List ℕ) (t : Turn)
    → IsTurn s.message_size_max s.is_client buffer t
    → IsAnswer s (received (record t { state = record t.state { status = pending_error } }) error)
failed-IsAnswer s buffer t v = record {
  bounded = v.bounded;
  same_max = v.same_max;
  same_side = v.same_side;
  fitting = v.fitting;
  calm = inl refl;
  reached = broken;
}

-- A turn that ends the loop with a whole message, or with the end of the connection.
last-IsAnswer :
    (s : Impl) (buffer : List ℕ) (t : Turn) (code : RetCode)
    → IsTurn s.message_size_max s.is_client buffer t
    → t.next ≡ again
    → Reached t.state.status code
    → IsAnswer s (received t code)
last-IsAnswer s buffer t code v e reached = record {
  bounded = v.bounded;
  same_max = v.same_max;
  same_side = v.same_side;
  fitting = v.fitting;
  calm = inr (ground (arith, v.calm, e));
  reached = reached;
}

-- The state after a turn with which the loop goes on.
next-IsOpen :
    (s : Impl) (buffer : List ℕ) (t : Turn)
    → IsOpen s
    → IsTurn s.message_size_max s.is_client buffer t
    → t.next ≡ again
    → t.state.status ≡ connected
    → IsOpen t.state
next-IsOpen s buffer t v w e opened = record {
  opened = opened;
  bounded = omega (arith, w.bounded, w.same_max);
  small = omega (arith, v.small, w.same_max);
  calm = ground (arith, w.calm, e);
}

-- An answer of the later turns, with what was sent before.
later-IsAnswer :
    (s : Impl) (buffer : List ℕ) (t : Turn) (r : Received)
    → IsTurn s.message_size_max s.is_client buffer t
    → IsAnswer t.state r
    → IsAnswer s (record r { sent = t.sent ++ r.sent })
later-IsAnswer s buffer t r v a = record {
  bounded = omega (arith, a.bounded, v.same_max);
  same_max = a.same_max ∙ v.same_max;
  same_side = a.same_side ∙ v.same_side;
  fitting =
      All-append (Fits s.is_client) t.sent r.sent v.fitting
        (subst (λ side. All (Fits side) r.sent) v.same_side a.fitting);
  calm = a.calm;
  reached = a.reached;
}

goes_on :
    (t : Turn) (rest : Option Received)
    → t.next ≡ again
    → t.state.status ≡ connected
    → after_turn t rest ≡ sent_before t.sent rest
goes_on t rest e opened = rw (e, opened) refl

module _ (handshake : Impl → (ℕ → ℕ) → List ℕ → Turn) where
  pub one_turn :
      (fuel : ℕ) (s : Impl) (key : ℕ → ℕ) (buffer : List ℕ)
      → s.status ≡ connected
      → recv_message handshake (suc fuel) s key buffer
        ≡ after_turn (read_frame s key buffer) (
            recv_message handshake fuel
              (read_frame s key buffer).state
              key
              (read_frame s key buffer).buffer)
  unfolding recv_message
  one_turn fuel s key buffer opened =
      ap
        (λ (found : Option Turn). elim found [
          | none ↦ some (received (turn s buffer failed) error)
          | some t ↦ after_turn t (recv_message handshake fuel t.state key t.buffer)
        ])
        (ap (λ st. status_handler handshake st s key buffer) opened)

  -- For a buffer of fewer than 2 ^ 63 bytes, recvMessage on an open connection with an empty
  -- control_message_ and a message within its limit, which is below 2 ^ 63, always returns: one
  -- round for each byte of the buffer and one more are enough. It then leaves a message within its
  -- limit and an empty control_message_ unless there was an error, and each frame that it sent in
  -- answer fits the buffer on the stack that it is built in. It is still connected just behind
  -- WAITING_MORE_DATA, PING_RECEIVED and PONG_RECEIVED, finished behind MESSAGE_READY, closed
  -- behind PEER_CLOSED and in PENDING_ERROR behind ERROR.
  pub recv_message_lem :
      (fuel : ℕ) (s : Impl) (key : ℕ → ℕ) (buffer : List ℕ)
      → IsOpen s
      → length buffer < fuel
      → length buffer < 2 ^ 63
      → (r : Received) × ((recv_message handshake fuel s key buffer ≡ some r) × IsAnswer s r)
  recv_message_lem zero s key buffer v enough fits = absurd (omega arith)
  recv_message_lem (suc fuel) s key buffer v enough fits =
      let t = read_frame s key buffer in
      let w = read_frame-IsTurn s key buffer v.opened v.bounded v.small v.calm fits in
      let run = one_turn fuel s key buffer v.opened in
      elim (Next-cases t.next) [
        | inl (inl e) ↦ (_, (run ∙ rw e refl, failed-IsAnswer s buffer t w))
        | inl (inr e) ↦ (
          _,
          (run ∙ rw e refl, open-IsAnswer s buffer t waiting_more_data w (inl e) waits_for_more),
        )
        | inr (inl e) ↦ elim w.status [
          | inl opened ↦
              let (r, (later, answer)) =
                recv_message_lem fuel t.state key t.buffer (next-IsOpen s buffer t v w e opened)
                  (omega (arith, w.shrinks e)) (omega (arith, w.shrinks e)) in
              (
                _,
                (
                  run ∙ (goes_on t _ e opened ∙ ap (sent_before t.sent) later),
                  later-IsAnswer s buffer t r w answer,
                ),
              )
          | inr (more, inl done) ↦ (
            _,
            (
              run ∙ rw (e, done) refl,
              last-IsAnswer s buffer t message_ready w e
                  (subst (λ st. Reached st message_ready) (sym done) has_message),
            ),
          )
          | inr (more, inr done) ↦ (
            _,
            (
              run ∙ rw (e, done) refl,
              last-IsAnswer s buffer t peer_closed w e
                  (subst (λ st. Reached st peer_closed) (sym done) peer_left),
            ),
          )
        ]
        | inr (inr e) ↦ (
          _,
          (
            run ∙ rw e refl,
            open-IsAnswer s buffer t t.state.ret_code w (inr e) (special_code t (w.code e)),
          ),
        )
      ]
