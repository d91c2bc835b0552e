-- ===== src/WebSocketProtocol/Delivery.antt =====
-- Messages of web_socket_protocol.cc from one end of a connection to the other.
use brickred_server.Base.{
  ℕ, suc, ◌+◌, ◌≤◌, ◌≡◌, refl, ap, ◌∙◌, true, false, not, List, [], ◌∷◌, ◌++◌, none, some, length,
  drop, arith, drop-append_length,
}
use brickred_server.WebSocketProtocol.{
  connected, finished, message_ready, Impl, again, waiting, failed, Turn, turn, send_message,
  dispatch, process_frame, read_frame, recv_message, retrieve_message, after_turn,
}
use brickred_server.WebSocketProtocol.Frame.{
  message_frame, parse_frame, Step, go, Frame as ParsedFrame, wait, fail,
}
use brickred_server.WebSocketProtocol.RoundTrip.{parse_frame-message_frame}
use brickred_server.WebSocketProtocol.Loop.{IsOpen, one_turn}

-- The state with a whole message, and the one after `retrieveMessage`.
abbrev pub with_message : Impl → List ℕ → Impl
with_message r payload = record r { status = finished; message = r.message ++ payload }

abbrev pub emptied : Impl → Impl
emptied r = record r { status = connected; message = [] }

-- The turn that a frame brings about.
read_frame_go :
    (r : Impl) (key : ℕ → ℕ) (buffer : List ℕ) (f : ParsedFrame)
    → parse_frame r.is_client (length r.message) r.message_size_max buffer ≡ go f
    → read_frame r key buffer ≡ process_frame r key buffer f
unfolding read_frame
read_frame_go r key buffer f e =
    ap
      (λ (step : Step ParsedFrame). elim step [
        | wait ↦ turn r buffer waiting
        | fail ↦ turn r buffer failed
        | go g ↦ process_frame r key buffer g
      ])
      e

whole_message :
    (r : Impl) (key : ℕ → ℕ) (buffer payload rest : List ℕ) (end : ℕ)
    → r.last_op_code ≡ none
    → drop end buffer ≡ rest
    → process_frame r key buffer (record { fin = true; opcode = 2; payload = payload; end = end })
      ≡ turn (with_message r payload) rest again
unfolding process_frame dispatch
whole_message r key buffer payload rest end first after = simp (first, after)

module _ (handshake : Impl → (ℕ → ℕ) → List ℕ → Turn) where
  -- What sendMessage sends on a connection that is open, with an output and no close frame sent,
  -- arrives whole and unmasked at an open connection of the other side, if that one is not within
  -- a fragmented message, its control_message_ is empty, its limit is below 2 ^ 63, and the
  -- payload fits the limit together with the message held there. It is put behind the message
  -- held, nothing after it is read, and retrieveMessage then gives the message and opens the
  -- connection for the following one.
  pub message_delivered :
      (s r : Impl) (key other : ℕ → ℕ) (payload rest : List ℕ) (fuel : ℕ)
      → s.status ≡ connected
      → s.close_frame_sent ≡ false
      → s.has_output ≡ true
      → IsOpen r
      → r.last_op_code ≡ none
      → r.is_client ≡ not s.is_client
      → length r.message + length payload ≤ r.message_size_max
      → (frame : List ℕ) × ((send_message s key payload ≡ frame ∷ [])
          × ((recv_message handshake (suc fuel) r other (frame ++ rest)
                ≡ some (record {
                  state = with_message r payload;
                  buffer = rest;
                  sent = [];
                  code = message_ready;
                }))
              × (retrieve_message (with_message r payload)
                  ≡ some (r.message ++ payload, emptied r))))
  unfolding send_message retrieve_message
  message_delivered s r key other payload rest fuel up unsent out v first side room =
      let frame : List ℕ = message_frame s.is_client key payload in
      let parsed =
        parse_frame-message_frame s.is_client key payload rest (length r.message) r.message_size_max
          (omega (arith, v.small)) room (omega (arith, v.small)) in
      let parsed_here =
        ap (λ c. parse_frame c (length r.message) r.message_size_max (frame ++ rest)) side
        ∙ parsed in
      let read =
        read_frame_go r other (frame ++ rest) _ parsed_here
        ∙ whole_message r other (frame ++ rest) payload rest (length frame) first
            (drop-append_length (length frame) frame rest refl) in
      (
        frame,
        (
          rw (up, unsent, out) refl,
          (
            one_turn handshake fuel r other (frame ++ rest) v.opened
                ∙ ap
                    (λ (t : Turn).
                      after_turn t (recv_message handshake fuel t.state other t.buffer))
                    read,
            refl,
          ),
        ),
      )
