-- ===== src/HttpProtocol/Returning.antt =====
-- `recvMessage` of http_protocol.cc returns, whatever comes in.
use brickred_server.Base.{
  ℕ, zero, suc, ◌+◌, ◌≤◌, ◌<◌, ◌≡◌, refl, sym, subst, true, false, Option, none, some, List, arith,
  Bool-cases, inl, inr,
}
use brickred_server.Base.Int.{ℤ}
use brickred_server.HttpProtocol.Message.{Message as HttpMessage}
use brickred_server.HttpProtocol.{
  Status, reading_start_line, reading_header, reading_body, reading_trailer_header, finished,
  pending_error, RetCode, error, waiting_more_data, message_ready, Impl, Next, failed, waiting,
  again, Turn, Received, received, handler, has_handler, is_finished, after_turn, read_start_line,
  read_header, read_body, recv_message,
}
use brickred_server.HttpProtocol.Turns.{
  rank, Keeps, Ends, IsTurn, read_start_line-IsTurn, read_header-IsTurn,
}
use brickred_server.HttpProtocol.Bodies.{read_body-IsTurn}

-- What goes with each code that is returned.
abbrev pub Answers : RetCode → Status → Type 0
Answers error st = 4 ≤ rank st
Answers waiting_more_data st = rank st < 4
Answers message_ready st = st ≡ finished

module _ (scan_hex : List ℕ → Option ℕ) (to_string : ℕ → List ℕ) (atoi : List ℕ → ℤ) where
  abbrev pub Yields : ℕ → Option Received → Type 0
  Yields max o =
      (r : Received) × (o ≡ some r)
      × (r.state.body_max_size ≡ max)
      × Keeps r.state.status r.state.message max
      × Answers r.code r.state.status

  status-Keeps :
      (s : Impl) (st : Status) (o : Option HttpMessage)
      → s.status ≡ st
      → s.message ≡ o
      → Keeps st o s.body_max_size
      → Keeps s.status s.message s.body_max_size
  status-Keeps s st o at here k = rw (at, here) k

  handler-IsTurn :
      (s : Impl) (buffer : List ℕ) (st : Status) (o : Option HttpMessage)
      → s.status ≡ st
      → s.message ≡ o
      → Keeps st o s.body_max_size
      → has_handler st ≡ true
      → (t : Turn) × (handler scan_hex to_string atoi st o s buffer ≡ some t)
        × IsTurn s.body_max_size st t
  unfolding handler
  handler-IsTurn s buffer reading_start_line o at here k h =
      (read_start_line atoi s buffer, refl, read_start_line-IsTurn atoi s buffer at)
  handler-IsTurn s buffer reading_header none at here k h = absurd k
  handler-IsTurn s buffer reading_header (some m) at here k h = (
    read_header s m buffer,
    refl,
    subst (λ st. IsTurn s.body_max_size st (read_header s m buffer)) at
        (read_header-IsTurn s m buffer here k (status-Keeps s reading_header (some m) at here k)
          (inl at)),
  )
  handler-IsTurn s buffer reading_body none at here k h = absurd k
  handler-IsTurn s buffer reading_body (some m) at here k h = (
    read_body scan_hex to_string atoi s m buffer,
    refl,
    subst (λ st. IsTurn s.body_max_size st (read_body scan_hex to_string atoi s m buffer)) at
        (read_body-IsTurn s m buffer here k (status-Keeps s reading_body (some m) at here k) at
          scan_hex to_string atoi),
  )
  handler-IsTurn s buffer reading_trailer_header none at here k h = absurd k
  handler-IsTurn s buffer reading_trailer_header (some m) at here k h = (
    read_header s m buffer,
    refl,
    subst (λ st. IsTurn s.body_max_size st (read_header s m buffer)) at
        (read_header-IsTurn s m buffer here k
          (status-Keeps s reading_trailer_header (some m) at here k) (inr at)),
  )
  handler-IsTurn s buffer finished o at here k h = cc
  handler-IsTurn s buffer pending_error o at here k h = cc

  not_finished : (st : Status) → rank st ≤ 4 → is_finished st ≡ false → rank st ≤ 3
  not_finished reading_start_line h e = omega arith
  not_finished reading_header h e = omega arith
  not_finished reading_body h e = omega arith
  not_finished reading_trailer_header h e = omega arith
  not_finished finished h e = cc
  not_finished pending_error h e = omega (arith, h)

  is_finished-eq : (st : Status) → is_finished st ≡ true → st ≡ finished
  is_finished-eq finished e = refl
  is_finished-eq reading_start_line e = cc
  is_finished-eq reading_header e = cc
  is_finished-eq reading_body e = cc
  is_finished-eq reading_trailer_header e = cc
  is_finished-eq pending_error e = cc

  has_handler-rank : (st : Status) → has_handler st ≡ true → rank st < 4
  has_handler-rank reading_start_line e = omega arith
  has_handler-rank reading_header e = omega arith
  has_handler-rank reading_body e = omega arith
  has_handler-rank reading_trailer_header e = omega arith
  has_handler-rank finished e = cc
  has_handler-rank pending_error e = cc

  no_handler-rank : (st : Status) → has_handler st ≡ false → 4 ≤ rank st
  no_handler-rank reading_start_line e = cc
  no_handler-rank reading_header e = cc
  no_handler-rank reading_body e = cc
  no_handler-rank reading_trailer_header e = cc
  no_handler-rank finished e = omega arith
  no_handler-rank pending_error e = omega arith

  rank_of : (st old : Status) → st ≡ old → rank old < 4 → rank st < 4
  rank_of st old e low = rw e low

  after_turn-Yields :
      (loop : Impl → List ℕ → Option Received) (max : ℕ) (old : Status) (t : Turn) (n : Next)
      → t.next ≡ n
      → rank old < 4
      → IsTurn max old t
      → (is_finished t.state.status ≡ false → t.next ≡ again → Yields max (loop t.state t.buffer))
      → Yields max (after_turn loop t)
  after_turn-Yields loop max old t failed e low h next =
      rw (e, after_turn)
        (
          received (record t.state { status = pending_error }) t.buffer error,
          refl,
          h.0,
          tt,
          omega arith,
        )
  after_turn-Yields loop max old t waiting e low h next =
      let ends : Ends waiting max old t.state = subst (λ n. Ends n max old t.state) e h.1 in
      rw (e, after_turn)
        (
          received t.state t.buffer waiting_more_data,
          refl,
          h.0,
          subst (λ st. Keeps st t.state.message max) (sym ends.0) ends.1,
          rank_of t.state.status old ends.0 low,
        )
  after_turn-Yields loop max old t again e low h next =
      let ends : Ends again max old t.state = subst (λ n. Ends n max old t.state) e h.1 in
      elim (Bool-cases (is_finished t.state.status)) [
        | inl f ↦
            let at : t.state.status ≡ finished = is_finished-eq t.state.status f in
            rw (e, after_turn)
              (rw f (received t.state t.buffer message_ready, refl, h.0, ends.2, at))
        | inr f ↦ rw (e, after_turn) (rw f (next f e))
      ]

  next_round :
      (fuel : ℕ) (s : Impl) (t : Turn)
      → t.next ≡ again
      → IsTurn s.body_max_size s.status t
      → is_finished t.state.status ≡ false
      → 4 ≤ suc fuel + rank s.status
      → (1 ≤ fuel
          → 4 ≤ fuel + rank t.state.status
          → Keeps t.state.status t.state.message t.state.body_max_size
          → Yields t.state.body_max_size
              (recv_message scan_hex to_string atoi fuel t.state t.buffer))
      → Yields s.body_max_size (recv_message scan_hex to_string atoi fuel t.state t.buffer)
  next_round fuel s t at good f enough next =
      let ends : Ends again s.body_max_size s.status t.state =
        subst (λ n. Ends n s.body_max_size s.status t.state) at good.1 in
      let low : rank t.state.status ≤ 3 = not_finished t.state.status ends.1 f in
      subst (λ max. Yields max (recv_message scan_hex to_string atoi fuel t.state t.buffer)) good.0
        (next (omega (arith, enough, ends.0, low)) (omega (arith, enough, ends.0))
          (subst (λ max. Keeps t.state.status t.state.message max) (sym good.0) ends.2))

  -- In a state that keeps a message with a body within the limit wherever a handler wants one,
  -- recvMessage returns after at most four rounds, whatever bytes come in, and leaves such a
  -- state with the same limit. MESSAGE_READY goes with a finished message, WAITING_MORE_DATA with
  -- a status that reads on, and ERROR with one that does not.
  pub recv_returns :
      (fuel : ℕ) (s : Impl) (buffer : List ℕ)
      → 1 ≤ fuel
      → 4 ≤ fuel + rank s.status
      → Keeps s.status s.message s.body_max_size
      → Yields s.body_max_size (recv_message scan_hex to_string atoi fuel s buffer)
  unfolding recv_message
  recv_returns zero s buffer some_round enough k = absurd (omega (arith, some_round))
  recv_returns (suc fuel) s buffer some_round enough k = elim (Bool-cases (has_handler s.status)) [
    | inr e ↦
        rw (e, recv_message) (received s buffer error, refl, refl, k, no_handler-rank s.status e)
    | inl e ↦
        let (t, run, good) = handler-IsTurn s buffer s.status s.message refl refl k e in
        rw (e, recv_message)
          (rw run (
            after_turn-Yields (recv_message scan_hex to_string atoi fuel) s.body_max_size s.status t
              t.next refl (has_handler-rank s.status e) good
              (λ f at.
                next_round fuel s t at good f enough
                  (λ some_round enough k. recv_returns fuel t.state t.buffer some_round enough k))))
  ]
