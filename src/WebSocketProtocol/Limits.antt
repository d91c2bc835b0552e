-- ===== src/WebSocketProtocol/Limits.antt =====
-- What `readFrame` of web_socket_protocol.cc knows of a frame that it accepts.
use brickred_server.Base.{
  ℕ, ◌+◌, ◌-◌, ◌%◌, ◌^◌, ◌≤◌, ◌<◌, ◌≡◌, refl, ◌∙◌, bit_and, Bool, true, false, not, ◌&&◌, List, [],
  ◌∷◌, Option, none, some, length, take, drop, ltb, leb, ◌==◌, arith, Bool-cases, inl, inr,
  length-take, length-drop,
}
use brickred_server.DynamicBuffer.Queue.{peek}
use brickred_server.WebSocketProtocol.Frame.{
  Step, wait, fail, go, ◌>>=◌, length16, length64, payload_length, frame_key, unmask, frame_payload,
  frame_body, Frame, is_control, read_rest, parse_frame,
}
use brickred_server.WebSocketProtocol.RoundTrip.{length-mask_payload}

-- A property of what was read, if anything was.
abbrev pub OnGo : {A : Type 0} → (A → Type 0) → Step A → Type 0
OnGo P wait = Unit
OnGo P fail = Unit
OnGo P (go a) = P a

OnGo-bind :
    {A B : Type 0} {P : A → Type 0} (Q : B → Type 0) (step : Step A) (f : A → Step B)
    → OnGo P step
    → ((a : A) → P a → OnGo Q (f a))
    → OnGo Q (step >>= f)
OnGo-bind Q wait f h k = tt
OnGo-bind Q fail f h k = tt
OnGo-bind Q (go a) f h k = k a h

weaken :
    {A : Type 0} {P : A → Type 0} (Q : A → Type 0) (step : Step A)
    → OnGo P step
    → ((a : A) → P a → Q a)
    → OnGo Q step
weaken Q wait h k = tt
weaken Q fail h k = tt
weaken Q (go a) h k = k a h

length-unmask : (mask_key : Option (ℕ → ℕ)) (xs : List ℕ) → length (unmask mask_key xs) ≡ length xs
length-unmask none xs = refl
length-unmask (some mask_key) xs = length-mask_payload mask_key 0 xs

-- The two length fields lie in the buffer.
length16_lem :
    (buffer : List ℕ)
    → OnGo (λ r. (2 ≤ r.1) × (r.1 ≤ length buffer)) (length16 (peek 2 2 false buffer))
length16_lem buffer = elim (Bool-cases (ltb (length buffer) (2 + 2))) [
  | inl short ↦ rw short tt
  | inr there ↦ rw there (ground arith)
]

length64_lem :
    (buffer : List ℕ)
    → OnGo (λ r. (2 ≤ r.1) × (r.1 ≤ length buffer)) (length64 (peek 8 2 false buffer))
length64_lem buffer = elim (Bool-cases (ltb (length buffer) (2 + 8))) [
  | inl short ↦ rw short tt
  | inr there ↦ rw there (ground arith)
]

-- The end of the length field; a control frame has 125 bytes at most.
payload_length_lem :
    (control : Bool) (b1 : ℕ) (buffer : List ℕ)
    → 2 ≤ length buffer
    → OnGo
        (λ r. ((2 ≤ r.1) × (r.1 ≤ length buffer)) × (control ≡ true → r.0 ≤ 125))
        (payload_length control b1 buffer)
unfolding payload_length
payload_length_lem control b1 buffer two = elim (Bool-cases (control && leb 126 (bit_and b1 127))) [
  | inl long ↦ rw long tt
  | inr limited ↦ elim (Bool-cases (bit_and b1 127 == 126)) [
    | inl e ↦
        rw (limited, e)
          (weaken _ (length16 (peek 2 2 false buffer)) (length16_lem buffer)
            (λ r h. (h, λ c. absurd (ground (arith, limited, e, c)))))
    | inr d ↦ elim (Bool-cases (bit_and b1 127 == 127)) [
      | inl e ↦
          rw (limited, d, e)
            (weaken _ (length64 (peek 8 2 false buffer)) (length64_lem buffer)
              (λ r h. (h, λ c. absurd (ground (arith, limited, e, c)))))
      | inr f ↦ rw (limited, d, f) ((omega arith, two), λ c. ground (arith, limited, c))
    ]
  ]
]

frame_key_lem :
    (is_client : Bool) (b1 : ℕ) (buffer : List ℕ) (p : ℕ)
    → 2 ≤ p
    → p ≤ length buffer
    → OnGo (λ r. (2 ≤ r.1) × (r.1 ≤ length buffer)) (frame_key is_client b1 buffer p)
unfolding frame_key
frame_key_lem true b1 buffer p two inside = ground arith
frame_key_lem false b1 buffer p two inside = ground arith

frame_payload_lem :
    (mask_key : Option (ℕ → ℕ)) (buffer : List ℕ) (p n : ℕ)
    → 2 ≤ p
    → p ≤ length buffer
    → OnGo
        (λ r. ((2 ≤ r.1) × (r.1 ≤ length buffer)) × ((length r.0 ≡ n) × (n ≤ length buffer)))
        (frame_payload mask_key buffer p n)
unfolding frame_payload
frame_payload_lem mask_key buffer p n two inside = elim (Bool-cases (n == 0)) [
  | inl empty ↦ rw empty ((two, inside), (ground arith, ground arith))
  | inr some_left ↦ elim (Bool-cases (ltb (length buffer - p) n)) [
    | inl short ↦ rw (some_left, short) tt
    | inr enough ↦
        rw (some_left, enough)
          (
            (omega arith, ground arith),
            (
              length-unmask mask_key (take n (drop p buffer))
                  ∙ ground (arith, length-take n (drop p buffer), length-drop p buffer),
              ground arith,
            ),
          )
  ]
]

frame_body_lem :
    (is_client : Bool) (b1 : ℕ) (buffer : List ℕ) (p n : ℕ)
    → 2 ≤ p
    → p ≤ length buffer
    → OnGo
        (λ r. ((2 ≤ r.1) × (r.1 ≤ length buffer)) × ((length r.0 ≡ n) × (n ≤ length buffer)))
        (frame_body is_client b1 buffer p n)
frame_body_lem is_client b1 buffer p n two inside =
    OnGo-bind _ (frame_key is_client b1 buffer p) _ (frame_key_lem is_client b1 buffer p two inside)
      (λ r h. frame_payload_lem r.0 buffer r.1 n h.0 h.1)

-- What is known of a frame that was accepted.
pub record IsAccepted (stored message_size_max : ℕ) (buffer : List ℕ) (f : Frame) : Type 0 where
  pub header : 2 ≤ f.end
  pub inside : f.end ≤ length buffer
  pub whole : is_control f.opcode ≡ true → f.fin ≡ true
  pub short : is_control f.opcode ≡ true → length f.payload ≤ 125
  pub room : is_control f.opcode ≡ false → stored + length f.payload ≤ message_size_max

read_rest_lem :
    (is_client : Bool) (stored message_size_max : ℕ) (fin : Bool) (opcode b1 : ℕ) (buffer : List ℕ)
    → 2 ≤ length buffer
    → stored < 2 ^ 63
    → length buffer < 2 ^ 63
    → (is_control opcode ≡ true → fin ≡ true)
    → OnGo
        (IsAccepted stored message_size_max buffer)
        (read_rest is_client stored message_size_max fin opcode b1 buffer)
unfolding read_rest
read_rest_lem is_client stored most fin opcode b1 buffer two small fits whole =
    OnGo-bind (IsAccepted stored most buffer) (payload_length (is_control opcode) b1 buffer) _
      (payload_length_lem (is_control opcode) b1 buffer two)
      (λ r h. elim (Bool-cases (not (is_control opcode) && ltb most ((stored + r.0) % 2 ^ 64))) [
        | inl large ↦ rw large tt
        | inr room ↦ rw room (
            OnGo-bind (IsAccepted stored most buffer) (frame_body is_client b1 buffer r.1 r.0) _
              (frame_body_lem is_client b1 buffer r.1 r.0 (h.0.0) (h.0.1))
              (λ t k. record {
                header = k.0.0;
                inside = k.0.1;
                whole = whole;
                short = λ c. ground (arith, h.1 c, k.1);
                room = λ c. ground (arith, c, room, k.1);
              }))
      ])

pub parse_frame_lem :
    (is_client : Bool) (stored message_size_max : ℕ) (buffer : List ℕ)
    → stored < 2 ^ 63
    → length buffer < 2 ^ 63
    → OnGo
        (IsAccepted stored message_size_max buffer)
        (parse_frame is_client stored message_size_max buffer)
unfolding parse_frame
parse_frame_lem is_client stored most [] small fits = tt
parse_frame_lem is_client stored most (b0 ∷ []) small fits = tt
parse_frame_lem is_client stored most (b0 ∷ b1 ∷ bs) small fits =
    let fin = not (bit_and b0 0x80 == 0) in
    elim (Bool-cases (not (bit_and b0 0x70 == 0))) [
      | inl reserved ↦ rw reserved tt
      | inr plain ↦ elim (Bool-cases (is_control (bit_and b0 0x0f) && not fin)) [
        | inl cut ↦ rw (plain, cut) tt
        | inr ok ↦
            rw (plain, ok)
              (read_rest_lem is_client stored most fin (bit_and b0 0x0f) b1 (b0 ∷ b1 ∷ bs)
                (omega arith) small fits (λ c. ground (arith, c, ok)))
      ]
    ]
