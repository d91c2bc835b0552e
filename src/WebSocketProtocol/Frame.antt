-- ===== src/WebSocketProtocol/Frame.antt =====
-- The frames of src/brickred/protocol/web_socket_protocol.cc as bytes: what `sendMessage` and the
-- control frames write, and what `readFrame` makes of the bytes of its buffer before it looks at
-- the state of the connection. A `DynamicBuffer` is its readable bytes.
use brickred_server.Base.{
  ℕ, suc, ◌+◌, ◌-◌, ◌/◌, ◌%◌, ◌^◌, bit_and, bit_or, bit_xor, Bool, false, not, ◌&&◌, List, [], ◌∷◌,
  ◌++◌, Option, none, some, length, get_or, take, drop, ltb, leb, ◌==◌, if◌then◌else◌,
}
use brickred_server.DynamicBuffer.Queue.{encode, peek}

-- The loops that mask or unmask a payload, from index `i` on. `mask_key` is the four bytes.
unfoldable pub mask_payload : (ℕ → ℕ) → ℕ → List ℕ → List ℕ
mask_payload mask_key i [] = []
mask_payload mask_key i (x ∷ xs) =
    bit_xor x (mask_key (bit_and i 0x03)) ∷ mask_payload mask_key (suc i) xs

abbrev pub key_bytes : (ℕ → ℕ) → List ℕ
key_bytes mask_key = mask_key 0 ∷ mask_key 1 ∷ mask_key 2 ∷ mask_key 3 ∷ []

-- The mask flag with the length of the payload.
unfoldable pub length_bytes : Bool → ℕ → List ℕ
length_bytes is_client size =
    let mask_flag : ℕ = if is_client then 0x80 else 0 in
    if ltb size 126
    then bit_or mask_flag size ∷ []
    else if leb size 65535
    then bit_or mask_flag 126 ∷ encode 2 false size
    else bit_or mask_flag 127 ∷ encode 8 false size

-- The mask key and the masked payload of a client, the payload of a server.
abbrev pub body : Bool → (ℕ → ℕ) → List ℕ → List ℕ
body is_client mask_key payload =
    if is_client then key_bytes mask_key ++ mask_payload mask_key 0 payload else payload

unfoldable pub message_frame : Bool → (ℕ → ℕ) → List ℕ → List ℕ
message_frame is_client mask_key payload =
    0x82 ∷ length_bytes is_client (length payload) ++ body is_client mask_key payload

unfoldable pub close_frame : Bool → List ℕ
close_frame is_client = if is_client then 0x88 ∷ 0x80 ∷ 0 ∷ 0 ∷ 0 ∷ 0 ∷ [] else 0x88 ∷ 0 ∷ []

unfoldable pub ping_frame : Bool → List ℕ
ping_frame is_client = if is_client then 0x89 ∷ 0x80 ∷ 0 ∷ 0 ∷ 0 ∷ 0 ∷ [] else 0x89 ∷ 0 ∷ []

unfoldable pub pong_frame : Bool → (ℕ → ℕ) → List ℕ → List ℕ
pong_frame is_client mask_key payload =
    let size : ℕ = length payload % 256 in
    0x8a ∷ (if is_client then bit_or size 0x80 else size) ∷ body is_client mask_key payload

-- A step of `readFrame`: `return 0`, `return -1`, or on with what was read.
pub data Step (A : Type 0) : Type 0 where
  wait : Step A
  fail : Step A
  go : A → Step A

infixl 5 ◌>>=◌
abbrev pub ◌>>=◌ : {A B : Type 0} → Step A → (A → Step B) → Step B
wait >>= f = wait
fail >>= f = fail
go a >>= f = f a

-- The length in two or in eight bytes, and where the header goes on.
abbrev pub length16 : Option ℕ → Step (ℕ × ℕ)
length16 none = wait
length16 (some n) = if ltb n 126 then fail else go (n, 4)

abbrev pub length64 : Option ℕ → Step (ℕ × ℕ)
length64 none = wait
length64 (some n) =
    if leb n 0xffff then fail else if not (n / 2 ^ 63 == 0) then fail else go (n, 10)

unfoldable pub payload_length : Bool → ℕ → List ℕ → Step (ℕ × ℕ)
payload_length is_control b1 buffer =
    let n = bit_and b1 0x7f in
    if is_control && leb 126 n
    then fail
    else if n == 126
    then length16 (peek 2 2 false buffer)
    else if n == 127
    then length64 (peek 8 2 false buffer)
    else go (n, 2)

-- The mask key, when there is one, and where the payload begins.
unfoldable pub frame_key : Bool → ℕ → List ℕ → ℕ → Step (Option (ℕ → ℕ) × ℕ)
frame_key is_client b1 buffer p =
    if not (bit_and b1 0x80 == 0)
    then if is_client
      then fail
      else if ltb (length buffer - p) 4
      then wait
      else go (some (λ i. get_or (drop p buffer) i 0), p + 4)
    else if not is_client
    then fail
    else go (none, p)

abbrev pub unmask : Option (ℕ → ℕ) → List ℕ → List ℕ
unmask none xs = xs
unmask (some mask_key) xs = mask_payload mask_key 0 xs

-- The payload, and where the frame ends.
unfoldable pub frame_payload : Option (ℕ → ℕ) → List ℕ → ℕ → ℕ → Step (List ℕ × ℕ)
frame_payload mask_key buffer p n =
    if n == 0
    then go ([], p)
    else if ltb (length buffer - p) n
    then wait
    else go (unmask mask_key (take n (drop p buffer)), p + n)

pub record Frame : Type 0 where
  pub fin : Bool
  pub opcode : ℕ
  pub payload : List ℕ
  pub end : ℕ

abbrev pub is_control : ℕ → Bool
is_control opcode = leb 0x8 opcode

-- The payload, past the mask key if there is one.
abbrev pub frame_body : Bool → ℕ → List ℕ → ℕ → ℕ → Step (List ℕ × ℕ)
frame_body is_client b1 buffer p n =
    frame_key is_client b1 buffer p >>= λ r. frame_payload r.0 buffer r.1 n

-- `readFrame` from the length on. `stored` is the size of message_, added in 64 bits.
unfoldable pub read_rest : Bool → ℕ → ℕ → Bool → ℕ → ℕ → List ℕ → Step Frame
read_rest is_client stored message_size_max fin opcode b1 buffer = do
  (n, p) ← payload_length (is_control opcode) b1 buffer
  (payload, e) ←
      if not (is_control opcode) && ltb message_size_max ((stored + n) % 2 ^ 64)
      then fail
      else frame_body is_client b1 buffer p n
  go (record { fin = fin; opcode = opcode; payload = payload; end = e })

unfoldable pub parse_frame : Bool → ℕ → ℕ → List ℕ → Step Frame
parse_frame is_client stored message_size_max [] = wait
parse_frame is_client stored message_size_max (b0 ∷ []) = wait
parse_frame is_client stored message_size_max (b0 ∷ b1 ∷ bs) =
    let fin = not (bit_and b0 0x80 == 0) in
    let opcode = bit_and b0 0x0f in
    if not (bit_and b0 0x70 == 0)
    then fail
    else if is_control opcode && not fin
    then fail
    else read_rest is_client stored message_size_max fin opcode b1 (b0 ∷ b1 ∷ bs)
