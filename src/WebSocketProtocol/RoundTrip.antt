-- ===== src/WebSocketProtocol/RoundTrip.antt =====
-- A data frame that `sendMessage` of web_socket_protocol.cc writes is read back by `readFrame`.
use brickred_server.Base.{
  ℕ, zero, suc, ◌+◌, ◌-◌, ◌/◌, ◌%◌, ◌^◌, ◌≤◌, ◌<◌, ◌≡◌, refl, sym, ap, ap₂, ◌∙◌, bit_and, bit_or,
  bit_xor, Bool, true, false, not, ◌&&◌, List, [], ◌∷◌, ◌++◌, Option, none, some, length, get_or,
  drop, ltb, leb, ◌==◌, if◌then◌else◌, arith, Bool-cases, inl, inr, length-append, drop-drop,
  take-append_length, drop-append_length, append_assoc,
}
use brickred_server.Base.Bits.{
  all_below, all_below_sound, bit_and_three, bit_or_disjoint, bit_or_disjoint_left,
}
use brickred_server.Base.Xor.{bit_xor_cancel}
use brickred_server.DynamicBuffer.Queue.{encode, peek}
use brickred_server.DynamicBuffer.Endian.{decode-encode, length-encode}
use brickred_server.WebSocketProtocol.Frame.{
  mask_payload, key_bytes, length_bytes, body, message_frame, go, payload_length, frame_key, unmask,
  frame_payload, frame_body, read_rest, parse_frame,
}

-- Masking by the same four bytes again gives the payload back.
mask_payload_twice :
    (key other : ℕ → ℕ) (i : ℕ) (xs : List ℕ)
    → ((j : ℕ) → j < 4 → other j ≡ key j)
    → mask_payload other i (mask_payload key i xs) ≡ xs
unfolding mask_payload
mask_payload_twice key other i [] same = refl
mask_payload_twice key other i (x ∷ xs) same =
    let digit : other (bit_and i 3) ≡ key (bit_and i 3) =
      same (bit_and i 3) (omega (arith, bit_and_three i)) in
    ap₂ (λ y ys. y ∷ ys)
      (ap (λ k. bit_xor (bit_xor x (key (bit_and i 3))) k) digit
        ∙ bit_xor_cancel x (key (bit_and i 3)))
      (mask_payload_twice key other (suc i) xs same)

pub length-mask_payload :
    (key : ℕ → ℕ) (i : ℕ) (xs : List ℕ) → length (mask_payload key i xs) ≡ length xs
unfolding mask_payload
length-mask_payload key i [] = refl
length-mask_payload key i (x ∷ xs) = ap suc (length-mask_payload key (suc i) xs)

-- The two parts of the second byte of a frame.
split_byte : (b : ℕ) → b < 256 → (bit_and b 0x7f ≡ b % 128) × ((bit_and b 0x80 == 0) ≡ ltb b 128)
unfolding all_below
split_byte b small =
    let test = λ (c : ℕ).
      (bit_and c 0x7f == c % 128)
      && (if ltb c 128 then bit_and c 0x80 == 0 else not (bit_and c 0x80 == 0)) in
    let passed = all_below_sound 256 test b refl small in ground (arith, passed)

flagged :
    (is_client : Bool) (k : ℕ)
    → k < 128
    → bit_or (if is_client then 0x80 else 0) k ≡ (if is_client then 0x80 else 0) + k
flagged true k h = bit_or_disjoint_left 7 k 1 128 h refl
flagged false k h = bit_or_disjoint 0 0 k k (omega arith) (omega arith)

flagged_parts :
    (is_client : Bool) (k : ℕ)
    → k < 128
    → (bit_and (bit_or (if is_client then 0x80 else 0) k) 0x7f ≡ k)
      × ((bit_and (bit_or (if is_client then 0x80 else 0) k) 0x80 == 0) ≡ not is_client)
flagged_parts true k h =
    let parts = split_byte (128 + k) (omega arith) in rw (flagged true k h) (ground (arith, parts))
flagged_parts false k h =
    let parts = split_byte k (omega arith) in rw (flagged false k h) (ground (arith, parts))

-- A length as `sendMessage` writes it, and as `readFrame` reads it.
record ReadsLength (is_client : Bool) (n : ℕ) : Type 0 where
  b1 : ℕ
  more : List ℕ
  written : length_bytes is_client n ≡ b1 ∷ more
  flag : (bit_and b1 0x80 == 0) ≡ not is_client
  reads :
      (tail : List ℕ) → payload_length false b1 (0x82 ∷ b1 ∷ more ++ tail) ≡ go (n, 2 + length more)

peek_encoded :
    (w n : ℕ) (b0 b1 : ℕ) (tail : List ℕ)
    → n < 256 ^ w
    → peek w 2 false (b0 ∷ b1 ∷ encode w false n ++ tail) ≡ some n
peek_encoded w n b0 b1 tail h =
    let size = length-encode w false n in
    let enough : ltb (length (b0 ∷ b1 ∷ encode w false n ++ tail)) (2 + w) ≡ false =
      ground (arith, size, length-append (encode w false n) tail) in
    rw (enough, take-append_length w (encode w false n) tail (sym size), decode-encode w false n h)
      refl

length_bytes_lem : (is_client : Bool) (n : ℕ) → n < 2 ^ 63 → ReadsLength is_client n
unfolding length_bytes payload_length
length_bytes_lem c n h =
    let flag : ℕ = if c then 0x80 else 0 in
    elim (Bool-cases (ltb n 126)) [
      | inl small ↦
          let parts = flagged_parts c n (ground arith) in
          record {
            b1 = bit_or flag n;
            more = [];
            written = rw small refl;
            flag = parts.1;
            reads = λ tail. rw (parts.0) (ground (arith, small));
          }
      | inr large ↦ elim (Bool-cases (leb n 65535)) [
        | inl medium ↦
            let parts = flagged_parts c 126 (omega arith) in
            record {
              b1 = bit_or flag 126;
              more = encode 2 false n;
              written = rw (large, medium) refl;
              flag = parts.1;
              reads = λ tail.
                  rw (parts.0, peek_encoded 2 n 0x82 (bit_or flag 126) tail (ground arith), large)
                    (refl);
            }
        | inr huge ↦
            let top : (n / 2 ^ 63 == 0) ≡ true = ground arith in
            let parts = flagged_parts c 127 (omega arith) in
            record {
              b1 = bit_or flag 127;
              more = encode 8 false n;
              written = rw (large, huge) refl;
              flag = parts.1;
              reads = λ tail.
                  rw
                    (parts.0, peek_encoded 8 n 0x82 (bit_or flag 127) tail (omega arith), huge, top)
                    (refl);
            }
      ]
    ]

get_or-key_bytes :
    (key : ℕ → ℕ) (tail : List ℕ) (j : ℕ) → j < 4 → get_or (key_bytes key ++ tail) j 0 ≡ key j
get_or-key_bytes key tail zero h = refl
get_or-key_bytes key tail (suc zero) h = refl
get_or-key_bytes key tail (suc (suc zero)) h = refl
get_or-key_bytes key tail (suc (suc (suc zero))) h = refl
get_or-key_bytes key tail (suc (suc (suc (suc j)))) h = absurd (omega arith)

-- The payload of a frame that is there in full.
payload_lem :
    (mask_key : Option (ℕ → ℕ)) (payload raw rest buffer : List ℕ) (p n : ℕ)
    → drop p buffer ≡ raw ++ rest
    → length buffer ≡ p + (length raw + length rest)
    → length raw ≡ n
    → length payload ≡ n
    → unmask mask_key raw ≡ payload
    → frame_payload mask_key buffer p n ≡ go (payload, p + n)
unfolding frame_payload
payload_lem mask_key [] raw rest buffer p zero after total size count clear =
    ap (λ (e : ℕ). go ([], e)) (omega arith)
payload_lem mask_key (x ∷ xs) raw rest buffer p zero after total size count clear =
    absurd (omega (arith, count))
payload_lem mask_key payload raw rest buffer p (suc n) after total size count clear =
    let enough : ltb (length buffer - p) (suc n) ≡ false = ground (arith, total, size) in
    let left : (suc n == 0) ≡ false = ground arith in
    rw (left, enough, after, take-append_length (suc n) raw rest size, clear) refl

-- What `readFrame` needs of the bytes from the key on.
body_lem :
    (is_client : Bool) (key : ℕ → ℕ) (payload rest buffer : List ℕ) (b1 p : ℕ)
    → (bit_and b1 0x80 == 0) ≡ not is_client
    → drop p buffer ≡ body is_client key payload ++ rest
    → length buffer ≡ p + (length (body is_client key payload) + length rest)
    → frame_body (not is_client) b1 buffer p (length payload)
      ≡ go (payload, p + length (body is_client key payload))
unfolding frame_key
body_lem true key payload rest buffer b1 p flag after total =
    let masked : List ℕ = mask_payload key 0 payload in
    let size = length-mask_payload key 0 payload in
    let enough : ltb (length buffer - p) 4 ≡ false = ground (arith, total) in
    let found : ℕ → ℕ = λ i. get_or (drop p buffer) i 0 in
    let same : (j : ℕ) → j < 4 → found j ≡ key j =
      λ j h. ap (λ ys. get_or ys j 0) after ∙ get_or-key_bytes key (masked ++ rest) j h in
    let later : drop (p + 4) buffer ≡ masked ++ rest =
      sym (drop-drop 4 p (p + 4) buffer refl) ∙ ap (drop 4) after in
    let read =
      payload_lem (some found) payload masked rest buffer (p + 4) (length payload) later
        (omega (arith, total)) size refl (mask_payload_twice key found 0 payload same) in
    rw (flag, enough) (read ∙ ap (λ (e : ℕ). go (payload, e)) (omega (arith, size)))
body_lem false key payload rest buffer b1 p flag after total =
    rw flag
      (payload_lem none payload payload rest buffer p (length payload) after total refl refl refl)

-- A message that is sent on one side of a connection is read on the other side as one frame, whole
-- and unmasked, and nothing after it is touched.
pub parse_frame-message_frame :
    (is_client : Bool) (key : ℕ → ℕ) (payload rest : List ℕ) (stored message_size_max : ℕ)
    → length payload < 2 ^ 63
    → stored + length payload ≤ message_size_max
    → message_size_max < 2 ^ 64
    → parse_frame
        (not is_client)
        stored
        message_size_max
        (message_frame is_client key payload ++ rest)
      ≡ go (record {
        fin = true;
        opcode = 2;
        payload = payload;
        end = length (message_frame is_client key payload);
      })
unfolding parse_frame message_frame read_rest
parse_frame-message_frame c key payload rest stored most small room most_small =
    let r = length_bytes_lem c (length payload) small in
    let fits : ltb most ((stored + length payload) % 2 ^ 64) ≡ false = ground arith in
    let tail : List ℕ = body c key payload ++ rest in
    let buffer : List ℕ = 0x82 ∷ r.b1 ∷ r.more ++ tail in
    let after : drop (2 + length r.more) buffer ≡ tail =
      drop-append_length (2 + length r.more) (0x82 ∷ r.b1 ∷ r.more) tail (omega arith) in
    let total : length buffer ≡ 2 + length r.more + (length (body c key payload) + length rest) =
      omega (arith, length-append r.more tail, length-append (body c key payload) rest) in
    let read = body_lem c key payload rest buffer r.b1 (2 + length r.more) r.flag after total in
    rw (r.written, append_assoc r.more (body c key payload) rest, r.reads tail, fits, read)
      (ap (λ (e : ℕ). go (record { fin = true; opcode = 2; payload = payload; end = e }))
        (omega (arith, length-append r.more (body c key payload))))
