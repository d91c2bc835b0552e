-- ===== src/HttpProtocol.antt =====
-- src/brickred/protocol/http_protocol.cc: messages read from a buffer, which is its readable
-- bytes. `atoi`, `sscanf` with "%x" and `snprintf` behind `toString` are functions that the model
-- takes. Writing a message, which is a row of calls of `snprintf`, is not modelled.
pub mod Message
pub mod Turns
pub mod Bodies
pub mod Chunks
pub mod Returning
pub mod Retrieving
mod Tests
use brickred_server.Base.{
  ℕ, zero, suc, ◌+◌, Bool, true, false, not, ◌==◌, Option, none, some, List, [], ◌∷◌, ◌++◌, codes,
  length, take, drop, ltb, if◌then◌else◌, ◌>>=◌,
}
use brickred_server.Base.Int.{ℤ, pos, negsuc, pos_part, ltb_ℤ, eqb_ℤ}
use brickred_server.DynamicBuffer.{size_sub}
use brickred_server.StringUtil.{starts_with, find, split, trim}
use brickred_server.HttpProtocol.Message.{
  Version, unknown_version, Method, unknown_method, Kind, request, response, Message as HttpMessage,
  get_header, has_header, header_contain, set_header, remove_header, set_body, version_of,
  method_of,
}

pub data Status : Type 0 where
  reading_start_line reading_header reading_body reading_trailer_header : Status
  finished pending_error : Status

pub data RetCode : Type 0 where
  error waiting_more_data message_ready : RetCode

pub record Impl : Type 0 where
  pub status : Status
  pub message : Option HttpMessage
  pub chunk_buffer : Option (List ℕ)
  pub start_line_max_size : ℕ
  pub header_max_size : ℕ
  pub body_max_size : ℕ

-- The constructors of `Impl` and of `HttpProtocol`.
abbrev pub new : Impl
new = record {
  status = reading_start_line;
  message = none;
  chunk_buffer = none;
  start_line_max_size = 8192;
  header_max_size = 32768;
  body_max_size = 1048576;
}

unfoldable pub reset : Impl → Impl
reset s = record s { message = none; chunk_buffer = none; status = reading_start_line }

unfoldable pub set_start_line_max_size : Impl → ℕ → Impl
set_start_line_max_size s size = if ltb size 2 then s else record s { start_line_max_size = size }

unfoldable pub set_header_max_size : Impl → ℕ → Impl
set_header_max_size s size = if ltb size 4 then s else record s { header_max_size = size }

unfoldable pub set_body_max_size : Impl → ℕ → Impl
set_body_max_size s size = if size == 0 then s else record s { body_max_size = size }

-- The int of a status handler: -1, 0 and 1.
pub data Next : Type 0 where
  failed waiting again : Next

pub record Turn : Type 0 where
  pub state : Impl
  pub buffer : List ℕ
  pub next : Next

abbrev pub turn : Impl → List ℕ → Next → Turn
turn s buffer next = record { state = s; buffer = buffer; next = next }

-- What `recvMessage` leaves, and the code that it returns.
pub record Received : Type 0 where
  pub state : Impl
  pub buffer : List ℕ
  pub code : RetCode

abbrev pub received : Impl → List ℕ → RetCode → Received
received s buffer code = record { state = s; buffer = buffer; code = code }

abbrev pub crlf : List ℕ
crlf = 13 ∷ 10 ∷ []

-- The part of a string before its first zero.
abbrev pub c_string : List ℕ → List ℕ
c_string [] = []
c_string (c ∷ cs) = if c == 0 then [] else c ∷ c_string cs

abbrev pub new_message : Version → Kind → HttpMessage
new_message version kind = record { version = version; headers = []; body = []; kind = kind }

-- The message of a start line, from its three parts.
abbrev pub first_request : Method → List ℕ → Version → Option HttpMessage
first_request unknown_method uri version = none
first_request method uri unknown_version = none
first_request method uri version = some (new_message version (request method uri))

abbrev pub first_response : Version → ℤ → List ℕ → Option HttpMessage
first_response unknown_version code phrase = none
first_response version code phrase =
    if ltb_ℤ (pos 0) code then some (new_message version (response code phrase)) else none

-- `split(.., " ", &start_line_parts, 3)` has to give three parts.
unfoldable pub start_line : (List ℕ → ℤ) → List (List ℕ) → Option HttpMessage
start_line atoi (a ∷ b ∷ c ∷ []) =
    if starts_with a (codes "HTTP")
    then first_response (version_of a) (atoi (c_string b)) c
    else first_request (method_of a) b (version_of c)
start_line atoi _ = none

abbrev pub started : Impl → List ℕ → ℕ → Option HttpMessage → Turn
started s buffer n none = turn s buffer failed
started s buffer n (some m) =
    turn (record s { message = some m; status = reading_header }) (drop (n + 2) buffer) again

abbrev pub read_line : (List ℕ → ℤ) → Impl → List ℕ → Option ℕ → Turn
unfolding start_line
read_line atoi s buffer none =
    turn s buffer (if ltb s.start_line_max_size (length buffer) then failed else waiting)
read_line atoi s buffer (some n) =
    if ltb (size_sub s.start_line_max_size 2) n
    then turn s buffer failed
    else started s buffer n (start_line atoi (split (take n buffer) (codes " ") (pos 3)))

unfoldable pub read_start_line : (List ℕ → ℤ) → Impl → List ℕ → Turn
unfolding read_line
read_start_line atoi s buffer = read_line atoi s buffer (find buffer crlf)

-- The loop over the header lines; `false` for a line without a colon.
abbrev pub set_lines : HttpMessage → List (List ℕ) → HttpMessage × Bool
set_lines m [] = (m, true)
set_lines m (line ∷ lines) = elim (find line (codes ":")) [
  | none ↦ (m, false)
  | some k ↦
      set_lines
        (set_header m (trim (take k line) (codes " \t"))
          (trim (c_string (drop (k + 1) line)) (codes " \t")))
        lines
]

abbrev pub after_headers : Status → Status
after_headers reading_trailer_header = finished
after_headers _ = reading_body

abbrev pub keep_headers : Impl → List ℕ → ℕ → HttpMessage × Bool → Turn
keep_headers s buffer n (m, ok) =
    if ok
    then turn (record s { message = some m; status = after_headers s.status }) (drop (n + 4) buffer)
        again
    else turn (record s { message = some m }) buffer failed

abbrev pub read_lines : Impl → HttpMessage → List ℕ → Option ℕ → Turn
read_lines s m buffer none =
    turn s buffer (if ltb s.header_max_size (length buffer) then failed else waiting)
read_lines s m buffer (some n) =
    if ltb (size_sub s.header_max_size 4) n
    then turn s buffer failed
    else keep_headers s buffer n (set_lines m (split (take n buffer) crlf (negsuc 0)))

unfoldable pub read_header : Impl → HttpMessage → List ℕ → Turn
read_header s m buffer =
    if ltb (length buffer) 2
    then turn s buffer waiting
    else if starts_with buffer crlf
    then turn (record s { status = finished }) (drop 2 buffer) again
    else read_lines s m buffer (find buffer (crlf ++ crlf))

unfoldable pub read_sized_body : Impl → HttpMessage → List ℕ → ℤ → Turn
read_sized_body s m buffer content_length =
    let n = pos_part content_length in
    if ltb_ℤ (pos 0) content_length
    then if ltb s.body_max_size n
      then turn s buffer failed
      else if ltb (length buffer) n
      then turn s buffer waiting
      else turn (record s { message = some (set_body m (take n buffer)); status = finished })
          (drop n buffer) again
    else if eqb_ℤ content_length (pos 0)
    then turn (record s { status = finished }) buffer again
    else turn s buffer failed

abbrev pub stored_of : Option (List ℕ) → List ℕ
stored_of none = []
stored_of (some bytes) = bytes

abbrev pub has_handler : Status → Bool
has_handler finished = false
has_handler pending_error = false
has_handler _ = true

abbrev pub is_finished : Status → Bool
is_finished finished = true
is_finished _ = false

-- A turn of the loop; `again` is the next one.
abbrev pub after_turn : (Impl → List ℕ → Option Received) → Turn → Option Received
after_turn loop t = elim t.next [
  | failed ↦ some (received (record t.state { status = pending_error }) t.buffer error)
  | waiting ↦ some (received t.state t.buffer waiting_more_data)
  | again ↦
      if is_finished t.state.status
      then some (received t.state t.buffer message_ready)
      else loop t.state t.buffer
]

module _ (scan_hex : List ℕ → Option ℕ) (to_string : ℕ → List ℕ) where
  -- The message of the last chunk.
  abbrev pub assembled : HttpMessage → List ℕ → HttpMessage
  assembled m stored =
      remove_header
        (set_header (set_body m stored) (codes "Content-Length") (to_string (length stored)))
        (codes "Transfer-Encoding")

  -- What is left to do with a chunk of `size` bytes whose line has `k`; `rest` is the next round.
  abbrev pub read_chunk : Impl → HttpMessage → List ℕ → List ℕ → ℕ → ℕ → Turn → Turn
  read_chunk s m stored buffer k size rest =
      let total = if size == 0 then k + 2 else k + 2 + size + 2 in
      if ltb s.body_max_size size
      then turn s buffer failed
      else if ltb (length buffer) total
      then turn s buffer waiting
      else if size == 0
      then turn (record s { message = some (assembled m stored); status = reading_trailer_header })
          (drop total buffer) again
      else if not (starts_with (drop (k + 2 + size) buffer) crlf)
      then turn s buffer failed
      else rest

  -- The loop over the chunks, with chunk_buffer_ as `stored`; without a round left it waits.
  unfoldable pub read_chunks : ℕ → Impl → HttpMessage → List ℕ → List ℕ → Turn
  read_chunks zero s m stored buffer = turn (record s { chunk_buffer = some stored }) buffer waiting
  read_chunks (suc fuel) s m stored buffer =
      let kept = record s { chunk_buffer = some stored } in
      elim (find buffer crlf) [
        | none ↦ turn kept buffer waiting
        | some k ↦ elim (scan_hex (c_string (take k buffer))) [
          | none ↦ turn kept buffer failed
          | some size ↦ read_chunk kept m stored buffer k size (
              read_chunks fuel s m (stored ++ take size (drop (k + 2) buffer))
                (drop (k + 2 + size + 2) buffer))
        ]
      ]

  unfoldable pub read_body : (List ℕ → ℤ) → Impl → HttpMessage → List ℕ → Turn
  read_body atoi s m buffer =
      let stored = stored_of s.chunk_buffer in
      if has_header m (codes "Content-Length")
      then read_sized_body s m buffer (atoi (c_string (get_header m (codes "Content-Length"))))
      else if header_contain m (codes "Transfer-Encoding") (codes "chunked")
      then if ltb s.body_max_size (length stored + length buffer)
        then turn (record s { chunk_buffer = some stored }) buffer failed
        else read_chunks (suc (length buffer)) s m stored buffer
      else turn s buffer failed

  -- s_status_handler_; `none` is a null pointer followed, or the missing handler.
  unfoldable pub handler : (List ℕ → ℤ) → Status → Option HttpMessage → Impl → List ℕ → Option Turn
  handler atoi reading_start_line m s buffer = some (read_start_line atoi s buffer)
  handler atoi reading_header (some m) s buffer = some (read_header s m buffer)
  handler atoi reading_body (some m) s buffer = some (read_body atoi s m buffer)
  handler atoi reading_trailer_header (some m) s buffer = some (read_header s m buffer)
  handler atoi _ m s buffer = none

  -- `recvMessage`: `none` without a round left, or when a null pointer is followed.
  unfoldable pub recv_message : (List ℕ → ℤ) → ℕ → Impl → List ℕ → Option Received
  recv_message atoi zero s buffer = none
  recv_message atoi (suc fuel) s buffer =
      if not (has_handler s.status)
      then some (received s buffer error)
      else handler atoi s.status s.message s buffer >>= after_turn (recv_message atoi fuel)

-- `retrieveRequest` and `retrieveResponse`, by the kind that is asked for.
abbrev pub is_request : Kind → Bool
is_request (request method uri) = true
is_request (response code phrase) = false

abbrev pub taken_if : Bool → HttpMessage → Impl → Option HttpMessage × Impl
unfolding reset
taken_if true m s = (some m, reset s)
taken_if false m s = (none, s)

abbrev pub take_message : Bool → Status → Option HttpMessage → Impl → Option HttpMessage × Impl
take_message wanted finished (some m) s =
    taken_if (if is_request m.kind then wanted else not wanted) m s
take_message wanted _ m s = (none, s)

unfoldable pub retrieve_request : Impl → Option HttpMessage × Impl
retrieve_request s = take_message true s.status s.message s

unfoldable pub retrieve_response : Impl → Option HttpMessage × Impl
retrieve_response s = take_message false s.status s.message s
