-- ===== src/HttpProtocol/Tests.antt =====
-- Messages of http_protocol.cc at concrete inputs.
use brickred_server.Base.{
  ℕ, ◌+◌, ◌-◌, ◌≡◌, refl, List, [], ◌∷◌, ◌++◌, Option, none, some, arith, codes,
}
use brickred_server.Base.Int.{ℤ, pos}
use brickred_server.HttpProtocol.{
  new, error, message_ready, RetCode, Received, received, recv_message, crlf, handler,
  read_start_line, read_header, read_body, read_sized_body, read_chunks,
}
use brickred_server.HttpProtocol.Message.{
  method_of, version_of, has_header, set_header, get_header, set_body, header_contain,
  remove_header,
}
use brickred_server.StringUtil.{find, split, case_insensitive_equal, trim, to_lower}
use brickred_server.HttpProtocol.Returning.{Yields, recv_returns}

-- Numbers of one digit.
abbrev one_digit : List ℕ → ℤ
one_digit [] = pos 0
one_digit (c ∷ cs) = pos (c - 48)

abbrev scan_digit : List ℕ → Option ℕ
scan_digit [] = none
scan_digit (c ∷ cs) = some (c - 48)

abbrev print_digit : ℕ → List ℕ
print_digit n = (48 + n) ∷ []

abbrev lines : List (List ℕ) → List ℕ
lines [] = crlf
lines (l ∷ ls) = l ++ crlf ++ lines ls

abbrev post_request : List ℕ
post_request = lines (codes "POST /a HTTP/1.1" ∷ codes "Content-Length: 2" ∷ []) ++ codes "hi!"

abbrev get_request : List ℕ
get_request = lines (codes "GET / HTTP/1.1" ∷ codes "Host: a" ∷ [])

abbrev chunked_response : List ℕ
chunked_response =
    lines (codes "HTTP/1.1 200 OK" ∷ codes "Transfer-Encoding: chunked" ∷ [])
    ++ codes "2"
    ++ crlf
    ++ codes "hi"
    ++ crlf
    ++ codes "0"
    ++ crlf
    ++ crlf

abbrev body_of : Option Received → Option (List ℕ × List ℕ × RetCode)
body_of none = none
body_of (some r) = elim r.state.message [
  | none ↦ some ([], r.buffer, r.code)
  | some m ↦ some (m.body, r.buffer, r.code)
]

abbrev outcome : List ℕ → Option (List ℕ × List ℕ × RetCode)
unfolding recv_message
outcome bytes = body_of (recv_message scan_digit print_digit one_digit 4 new bytes)

post_read : outcome post_request ≡ some (codes "hi", codes "!", message_ready)
unfolding outcome handler read_start_line find split method_of version_of read_header read_body
    has_header set_header case_insensitive_equal trim read_sized_body get_header set_body
post_read = refl

chunks_read : outcome chunked_response ≡ some (codes "hi", [], message_ready)
unfolding outcome handler read_start_line find split version_of read_header read_body has_header
    set_header case_insensitive_equal trim header_contain to_lower read_chunks remove_header
    set_body
chunks_read = refl

-- A request without a body is refused.
get_refused : outcome get_request ≡ some ([], [], error)
unfolding outcome handler read_start_line find split method_of version_of read_header read_body
    has_header set_header case_insensitive_equal trim header_contain to_lower
get_refused = refl

recv_returns_example :
    Yields scan_digit print_digit one_digit 1048576
      (recv_message scan_digit print_digit one_digit 4 new chunked_response)
recv_returns_example =
    recv_returns scan_digit print_digit one_digit 4 new chunked_response (omega arith) (omega arith)
      tt

-- What is left behind the chunked response.
abbrev got : Received
unfolding recv_message
got = elim (recv_message scan_digit print_digit one_digit 4 new chunked_response) [
  | none ↦ received new [] error
  | some r ↦ r
]
