-- ===== src/HttpProtocol/Message.antt =====
-- src/brickred/protocol/http_message.cc, http_request.cc and http_response.cc. The headers are
-- pairs of a key and a value, and keys are the same up to case. `kind` has the fields of the two
-- derived classes.
use brickred_server.Base.{
  ℕ, Bool, true, false, ◌==◌, ◌&&◌, Option, none, some, List, [], ◌∷◌, codes, if◌then◌else◌,
}
use brickred_server.Base.Int.{ℤ}
use brickred_server.StringUtil.{case_insensitive_equal, to_lower, search}

pub data Version : Type 0 where
  unknown_version http_1_0 http_1_1 : Version

pub data Method : Type 0 where
  unknown_method get post : Method

pub data Kind : Type 0 where
  request : Method → List ℕ → Kind
  response : ℤ → List ℕ → Kind

abbrev pub Headers : Type 0
Headers = List (List ℕ × List ℕ)

pub record Message : Type 0 where
  pub version : Version
  pub headers : Headers
  pub body : List ℕ
  pub kind : Kind

abbrev pub find_header : Headers → List ℕ → Option (List ℕ)
find_header [] key = none
find_header ((k, v) ∷ hs) key = if case_insensitive_equal k key then some v else find_header hs key

unfoldable pub get_header : Message → List ℕ → List ℕ
get_header m key = elim (find_header m.headers key) [ none ↦ [] | some v ↦ v ]

unfoldable pub has_header : Message → List ℕ → Bool
has_header m key = elim (find_header m.headers key) [ none ↦ false | some v ↦ true ]

unfoldable pub header_equal : Message → List ℕ → List ℕ → Bool
unfolding get_header
header_equal m key value = case_insensitive_equal (get_header m key) value

unfoldable pub header_contain : Message → List ℕ → List ℕ → Bool
unfolding get_header
header_contain m key value = elim (search (to_lower (get_header m key)) (to_lower value)) [
  | none ↦ false
  | some at ↦ true
]

abbrev pub set_in : Headers → List ℕ → List ℕ → Headers
set_in [] key value = (key, value) ∷ []
set_in ((k, v) ∷ hs) key value =
    if case_insensitive_equal k key then (k, value) ∷ hs else (k, v) ∷ set_in hs key value

unfoldable pub set_header : Message → List ℕ → List ℕ → Message
set_header m key value = record m { headers = set_in m.headers key value }

abbrev pub remove_from : Headers → List ℕ → Headers
remove_from [] key = []
remove_from ((k, v) ∷ hs) key =
    if case_insensitive_equal k key then remove_from hs key else (k, v) ∷ remove_from hs key

unfoldable pub remove_header : Message → List ℕ → Message
remove_header m key = record m { headers = remove_from m.headers key }

unfoldable pub set_body : Message → List ℕ → Message
set_body m bytes = record m { body = bytes }

unfoldable pub is_connection_keep_alive : Message → Bool
unfolding header_equal
is_connection_keep_alive m = header_equal m (codes "Connection") (codes "Keep-Alive")

unfoldable pub set_connection_keep_alive : Message → Message
unfolding set_header
set_connection_keep_alive m = set_header m (codes "Connection") (codes "Keep-Alive")

unfoldable pub set_connection_close : Message → Message
unfolding set_header
set_connection_close m = set_header m (codes "Connection") (codes "Close")

abbrev pub same_string : List ℕ → List ℕ → Bool
same_string [] [] = true
same_string [] (y ∷ ys) = false
same_string (x ∷ xs) [] = false
same_string (x ∷ xs) (y ∷ ys) = (x == y) && same_string xs ys

unfoldable pub version_of : List ℕ → Version
version_of str =
    if same_string str (codes "HTTP/1.1")
    then http_1_1
    else if same_string str (codes "HTTP/1.0")
    then http_1_0
    else unknown_version

unfoldable pub version_string : Version → List ℕ
version_string http_1_1 = codes "HTTP/1.1"
version_string http_1_0 = codes "HTTP/1.0"
version_string unknown_version = codes "UNKNOWN"

unfoldable pub method_of : List ℕ → Method
method_of str =
    if same_string str (codes "GET")
    then get
    else if same_string str (codes "POST")
    then post
    else unknown_method

unfoldable pub method_string : Method → List ℕ
method_string get = codes "GET"
method_string post = codes "POST"
method_string unknown_method = codes "UNKNOWN"
