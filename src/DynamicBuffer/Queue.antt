-- ===== src/DynamicBuffer/Queue.antt =====
-- What `DynamicBuffer` promises: a queue of bytes, oldest first, with integers of 1, 2, 4 or 8
-- bytes in either byte order.
use mathlib.Core.List.{reverse}
use brickred_server.Base.{
  ℕ, zero, suc, ◌+◌, ◌*◌, ◌/◌, ◌%◌, Bool, true, false, Option, none, some, List, [], ◌∷◌, ◌++◌,
  length, take, drop, ltb, if◌then◌else◌,
}

abbrev pub Queue : Type 0
Queue = List ℕ

pub data Width : Type 0 where
  w8 w16 w32 w64 : Width

abbrev pub size : Width → ℕ
size w8 = 1
size w16 = 2
size w32 = 4
size w64 = 8

-- The number that a string of bytes stands for, lowest byte first.
abbrev pub decode_le : List ℕ → ℕ
decode_le [] = 0
decode_le (x ∷ xs) = x + 256 * decode_le xs

abbrev pub encode_le : ℕ → ℕ → List ℕ
encode_le zero v = []
encode_le (suc n) v = v % 256 ∷ encode_le n (v / 256)

-- The flag says that the lowest byte comes first.
abbrev pub in_order : Bool → List ℕ → List ℕ
in_order true xs = xs
in_order false xs = reverse xs

abbrev pub decode : Bool → List ℕ → ℕ
decode little_endian xs = decode_le (in_order little_endian xs)

abbrev pub encode : ℕ → Bool → ℕ → List ℕ
encode n little_endian v = in_order little_endian (encode_le n v)

abbrev pub peek : ℕ → ℕ → Bool → Queue → Option ℕ
peek n offset little_endian q =
    if ltb (length q) (offset + n)
    then none
    else some (decode little_endian (take n (drop offset q)))

pub data Op : Type 0 where
  put_int : Width → Bool → ℕ → Op
  put_bytes : List ℕ → Op
  peek_int : Width → ℕ → Bool → Op
  get_int : Width → Bool → Op
  get_bytes : ℕ → Op
  skip : ℕ → Op
  reserve : ℕ → Op
  wipe : Op

pub data Reply : Type 0 where
  done : Reply
  int : Option ℕ → Reply
  octets : List ℕ → Reply

abbrev pub get : ℕ → Queue → Queue
get n q = if ltb (length q) n then q else drop n q

unfoldable pub step : Queue → Op → Reply × Queue
step q (put_int w le v) = (done, q ++ encode (size w) le v)
step q (put_bytes xs) = (done, q ++ xs)
step q (peek_int w offset le) = (int (peek (size w) offset le q), q)
step q (get_int w le) = (int (peek (size w) 0 le q), get (size w) q)
step q (get_bytes n) = (octets (take n q), drop n q)
step q (skip n) = (done, drop n q)
step q (reserve n) = (done, q)
step q wipe = (done, [])

unfoldable pub run : Queue → List Op → List Reply
run q [] = []
run q (op ∷ ops) = let (reply, q') = step q op in reply ∷ run q' ops
