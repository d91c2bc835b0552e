-- ===== src/HttpProtocol/Turns.antt =====
-- What a status handler of http_protocol.cc leaves.
use brickred_server.Base.{
  ℕ, ◌+◌, ◌≤◌, ◌<◌, ◌≡◌, refl, ap, sym, Bool, true, false, Option, none, some, List, [], ◌∷◌, ◌++◌,
  arith, length, take, drop, ltb, if◌then◌else◌, codes, Option-cases, Bool-cases, inl, inr, ◌⊎◌,
}
use brickred_server.Base.Int.{ℤ, pos, negsuc, ltb_ℤ}
use brickred_server.StringUtil.{starts_with, find, split, trim}
use brickred_server.HttpProtocol.Message.{
  Message as HttpMessage, unknown_version, http_1_0, http_1_1, unknown_method, get, post, Version,
  Method, set_header, version_of, method_of,
}
use brickred_server.HttpProtocol.{
  Status, reading_start_line, reading_header, reading_body, reading_trailer_header, finished,
  pending_error, Impl, Next, failed, waiting, again, Turn, turn, crlf, first_request,
  first_response, start_line, started, read_line, read_start_line, set_lines, after_headers,
  keep_headers, read_lines, read_header, c_string,
}
use brickred_server.DynamicBuffer.{size_sub}

-- How far the parsing of a message has come.
abbrev pub rank : Status → ℕ
rank reading_start_line = 0
rank reading_header = 1
rank reading_body = 2
rank reading_trailer_header = 3
rank finished = 4
rank pending_error = 5

-- A message, with a body that is not too long, wherever the handlers want one.
abbrev pub Keeps : Status → Option HttpMessage → ℕ → Type 0
Keeps reading_start_line m max = Unit
Keeps pending_error m max = Unit
Keeps _ none max = ⊥
Keeps _ (some m) max = length m.body ≤ max

abbrev pub Ends : Next → ℕ → Status → Impl → Type 0
Ends failed max old t = Unit
Ends waiting max old t = (t.status ≡ old) × Keeps old t.message max
Ends again max old t =
    (rank old < rank t.status) × (rank t.status ≤ 4) × Keeps t.status t.message max

-- A turn that keeps the limit, and comes further if the loop is to go on.
abbrev pub IsTurn : ℕ → Status → Turn → Type 0
IsTurn max old t = (t.state.body_max_size ≡ max) × Ends t.next max old t.state

pub if_elim :
    (P : Turn → Type 0) (b : Bool) (x y : Turn)
    → ((b ≡ true) → P x)
    → ((b ≡ false) → P y)
    → P (if b then x else y)
if_elim P true x y f g = f refl
if_elim P false x y f g = g refl

pub stays :
    (s : Impl) (buffer : List ℕ) (b : Bool) (old : Status)
    → s.status ≡ old
    → Keeps old s.message s.body_max_size
    → IsTurn s.body_max_size old (turn s buffer (if b then failed else waiting))
stays s buffer true old at k = (refl, tt)
stays s buffer false old at k = (refl, (at, k))

abbrev body_of : Option HttpMessage → List ℕ
body_of none = []
body_of (some m) = m.body

first_request-body :
    (method : Method) (uri : List ℕ) (version : Version) (m : HttpMessage)
    → first_request method uri version ≡ some m
    → m.body ≡ []
first_request-body unknown_method uri version m e = cc
first_request-body get uri unknown_version m e = cc
first_request-body get uri http_1_0 m e = sym (ap body_of e)
first_request-body get uri http_1_1 m e = sym (ap body_of e)
first_request-body post uri unknown_version m e = cc
first_request-body post uri http_1_0 m e = sym (ap body_of e)
first_request-body post uri http_1_1 m e = sym (ap body_of e)

first_response-body :
    (version : Version) (code : ℤ) (phrase : List ℕ) (m : HttpMessage)
    → first_response version code phrase ≡ some m
    → m.body ≡ []
first_response-body unknown_version code phrase m e = cc
first_response-body http_1_0 code phrase m e = elim (Bool-cases (ltb_ℤ (pos 0) code)) [
  | inl b ↦ sym (ap body_of (rw b at e))
  | inr b ↦ let nothing : none ≡ some m = rw b at e in cc
]
first_response-body http_1_1 code phrase m e = elim (Bool-cases (ltb_ℤ (pos 0) code)) [
  | inl b ↦ sym (ap body_of (rw b at e))
  | inr b ↦ let nothing : none ≡ some m = rw b at e in cc
]

start_line-body :
    (atoi : List ℕ → ℤ) (parts : List (List ℕ)) (m : HttpMessage)
    → start_line atoi parts ≡ some m
    → m.body ≡ []
unfolding start_line
start_line-body atoi [] m e = cc
start_line-body atoi (a ∷ []) m e = cc
start_line-body atoi (a ∷ b ∷ []) m e = cc
start_line-body atoi (a ∷ b ∷ c ∷ []) m e = elim (Bool-cases (starts_with a (codes "HTTP"))) [
  | inl h ↦ first_response-body (version_of a) (atoi (c_string b)) c m (rw h at e)
  | inr h ↦ first_request-body (method_of a) b (version_of c) m (rw h at e)
]
start_line-body atoi (a ∷ b ∷ c ∷ d ∷ parts) m e = cc

started-IsTurn :
    (s : Impl) (buffer : List ℕ) (n : ℕ) (o : Option HttpMessage)
    → ((m : HttpMessage) → o ≡ some m → m.body ≡ [])
    → IsTurn s.body_max_size reading_start_line (started s buffer n o)
started-IsTurn s buffer n none h = (refl, tt)
started-IsTurn s buffer n (some m) h =
    (refl, (omega arith, omega arith, omega (arith, ap length (h m refl))))

read_line-IsTurn :
    (atoi : List ℕ → ℤ) (s : Impl) (buffer : List ℕ) (o : Option ℕ)
    → s.status ≡ reading_start_line
    → IsTurn s.body_max_size reading_start_line (read_line atoi s buffer o)
unfolding read_line
read_line-IsTurn atoi s buffer none at =
    stays s buffer (ltb s.start_line_max_size (length buffer)) reading_start_line at tt
read_line-IsTurn atoi s buffer (some n) at =
    if_elim (IsTurn s.body_max_size reading_start_line) (ltb (size_sub s.start_line_max_size 2) n) _
      _ (λ e. (refl, tt))
      (λ e.
        started-IsTurn s buffer n (start_line atoi (split (take n buffer) (codes " ") (pos 3)))
          (start_line-body atoi (split (take n buffer) (codes " ") (pos 3))))

pub read_start_line-IsTurn :
    (atoi : List ℕ → ℤ) (s : Impl) (buffer : List ℕ)
    → s.status ≡ reading_start_line
    → IsTurn s.body_max_size reading_start_line (read_start_line atoi s buffer)
unfolding read_start_line
read_start_line-IsTurn atoi s buffer at = read_line-IsTurn atoi s buffer (find buffer crlf) at

set_lines-body : (m : HttpMessage) (lines : List (List ℕ)) → (set_lines m lines).0.body ≡ m.body
unfolding set_header
set_lines-body m [] = refl
set_lines-body m (line ∷ lines) = elim (Option-cases (find line (codes ":"))) [
  | inl e ↦ rw (e, set_lines) refl
  | inr (k, e) ↦
      rw (e, set_lines)
        (set_lines-body
          (set_header m (trim (take k line) (codes " \t"))
            (trim (c_string (drop (k + 1) line)) (codes " \t")))
          lines)
]

-- The next state behind headers or a trailer.
after_headers-rank :
    (st : Status) (m : HttpMessage) (max : ℕ)
    → (st ≡ reading_header) ⊎ (st ≡ reading_trailer_header)
    → length m.body ≤ max
    → (rank st < rank (after_headers st))
      × (rank (after_headers st) ≤ 4)
      × Keeps (after_headers st) (some m) max
after_headers-rank st m max (inl e) k = rw e (omega arith, omega arith, k)
after_headers-rank st m max (inr e) k = rw e (omega arith, omega arith, k)

header_rank : (st : Status) → (st ≡ reading_header) ⊎ (st ≡ reading_trailer_header) → rank st < 4
header_rank st (inl e) = rw e (omega arith)
header_rank st (inr e) = rw e (omega arith)

pub ends_here :
    (s : Impl) (m : HttpMessage)
    → s.message ≡ some m
    → length m.body ≤ s.body_max_size
    → Keeps finished s.message s.body_max_size
ends_here s m here k = rw here k

module _ (s : Impl) (m : HttpMessage) (buffer : List ℕ) (here : s.message ≡ some m)
    (k : length m.body ≤ s.body_max_size) (kept : Keeps s.status s.message s.body_max_size) where
  -- Headers, and the trailer behind a chunked body.
  module _ (which : (s.status ≡ reading_header) ⊎ (s.status ≡ reading_trailer_header)) where
    keep_headers-IsTurn :
        (h : HttpMessage × Bool) (n : ℕ)
        → h.0.body ≡ m.body
        → IsTurn s.body_max_size s.status (keep_headers s buffer n h)
    keep_headers-IsTurn (m', false) n same_body = (refl, tt)
    keep_headers-IsTurn (m', true) n same_body = (
      refl,
      after_headers-rank s.status m' s.body_max_size which (omega (arith, ap length same_body)),
    )

    read_lines-IsTurn : (o : Option ℕ) → IsTurn s.body_max_size s.status (read_lines s m buffer o)
    read_lines-IsTurn none =
        stays s buffer (ltb s.header_max_size (length buffer)) s.status refl kept
    read_lines-IsTurn (some n) =
        if_elim (IsTurn s.body_max_size s.status) (ltb (size_sub s.header_max_size 4) n) _ _
          (λ e. (refl, tt))
          (λ e.
            keep_headers-IsTurn (set_lines m (split (take n buffer) crlf (negsuc 0))) n
              (set_lines-body m (split (take n buffer) crlf (negsuc 0))))

    pub read_header-IsTurn : IsTurn s.body_max_size s.status (read_header s m buffer)
    unfolding read_header
    read_header-IsTurn =
        if_elim (IsTurn s.body_max_size s.status) (ltb (length buffer) 2) _ _
          (λ e. (refl, (refl, kept)))
          (λ e.
            if_elim (IsTurn s.body_max_size s.status) (starts_with buffer crlf) _ _
              (λ e'. (refl, (header_rank s.status which, omega arith, ends_here s m here k)))
              (λ e'. read_lines-IsTurn (find buffer (crlf ++ crlf))))
