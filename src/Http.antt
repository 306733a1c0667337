-- ===== src/Http.antt =====
-- What src/http.rs reads of a response, and the host and port of a base. The socket is left out.
pub mod Chunks
pub mod Sizes
use qcore_rs.Prelude.{
  ℕ, zero, suc, ◌+◌, ◌-◌, ◌*◌, Bool, true, false, not, ◌&&◌, ◌||◌, Option, none, some, List, [],
  ◌∷◌, ◌++◌, Result, ok, err, ◌>>=◌, ◌>>◌, refuse, ok_or, ltb, leb, ◌==◌, if◌then◌else◌, is_same,
  list_eq, nat_eq, length, take, drop, all, any, Bytes, Text, codes, to_ascii_lowercase,
  is_ascii_digit, u64_max,
}
use qcore_rs.Prelude.Utf8.{is_utf8}
use qcore_rs.Prelude.Decimal.{parse_uint}
use qcore_rs.Json.Parser.{span, to_digit}
use qcore_rs.Client.Endpoint.{starts_with, after_scheme}

pub data HttpError : Type 0 where
  out_of_fuel no_head head_not_utf8 no_status_line no_status_code header_without_name
        length_not_number length_out_of_range two_lengths encoding_not_read length_and_chunked
        not_utf8 line_not_terminated size_not_text size_not_hex size_out_of_range chunk_truncated
        bracket_not_closed no_port port_not_number :
      HttpError
  interim : ℕ → HttpError
  length_mismatch : ℕ → ℕ → HttpError

abbrev pub crlf : Bytes
crlf = 13 ∷ 10 ∷ []

abbrev pub one_more : Option ℕ → Option ℕ
one_more none = none
one_more (some n) = some (suc n)

unfoldable pub find : Bytes → Bytes → Option ℕ
unfolding starts_with
find [] needle = none
find (c ∷ rest) needle = elim (starts_with (c ∷ rest) needle) [
  | true ↦ some 0
  | false ↦ one_more (find rest needle)
]

-- `trim_matches([' ', '\t'])`
abbrev pub is_blank : ℕ → Bool
is_blank c = c == 32 || c == 9

unfoldable pub trim_back : Text → Text
trim_back [] = []
trim_back (c ∷ rest) = elim (trim_back rest) [
  | [] ↦ if is_blank c then [] else c ∷ []
  | d ∷ more ↦ c ∷ d ∷ more
]

unfoldable pub trim_blank : Text → Text
unfolding span trim_back
trim_blank text = trim_back (span is_blank text).1

-- `is_ascii_hexdigit`
abbrev pub is_hex : ℕ → Bool
is_hex c = elim (to_digit c) [ none ↦ false | some d ↦ true ]

abbrev pub digit_or_zero : Option ℕ → ℕ
digit_or_zero none = 0
digit_or_zero (some d) = d

-- `from_str_radix(_, 16)` on at most eight digits, behind the number read so far
unfoldable pub hex_value : ℕ → Text → ℕ
hex_value n [] = n
hex_value n (c ∷ rest) = hex_value (n * 16 + digit_or_zero (to_digit c)) rest

abbrev pub size_text : Text → Text
size_text line = trim_blank (span (λ c. not (c == b';')) line).0

-- the size that a line gives
unfoldable pub size_of : Bytes → Result HttpError ℕ
unfolding trim_blank hex_value span is_utf8
size_of line = do
  refuse (not (is_utf8 line)) HttpError.size_not_text
  let text = size_text line
  refuse (length text == 0 || ltb 8 (length text) || not (all is_hex text)) HttpError.size_not_hex
  ok (hex_value 0 text)

abbrev pub line_of : Bytes → Result HttpError (Bytes × Bytes)
line_of input = ok_or (find input crlf) HttpError.line_not_terminated >>= λ eol.
    ok (take eol input, drop (eol + 2) input)

unfoldable pub dechunk_loop : ℕ → Bytes → Bytes → Result HttpError Bytes
unfolding find size_of
dechunk_loop zero input out = err HttpError.out_of_fuel
dechunk_loop (suc fuel) input out = do
  (line, input) ← line_of input
  size ← size_of line
  if size == 0
      then ok out
      else (refuse (ltb u64_max (size + 2)) HttpError.size_out_of_range
          >> refuse (ltb (length input) (size + 2) || not (is_same (take 2 (drop size input)) crlf))
              HttpError.chunk_truncated
          >> dechunk_loop fuel (drop (size + 2) input) (out ++ take size input))

unfoldable pub dechunk : Bytes → Result HttpError Bytes
unfolding dechunk_loop
dechunk input = dechunk_loop (suc (length input)) input []

-- `split("\r\n")`
abbrev pub onto_first : ℕ → List Text → List Text
onto_first c [] = (c ∷ []) ∷ []
onto_first c (line ∷ lines) = (c ∷ line) ∷ lines

unfoldable pub split_lines : Text → List Text
split_lines [] = [] ∷ []
split_lines (c ∷ []) = (c ∷ []) ∷ []
split_lines (c ∷ (d ∷ rest)) = elim (c == 13 && d == 10) [
  | true ↦ [] ∷ split_lines rest
  | false ↦ onto_first c (split_lines (d ∷ rest))
]

abbrev pub word : Text → Text × Text
word line = let (first, rest) = span (λ c. not (c == 32)) line in (first, drop 1 rest)

unfoldable pub status_of_line : Text → Result HttpError ℕ
unfolding span parse_uint
status_of_line line = do
  let version = (word line).0
  refuse (not (is_same version (codes "HTTP/1.1") || is_same version (codes "HTTP/1.0")))
      HttpError.no_status_line
  let code = (word (word line).1).0
  refuse (not (length code == 3) || not (all is_ascii_digit code)) HttpError.no_status_code
  status ← ok_or (parse_uint 65_535 code) HttpError.no_status_code
  refuse (ltb status 200) (HttpError.interim status)
  ok status

-- `split_once(':')`, with the value trimmed
abbrev pub after_colon : Text × Text → Result HttpError (Text × Text)
after_colon (name, []) = err HttpError.header_without_name
after_colon (name, (c ∷ value)) = ok (name, trim_blank value)

abbrev pub differs : Option ℕ → ℕ → Bool
differs none n = false
differs (some m) n = not (m == n)

abbrev pub is_name : Text → Text → Bool
is_name name wanted = is_same (to_ascii_lowercase name) wanted

-- one header, on the content length and whether the body is chunked
unfoldable pub read_header : Text → Option ℕ × Bool → Result HttpError (Option ℕ × Bool)
unfolding span trim_blank parse_uint
read_header line seen = do
  (name, value) ← after_colon (span (λ c. not (c == b':')) line)
  if is_name name (codes "content-length")
      then (refuse (length value == 0 || not (all is_ascii_digit value)) HttpError.length_not_number
          >> ok_or (parse_uint u64_max value) HttpError.length_out_of_range
          >>= λ n. refuse (differs seen.0 n) HttpError.two_lengths >> ok (some n, seen.1))
      else if is_name name (codes "transfer-encoding")
      then (refuse (not (is_name value (codes "chunked")) || seen.1) HttpError.encoding_not_read
          >> ok (seen.0, true))
      else ok seen

unfoldable pub read_headers : List Text → Option ℕ × Bool → Result HttpError (Option ℕ × Bool)
unfolding read_header
read_headers [] seen = ok seen
read_headers (line ∷ lines) seen = do seen ← read_header line seen; read_headers lines seen

unfoldable pub body_of : Option ℕ → Bool → Bytes → Result HttpError Bytes
unfolding dechunk
body_of (some n) true body = err HttpError.length_and_chunked
body_of none true body = dechunk body
body_of (some n) false body =
    if length body == n then ok body else err (HttpError.length_mismatch (length body) n)
body_of none false body = ok body

abbrev pub status_and_headers : List Text → Result HttpError (ℕ × Option ℕ × Bool)
status_and_headers [] = err HttpError.no_status_line
status_and_headers (first ∷ lines) = status_of_line first >>= λ status.
    read_headers lines (none, false) >>= λ seen. ok (status, seen.0, seen.1)

unfoldable pub parse_response : Bytes → Result HttpError (ℕ × Text)
unfolding find split_lines status_of_line read_headers body_of is_utf8
parse_response raw = do
  split ← ok_or (find raw (crlf ++ crlf)) HttpError.no_head
  let head = take split raw
  refuse (not (is_utf8 head)) HttpError.head_not_utf8
  (status, sized, chunked) ← status_and_headers (split_lines head)
  body ← body_of sized chunked (drop (split + 4) raw)
  refuse (not (is_utf8 body)) HttpError.not_utf8
  ok (status, body)

-- `rsplit_once(':')`
unfoldable pub last_colon : Text → Option (Text × Text)
last_colon [] = none
last_colon (c ∷ rest) = elim (last_colon rest) [
  | some (host, port) ↦ some (c ∷ host, port)
  | none ↦ if c == b':' then some ([], rest) else none
]

abbrev pub port_of : Text → Text → Result HttpError (Text × ℕ)
port_of host port = ok_or (parse_uint 65_535 port) HttpError.port_not_number >>= λ n. ok (host, n)

-- what stands behind the closing bracket, which is the rest's first byte
abbrev pub bracketed : Text × Text → Result HttpError (Text × ℕ)
bracketed (host, []) = err HttpError.bracket_not_closed
bracketed (host, (b ∷ [])) = err HttpError.no_port
bracketed (host, (b ∷ (c ∷ port))) = if c == b':' then port_of host port else err HttpError.no_port

abbrev pub hosted : Option (Text × Text) → Result HttpError (Text × ℕ)
hosted none = err HttpError.no_port
hosted (some (host, port)) = port_of host port

unfoldable pub split_hostport : Text → Result HttpError (Text × ℕ)
unfolding span last_colon parse_uint
split_hostport [] = err HttpError.no_port
split_hostport (c ∷ rest) =
    if c == b'['
    then bracketed (span (λ b. not (b == b']')) rest)
    else hosted (last_colon (c ∷ rest))
