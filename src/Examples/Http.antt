-- ===== src/Examples/Http.antt =====
-- Responses as the tests of src/http.rs have them.
use qcore_rs.Prelude.{
  ◌≡◌, refl, true, false, All, List, [], ◌∷◌, ◌++◌, ok, err, Bytes, Text, codes, arith,
}
use qcore_rs.Prelude.Utf8.{utf8_run, is_utf8}
use qcore_rs.Prelude.Decimal.{parse_uint}
use qcore_rs.Http.{HttpError, crlf, parse_response, dechunk, split_hostport}
use qcore_rs.Http.Chunks.{Chunk, IsChunk, sent, dechunk-sent}
use qcore_rs.Http.Sizes.{IsSized}

abbrev lines : List Text → Bytes
lines [] = []
lines (line ∷ rest) = line ++ crlf ++ lines rest

length_kept :
    parse_response
      (lines (codes "HTTP/1.1 200 OK" ∷ codes "Content-Length: 2" ∷ [] ∷ []) ++ codes "{}")
    ≡ ok (200, codes "{}")
unfolding parse_response parse_uint is_utf8
length_kept = refl

junk_refused :
    parse_response
      (lines (codes "HTTP/1.1 200 OK" ∷ codes "Content-Length: 2" ∷ [] ∷ []) ++ codes "{}junk")
    ≡ err (HttpError.length_mismatch 6 2)
unfolding parse_response parse_uint is_utf8
junk_refused = refl

chunks_joined :
    parse_response (
      lines (
        codes "HTTP/1.1 200 OK"
        ∷ codes "Transfer-Encoding: chunked"
        ∷ []
        ∷ codes "1"
        ∷ codes "{"
        ∷ codes "1"
        ∷ codes "}"
        ∷ codes "0"
        ∷ []
        ∷ []))
    ≡ ok (200, codes "{}")
unfolding parse_response parse_uint is_utf8
chunks_joined = refl

gzip_refused :
    parse_response (lines (codes "HTTP/1.1 200 OK" ∷ codes "Transfer-Encoding: gzip" ∷ [] ∷ []))
    ≡ err HttpError.encoding_not_read
unfolding parse_response parse_uint is_utf8
gzip_refused = refl

bracketed_host : split_hostport (codes "[::1]:80") ≡ ok (codes "::1", 80)
unfolding split_hostport
bracketed_host = refl

-- Twenty-six bytes behind a line of two digits and an extension, and ten behind a capital letter.
abbrev two_chunks : List Chunk
two_chunks =
    record { line = codes "1a;x=1"; bytes = codes "abcdefghijklmnopqrstuvwxyz" }
    ∷ record { line = codes "A"; bytes = codes "0123456789" }
    ∷ []

two_chunks-IsChunk : All IsChunk two_chunks
unfolding utf8_run
two_chunks-IsChunk = (
  record {
    sized = record {
      digits = (false, 1) ∷ (false, 10) ∷ [];
      extension = codes ";x=1";
      line_is = refl;
      some_digits = omega arith;
      few = omega arith;
      under_16 = (omega arith, (omega arith, tt));
      size_is = refl;
      extends = (refl, refl, (refl, (refl, (refl, tt))));
    };
    some_bytes = omega arith;
  },
  (
    record {
      sized = record {
        digits = (true, 10) ∷ [];
        extension = [];
        line_is = refl;
        some_digits = omega arith;
        few = omega arith;
        under_16 = (omega arith, tt);
        size_is = refl;
        extends = tt;
      };
      some_bytes = omega arith;
    },
    tt,
  ),
)

zero_line : IsSized (codes "0") 0
zero_line = record {
  digits = (false, 0) ∷ [];
  extension = [];
  line_is = refl;
  some_digits = omega arith;
  few = omega arith;
  under_16 = (omega arith, tt);
  size_is = refl;
  extends = tt;
}

dechunk-sent_example :
    dechunk (sent two_chunks (codes "0") crlf) ≡ ok (codes "abcdefghijklmnopqrstuvwxyz0123456789")
dechunk-sent_example = dechunk-sent two_chunks (codes "0") crlf two_chunks-IsChunk zero_line

nine_digits_refused : dechunk (codes "000000001" ++ crlf) ≡ err HttpError.size_not_hex
unfolding dechunk is_utf8
nine_digits_refused = refl
