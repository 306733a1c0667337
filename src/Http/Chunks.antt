-- ===== src/Http/Chunks.antt =====
-- `dechunk` of src/http.rs, on bodies as they are sent in chunks.
use mathlib.Core.List.{append_assoc, append-nil}
use qcore_rs.Prelude.{
  ℕ, zero, suc, ◌+◌, ◌<◌, ◌≡◌, refl, sym, ap, ◌∙◌, false, some, List, [], ◌∷◌, ◌++◌, ok, ◌==◌, ltb,
  list_eq, nat_eq, length, length-append, take, drop, Bytes, Text, All, arith, u64_max,
}
use qcore_rs.Client.Endpoint.{starts_with}
use qcore_rs.Http.Sizes.{IsSized, size_of-IsSized, sized-IsLine, size-bound}
use qcore_rs.Http.{crlf, find, size_of, line_of, dechunk_loop, dechunk}

-- A chunk, with its size line, which may carry an extension.
pub record Chunk : Type 0 where
  pub line : Text
  pub bytes : Bytes

abbrev pub IsLine : Text → Type 0
IsLine line = All (λ c. (c == 13) ≡ false) line

pub record IsChunk (chunk : Chunk) : Type 0 where
  pub sized : IsSized chunk.line (length chunk.bytes)
  pub some_bytes : 0 < length chunk.bytes

-- The body as it is sent: the chunks, a last line that says 0, and a trailer.
abbrev pub sent : List Chunk → Text → Bytes → Bytes
sent [] last trailer = last ++ (13 ∷ 10 ∷ trailer)
sent (chunk ∷ chunks) last trailer =
    chunk.line ++ (13 ∷ 10 ∷ (chunk.bytes ++ (13 ∷ 10 ∷ sent chunks last trailer)))

abbrev pub joined : List Chunk → Bytes
joined [] = []
joined (chunk ∷ chunks) = chunk.bytes ++ joined chunks

find-crlf :
    (line rest : Bytes) → IsLine line → find (line ++ (13 ∷ 10 ∷ rest)) crlf ≡ some (length line)
unfolding find starts_with
find-crlf [] rest a = refl
find-crlf (c ∷ line) rest a = ground (arith, a.0, find-crlf line rest a.1)

take-front : (front back : Bytes) → take (length front) (front ++ back) ≡ front
take-front [] [] = refl
take-front [] (b ∷ back) = refl
take-front (c ∷ front) back = ap (λ r. c ∷ r) (take-front front back)

drop-front : (front back : Bytes) → drop (length front) (front ++ back) ≡ back
drop-front [] back = refl
drop-front (c ∷ front) back = drop-front front back

drop-line : (front back : Bytes) → drop (length front + 2) (front ++ (13 ∷ 10 ∷ back)) ≡ back
drop-line [] back = refl
drop-line (c ∷ front) back =
    let more : length (c ∷ front) + 2 ≡ suc (length front + 2) = omega arith in
    rw more (drop-line front back)

line_of-line :
    (line rest : Bytes) → IsLine line → line_of (line ++ (13 ∷ 10 ∷ rest)) ≡ ok (line, rest)
line_of-line line rest a =
    rw (find-crlf line rest a, take-front line (13 ∷ 10 ∷ rest), drop-line line rest) refl

-- One round of the loop, on a line that gives a size.
last_round :
    (fuel : ℕ) (line rest out : Bytes)
    → IsLine line
    → size_of line ≡ ok 0
    → dechunk_loop (suc fuel) (line ++ (13 ∷ 10 ∷ rest)) out ≡ ok out
unfolding dechunk_loop
last_round fuel line rest out a z = rw (line_of-line line rest a, z) refl

chunk_round :
    (fuel : ℕ) (chunk : Chunk) (rest out : Bytes)
    → IsChunk chunk
    → dechunk_loop (suc fuel) (chunk.line ++ (13 ∷ 10 ∷ (chunk.bytes ++ (13 ∷ 10 ∷ rest)))) out
      ≡ dechunk_loop fuel rest (out ++ chunk.bytes)
unfolding dechunk_loop
chunk_round fuel chunk rest out a =
    let more = chunk.bytes ++ (13 ∷ 10 ∷ rest) in
    let positive : (length chunk.bytes == 0) ≡ false = ground (arith, a.some_bytes) in
    let inside : ltb u64_max (length chunk.bytes + 2) ≡ false =
      ground (arith, size-bound chunk.line (length chunk.bytes) a.sized) in
    let long : ltb (length more) (length chunk.bytes + 2) ≡ false =
      ground (arith, length-append chunk.bytes (13 ∷ 10 ∷ rest)) in
    rw
      (
        line_of-line chunk.line more (sized-IsLine chunk.line (length chunk.bytes) a.sized),
        size_of-IsSized chunk.line (length chunk.bytes) a.sized,
        positive,
        inside,
        long,
        drop-front chunk.bytes (13 ∷ 10 ∷ rest),
        drop-line chunk.bytes rest,
        take-front chunk.bytes (13 ∷ 10 ∷ rest),
      )
      refl

dechunk_loop-sent :
    (chunks : List Chunk) (last : Text) (trailer out : Bytes) (fuel : ℕ)
    → All IsChunk chunks
    → IsLine last
    → size_of last ≡ ok 0
    → length chunks < fuel
    → dechunk_loop fuel (sent chunks last trailer) out ≡ ok (out ++ joined chunks)
dechunk_loop-sent chunks last trailer out zero a l z h = absurd (omega (arith, h))
dechunk_loop-sent [] last trailer out (suc fuel) a l z h =
    last_round fuel last trailer out l z ∙ ap ok (sym (append-nil out))
dechunk_loop-sent (chunk ∷ chunks) last trailer out (suc fuel) a l z h =
    chunk_round fuel chunk (sent chunks last trailer) out a.0
    ∙ dechunk_loop-sent chunks last trailer (out ++ chunk.bytes) fuel a.1 l z (omega (arith, h))
    ∙ ap ok (append_assoc out chunk.bytes (joined chunks))

length-sent :
    (chunks : List Chunk) (last : Text) (trailer : Bytes)
    → length chunks < length (sent chunks last trailer)
length-sent [] last trailer = omega (arith, length-append last (13 ∷ 10 ∷ trailer))
length-sent (chunk ∷ chunks) last trailer =
    let later = sent chunks last trailer in
    omega (
      arith,
      length-append chunk.line (13 ∷ 10 ∷ (chunk.bytes ++ (13 ∷ 10 ∷ later))),
      length-append chunk.bytes (13 ∷ 10 ∷ later),
      length-sent chunks last trailer,
    )

-- A body in chunks of at least one byte, each behind a line that gives its size in one to eight
-- hexadecimal digits, small or capital, with or without an extension behind a semicolon, and a last
-- line that gives the size 0, is read to the end as the bytes of the chunks, whatever trails it.
pub dechunk-sent :
    (chunks : List Chunk) (last : Text) (trailer : Bytes)
    → All IsChunk chunks
    → IsSized last 0
    → dechunk (sent chunks last trailer) ≡ ok (joined chunks)
unfolding dechunk
dechunk-sent chunks last trailer a z =
    dechunk_loop-sent chunks last trailer [] (suc (length (sent chunks last trailer))) a
      (sized-IsLine last 0 z) (size_of-IsSized last 0 z)
      (omega (arith, length-sent chunks last trailer))
