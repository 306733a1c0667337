-- ===== src/Contract/Memory.antt =====
-- The argument memory: `put_bytes` and `put_word`, read back one byte at a time.
use qcore_rs.Prelude.{
  ℕ, zero, suc, ◌+◌, ◌-◌, ◌≤◌, ◌≡◌, refl, ap, ◌&&◌, Option, none, some, [], ◌∷◌, Result, ok, err,
  ltb, leb, if◌then◌else◌, length, arith, Bytes, u64_max,
}
use qcore_rs.Contract.Word.{be_bytes}

pub data MemoryError : Type 0 where
  too_large off_the_end : MemoryError

abbrev pub get_elem? : Bytes → ℕ → Option ℕ
get_elem? [] i = none
get_elem? (b ∷ bs) zero = some b
get_elem? (b ∷ bs) (suc i) = get_elem? bs i

-- `memory[..]` overwritten from its start
unfoldable pub overlay : Bytes → Bytes → Bytes
overlay [] memory = memory
overlay (b ∷ bs) [] = []
overlay (b ∷ bs) (m ∷ memory) = b ∷ overlay bs memory

-- `memory[start..].copy_from_slice(bytes)` for a range inside the memory
unfoldable pub splice : ℕ → Bytes → Bytes → Bytes
unfolding overlay
splice zero bytes memory = overlay bytes memory
splice (suc start) bytes [] = []
splice (suc start) bytes (m ∷ memory) = m ∷ splice start bytes memory

unfoldable pub put_bytes : Bytes → ℕ → Bytes → Result MemoryError Bytes
unfolding splice
put_bytes memory offset bytes =
    let end = offset + length bytes in
    if ltb u64_max end
    then err MemoryError.too_large
    else if ltb (length memory) end
    then err MemoryError.off_the_end
    else ok (splice offset bytes memory)

unfoldable pub put_word : Bytes → ℕ → ℕ → Result MemoryError Bytes
unfolding put_bytes be_bytes
put_word memory offset value = put_bytes memory offset (be_bytes 8 value)

length-overlay : (bs memory : Bytes) → length (overlay bs memory) ≡ length memory
unfolding overlay
length-overlay [] memory = refl
length-overlay (b ∷ bs) [] = refl
length-overlay (b ∷ bs) (m ∷ memory) = ap suc (length-overlay bs memory)

pub length-splice :
    (start : ℕ) (bs memory : Bytes) → length (splice start bs memory) ≡ length memory
unfolding splice
length-splice zero bs memory = length-overlay bs memory
length-splice (suc start) bs [] = refl
length-splice (suc start) bs (m ∷ memory) = ap suc (length-splice start bs memory)

get-overlay :
    (bs memory : Bytes) (i : ℕ)
    → length bs ≤ length memory
    → get_elem? (overlay bs memory) i
      ≡ (if ltb i (length bs) then get_elem? bs i else get_elem? memory i)
unfolding overlay
get-overlay [] memory i h = ground arith
get-overlay (b ∷ bs) [] i h = absurd (omega arith)
get-overlay (b ∷ bs) (m ∷ memory) zero h = ground arith
get-overlay (b ∷ bs) (m ∷ memory) (suc i) h = ground (arith, get-overlay bs memory i)

-- A write inside the memory changes its own range and nothing else.
pub get-splice :
    (start : ℕ) (bs memory : Bytes) (i : ℕ)
    → start + length bs ≤ length memory
    → get_elem? (splice start bs memory) i ≡ (
        if leb start i && ltb i (start + length bs)
        then get_elem? bs (i - start)
        else get_elem? memory i)
unfolding splice
get-splice zero bs memory i h = ground (arith, get-overlay bs memory i)
get-splice (suc start) bs [] i h = absurd (omega arith)
get-splice (suc start) bs (m ∷ memory) zero h = ground arith
get-splice (suc start) bs (m ∷ memory) (suc i) h = ground (arith, get-splice start bs memory i)
