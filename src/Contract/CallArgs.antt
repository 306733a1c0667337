-- ===== src/Contract/CallArgs.antt =====
-- `build_call_args` of src/contract.rs.
pub mod Ends
pub mod Built
use qcore_rs.Prelude.{
  ℕ, ◌+◌, ◌≤◌, max, ltb, if◌then◌else◌, Option, some, none, List, [], ◌∷◌, ◌++◌, Result, ok, err,
  ◌>>=◌, ◌>>◌, refuse, map_err, ok_or, checked_add, Bytes, u64_max,
}
use qcore_rs.Contract.Memory.{MemoryError}
use qcore_rs.Contract.Field.{FieldArg, FieldError, ensure_fits, width, zeroes}
use qcore_rs.Contract.Spans.{SpanError, check_spans}
use qcore_rs.Contract.Place.{place, spans_of}

abbrev pub contract_context_bytes : ℕ
contract_context_bytes = 152

abbrev pub max_user_memory : ℕ
max_user_memory = 65536

pub data CallError : Type 0 where
  field : FieldError → CallError
  inside_context too_large does_not_fit : CallError
  spans : SpanError → CallError
  memory : MemoryError → CallError

-- the first loop, which checks each argument and finds where the last one ends
unfoldable pub args_end : ℕ → List FieldArg → Result CallError ℕ
unfolding ensure_fits
args_end mem_len [] = ok mem_len
args_end mem_len (f ∷ rest) = do
  map_err CallError.field (ensure_fits f.value)
  refuse (ltb f.offset contract_context_bytes) CallError.inside_context
  end ← ok_or (checked_add u64_max f.offset (width f.value)) CallError.too_large
  args_end (max mem_len end) rest

unfoldable pub build_memory : List FieldArg → Result CallError Bytes
unfolding args_end check_spans place
build_memory args = do
  mem_len ← args_end contract_context_bytes args
  refuse (ltb max_user_memory mem_len) CallError.does_not_fit
  map_err CallError.spans (check_spans (spans_of args))
  map_err CallError.memory (place (zeroes mem_len) args)

unfoldable pub build_call_args : Bytes → List FieldArg → Result CallError Bytes
unfolding build_memory
build_call_args selector args = do user_memory ← build_memory args; ok (selector ++ user_memory)
