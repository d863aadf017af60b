-- ===== src/Modbus/Buffer.antt =====
-- class Buffer of include/Modbus/Buffer.h and src/Modbus/Buffer.cpp: the vector of bytes of a message.
-- Integers stand for their bit patterns, so a signed argument is given in two's complement, and a
-- float by its bits.
pub mod Frame
use ts_c_riocpp.Common.{
  ℕ, ◌+◌, List, [], ◌∷◌, ◌++◌, Option, none, some, get_elem?, bit_and, shr, u8, memory, swap,
}
use ts_c_riocpp.Modbus.Crc.{crc_of}

abbrev pub Buffer : Type 0
Buffer = List ℕ

-- The argument types that Parser can read back.
pub data Scalar : Type 0 where
  int24 int32 uint8 uint16 uint32 uint64 float32 : Scalar

-- The arguments of callFunction.
pub data Arg : Type 0 where
  scalar : Scalar → ℕ → Arg
  int8 int16 : ℕ → Arg
  uint8s int8s uint16s : List ℕ → Arg

unfoldable pub push_buffer : Buffer → ℕ → Buffer
push_buffer b d = b ++ (u8 d ∷ [])

unfoldable pub push_bytes : Buffer → List ℕ → Buffer
push_bytes b [] = b
push_bytes b (d ∷ ds) = push_bytes (b ++ (d ∷ [])) ds

unfoldable pub write_i24 : Buffer → ℕ → Buffer
unfolding push_buffer
write_i24 b d = push_buffer (push_buffer (push_buffer b (shr d 16)) (shr d 8)) d

-- The specialisations of `write`.
unfoldable pub write : Buffer → Scalar → ℕ → Buffer
unfolding push_bytes write_i24 swap
write b int24 d = write_i24 b d
write b int32 d = push_bytes b (memory 4 (swap 4 d))
write b uint8 d = push_bytes b (memory 1 d)
write b uint16 d = push_bytes b (memory 2 (swap 2 d))
write b uint32 d = push_bytes b (memory 4 (swap 4 d))
write b uint64 d = push_bytes b (memory 8 (swap 8 d))
write b float32 d = push_bytes b (memory 4 (swap 4 d))

unfoldable pub write_i8 : Buffer → ℕ → Buffer
write_i8 b d = push_bytes b (memory 1 d)

unfoldable pub write_i16 : Buffer → ℕ → Buffer
write_i16 b d = push_bytes b (memory 2 (swap 2 d))

unfoldable pub write_vector : (Buffer → ℕ → Buffer) → Buffer → List ℕ → Buffer
write_vector put b [] = b
write_vector put b (d ∷ ds) = write_vector put (put b d) ds

unfoldable pub write_arg : Buffer → Arg → Buffer
unfolding write write_i8 write_i16 write_vector
write_arg b (scalar t d) = write b t d
write_arg b (int8 d) = write_i8 b d
write_arg b (int16 d) = write_i16 b d
write_arg b (uint8s ds) = write_vector (λ c d. write c uint8 d) b ds
write_arg b (int8s ds) = write_vector write_i8 b ds
write_arg b (uint16s ds) = write_vector (λ c d. write c uint16 d) b ds

unfoldable pub function_arguments : Buffer → List Arg → Buffer
unfolding write_arg
function_arguments b [] = b
function_arguments b (a ∷ as') = function_arguments (write_arg b a) as'

unfoldable pub get_calc_crc : Buffer → ℕ
get_calc_crc b = crc_of b

unfoldable pub write_crc : Buffer → Buffer
unfolding get_calc_crc push_buffer
write_crc b =
    let crc = get_calc_crc b in
    push_buffer (push_buffer b (bit_and crc 0xFF)) (bit_and (shr crc 8) 0xFF)

unfoldable pub call_function : Buffer → ℕ → ℕ → List Arg → Buffer
unfolding write function_arguments write_crc
call_function b address func args =
    write_crc (function_arguments (write (write b uint8 address) uint8 func) args)

-- `none` is the std::out_of_range of at().
unfoldable pub address : Buffer → Option ℕ
address b = get_elem? b 0

unfoldable pub func : Buffer → Option ℕ
func b = get_elem? b 1
