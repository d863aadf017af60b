-- ===== src/Modbus/Buffer/Frame.antt =====
-- The bytes that the methods of Buffer append, in closed form.
use ts_c_riocpp.Common.{
  ℕ, ◌/◌, ◌%◌, ◌≡◌, sym, ap, ap₂, ◌∙◌, List, [], ◌∷◌, ◌++◌, append-nil, append_assoc, arith, All,
  All-append, All-reverse, IsByte, u8, shr, bit_and, bit_and_mask, memory, memory-IsByte,
  memory-swap, reverse,
}
use ts_c_riocpp.Modbus.Crc.{crc_of, add_all, reset}
use ts_c_riocpp.Modbus.Crc.Detect.{crc_of-IsCrc}
use ts_c_riocpp.Modbus.Crc.Residue.{crc_residue, add_all-append}
use ts_c_riocpp.Modbus.Buffer.{
  Buffer, Scalar, int24, int32, uint8, uint16, uint32, uint64, float32, Arg, scalar, int8, int16,
  uint8s, int8s, uint16s, push_bytes, write, write_vector, write_arg, function_arguments, write_crc,
  call_function,
}

-- An integer of `n` bytes in network order, highest byte first.
abbrev pub network : ℕ → ℕ → List ℕ
network n d = reverse (memory n d)

abbrev pub encoded : Scalar → ℕ → List ℕ
encoded int24 d = u8 (shr d 16) ∷ u8 (shr d 8) ∷ u8 d ∷ []
encoded int32 d = network 4 d
encoded uint8 d = memory 1 d
encoded uint16 d = network 2 d
encoded uint32 d = network 4 d
encoded uint64 d = network 8 d
encoded float32 d = network 4 d

abbrev concat_map : (ℕ → List ℕ) → List ℕ → List ℕ
concat_map f [] = []
concat_map f (d ∷ ds) = f d ++ concat_map f ds

abbrev pub encoded_arg : Arg → List ℕ
encoded_arg (scalar t d) = encoded t d
encoded_arg (int8 d) = memory 1 d
encoded_arg (int16 d) = network 2 d
encoded_arg (uint8s ds) = concat_map (memory 1) ds
encoded_arg (int8s ds) = concat_map (memory 1) ds
encoded_arg (uint16s ds) = concat_map (network 2) ds

abbrev pub encoded_args : List Arg → List ℕ
encoded_args [] = []
encoded_args (a ∷ as') = encoded_arg a ++ encoded_args as'

-- A message before its CRC.
abbrev pub body_of : ℕ → ℕ → List Arg → List ℕ
body_of address func args = u8 address ∷ u8 func ∷ encoded_args args

-- The two bytes of a CRC on the wire, low byte first.
abbrev pub crc_bytes : List ℕ → List ℕ
crc_bytes bytes = (crc_of bytes % 256) ∷ (crc_of bytes / 256 % 256) ∷ []

push_bytes_lem : (b ds : List ℕ) → push_bytes b ds ≡ b ++ ds
unfolding push_bytes
push_bytes_lem b [] = sym (append-nil b)
push_bytes_lem b (d ∷ ds) = push_bytes_lem (b ++ (d ∷ [])) ds ∙ append_assoc b (d ∷ []) ds

pub write_lem : (b : Buffer) (t : Scalar) (d : ℕ) → write b t d ≡ b ++ encoded t d
unfolding write
write_lem b int24 d =
    append_assoc (b ++ (u8 (shr d 16) ∷ [])) (u8 (shr d 8) ∷ []) (u8 d ∷ [])
    ∙ append_assoc b (u8 (shr d 16) ∷ []) (u8 (shr d 8) ∷ u8 d ∷ [])
write_lem b int32 d = push_bytes_lem b _ ∙ ap (λ t. b ++ t) (memory-swap 4 d)
write_lem b uint8 d = push_bytes_lem b _
write_lem b uint16 d = push_bytes_lem b _ ∙ ap (λ t. b ++ t) (memory-swap 2 d)
write_lem b uint32 d = push_bytes_lem b _ ∙ ap (λ t. b ++ t) (memory-swap 4 d)
write_lem b uint64 d = push_bytes_lem b _ ∙ ap (λ t. b ++ t) (memory-swap 8 d)
write_lem b float32 d = push_bytes_lem b _ ∙ ap (λ t. b ++ t) (memory-swap 4 d)

write_vector_lem :
    (put : Buffer → ℕ → Buffer) (f : ℕ → List ℕ) (b : Buffer) (ds : List ℕ)
    → ((c : Buffer) (d : ℕ) → put c d ≡ c ++ f d)
    → write_vector put b ds ≡ b ++ concat_map f ds
unfolding write_vector
write_vector_lem put f b [] h = sym (append-nil b)
write_vector_lem put f b (d ∷ ds) h =
    write_vector_lem put f (put b d) ds h
    ∙ ap (λ t. t ++ concat_map f ds) (h b d)
    ∙ append_assoc b (f d) (concat_map f ds)

write_arg_lem : (b : Buffer) (a : Arg) → write_arg b a ≡ b ++ encoded_arg a
unfolding write_arg
write_arg_lem b (scalar t d) = write_lem b t d
write_arg_lem b (int8 d) = push_bytes_lem b _
write_arg_lem b (int16 d) = push_bytes_lem b _ ∙ ap (λ t. b ++ t) (memory-swap 2 d)
write_arg_lem b (uint8s ds) = write_vector_lem _ (memory 1) b ds (λ c d. write_lem c uint8 d)
write_arg_lem b (int8s ds) =
    write_vector_lem _ (memory 1) b ds (λ c d. push_bytes_lem c (memory 1 d))
write_arg_lem b (uint16s ds) = write_vector_lem _ (network 2) b ds (λ c d. write_lem c uint16 d)

function_arguments_lem :
    (b : Buffer) (args : List Arg) → function_arguments b args ≡ b ++ encoded_args args
unfolding function_arguments
function_arguments_lem b [] = sym (append-nil b)
function_arguments_lem b (a ∷ as') =
    function_arguments_lem (write_arg b a) as'
    ∙ ap (λ t. t ++ encoded_args as') (write_arg_lem b a)
    ∙ append_assoc b (encoded_arg a) (encoded_args as')

pub write_crc_lem : (b : Buffer) → write_crc b ≡ b ++ crc_bytes b
unfolding write_crc
write_crc_lem b =
    append_assoc b (bit_and (crc_of b) 0xFF % 256 ∷ []) _ ∙ ap₂ (λ x y. b ++ (x ∷ y ∷ [])) low high
  where
    low : bit_and (crc_of b) 0xFF % 256 ≡ crc_of b % 256
    low = omega (arith, bit_and_mask 8 (crc_of b))

    high : bit_and (crc_of b / 256) 0xFF % 256 ≡ crc_of b / 256 % 256
    high = omega (arith, bit_and_mask 8 (crc_of b / 256))

-- In an empty buffer callFunction leaves the frame of the call: the body, then its CRC.
pub call_function_frame :
    (address func : ℕ) (args : List Arg)
    → call_function [] address func args
      ≡ body_of address func args ++ crc_bytes (body_of address func args)
unfolding call_function
call_function_frame address func args =
    write_crc_lem _
    ∙ ap (λ b. b ++ crc_bytes b) (function_arguments_lem (u8 address ∷ u8 func ∷ []) args)

pub network-IsByte : (n d : ℕ) → All IsByte (network n d)
network-IsByte n d = All-reverse IsByte (memory n d) (memory-IsByte n d)

pub encoded-IsByte : (t : Scalar) (d : ℕ) → All IsByte (encoded t d)
encoded-IsByte int24 d = omega arith
encoded-IsByte int32 d = network-IsByte 4 d
encoded-IsByte uint8 d = memory-IsByte 1 d
encoded-IsByte uint16 d = network-IsByte 2 d
encoded-IsByte uint32 d = network-IsByte 4 d
encoded-IsByte uint64 d = network-IsByte 8 d
encoded-IsByte float32 d = network-IsByte 4 d

concat_map-IsByte :
    (f : ℕ → List ℕ) (ds : List ℕ) → ((d : ℕ) → All IsByte (f d)) → All IsByte (concat_map f ds)
concat_map-IsByte f [] h = tt
concat_map-IsByte f (d ∷ ds) h = All-append IsByte (f d) _ (h d) (concat_map-IsByte f ds h)

encoded_arg-IsByte : (a : Arg) → All IsByte (encoded_arg a)
encoded_arg-IsByte (scalar t d) = encoded-IsByte t d
encoded_arg-IsByte (int8 d) = memory-IsByte 1 d
encoded_arg-IsByte (int16 d) = network-IsByte 2 d
encoded_arg-IsByte (uint8s ds) = concat_map-IsByte (λ x. memory 1 x) ds (memory-IsByte 1)
encoded_arg-IsByte (int8s ds) = concat_map-IsByte (λ x. memory 1 x) ds (memory-IsByte 1)
encoded_arg-IsByte (uint16s ds) = concat_map-IsByte (λ x. network 2 x) ds (network-IsByte 2)

encoded_args-IsByte : (args : List Arg) → All IsByte (encoded_args args)
encoded_args-IsByte [] = tt
encoded_args-IsByte (a ∷ as') =
    All-append IsByte (encoded_arg a) _ (encoded_arg-IsByte a) (encoded_args-IsByte as')

pub body_of-IsByte : (address func : ℕ) (args : List Arg) → All IsByte (body_of address func args)
body_of-IsByte address func args = (omega arith, (omega arith, encoded_args-IsByte args))

-- A call appended to a buffer that holds another call gets a CRC that starts from a counter of 0, not
-- of 0xFFFF: the CRC is taken over all that the buffer holds.
pub second_call_crc :
    (address func : ℕ) (args : List Arg) (more : List ℕ)
    → crc_of (call_function [] address func args ++ more) ≡ add_all 0 more
unfolding crc_of
second_call_crc address func args more =
    ap (λ b. crc_of (b ++ more)) (call_function_frame address func args)
    ∙ add_all-append reset (body ++ crc_bytes body) more
    ∙ ap (λ c. add_all c more)
        (ap (λ h. crc_of (body ++ (crc_of body % 256 ∷ h ∷ []))) high ∙ crc_residue body)
  where
    body : List ℕ
    body = body_of address func args

    high : crc_of body / 256 % 256 ≡ crc_of body / 256
    high = omega (arith, crc_of-IsCrc body (body_of-IsByte address func args))
