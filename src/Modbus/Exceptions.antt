-- ===== src/Modbus/Exceptions.antt =====
-- What the code throws, and a method that may throw: it takes the object, and hands back the object
-- with a result or with the exception. What was changed before a throw stays changed.
use ts_c_riocpp.Common.{ℕ, List, Bool, true, false, ◌≡◌, refl}

-- What a LoadError of IntelHex reports: no start code, an unreadable heading, data byte or checksum,
-- the expected and the calculated checksum, or the size of an extended address.
pub data LoadFault : Type 0 where
  no_start_code no_heading no_checksum : LoadFault
  no_data_byte invalid_extension : ℕ → LoadFault
  checksum_mismatch : ℕ → ℕ → LoadFault

pub data Error : Type 0 where
  -- std::out_of_range, of a vector, of a map, and of Parser::readBuffer
  out_of_range : Error
  -- the std::runtime_error of Parser::parse, with the size
  small_buffer : ℕ → Error
  -- CRCError, calculated and received
  crc_error : ℕ → ℕ → Error
  long_response : List ℕ → Error
  -- WrongResponse: address, expected address, function, expected function
  wrong_response : ℕ → ℕ → ℕ → ℕ → Error
  -- ErrorResponse, MissingResponse: address, function
  error_response : ℕ → ℕ → Error
  missing_response : ℕ → ℕ → Error
  -- the exceptions of class ModbusBuffer: EndOfBuffer; EmptyCommanded, MissingReply and
  -- UnknownResponse with address and function; UnmatchedFunction with address, function, expected
  -- address and expected function; Exception with address, function and code; and the runtime_error of
  -- checkCommandedEmpty with the pairs that it names
  end_of_buffer : Error
  empty_commanded missing_reply unknown_response : ℕ → ℕ → Error
  unmatched_function : ℕ → ℕ → ℕ → ℕ → Error
  modbus_exception : ℕ → ℕ → ℕ → Error
  not_received : List (ℕ × ℕ) → Error
  -- LoadError: line and address
  load_error : ℕ → ℕ → LoadFault → Error
  -- MissingResponse of a transport, with the command, and CommunicationError: request and code
  missing_answer : List ℕ → Error
  communication_error : ℕ → ℕ → Error
  -- the other std::runtime_errors, by what they report
  runtime_error : ℕ → Error
  -- no exception, but a call whose behaviour C++ leaves undefined, as front() of an empty list
  undefined : Error

pub data Outcome (S A : Type 0) : Type 0 where
  ok : A → S → Outcome S A
  throw : Error → S → Outcome S A

abbrev pub M : Type 0 → Type 0 → Type 0
M S A = S → Outcome S A

infixl 5 ◌>>=◌ ◌>>◌
abbrev pub ◌>>=◌ : {S A B : Type 0} → M S A → (A → M S B) → M S B
◌>>=◌ m f s = elim (m s) [ ok a s' ↦ f a s' | throw e s' ↦ throw e s' ]

abbrev pub ◌>>◌ : {S B : Type 0} → M S (Unit {0}) → M S B → M S B
◌>>◌ m k s = elim (m s) [ ok a s' ↦ k s' | throw e s' ↦ throw e s' ]

abbrev pub pure : {S A : Type 0} → A → M S A
pure a s = ok a s

abbrev pub raise : {S A : Type 0} → Error → M S A
raise e s = throw e s

-- `if (bad) throw e;`
abbrev pub throw_if : {S : Type 0} → Bool → Error → M S (Unit {0})
throw_if true e s = throw e s
throw_if false e s = ok tt s

-- The object after the call, whatever its outcome.
abbrev pub final : {S A : Type 0} → Outcome S A → S
final (ok a s) = s
final (throw e s) = s

-- What `catch (std::exception&)` catches.
abbrev pub is_exception : Error → Bool
is_exception undefined = false
is_exception _ = true

abbrev pub is_wrong : Error → Bool
is_wrong (wrong_response a ea c ef) = true
is_wrong _ = false

-- The outcome is a throw of WrongResponse.
abbrev pub throws_wrong : {S A : Type 0} → Outcome S A → Bool
throws_wrong (ok a s) = false
throws_wrong (throw e s) = is_wrong e

-- A chain whose first step returns goes on from there; one whose first step throws is over.
pub >>=-ok :
    {S A B : Type 0} (m : M S A) (f : A → M S B) (s : S) {s' : S} {a : A}
    → m s ≡ ok a s'
    → ◌>>=◌ m f s ≡ f a s'
>>=-ok m f s {s'} {a} e = rw (e, ◌>>=◌) refl

pub >>=-throw :
    {S A B : Type 0} (m : M S A) (f : A → M S B) (s : S) {s' : S} {e : Error}
    → m s ≡ throw e s'
    → ◌>>=◌ m f s ≡ throw e s'
>>=-throw m f s h = rw (h, ◌>>=◌) refl

pub >>-ok :
    {S B : Type 0} (m : M S (Unit {0})) (k : M S B) (s : S) {s' : S}
    → m s ≡ ok tt s'
    → ◌>>◌ m k s ≡ k s'
>>-ok m k s h = rw (h, ◌>>◌) refl

pub >>-throw :
    {S B : Type 0} (m : M S (Unit {0})) (k : M S B) (s : S) {s' : S} {e : Error}
    → m s ≡ throw e s'
    → ◌>>◌ m k s ≡ throw e s'
>>-throw m k s h = rw (h, ◌>>◌) refl
