-- ===== src/Wire.antt =====
-- The byte codec under every fsnet record: big-endian integers and length-prefixed fields, as
-- the `put`/`get`, `number`, `integer` and `blob` helpers of src/attribute_wire.cpp,
-- src/replication_wire.cpp, src/entity_timer_state.cpp, include/fsnet/entity_record.hpp and
-- include/fsnet/entity_snapshot.hpp write and read them.
pub mod RoundTrip
pub mod Reads
pub mod Lengths
use fsnet.Base.{
  not, ◌==◌, Option, none, some, ℕ, zero, suc, ◌+◌, ◌-◌, ◌*◌, ◌/◌, ◌%◌, ◌^◌, ◌≡◌, Bool, true, false,
  List, [], ◌∷◌, ◌++◌, ltb, if◌then◌else◌, length, take, drop, Bytes, Error, invalid_argument,
  runtime_error, length_error, Outcome, ok, err,
}

-- A decoder takes its bytes off the front of the `string_view&` that it is handed.
abbrev pub Reader {ℓ} : Type ℓ → Type ℓ
Reader A = Bytes → Outcome (A × Bytes)

abbrev pub pure {ℓ} : {A : Type ℓ} → A → Reader A
pure a input = ok (a, input)

abbrev pub fail {ℓ} : {A : Type ℓ} → Error → Reader A
fail e input = err e

infixl 5 ◌>>=◌ ◌>>◌
abbrev pub ◌>>=◌ {ℓ κ} : {A : Type ℓ} {B : Type κ} → Reader A → (A → Reader B) → Reader B
◌>>=◌ m f input = elim (m input) [ ok (a, rest) ↦ f a rest | err e ↦ err e ]

abbrev pub ◌>>◌ {ℓ} : {B : Type ℓ} → Reader (Unit {0}) → Reader B → Reader B
m >> k = m >>= λ _. k

-- One step of a decoder whose first part is known to succeed.
pub bind_ok {ℓ κ} :
    {A : Type ℓ} {B : Type κ} (m : Reader A) (f : A → Reader B) (input : Bytes) {a : A}
    {rest : Bytes}
    → m input ≡ ok (a, rest)
    → (m >>= f) input ≡ f a rest
bind_ok m f input e = rw (e, ◌>>=◌)

pub bind_err {ℓ κ} :
    {A : Type ℓ} {B : Type κ} (m : Reader A) (f : A → Reader B) (input : Bytes) {x : Error}
    → m input ≡ err x
    → (m >>= f) input ≡ err x
bind_err m f input e = rw (e, ◌>>=◌)

abbrev pub throw_if : Bool → Error → Reader (Unit {0})
throw_if true e input = err e
throw_if false e input = ok (tt, input)

abbrev pub or_throw {ℓ} : {A : Type ℓ} → Option A → Error → Reader A
or_throw none e input = err e
or_throw (some a) e input = ok (a, input)

-- `if(!input.empty()) throw e;`
abbrev pub throw_unless_empty : Error → Reader (Unit {0})
throw_unless_empty e [] = ok (tt, [])
throw_unless_empty e (x ∷ input) = err e

-- `static_cast<char>(n >> ((i - 1) * 8))` for i = count, …, 1; `2 ^ (i * 8)` is `256 ^ i`.
unfoldable pub put_uint : ℕ → ℕ → Bytes
put_uint zero n = []
put_uint (suc i) n = (n / 256 ^ i % 256) ∷ put_uint i n

-- `n = (n << 8) | byte` on a std::uint64_t: the shifted word ends in eight zeros, so `|` adds.
unfoldable pub get_loop : ℕ → ℕ → Bytes → ℕ × Bytes
get_loop zero n input = (n, input)
get_loop (suc i) n [] = (n, [])
get_loop (suc i) n (b ∷ input) = get_loop i (n * 256 % 2 ^ 64 + b) input

-- The guard of every reader of an integer: `if(input.size() < count) throw …;`
unfoldable pub get_uint : Error → ℕ → Reader ℕ
get_uint e count input = if ltb (length input) count then err e else ok (get_loop count 0 input)

-- `snapshot_detail::number`: four bytes
abbrev pub put_number : ℕ → Bytes
put_number n = put_uint 4 (n % 2 ^ 32)

abbrev pub get_number : Reader ℕ
get_number = get_uint runtime_error 4

-- `entity_record_detail::integer`: eight bytes
abbrev pub put_integer : ℕ → Bytes
put_integer = put_uint 8

abbrev pub get_integer : Reader ℕ
get_integer = get_uint runtime_error 8

-- `input.substr(0, n)` with `input.remove_prefix(n)`, after the check that `n` bytes are there
unfoldable pub take_text : Error → ℕ → Reader Bytes
take_text e n input = if ltb (length input) n then err e else ok (take n input, drop n input)

-- `input.front()` with `input.remove_prefix(1)`, after the check that the input is not empty
unfoldable pub get_byte : Error → Reader ℕ
get_byte e [] = err e
get_byte e (b ∷ input) = ok (b, input)

abbrev pub flag : Bool → ℕ
flag true = 1
flag false = 0

-- `input.front() != 0`, after the checks that the input is not empty and that it is 0 or 1
unfoldable pub get_flag : Error → Reader Bool
get_flag e [] = err e
get_flag e (b ∷ input) = if ltb 1 b then err e else ok (not (b == 0), input)

-- all that is left of the input
abbrev pub take_rest : Reader Bytes
take_rest input = ok (input, [])

-- What the caller of a decoder gets of a reader's result: the value.
abbrev pub value_of {ℓ} : {A : Type ℓ} → Outcome (A × Bytes) → Outcome A
value_of (ok (a, rest)) = ok a
value_of (err e) = err e

-- A call, within a reader, of a function that does not read.
abbrev pub call {ℓ} : {A : Type ℓ} → Outcome A → Reader A
call (ok a) input = ok (a, input)
call (err e) input = err e

-- What the caller of a parser that returns `{}` on any error gets.
abbrev pub to_option {ℓ} : {A : Type ℓ} → Outcome (A × Bytes) → Option A
to_option (ok (a, rest)) = some a
to_option (err e) = none

-- `snapshot_detail::blob`
unfoldable pub put_blob : Bytes → Outcome Bytes
put_blob text =
    if ltb (2 ^ 32 - 1) (length text)
    then err length_error
    else ok (put_number (length text) ++ text)

-- `snapshot_detail::blob_view` and `snapshot_detail::blob`
unfoldable pub get_blob : Reader Bytes
get_blob = do n ← get_number; take_text runtime_error n
