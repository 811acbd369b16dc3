-- ===== src/Options.antt =====
-- The `main` functions: their command lines, and what they start. `getopt_long` is taken as the list of
-- its answers, each an option's character with its argument; the loop ends where it answers -1.
pub mod Settings
pub mod Proxies
pub mod Tools
pub mod Loop
pub mod Setup
pub mod Accepts
pub mod Numbers
pub mod CommandLine
pub mod Curl
pub mod Servers
pub mod Signals
pub mod Listen
mod Examples
use cache_server.Base.{
  ℕ, zero, suc, ◌+◌, ◌-◌, ◌%◌, ◌^◌, Bool, true, false, List, [], ◌∷◌, ltb, if◌then◌else◌,
}
use cache_server.Base.Int.{ℤ, pos, negsuc}
use cache_server.Text.{Bytes}
use cache_server.Getfile.{scan_long, skip_spaces}

-- How a `main` goes on: `exit` with a code, an access outside an object, or a value.
pub data Start {ℓ} (A : Type ℓ) : Type ℓ where
  exits : ℤ → Start A
  fault : Start A
  run : A → Start A

abbrev pub then_start {ℓ κ} : {A : Type ℓ} {B : Type κ} → Start A → (A → Start B) → Start B
then_start (exits code) next = exits code
then_start fault next = fault
then_start (run a) next = next a

-- The low 32 bits as an `int`.
unfoldable pub to_int : ℕ → ℤ
to_int n = let low = n % 2 ^ 32 in if ltb low (2 ^ 31) then pos low else negsuc (2 ^ 32 - 1 - low)

-- An `int` converted to an unsigned type with `size` values.
unfoldable pub to_unsigned : (size : ℕ) → ℤ → ℕ
to_unsigned size (pos n) = n % size
to_unsigned size (negsuc n) = size - 1 - n % size

-- `atoi`: `(int)strtol(s, NULL, 10)`, which clamps to a `long`.
unfoldable pub atoi : Bytes → ℤ
unfolding to_int
atoi s = to_int (scan_long (skip_spaces s) 0)

-- An answer of `getopt_long`.
abbrev pub Answer : Type 0
Answer = ℕ × Bytes

module _ {ℓ} {A : Type ℓ} where
  unfoldable pub getopt_loop : (ℕ → Bytes → A → Start A) → List Answer → A → Start A
  getopt_loop option [] a = run a
  getopt_loop option ((option_char, optarg) ∷ rest) a =
      then_start (option option_char optarg a) (getopt_loop option rest)

-- `signal` for SIGINT and for SIGTERM: whether each can be caught.
unfoldable pub catch_signals {ℓ} : {A : Type ℓ} → Bool × Bool → (failure : ℤ) → Start A → Start A
catch_signals (sigint, sigterm) failure next =
    if sigint then (if sigterm then next else exits failure) else exits failure
