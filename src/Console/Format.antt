-- ===== src/Console/Format.antt =====
-- src/printf.c. A format is the list of the bytes before its terminating 0, a buffer gives the byte
-- at each index, and the arguments are a list of the values that were passed: 32-bit words, 64-bit
-- words, and the bytes of strings. What C leaves undefined is `none`: an argument that is missing or
-- of another type, and `%d` of the least `int`, whose negation overflows.
pub mod Text
pub mod Overlay
pub mod Loops
pub mod Pieces
pub mod Scan
pub mod Printf
pub mod Decimal
use Prim.Native.Nat.{bit_and}
use venus_scheduler.Prelude.{
  ℕ, zero, suc, ◌+◌, ◌-◌, ◌*◌, ◌/◌, ◌%◌, ◌^◌, Bool, true, false, not, ◌&&◌, Option, none, some,
  List, [], ◌∷◌, ◌==◌, ltb, leb, if◌then◌else◌, update, ◌>>=◌,
}

pub data Arg : Type 0 where
  word : ℕ → Arg
  wide : ℕ → Arg
  text : List ℕ → Arg

-- The variables of `_vsnprintf`.
pub record Printing : Type 0 where
  pub format : Bool
  pub longarg : ℕ
  pub pos : ℕ
  pub bytes : ℕ → ℕ
  pub vl : List Arg

-- The values of a `size_t`.
abbrev pub size_space : ℕ
size_space = 0x100000000

unfoldable pub next_word : Printing → Option (ℕ × Printing)
next_word o = elim o.vl [ word w ∷ args ↦ some (w, record o { vl = args }) | _ ↦ none ]

unfoldable pub next_wide : Printing → Option (ℕ × Printing)
next_wide o = elim o.vl [ wide w ∷ args ↦ some (w, record o { vl = args }) | _ ↦ none ]

unfoldable pub next_text : Printing → Option (List ℕ × Printing)
next_text o = elim o.vl [ text s ∷ args ↦ some (s, record o { vl = args }) | _ ↦ none ]

unfoldable pub hex_digit : ℕ → ℕ
hex_digit d = if ltb d 10 then b'0' + d else b'a' + d - 10

-- `num` is below 2^31, so ten rounds are enough.
unfoldable pub count_digits : ℕ → ℕ → ℕ
count_digits zero nn = 1
count_digits (suc fuel) nn =
    let rest = count_digits fuel (nn / 10) in if nn / 10 == 0 then 1 else suc rest

unfoldable pub finish : Printing → Printing
finish o = record o { longarg = 0; format = false }

-- `out` tells whether the buffer is not NULL, `n` is its size.
module _ (out : Bool) (n : ℕ) where
  unfoldable pub put_at : ℕ → ℕ → Printing → Printing
  put_at at v o = record o { bytes = if out && ltb at n then update o.bytes at v else o.bytes }

  unfoldable pub advance : ℕ → Printing → Printing
  advance k o = record o { pos = (o.pos + k) % size_space }

  unfoldable pub emit : ℕ → Printing → Printing
  emit v o = advance 1 (put_at o.pos v o)

  -- The digits of `num` from number `base + count - 1` down to `base`.
  unfoldable pub hex_loop : ℕ → ℕ → ℕ → Printing → Printing
  hex_loop zero base num o = o
  hex_loop (suc i) base num o =
      hex_loop i base num (emit (hex_digit (bit_and (num / 2 ^ (4 * (base + i))) 15)) o)

  unfoldable pub print_hex : Printing → Option Printing
  print_hex o =
      if o.longarg == 2
      then (next_wide o >>= λ lower. next_wide lower.1 >>= λ higher.
          some (finish (hex_loop 8 8 lower.0 (hex_loop 8 0 higher.0 higher.1))))
      else (next_word o >>= λ num. some (finish (hex_loop 8 0 num.0 num.1)))

  unfoldable pub print_pointer : Printing → Option Printing
  print_pointer o = print_hex (emit b'x' (emit b'0' (record o { longarg = 1 })))

  unfoldable pub dec_loop : ℕ → ℕ → Printing → Printing
  dec_loop zero num o = o
  dec_loop (suc i) num o =
      dec_loop i (num / 10) (put_at ((o.pos + i) % size_space) (b'0' + num % 10) o)

  unfoldable pub print_natural : ℕ → Printing → Printing
  print_natural num o =
      let digits = count_digits 10 num in finish (advance digits (dec_loop digits num o))

  unfoldable pub print_dec : Printing → Option Printing
  print_dec o = next_word o >>= λ num.
      if num.0 == 2 ^ 31
      then none
      else if ltb (2 ^ 31) num.0
      then some (print_natural (2 ^ 32 - num.0) (emit b'-' num.1))
      else some (print_natural num.0 num.1)

  unfoldable pub put_string : List ℕ → Printing → Printing
  put_string [] o = o
  put_string (c ∷ s) o = put_string s (emit c o)

  unfoldable pub print_string : Printing → Option Printing
  print_string o = next_text o >>= λ s. some (finish (put_string s.0 s.1))

  -- The argument is read only if the character is written.
  unfoldable pub print_char : Printing → Option Printing
  print_char o =
      if out && ltb o.pos n
      then (next_word o >>= λ c. some (finish (emit (c.0 % 256) c.1)))
      else some (finish (advance 1 o))

  -- Only a position that is 0 is moved, and it wraps.
  unfoldable pub print_long : Printing → Printing
  print_long o = record o { longarg = 2; pos = if o.pos == 0 then size_space - 2 else o.pos }

  unfoldable pub conversion : ℕ → Printing → Option Printing
  conversion c o =
      if c == b'l'
      then some (print_long o)
      else if c == b'p'
      then print_pointer o
      else if c == b'x'
      then print_hex o
      else if c == b'd'
      then print_dec o
      else if c == b's'
      then print_string o
      else if c == b'c'
      then print_char o
      else some o

  unfoldable pub print_byte : ℕ → Printing → Option Printing
  print_byte c o =
      if o.format
      then conversion c o
      else if c == b'%'
      then some (record o { format = true })
      else some (emit c o)

  unfoldable pub scan : List ℕ → Printing → Option Printing
  scan [] o = some o
  scan (c ∷ s) o = print_byte c o >>= scan s

  unfoldable pub terminate : Printing → ℕ → ℕ
  terminate o =
      if out && ltb o.pos n
      then update o.bytes o.pos 0
      else if out && not (n == 0)
      then update o.bytes (n - 1) 0
      else o.bytes

  -- The buffer, and the number of bytes that the whole text has.
  unfoldable pub vsnprintf : (ℕ → ℕ) → List ℕ → List Arg → Option ((ℕ → ℕ) × ℕ)
  vsnprintf buffer s vl =
      scan s (record { format = false; longarg = 0; pos = 0; bytes = buffer; vl = vl }) >>= λ o.
      some (terminate o, o.pos)

-- A text that is too long ends in a loop that never ends.
pub data PrintResult : Type 0 where
  hangs : PrintResult
  printed : ℕ → (ℕ → ℕ) → PrintResult

-- What `_vprintf` leaves in `out_buf` and returns; its call of `uart_puts` is in Console/Send.
unfoldable pub vprintf_text : (ℕ → ℕ) → List ℕ → List Arg → Option PrintResult
vprintf_text out_buf s vl = vsnprintf false (size_space - 1) out_buf s vl >>= λ first.
    if leb 1000 ((first.1 + 1) % size_space)
    then some hangs
    else (vsnprintf true ((first.1 + 1) % size_space) out_buf s vl >>= λ second.
        some (printed first.1 second.0))
