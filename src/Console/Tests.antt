-- ===== src/Console/Tests.antt =====
-- src/printf.c and src/uart.c on concrete texts.
use venus_scheduler.Prelude.{
  ℕ, zero, suc, ◌-◌, ◌^◌, ◌≤◌, ◌<◌, ◌≡◌, refl, arith, true, false, Option, none, some, List, [],
  ◌∷◌, get_or,
}
use venus_scheduler.Console.Format.{
  Arg, word, wide, hangs, printed, vprintf_text, vsnprintf, scan, print_byte, conversion, print_hex,
  print_dec, print_long, finish, next_word, next_wide, emit, advance, put_at, hex_loop, hex_digit,
}
use venus_scheduler.Console.Format.Text.{
  Directive, lit, dec, hex, chr, spelling, digits_text, decimal_value, hex_text, hex_value,
  decimal_value-digits_text, hex_value-hex_text,
}
use venus_scheduler.Console.Format.Printf.{
  IsCut, vsnprintf-IsCut, vprintf_text-IsCut, vprintf_text-hangs, vprintf_text-exact,
}
use venus_scheduler.Console.Format.Decimal.{atoi-vprintf_text}
use venus_scheduler.Console.Uart.{put_when, is_idle}
use venus_scheduler.Console.Send.{printf, printf-sends}
use venus_scheduler.Ulib.{atoi}

abbrev blank : ℕ → ℕ
blank = λ _. 0

-- The line that src/fire_check.c prints for a token, from the letter of the actor on.
abbrev token_line : List Directive
token_line = chr ∷ lit b':' ∷ lit b' ' ∷ dec ∷ lit b'\n' ∷ []

abbrev token_args : List Arg
token_args = word 65 ∷ word 4096 ∷ []

-- The first pass takes the letter for the number, and two bytes are missing at the end.
abbrev counted : List ℕ
counted = 0 ∷ b':' ∷ b' ' ∷ b'6' ∷ b'5' ∷ b'\n' ∷ []

abbrev whole_line : List ℕ
whole_line = b'A' ∷ b':' ∷ b' ' ∷ b'4' ∷ b'0' ∷ b'9' ∷ b'6' ∷ b'\n' ∷ []

vprintf_text-IsCut_example :
    (bytes : ℕ → ℕ) × (vprintf_text blank (spelling token_line) token_args ≡ some (printed 6 bytes))
    × IsCut 7 whole_line blank bytes
unfolding hex_digit
vprintf_text-IsCut_example =
    vprintf_text-IsCut blank token_line token_args counted whole_line refl (omega arith) refl
      (omega arith)

abbrev number_line : List Directive
number_line = lit b'n' ∷ lit b'=' ∷ dec ∷ lit b' ' ∷ hex ∷ []

abbrev number_text : List ℕ
number_text =
    b'n' ∷ b'=' ∷ b'-' ∷ b'7' ∷ b' ' ∷ b'0' ∷ b'0' ∷ b'0' ∷ b'0' ∷ b'0' ∷ b'0' ∷ b'f' ∷ b'f' ∷ []

abbrev number_args : List Arg
number_args = word (2 ^ 32 - 7) ∷ word 255 ∷ []

vprintf_text-exact_example :
    (bytes : ℕ → ℕ) × (vprintf_text blank (spelling number_line) number_args
      ≡ some (printed 13 bytes))
    × ((x : ℕ) → x < 13 → bytes x ≡ get_or number_text x 0)
    × (bytes 13 ≡ 0)
unfolding hex_digit
vprintf_text-exact_example =
    vprintf_text-exact blank number_line number_args number_text refl refl (omega arith)

vsnprintf-IsCut_example :
    (bytes : ℕ → ℕ) × (vsnprintf true 6 blank (spelling number_line) number_args ≡ some (bytes, 13))
    × IsCut 6 number_text blank bytes
unfolding hex_digit
vsnprintf-IsCut_example =
    vsnprintf-IsCut 6 blank number_line number_args number_text refl (omega arith) (omega arith)

abbrev many : ℕ → List Directive
many zero = []
many (suc n) = lit b'-' ∷ many n

abbrev dashes : ℕ → List ℕ
dashes zero = []
dashes (suc n) = b'-' ∷ dashes n

vprintf_text-hangs_example : vprintf_text blank (spelling (many 999)) [] ≡ some hangs
vprintf_text-hangs_example =
    vprintf_text-hangs blank (many 999) [] (dashes 999) refl (omega arith) (omega arith)

atoi-vprintf_text_example :
    (length_ : ℕ) × (bytes : ℕ → ℕ) × (vprintf_text blank (spelling (dec ∷ [])) (word 4096 ∷ [])
      ≡ some (printed length_ bytes))
    × (length_ ≤ 11)
    × (atoi 12 bytes 0 ≡ some 4096)
atoi-vprintf_text_example = atoi-vprintf_text blank 4096 12 (omega arith) (omega arith)

decimal_value-digits_text_test : decimal_value 0 (digits_text 10 4096) ≡ 4096
decimal_value-digits_text_test = decimal_value-digits_text 10 4096 (omega arith)

hex_value-hex_text_example : hex_value 0 (hex_text 8 0xbeef) ≡ 0xbeef
hex_value-hex_text_example = hex_value-hex_text 8 0xbeef (omega arith)

printf-sends_example :
    (left : List ℕ) × (printf
        (put_when is_idle)
        9
        blank
        (spelling (lit b'x' ∷ dec ∷ []))
        (word 42 ∷ [])
        (0 ∷ 32 ∷ 0x60 ∷ 0x60 ∷ 1 ∷ [])
      ≡ some (3, b'x' ∷ b'4' ∷ b'2' ∷ [], left))
unfolding is_idle
printf-sends_example =
    printf-sends is_idle 9 blank (lit b'x' ∷ dec ∷ []) (word 42 ∷ []) (b'x' ∷ b'4' ∷ b'2' ∷ [])
      (0 ∷ 32 ∷ 0x60 ∷ 0x60 ∷ 1 ∷ []) refl refl refl (omega arith) (omega arith) (omega arith)

-- `%lx` at the start of a format loses the first two of its sixteen digits.
abbrev counted_bytes : Option ((ℕ → ℕ) × ℕ) → ℕ
counted_bytes none = 0
counted_bytes (some r) = r.1

long_first :
    counted_bytes
      (vsnprintf false 0xffffffff blank (b'%' ∷ b'l' ∷ b'x' ∷ []) (wide 1 ∷ wide 2 ∷ []))
    ≡ 14
unfolding vsnprintf scan print_byte conversion print_long print_hex next_wide finish hex_loop emit
    advance put_at
long_first = refl

long_later :
    counted_bytes
      (vsnprintf false 0xffffffff blank (b' ' ∷ b'%' ∷ b'l' ∷ b'x' ∷ []) (wide 1 ∷ wide 2 ∷ []))
    ≡ 17
unfolding vsnprintf scan print_byte conversion print_long print_hex next_wide finish hex_loop emit
    advance put_at
long_later = refl

-- The call of src/trap.c for a reserved exception passes no number.
missing_argument : vprintf_text blank (b'%' ∷ b'd' ∷ b':' ∷ []) [] ≡ none
unfolding vprintf_text vsnprintf scan print_byte conversion print_dec next_word
missing_argument = refl
