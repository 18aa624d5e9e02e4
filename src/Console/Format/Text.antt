-- ===== src/Console/Format/Text.antt =====
-- What a format is to print, described apart from the code: its directives and the text of each.
use native.Mathlib.Nat.{pow-suc, pow-succ', div-div-eq-div-mul}
use venus_scheduler.Prelude.{
  ℕ, zero, suc, ◌+◌, ◌-◌, ◌*◌, ◌/◌, ◌%◌, ◌^◌, ◌<◌, ◌≡◌, refl, ap, arith, Bool, true, false, Option,
  none, some, List, [], ◌∷◌, ◌++◌, ◌==◌, ltb, if◌then◌else◌, ◌>>=◌, length, Bool-cases, inl, inr,
}
use venus_scheduler.Console.Format.{Arg, word, text, hex_digit}

pub data Directive : Type 0 where
  lit : ℕ → Directive
  dec hex ptr str chr : Directive

abbrev pub spell : Directive → List ℕ
spell (lit c) = c ∷ []
spell dec = b'%' ∷ b'd' ∷ []
spell hex = b'%' ∷ b'x' ∷ []
spell ptr = b'%' ∷ b'p' ∷ []
spell str = b'%' ∷ b's' ∷ []
spell chr = b'%' ∷ b'c' ∷ []

abbrev pub spelling : List Directive → List ℕ
spelling [] = []
spelling (d ∷ ds) = spell d ++ spelling ds

-- The lowest `i` hexadecimal digits.
abbrev pub hex_text : ℕ → ℕ → List ℕ
hex_text zero w = []
hex_text (suc i) w = hex_digit (w / 16 ^ i % 16) ∷ hex_text i w

-- At most `fuel + 1` decimal digits, without leading zeros.
abbrev pub digits_text : ℕ → ℕ → List ℕ
digits_text zero n = (b'0' + n % 10) ∷ []
digits_text (suc fuel) n =
    let front = digits_text fuel (n / 10) in
    if ltb n 10 then (b'0' + n) ∷ [] else front ++ ((b'0' + n % 10) ∷ [])

-- The decimal text of a word as an `int`.
abbrev pub signed_text : ℕ → List ℕ
signed_text w = if ltb (2 ^ 31) w then b'-' ∷ digits_text 10 (2 ^ 32 - w) else digits_text 10 w

-- Whether the argument is read, and the text; a character that is not read is never seen.
abbrev pub char_text : Bool → List Arg → Option (List ℕ × List Arg)
char_text false args = some (0 ∷ [], args)
char_text true (word w ∷ args) = some (w % 256 ∷ [], args)
char_text true _ = none

-- The text of a directive at position `p` and the arguments left. `reads` tells at which positions
-- `%c` reads its argument.
abbrev pub piece_text : (ℕ → Bool) → ℕ → Directive → List Arg → Option (List ℕ × List Arg)
piece_text reads p (lit c) args = if c == b'%' then none else some (c ∷ [], args)
piece_text reads p dec (word w ∷ args) = if w == 2 ^ 31 then none else some (signed_text w, args)
piece_text reads p hex (word w ∷ args) = some (hex_text 8 w, args)
piece_text reads p ptr (word w ∷ args) = some (b'0' ∷ b'x' ∷ hex_text 8 w, args)
piece_text reads p str (text s ∷ args) = some (s, args)
piece_text reads p chr args = char_text (reads p) args
piece_text reads p _ _ = none

abbrev pub rendered : (ℕ → Bool) → ℕ → List Directive → List Arg → Option (List ℕ)
rendered reads p [] args = some []
rendered reads p (d ∷ ds) args = piece_text reads p d args >>= λ r.
    rendered reads (p + length r.0) ds r.1 >>= λ vs. some (r.0 ++ vs)

-- The number that a text of decimal digits stands for.
abbrev pub decimal_value : ℕ → List ℕ → ℕ
decimal_value acc [] = acc
decimal_value acc (c ∷ s) = decimal_value (acc * 10 + (c - b'0')) s

decimal_value-append :
    (s t : List ℕ) (acc : ℕ) → decimal_value acc (s ++ t) ≡ decimal_value (decimal_value acc s) t
decimal_value-append [] t acc = refl
decimal_value-append (c ∷ s) t acc = decimal_value-append s t (acc * 10 + (c - b'0'))

-- The decimal text of a number below 10^11 stands for it.
pub decimal_value-digits_text :
    (fuel n : ℕ) → n < 10 ^ suc fuel → decimal_value 0 (digits_text fuel n) ≡ n
decimal_value-digits_text zero n lt = omega arith
decimal_value-digits_text (suc fuel) n lt = elim (Bool-cases (ltb n 10)) [
  | inl small ↦ rw small (omega arith)
  | inr large ↦
      let small : n / 10 < 10 ^ suc fuel = omega (arith, pow-suc 10 (suc fuel)) in
      rw
        (
          large,
          decimal_value-append (digits_text fuel (n / 10)) ((b'0' + n % 10) ∷ []) 0,
          decimal_value-digits_text fuel (n / 10) small,
        )
        (omega arith)
]

-- The number that a text of hexadecimal digits stands for.
abbrev pub hex_value : ℕ → List ℕ → ℕ
hex_value acc [] = acc
hex_value acc (c ∷ s) = hex_value (acc * 16 + (if ltb c b'a' then c - b'0' else c - b'a' + 10)) s

hex_value-append : (s t : List ℕ) (acc : ℕ) → hex_value acc (s ++ t) ≡ hex_value (hex_value acc s) t
hex_value-append [] t acc = refl
hex_value-append (c ∷ s) t acc =
    hex_value-append s t (acc * 16 + (if ltb c b'a' then c - b'0' else c - b'a' + 10))

hex_text-lowest : (i w : ℕ) → hex_text (suc i) w ≡ hex_text i (w / 16) ++ (hex_digit (w % 16) ∷ [])
hex_text-lowest zero w = let whole : w / 16 ^ 0 ≡ w = omega arith in rw whole refl
hex_text-lowest (suc i) w =
    let shifted : w / 16 ^ suc i ≡ w / 16 / 16 ^ i =
      rw (pow-succ' 16 i, ← div-div-eq-div-mul w 16 (16 ^ i)) refl in
    rw shifted (ap (λ r. hex_digit (w / 16 / 16 ^ i % 16) ∷ r) (hex_text-lowest i w))

hex_digit-value : (acc d : ℕ) → d < 16 → hex_value acc (hex_digit d ∷ []) ≡ acc * 16 + d
unfolding hex_digit
hex_digit-value acc d lt = ground arith

-- The hexadecimal text of a number below 16^i stands for it.
pub hex_value-hex_text : (i w : ℕ) → w < 16 ^ i → hex_value 0 (hex_text i w) ≡ w
hex_value-hex_text zero w lt = omega arith
hex_value-hex_text (suc i) w lt =
    let small : w / 16 < 16 ^ i = omega (arith, pow-suc 16 i) in
    rw
      (
        hex_text-lowest i w,
        hex_value-append (hex_text i (w / 16)) (hex_digit (w % 16) ∷ []) 0,
        hex_value-hex_text i (w / 16) small,
        hex_digit-value (w / 16) (w % 16) (omega arith),
      )
      (omega arith)
