-- ===== src/Console/Format/Loops.antt =====
-- src/printf.c: the loops that write digits and strings.
use Prim.Native.Nat.{bit_and}
use native.Mathlib.Nat.{pow-suc}
use venus_scheduler.Prelude.{
  ℕ, zero, suc, ◌+◌, ◌*◌, ◌/◌, ◌%◌, ◌^◌, ◌<◌, ◌≡◌, refl, sym, ap, ◌∙◌, arith, Bool, true, false,
  List, [], ◌∷◌, ◌++◌, ◌==◌, ltb, length, length-append, Bool-cases, inl, inr,
}
use venus_scheduler.Prelude.Bits.{bit_and_low}
use venus_scheduler.Console.Format.{
  Arg, Printing, put_string, emit, advance, put_at, hex_loop, dec_loop, count_digits, hex_digit,
  print_natural, finish,
}
use venus_scheduler.Console.Format.Text.{hex_text, digits_text}
use venus_scheduler.Console.Format.Overlay.{written, overlay, overlay-append, overlay-written}

-- The variables inside a directive and between two directives.
abbrev pub mode : Bool → ℕ → ℕ → (ℕ → ℕ) → List Arg → Printing
mode f l p bytes vl = record { format = f; longarg = l; pos = p; bytes = bytes; vl = vl }

abbrev pub ready : ℕ → (ℕ → ℕ) → List Arg → Printing
ready p bytes vl = mode false 0 p bytes vl

-- The lowest `i` decimal digits.
abbrev last_digits : ℕ → ℕ → List ℕ
last_digits zero num = []
last_digits (suc i) num = last_digits i (num / 10) ++ ((b'0' + num % 10) ∷ [])

length-last_digits : (i num : ℕ) → length (last_digits i num) ≡ i
length-last_digits zero num = refl
length-last_digits (suc i) num = omega (
  arith,
  length-append (last_digits i (num / 10)) ((b'0' + num % 10) ∷ []),
  length-last_digits i (num / 10),
)

last_digits-count_digits :
    (fuel num : ℕ) → last_digits (count_digits fuel num) num ≡ digits_text fuel num
unfolding count_digits
last_digits-count_digits zero num = refl
last_digits-count_digits (suc fuel) num = elim (Bool-cases (ltb num 10)) [
  | inl small ↦
      let none_left : (num / 10 == 0) ≡ true = ground arith in
      let same : num % 10 ≡ num = ground arith in rw (none_left, small, same) refl
  | inr large ↦
      let some_left : (num / 10 == 0) ≡ false = ground arith in
      rw (some_left, large)
        (ap (λ r. r ++ ((b'0' + num % 10) ∷ [])) (last_digits-count_digits fuel (num / 10)))
]

power_sixteen : (i : ℕ) → 2 ^ (4 * (0 + i)) ≡ 16 ^ i
power_sixteen zero = refl
power_sixteen (suc i) =
    let shift : 4 * (0 + suc i) ≡ suc (suc (suc (suc (4 * (0 + i))))) = omega arith in
    rw shift (
      omega (
        arith,
        power_sixteen i,
        pow-suc 16 i,
        pow-suc 2 (4 * (0 + i)),
        pow-suc 2 (suc (4 * (0 + i))),
        pow-suc 2 (suc (suc (4 * (0 + i)))),
        pow-suc 2 (suc (suc (suc (4 * (0 + i))))),
      ))

module _ (out : Bool) (n : ℕ) where
  pub put_string-mode :
      (vs : List ℕ) (f : Bool) (l p : ℕ) (bytes : ℕ → ℕ) (vl : List Arg)
      → p + length vs < 2 ^ 32
      → put_string out n vs (mode f l p bytes vl)
        ≡ mode f l (p + length vs) (overlay out n p vs bytes) vl
  unfolding put_string emit advance put_at
  put_string-mode [] f l p bytes vl lt = let at : p + 0 ≡ p = omega arith in rw at refl
  put_string-mode (v ∷ vs) f l p bytes vl lt =
      let at : p + suc (length vs) ≡ p + 1 + length vs = omega arith in
      let next : (p + 1) % 0x100000000 ≡ p + 1 = omega arith in
      rw (next, at) (put_string-mode vs f l (p + 1) (written out n p v bytes) vl (omega arith))

  pub hex_loop-put_string :
      (i num : ℕ) (o : Printing) → hex_loop out n i 0 num o ≡ put_string out n (hex_text i num) o
  unfolding hex_loop put_string
  hex_loop-put_string zero num o = refl
  hex_loop-put_string (suc i) num o =
      let digit : bit_and (num / 2 ^ (4 * (0 + i))) 15 ≡ num / 16 ^ i % 16 =
        bit_and_low 4 (num / 2 ^ (4 * (0 + i))) ∙ ap (λ r. num / r % 16) (power_sixteen i) in
      rw digit (hex_loop-put_string i num (emit out n (hex_digit (num / 16 ^ i % 16)) o))

  dec_loop-mode :
      (i num : ℕ) (f : Bool) (l p : ℕ) (bytes : ℕ → ℕ) (vl : List Arg)
      → p + i < 2 ^ 32
      → dec_loop out n i num (mode f l p bytes vl)
        ≡ mode f l p (overlay out n p (last_digits i num) bytes) vl
  unfolding dec_loop put_at
  dec_loop-mode zero num f l p bytes vl lt = refl
  dec_loop-mode (suc i) num f l p bytes vl lt =
      let at : (p + i) % 0x100000000 ≡ p + i = omega arith in
      let digit : ℕ = b'0' + num % 10 in
      let front : List ℕ = last_digits i (num / 10) in
      let width : length front ≡ i = length-last_digits i (num / 10) in
      rw at (
        dec_loop-mode i (num / 10) f l p (written out n (p + i) digit bytes) vl (omega arith)
        ∙ ap (λ b. mode f l p b vl)
            (overlay-written out n front p (p + i) digit bytes (omega arith)
              ∙ sym (overlay-append out n p front (digit ∷ []) bytes ∙ rw width refl)))

  pub print_natural-mode :
      (num : ℕ) (f : Bool) (l p : ℕ) (bytes : ℕ → ℕ) (vl : List Arg)
      → p + length (digits_text 10 num) < 2 ^ 32
      → print_natural out n num (mode f l p bytes vl)
        ≡ ready (p + length (digits_text 10 num)) (overlay out n p (digits_text 10 num) bytes) vl
  unfolding print_natural finish advance
  print_natural-mode num f l p bytes vl lt =
      let same = last_digits-count_digits 10 num in
      let count : count_digits 10 num ≡ length (digits_text 10 num) =
        sym (length-last_digits (count_digits 10 num) num) ∙ ap length same in
      let fits : p + count_digits 10 num < 2 ^ 32 = omega arith in
      let at : (p + length (digits_text 10 num)) % 0x100000000 ≡ p + length (digits_text 10 num) =
        omega arith in
      rw (dec_loop-mode (count_digits 10 num) num f l p bytes vl fits, same, count, at) refl
