-- ===== src/Console/Format/Decimal.antt =====
-- src/printf.c and src/ulib.c: what `%d` prints, `atoi` reads.
use mathlib.Core.List.{append-nil}
use venus_scheduler.Prelude.{
  ℕ, zero, suc, ◌+◌, ◌-◌, ◌*◌, ◌/◌, ◌%◌, ◌^◌, ◌<◌, ◌≤◌, ◌≡◌, refl, ap, ◌∙◌, arith, Bool, true,
  false, ◌&&◌, List, [], ◌∷◌, ◌++◌, ltb, leb, ◌==◌, length, length-append, get_or, all, Bool-cases,
  inl, inr, some,
}
use venus_scheduler.Ulib.{atoi, atoi_loop}
use venus_scheduler.Console.Format.{word, printed, vprintf_text}
use venus_scheduler.Console.Format.Text.{
  dec, rendered, spelling, digits_text, decimal_value, decimal_value-digits_text,
}
use venus_scheduler.Console.Format.Printf.{vprintf_text-exact, from_zero, zero_at}

abbrev is_digit : ℕ → Bool
is_digit c = leb b'0' c && leb c b'9'

decimal_value-ge : (vs : List ℕ) (acc : ℕ) → acc ≤ decimal_value acc vs
decimal_value-ge [] acc = omega arith
decimal_value-ge (c ∷ vs) acc = omega (arith, decimal_value-ge vs (acc * 10 + (c - b'0')))

atoi_loop-digits :
    (vs : List ℕ) (fuel : ℕ) (mem : ℕ → ℕ) (s acc : ℕ)
    → ((x : ℕ) → x < length vs → mem (s + x) ≡ get_or vs x 0)
    → mem (s + length vs) ≡ 0
    → all is_digit vs ≡ true
    → decimal_value acc vs < 2 ^ 32
    → length vs < fuel
    → atoi_loop fuel mem s acc ≡ some (decimal_value acc vs)
unfolding atoi_loop
atoi_loop-digits vs zero mem s acc same end digits small lt = absurd (omega arith)
atoi_loop-digits [] (suc fuel) mem s acc same end digits small lt =
    let here : s + 0 ≡ s = omega arith in let stop : mem s ≡ 0 = rw here at end in rw stop refl
atoi_loop-digits (c ∷ vs) (suc fuel) mem s acc same end digits small lt =
    let at : s + 0 ≡ s = omega arith in
    let here : mem s ≡ c = rw at at (same 0 (omega arith)) in
    let digit : is_digit c ≡ true = ground arith in
    let others : all is_digit vs ≡ true = ground arith in
    let value : ℕ = acc * 10 + (c - b'0') in
    let next : (acc * 10 + c - 48) % 0x100000000 ≡ value =
      ground (arith, decimal_value-ge vs value) in
    let next_at : s + 1 + length vs ≡ s + suc (length vs) = omega arith in
    rw (here, digit, next)
      (atoi_loop-digits vs fuel mem (s + 1) value (λ x lt. shifted x lt) (rw next_at end) others
        small (omega arith))
  where
    shifted : (x : ℕ) → x < length vs → mem (s + 1 + x) ≡ get_or vs x 0
    shifted x lt =
        let at : s + 1 + x ≡ s + suc x = omega arith in rw at (same (suc x) (omega arith))

all-append :
    (vs ws : List ℕ)
    → all is_digit vs ≡ true
    → all is_digit ws ≡ true
    → all is_digit (vs ++ ws) ≡ true
all-append [] ws a b = b
all-append (v ∷ vs) ws a b = ground (arith, all-append vs ws)

all-digits_text : (fuel n : ℕ) → all is_digit (digits_text fuel n) ≡ true
all-digits_text zero n = ground arith
all-digits_text (suc fuel) n = elim (Bool-cases (ltb n 10)) [
  | inl small ↦ rw small (ground arith)
  | inr large ↦ rw large (
      all-append (digits_text fuel (n / 10)) ((b'0' + n % 10) ∷ []) (all-digits_text fuel (n / 10))
        (ground arith))
]

length-digits_text : (fuel n : ℕ) → length (digits_text fuel n) ≤ suc fuel
length-digits_text zero n = omega arith
length-digits_text (suc fuel) n = elim (Bool-cases (ltb n 10)) [
  | inl small ↦ rw small (omega arith)
  | inr large ↦ rw large (
      omega (
        arith,
        length-append (digits_text fuel (n / 10)) ((b'0' + n % 10) ∷ []),
        length-digits_text fuel (n / 10),
      ))
]

-- The text that `_vprintf` leaves in `out_buf` for a `%d` of a number that is not negative ends
-- within eleven bytes, and `atoi` reads the number from it.
pub atoi-vprintf_text :
    (buffer : ℕ → ℕ) (w fuel : ℕ)
    → w < 2 ^ 31
    → 11 < fuel
    → (length_ : ℕ) × (bytes : ℕ → ℕ) × (vprintf_text buffer (spelling (dec ∷ [])) (word w ∷ [])
        ≡ some (printed length_ bytes))
      × (length_ ≤ 11)
      × (atoi fuel bytes 0 ≡ some w)
unfolding atoi
atoi-vprintf_text buffer w fuel lt enough =
    let vs : List ℕ = digits_text 10 w in
    let plus : ltb (2 ^ 31) w ≡ false = ground arith in
    let other : (w == 2 ^ 31) ≡ false = ground arith in
    let same : rendered (λ _. true) 0 (dec ∷ []) (word w ∷ []) ≡ some vs =
      rw (other, plus, append-nil) refl in
    let short : length vs ≤ 11 = length-digits_text 10 w in
    let (bytes, eq, inside, end) =
      vprintf_text-exact buffer (dec ∷ []) (word w ∷ []) vs refl same (omega arith) in
    let value : decimal_value 0 vs ≡ w = decimal_value-digits_text 10 w (omega arith) in
    let read =
      atoi_loop-digits vs fuel bytes 0 0 (from_zero vs bytes inside) (zero_at vs bytes end)
        (all-digits_text 10 w) (omega arith) (omega arith) in
    (length vs, bytes, eq, short, read ∙ ap some value)
