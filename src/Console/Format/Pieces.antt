-- ===== src/Console/Format/Pieces.antt =====
-- src/printf.c: one directive of a format and what it writes.
use mathlib.Core.Option.{some-injective}
use venus_scheduler.Prelude.{
  ℕ, suc, ◌+◌, ◌-◌, ◌%◌, ◌^◌, ◌<◌, ◌≡◌, refl, ap, arith, Bool, true, false, ◌&&◌, List, [], ◌∷◌,
  ◌++◌, ◌==◌, ltb, length, Bool-cases, inl, inr, Option, some,
}
use venus_scheduler.Console.Format.{
  Arg, word, wide, text, put_string, emit, advance, put_at, scan, print_byte, conversion, print_hex,
  print_dec, print_pointer, print_string, print_char, finish, next_word, next_text,
}
use venus_scheduler.Console.Format.Text.{
  Directive, lit, dec, hex, ptr, str, chr, spell, hex_text, digits_text, signed_text, char_text,
  piece_text,
}
use venus_scheduler.Console.Format.Overlay.{written, overlay}
use venus_scheduler.Console.Format.Loops.{
  mode, ready, put_string-mode, hex_loop-put_string, print_natural-mode,
}

module _ (out : Bool) (n : ℕ) where
  -- Where the code reads the argument of `%c`.
  abbrev pub is_written : ℕ → Bool
  is_written p = out && ltb p n

  -- A directive behind its `%`, in a text of which `s` is left.
  unfoldable pub Prints : Directive → (ℕ → ℕ) → ℕ → List Arg → List ℕ → List Arg → Type 0
  Prints d bytes p args vs rest =
      (s : List ℕ)
      → scan out n (spell d ++ s) (ready p bytes args)
        ≡ scan out n s (ready (p + length vs) (overlay out n p vs bytes) rest)

  lit-Prints :
      (c p : ℕ) (bytes : ℕ → ℕ) (args : List Arg)
      → (c == b'%') ≡ false
      → p + 1 < 2 ^ 32
      → Prints (lit c) bytes p args (c ∷ []) args
  unfolding Prints scan print_byte emit advance put_at
  lit-Prints c p bytes args plain lt s =
      let next : (p + 1) % 0x100000000 ≡ p + 1 = omega arith in rw (plain, next) refl

  dec-Prints :
      (w p : ℕ) (bytes : ℕ → ℕ) (args : List Arg)
      → (w == 2 ^ 31) ≡ false
      → p + length (signed_text w) < 2 ^ 32
      → Prints dec bytes p (word w ∷ args) (signed_text w) args
  unfolding Prints scan print_byte conversion print_dec next_word emit advance put_at
  dec-Prints w p bytes args least lt s = elim (Bool-cases (ltb (2 ^ 31) w)) [
    | inl minus ↦
        let num : ℕ = 2 ^ 32 - w in
        let fits : p + 1 + length (digits_text 10 num) < 2 ^ 32 = omega (arith, rw minus at lt) in
        let end : p + suc (length (digits_text 10 num)) ≡ p + 1 + length (digits_text 10 num) =
          omega arith in
        let next : (p + 1) % 0x100000000 ≡ p + 1 = omega arith in
        rw
          (
            least,
            minus,
            next,
            end,
            print_natural-mode out n num true 0 (p + 1) (written out n p b'-' bytes) args fits,
          )
          refl
    | inr plus ↦
        let text_ : signed_text w ≡ digits_text 10 w = rw plus refl in
        let fits : p + length (digits_text 10 w) < 2 ^ 32 = rw text_ at lt in
        rw (least, plus, print_natural-mode out n w true 0 p bytes args fits) refl
  ]

  hex-Prints :
      (w p : ℕ) (bytes : ℕ → ℕ) (args : List Arg)
      → p + 8 < 2 ^ 32
      → Prints hex bytes p (word w ∷ args) (hex_text 8 w) args
  unfolding Prints scan print_byte conversion print_hex next_word finish
  hex-Prints w p bytes args lt s =
      rw
        (
          hex_loop-put_string out n 8 w (mode true 0 p bytes args),
          put_string-mode out n (hex_text 8 w) true 0 p bytes args lt,
        )
        refl

  ptr-Prints :
      (w p : ℕ) (bytes : ℕ → ℕ) (args : List Arg)
      → p + 10 < 2 ^ 32
      → Prints ptr bytes p (word w ∷ args) (b'0' ∷ b'x' ∷ hex_text 8 w) args
  unfolding Prints scan print_byte conversion print_pointer print_hex next_word finish put_string
  ptr-Prints w p bytes args lt s =
      let both =
        put_string-mode out n (b'0' ∷ b'x' ∷ []) true 1 p bytes (word w ∷ args) (omega arith) in
      let end : p + 10 ≡ p + 2 + 8 = omega arith in
      let after : ℕ → ℕ = overlay out n p (b'0' ∷ b'x' ∷ []) bytes in
      let at : p + 1 + 1 ≡ p + 2 = omega arith in
      rw
        (
          both,
          hex_loop-put_string out n 8 w (mode true 1 (p + 2) after args),
          put_string-mode out n (hex_text 8 w) true 1 (p + 2) after args (omega arith),
          end,
          at,
        )
        refl

  str-Prints :
      (t : List ℕ) (p : ℕ) (bytes : ℕ → ℕ) (args : List Arg)
      → p + length t < 2 ^ 32
      → Prints str bytes p (text t ∷ args) t args
  unfolding Prints scan print_byte conversion print_string next_text finish
  str-Prints t p bytes args lt s = rw (put_string-mode out n t true 0 p bytes args lt) refl

  chr-Prints :
      (w p : ℕ) (bytes : ℕ → ℕ) (args : List Arg)
      → is_written p ≡ true
      → p + 1 < 2 ^ 32
      → Prints chr bytes p (word w ∷ args) (w % 256 ∷ []) args
  unfolding Prints scan print_byte conversion print_char next_word finish emit advance put_at
  chr-Prints w p bytes args reads lt s =
      let next : (p + 1) % 0x100000000 ≡ p + 1 = omega arith in rw (reads, next) refl

  chr-Prints_unread :
      (p : ℕ) (bytes : ℕ → ℕ) (args : List Arg)
      → is_written p ≡ false
      → p + 1 < 2 ^ 32
      → Prints chr bytes p args (0 ∷ []) args
  unfolding Prints scan print_byte conversion print_char finish advance
  chr-Prints_unread p bytes args unread lt s =
      let next : (p + 1) % 0x100000000 ≡ p + 1 = omega arith in rw (unread, next) refl

  Prints-as :
      (d : Directive) (p : ℕ) (bytes : ℕ → ℕ) (args rest rest' : List Arg) (vs vs' : List ℕ)
      → ◌≡◌ {A = Option (List ℕ × List Arg)} (some (vs, rest)) (some (vs', rest'))
      → p + length vs' < 2 ^ 32
      → (p + length vs < 2 ^ 32 → Prints d bytes p args vs rest)
      → Prints d bytes p args vs' rest'
  Prints-as d p bytes args rest rest' vs vs' e lt prints =
      let same = some-injective (vs, rest) (vs', rest') e in
      rw (← ap (λ r. r.0) same, ← ap (λ r. r.1) same)
        (prints (omega (arith, ap (λ r. length r.0) same)))

  chr-Prints_either :
      (reads : Bool) (p : ℕ) (bytes : ℕ → ℕ) (args rest : List Arg) (vs : List ℕ)
      → is_written p ≡ reads
      → char_text reads args ≡ some (vs, rest)
      → p + length vs < 2 ^ 32
      → Prints chr bytes p args vs rest
  chr-Prints_either false p bytes args rest vs unread e lt =
      Prints-as chr p bytes args args rest (0 ∷ []) vs e lt (chr-Prints_unread p bytes args unread)
  chr-Prints_either true p bytes [] rest vs reads e lt = absurd (ground arith)
  chr-Prints_either true p bytes (word w ∷ args) rest vs reads e lt =
      Prints-as chr p bytes (word w ∷ args) args rest (w % 256 ∷ []) vs e lt
        (chr-Prints w p bytes args reads)
  chr-Prints_either true p bytes (wide w ∷ args) rest vs reads e lt = absurd (ground arith)
  chr-Prints_either true p bytes (text t ∷ args) rest vs reads e lt = absurd (ground arith)

  pub piece-Prints :
      (d : Directive) (p : ℕ) (bytes : ℕ → ℕ) (args rest : List Arg) (vs : List ℕ)
      → piece_text is_written p d args ≡ some (vs, rest)
      → p + length vs < 2 ^ 32
      → Prints d bytes p args vs rest
  piece-Prints (lit c) p bytes args rest vs e lt = elim (Bool-cases (c == b'%')) [
    | inl percent ↦ absurd (ground (arith, rw percent at e))
    | inr plain ↦
        Prints-as (lit c) p bytes args args rest (c ∷ []) vs (rw plain at e) lt
          (lit-Prints c p bytes args plain)
  ]
  piece-Prints dec p bytes (word w ∷ args) rest vs e lt = elim (Bool-cases (w == 2 ^ 31)) [
    | inl least ↦ absurd (ground (arith, rw least at e))
    | inr other ↦
        Prints-as dec p bytes (word w ∷ args) args rest (signed_text w) vs (rw other at e) lt
          (dec-Prints w p bytes args other)
  ]
  piece-Prints hex p bytes (word w ∷ args) rest vs e lt =
      Prints-as hex p bytes (word w ∷ args) args rest (hex_text 8 w) vs e lt
        (hex-Prints w p bytes args)
  piece-Prints ptr p bytes (word w ∷ args) rest vs e lt =
      Prints-as ptr p bytes (word w ∷ args) args rest (b'0' ∷ b'x' ∷ hex_text 8 w) vs e lt
        (ptr-Prints w p bytes args)
  piece-Prints str p bytes (text t ∷ args) rest vs e lt =
      Prints-as str p bytes (text t ∷ args) args rest t vs e lt (str-Prints t p bytes args)
  piece-Prints chr p bytes args rest vs e lt =
      chr-Prints_either (is_written p) p bytes args rest vs refl e lt
  piece-Prints _ p bytes _ rest vs e lt = absurd (ground arith)
