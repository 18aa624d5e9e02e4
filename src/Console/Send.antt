-- ===== src/Console/Send.antt =====
-- src/printf.c and src/uart.c: the bytes that go out.
use venus_scheduler.Prelude.{
  ℕ, zero, suc, ◌+◌, ◌<◌, ◌≤◌, ◌≡◌, refl, arith, Bool, true, false, not, Option, none, some, List,
  [], ◌∷◌, ◌==◌, if◌then◌else◌, ◌>>=◌, length, get_or, all, Bool-cases, inl, inr,
}
use venus_scheduler.Console.Uart.{put_when, uart_puts}
use venus_scheduler.Console.Format.{Arg, PrintResult, hangs, printed, vprintf_text}
use venus_scheduler.Console.Format.Text.{Directive, spelling, rendered}
use venus_scheduler.Console.Format.Printf.{has_chr, vprintf_text-exact, from_zero, zero_at}

-- The result of `_vprintf` and of `printf`, the bytes sent, and the values of the status register
-- that are left; `none` for a text that `_vprintf` never gets past.
module _ (putc : ℕ → List ℕ → Option (ℕ × List ℕ)) where
  send : ℕ → List ℕ → PrintResult → Option (ℕ × List ℕ × List ℕ)
  send fuel status hangs = none
  send fuel status (printed res bytes) =
      uart_puts putc fuel bytes 0 status >>= λ r. some (res, r.0, r.1)

  unfoldable pub vprintf : ℕ → (ℕ → ℕ) → List ℕ → List Arg → List ℕ → Option (ℕ × List ℕ × List ℕ)
  unfolding send
  vprintf fuel out_buf s vl status = vprintf_text out_buf s vl >>= send fuel status

  unfoldable pub printf : ℕ → (ℕ → ℕ) → List ℕ → List Arg → List ℕ → Option (ℕ × List ℕ × List ℕ)
  printf fuel out_buf s vl status = vprintf fuel out_buf s vl status

module _ (ready : ℕ → Bool) where
  -- How often the transmitter is ready.
  abbrev pub chances : List ℕ → ℕ
  chances [] = 0
  chances (status ∷ later) = let rest = chances later in if ready status then suc rest else rest

  put_when-sends :
      (ch : ℕ) (status : List ℕ)
      → 0 < chances status
      → (left : List ℕ) × (put_when ready ch status ≡ some (ch, left))
        × (suc (chances left) ≡ chances status)
  unfolding put_when
  put_when-sends ch [] pos = absurd (omega arith)
  put_when-sends ch (status ∷ later) pos = elim (Bool-cases (ready status)) [
    | inl now ↦ (later, rw now refl, rw now refl)
    | inr wait ↦
        let (left, sends, count) = put_when-sends ch later (rw wait at pos) in
        (left, rw wait sends, rw wait count)
  ]

  puts_sends :
      (vs : List ℕ) (fuel : ℕ) (mem : ℕ → ℕ) (s : ℕ) (status : List ℕ)
      → ((x : ℕ) → x < length vs → mem (s + x) ≡ get_or vs x 0)
      → mem (s + length vs) ≡ 0
      → all (λ c. not (c == 0)) vs ≡ true
      → length vs < fuel
      → length vs ≤ chances status
      → (left : List ℕ) × (uart_puts (put_when ready) fuel mem s status ≡ some (vs, left))
  unfolding uart_puts
  puts_sends vs zero mem s status same end text enough often = absurd (omega arith)
  puts_sends [] (suc fuel) mem s status same end text enough often =
      let here : s + 0 ≡ s = omega arith in
      let stop : mem s ≡ 0 = rw here at end in (status, rw stop refl)
  puts_sends (c ∷ vs) (suc fuel) mem s status same end text enough often =
      let at : s + 0 ≡ s = omega arith in
      let here : mem s ≡ c = rw at at (same 0 (omega arith)) in
      let going : (c == 0) ≡ false = ground arith in
      let others : all (λ c. not (c == 0)) vs ≡ true = ground arith in
      let next_at : s + 1 + length vs ≡ s + suc (length vs) = omega arith in
      let (left, sends, count) = put_when-sends c status (omega arith) in
      let (final, rest) =
        puts_sends vs fuel mem (s + 1) left shifted (rw next_at end) others (omega arith)
          (omega arith) in
      (final, rw (here, going, sends, rest) refl)
    where
      shifted : (x : ℕ) → x < length vs → mem (s + 1 + x) ≡ get_or vs x 0
      shifted x lt =
          let at : s + 1 + x ≡ s + suc x = omega arith in rw at (same (suc x) (omega arith))

-- For a format of bytes other than `%`, `%d`, `%x`, `%p` and `%s` with the arguments that it reads,
-- none of them the least `int` for a `%d`, whose text has no 0 and fewer than 999 bytes: `printf` returns the
-- length of the text and sends its bytes in order, if the transmitter is ready once for each of
-- them, in more rounds than the text is long.
pub printf-sends :
    (ready : ℕ → Bool) (fuel : ℕ) (buffer : ℕ → ℕ) (ds : List Directive) (args : List Arg)
    (vs status : List ℕ)
    → has_chr ds ≡ false
    → rendered (λ _. true) 0 ds args ≡ some vs
    → all (λ c. not (c == 0)) vs ≡ true
    → length vs < 999
    → length vs < fuel
    → length vs ≤ chances ready status
    → (left : List ℕ) × (printf (put_when ready) fuel buffer (spelling ds) args status
        ≡ some (length vs, vs, left))
unfolding printf vprintf
printf-sends ready fuel buffer ds args vs status c e text short enough often =
    let (bytes, prints, inside, end) = vprintf_text-exact buffer ds args vs c e short in
    let (left, sends) =
      puts_sends ready vs fuel bytes 0 status (from_zero vs bytes inside) (zero_at vs bytes end)
        text enough often in
    (left, rw (prints, sends) refl)
