-- ===== src/Console/Format/Scan.antt =====
-- src/printf.c: the loop of `_vsnprintf` over a format.
use mathlib.Core.Option.{some-injective}
use venus_scheduler.Prelude.{
  ℕ, ◌+◌, ◌^◌, ◌<◌, ◌≡◌, refl, ap, ◌∙◌, arith, Bool, List, [], ◌∷◌, ◌++◌, length, length-append,
  inl, inr, some, Option-cases,
}
use venus_scheduler.Console.Format.{Arg, scan}
use venus_scheduler.Console.Format.Text.{Directive, spelling, piece_text, rendered}
use venus_scheduler.Console.Format.Overlay.{overlay, overlay-append}
use venus_scheduler.Console.Format.Loops.{ready}
use venus_scheduler.Console.Format.Pieces.{is_written, Prints, piece-Prints}

module _ (out : Bool) (n : ℕ) where
  joined :
      (p : ℕ) (t ws vs : List ℕ) (bytes : ℕ → ℕ) (rest : List Arg)
      → t ++ ws ≡ vs
      → some (
          ready
            (p + length t + length ws)
            (overlay out n (p + length t) ws (overlay out n p t bytes))
            rest)
        ≡ some (ready (p + length vs) (overlay out n p vs bytes) rest)
  joined p t ws vs bytes rest same =
      let end : p + length t + length ws ≡ p + length vs =
        omega (arith, ap length same, length-append t ws) in
      rw (end, ← overlay-append out n p t ws bytes, same) refl

  -- A format of directives leaves their texts in the buffer.
  pub scan-rendered :
      (ds : List Directive) (p : ℕ) (bytes : ℕ → ℕ) (args : List Arg) (vs : List ℕ)
      → rendered (is_written out n) p ds args ≡ some vs
      → p + length vs < 2 ^ 32
      → (rest : List Arg) × (scan out n (spelling ds) (ready p bytes args)
          ≡ some (ready (p + length vs) (overlay out n p vs bytes) rest))
  unfolding scan Prints
  scan-rendered [] p bytes args vs e lt =
      let at : p + 0 ≡ p = omega arith in
      let same = some-injective [] vs e in (args, rw (← same, at) refl)
  scan-rendered (d ∷ ds) p bytes args vs e lt =
      elim (Option-cases (piece_text (is_written out n) p d args)) [
        | inl fails ↦ absurd (ground (arith, rw fails at e))
        | inr ((t, rest), first) ↦
            elim (Option-cases (rendered (is_written out n) (p + length t) ds rest)) [
              | inl fails ↦ absurd (ground (arith, rw (first, fails) at e))
              | inr (ws, later) ↦
                  let same = some-injective (t ++ ws) vs (rw (first, later) at e) in
                  let sum : length vs ≡ length t + length ws =
                    omega (arith, ap length same, length-append t ws) in
                  let now =
                    piece-Prints out n d p bytes args rest t first (omega arith) (spelling ds) in
                  let (left, then_) =
                    scan-rendered ds (p + length t) (overlay out n p t bytes) rest ws later
                      (omega arith) in
                  (left, now ∙ then_ ∙ joined p t ws vs bytes left same)
            ]
      ]
