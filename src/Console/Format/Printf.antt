-- ===== src/Console/Format/Printf.antt =====
-- src/printf.c: `_vsnprintf` and `_vprintf` on formats of directives.
use venus_scheduler.Prelude.{
  ℕ, ◌+◌, ◌-◌, ◌%◌, ◌^◌, ◌<◌, ◌≤◌, ◌≡◌, refl, ◌∙◌, arith, Bool, true, false, ◌&&◌, List, [], ◌∷◌,
  ◌==◌, ltb, leb, if◌then◌else◌, length, get_or, update, Bool-cases, inl, inr, some, Option-cases,
}
use venus_scheduler.Console.Format.{
  Arg, word, wide, text, hangs, printed, scan, terminate, vsnprintf, vprintf_text, size_space,
}
use venus_scheduler.Console.Format.Text.{
  Directive, lit, dec, hex, ptr, str, chr, spelling, piece_text, rendered,
}
use venus_scheduler.Console.Format.Overlay.{overlay, overlay-inside, overlay-past}
use venus_scheduler.Console.Format.Loops.{ready}
use venus_scheduler.Console.Format.Scan.{scan-rendered}

scan-from_start :
    (out : Bool) (n : ℕ) (ds : List Directive) (buffer : ℕ → ℕ) (args : List Arg) (vs : List ℕ)
    → rendered (λ p. out && ltb p n) 0 ds args ≡ some vs
    → length vs < 2 ^ 32
    → (rest : List Arg) × (scan out n (spelling ds) (ready 0 buffer args)
        ≡ some (ready (length vs) (overlay out n 0 vs buffer) rest))
scan-from_start out n ds buffer args vs e lt =
    let at : 0 + length vs ≡ length vs = omega arith in
    let (rest, scanned) = scan-rendered out n ds 0 buffer args vs e (omega arith) in
    (rest, scanned ∙ rw at refl)

-- Without a buffer, `_vsnprintf` returns the length of the text in which `%c` reads no argument.
pub vsnprintf-measures :
    (n : ℕ) (buffer : ℕ → ℕ) (ds : List Directive) (args : List Arg) (vs : List ℕ)
    → rendered (λ _. false) 0 ds args ≡ some vs
    → length vs < 2 ^ 32
    → vsnprintf false n buffer (spelling ds) args ≡ some (overlay false n 0 vs buffer, length vs)
unfolding vsnprintf terminate
vsnprintf-measures n buffer ds args vs e lt =
    let (rest, scanned) = scan-from_start false n ds buffer args vs e lt in rw scanned refl

-- In a buffer of `n` bytes: the text, cut off before the last byte if it is longer, and a 0.
abbrev pub IsCut : ℕ → List ℕ → (ℕ → ℕ) → (ℕ → ℕ) → Type 0
IsCut n vs buffer bytes =
    ((x : ℕ) → x < length vs → x + 1 < n → bytes x ≡ get_or vs x 0)
    × (bytes (if ltb (length vs) n then length vs else n - 1) ≡ 0)
    × ((x : ℕ) → n ≤ x → bytes x ≡ buffer x)

terminate-fits :
    (n x : ℕ) (buffer : ℕ → ℕ) (vs : List ℕ) (rest : List Arg)
    → ltb (length vs) n ≡ true
    → terminate true n (ready (length vs) (overlay true n 0 vs buffer) rest) x
      ≡ update (overlay true n 0 vs buffer) (length vs) 0 x
unfolding terminate
terminate-fits n x buffer vs rest fits = rw (terminate, fits) refl

terminate-cuts :
    (n x : ℕ) (buffer : ℕ → ℕ) (vs : List ℕ) (rest : List Arg)
    → 0 < n
    → ltb (length vs) n ≡ false
    → terminate true n (ready (length vs) (overlay true n 0 vs buffer) rest) x
      ≡ update (overlay true n 0 vs buffer) (n - 1) 0 x
unfolding terminate
terminate-cuts n x buffer vs rest pos long =
    let some_room : (n == 0) ≡ false = ground arith in rw (terminate, long, some_room) refl

from_start :
    (n : ℕ) (vs : List ℕ) (x : ℕ) (buffer : ℕ → ℕ)
    → x < length vs
    → x < n
    → overlay true n 0 vs buffer x ≡ get_or vs x 0
from_start n vs x buffer lt small =
    let same : x - 0 ≡ x = omega arith in
    overlay-inside n vs 0 x buffer (omega arith) (omega arith) small ∙ rw same refl

terminate-IsCut :
    (n : ℕ) (buffer : ℕ → ℕ) (vs : List ℕ) (rest : List Arg)
    → 0 < n
    → IsCut n vs buffer (terminate true n (ready (length vs) (overlay true n 0 vs buffer) rest))
terminate-IsCut n buffer vs rest pos = elim (Bool-cases (ltb (length vs) n)) [
  | inl fits ↦ (
    λ x lt within.
        terminate-fits n x buffer vs rest fits
        ∙ ground (arith, from_start n vs x buffer lt (omega arith)),
    rw fits (terminate-fits n (length vs) buffer vs rest fits ∙ ground arith),
    λ x past.
        terminate-fits n x buffer vs rest fits
        ∙ ground (arith, overlay-past true n vs 0 x buffer past),
  )
  | inr long ↦ (
    λ x lt within.
        terminate-cuts n x buffer vs rest pos long
        ∙ ground (arith, from_start n vs x buffer lt (omega arith)),
    rw long (terminate-cuts n (n - 1) buffer vs rest pos long ∙ ground arith),
    λ x past.
        terminate-cuts n x buffer vs rest pos long
        ∙ ground (arith, overlay-past true n vs 0 x buffer past),
  )
]

-- `_vsnprintf` into a buffer of `n` bytes, more than none, returns the length of the whole text and
-- leaves in the buffer the text, cut off before the last byte if it is longer, and a 0; behind the
-- buffer nothing changes. `%c` reads its argument only where it writes.
pub vsnprintf-IsCut :
    (n : ℕ) (buffer : ℕ → ℕ) (ds : List Directive) (args : List Arg) (vs : List ℕ)
    → rendered (λ p. ltb p n) 0 ds args ≡ some vs
    → length vs < 2 ^ 32
    → 0 < n
    → (bytes : ℕ → ℕ) × (vsnprintf true n buffer (spelling ds) args ≡ some (bytes, length vs))
      × IsCut n vs buffer bytes
unfolding vsnprintf
vsnprintf-IsCut n buffer ds args vs e lt pos =
    let (rest, scanned) = scan-from_start true n ds buffer args vs e lt in
    (
      terminate true n (ready (length vs) (overlay true n 0 vs buffer) rest),
      rw scanned refl,
      terminate-IsCut n buffer vs rest pos,
    )

-- For a format of bytes other than `%`, `%d`, `%x`, `%p`, `%s` and `%c`, let the first text be the
-- one in which `%c` reads no argument, of fewer than 999 bytes, and the second, below 2^32 bytes, the
-- one in which `%c` reads its argument at the positions up to the length of the first; both have the
-- arguments that they read, and no `%d` has the least `int`. `_vprintf` returns the length of the
-- first text and leaves in `out_buf` the second, cut off behind that many bytes if it is longer, and
-- a 0.
pub vprintf_text-IsCut :
    (buffer : ℕ → ℕ) (ds : List Directive) (args : List Arg) (ms vs : List ℕ)
    → rendered (λ _. false) 0 ds args ≡ some ms
    → length ms < 999
    → rendered (λ p. ltb p (length ms + 1)) 0 ds args ≡ some vs
    → length vs < 2 ^ 32
    → (bytes : ℕ → ℕ) × (vprintf_text buffer (spelling ds) args ≡ some (printed (length ms) bytes))
      × IsCut (length ms + 1) vs buffer bytes
unfolding vprintf_text
vprintf_text-IsCut buffer ds args ms vs first short second lt =
    let measures = vsnprintf-measures (size_space - 1) buffer ds args ms first (omega arith) in
    let (bytes, writes, cut) =
      vsnprintf-IsCut (length ms + 1) buffer ds args vs second lt (omega arith) in
    let room : (length ms + 1) % 0x100000000 ≡ length ms + 1 = omega arith in
    let small : leb 1000 (length ms + 1) ≡ false = ground arith in
    (bytes, rw (measures, room, small, writes) refl, cut)

-- `_vprintf` of a text that the first pass counts as 999 bytes or more, but below 2^32 - 1, never
-- returns.
pub vprintf_text-hangs :
    (buffer : ℕ → ℕ) (ds : List Directive) (args : List Arg) (ms : List ℕ)
    → rendered (λ _. false) 0 ds args ≡ some ms
    → 999 ≤ length ms
    → length ms + 1 < 2 ^ 32
    → vprintf_text buffer (spelling ds) args ≡ some hangs
unfolding vprintf_text
vprintf_text-hangs buffer ds args ms first long lt =
    let measures = vsnprintf-measures (size_space - 1) buffer ds args ms first (omega arith) in
    let room : (length ms + 1) % 0x100000000 ≡ length ms + 1 = omega arith in
    let large : leb 1000 (length ms + 1) ≡ true = ground arith in rw (measures, room, large) refl

abbrev pub has_chr : List Directive → Bool
has_chr [] = false
has_chr (chr ∷ ds) = true
has_chr (_ ∷ ds) = has_chr ds

piece_text-reads :
    (d : Directive) (f g : ℕ → Bool) (p q : ℕ) (args : List Arg)
    → has_chr (d ∷ []) ≡ false
    → piece_text f p d args ≡ piece_text g q d args
piece_text-reads chr f g p q args c = absurd (ground arith)
piece_text-reads (lit c) f g p q args _ = refl
piece_text-reads d f g p q [] c = refl
piece_text-reads d f g p q (word w ∷ args) c = refl
piece_text-reads d f g p q (wide w ∷ args) c = refl
piece_text-reads d f g p q (text t ∷ args) c = refl

has_chr-cons :
    (d : Directive) (ds : List Directive)
    → has_chr (d ∷ ds) ≡ false
    → (has_chr (d ∷ []) ≡ false) × (has_chr ds ≡ false)
has_chr-cons chr ds c = absurd (ground arith)
has_chr-cons (lit _) ds c = (refl, c)
has_chr-cons dec ds c = (refl, c)
has_chr-cons hex ds c = (refl, c)
has_chr-cons ptr ds c = (refl, c)
has_chr-cons str ds c = (refl, c)

rendered-reads :
    (ds : List Directive) (f g : ℕ → Bool) (p q : ℕ) (args : List Arg)
    → has_chr ds ≡ false
    → rendered f p ds args ≡ rendered g q ds args
rendered-reads [] f g p q args c = refl
rendered-reads (d ∷ ds) f g p q args c =
    let (here, later) = has_chr-cons d ds c in
    let first = piece_text-reads d f g p q args here in
    elim (Option-cases (piece_text g q d args)) [
      | inl e ↦ rw (first, e) refl
      | inr ((t, left), e) ↦
          rw (first, e, rendered-reads ds f g (p + length t) (q + length t) left later) refl
    ]

-- For a format of bytes other than `%`, `%d`, `%x`, `%p` and `%s` with the arguments that it reads,
-- none of them the least `int` for a `%d`, whose text has fewer than 999 bytes: `_vprintf` leaves the
-- text, all of it, and a 0 in `out_buf`, and returns its length.
pub vprintf_text-exact :
    (buffer : ℕ → ℕ) (ds : List Directive) (args : List Arg) (vs : List ℕ)
    → has_chr ds ≡ false
    → rendered (λ _. true) 0 ds args ≡ some vs
    → length vs < 999
    → (bytes : ℕ → ℕ) × (vprintf_text buffer (spelling ds) args ≡ some (printed (length vs) bytes))
      × ((x : ℕ) → x < length vs → bytes x ≡ get_or vs x 0)
      × (bytes (length vs) ≡ 0)
vprintf_text-exact buffer ds args vs c e short =
    let first = rendered-reads ds (λ _. false) (λ _. true) 0 0 args c ∙ e in
    let second = rendered-reads ds (λ p. ltb p (length vs + 1)) (λ _. true) 0 0 args c ∙ e in
    let (bytes, eq, (same, end, _)) =
      vprintf_text-IsCut buffer ds args vs vs first short second (omega arith) in
    let fits : ltb (length vs) (length vs + 1) ≡ true = ground arith in
    (bytes, eq, (λ x lt. same x lt (omega arith)), rw fits at end)

-- The same facts at an address that starts from 0.
pub from_zero :
    (vs : List ℕ) (mem : ℕ → ℕ)
    → ((x : ℕ) → x < length vs → mem x ≡ get_or vs x 0)
    → (x : ℕ) → x < length vs
    → mem (0 + x) ≡ get_or vs x 0
from_zero vs mem same x lt = let at : 0 + x ≡ x = omega arith in rw at (same x lt)

pub zero_at : (vs : List ℕ) (mem : ℕ → ℕ) → mem (length vs) ≡ 0 → mem (0 + length vs) ≡ 0
zero_at vs mem end = let at : 0 + length vs ≡ length vs = omega arith in rw at end
