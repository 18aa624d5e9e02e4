-- ===== src/Sched/Deliver/Passing.antt =====
-- What a successor receives from results, described apart from the code that passes them.
use mathlib.Core.List.{tail, append_assoc, append-nil}
use venus_scheduler.Prelude.{
  ℕ, zero, suc, ◌+◌, ◌-◌, ◌≤◌, ◌≡◌, refl, arith, List, [], ◌∷◌, ◌++◌, ◌==◌, if◌then◌else◌, update,
  length, length-append, reverse, ap, ◌∙◌, sym, false,
}
use venus_scheduler.Fifo.{Fifo, max_fifo, put_token}
use venus_scheduler.Fifo.Contents.{
  IsValid, occupancy, contents, head_or, length-contents, contents-put_token, put_token-IsValid,
}
use venus_scheduler.Sched.State.{Token}
use venus_scheduler.Sched.Fire.{put_row}
use venus_scheduler.Sched.Deliver.{Linger, Outputs, put_copies, put_result, pass_tokens}

-- A token that goes into a fifo: one of a result, or one at a new address that copies another.
pub data Write : Type 0 where
  placed : (fifo token : ℕ) → Write
  copied : (fifo token original : ℕ) → Write

abbrev pub skip : ℕ → List ℕ → List ℕ
skip zero fresh = fresh
skip (suc n) fresh = skip n (tail fresh)

-- The fifos `fs` get copies of `t` at the next new addresses.
abbrev pub copy_writes : ℕ → List ℕ → List ℕ → List Write
copy_writes t [] fresh = []
copy_writes t (f ∷ fs) fresh = copied f (head_or 0 fresh) t ∷ copy_writes t fs (tail fresh)

-- How many copies the token of a result has.
abbrev pub copies : List ℕ → ℕ
copies [] = 0
copies (f ∷ fs) = length fs

abbrev pub result_writes : ℕ → List ℕ → List ℕ → List Write
result_writes t [] fresh = []
result_writes t (f ∷ fs) fresh = placed f t ∷ copy_writes t fs fresh

abbrev pub pseudo_writes : List ℕ → List Write
pseudo_writes [] = []
pseudo_writes (f ∷ fs) = placed f 666 ∷ pseudo_writes fs

-- The writes for the tokens `ts` of one arrival, the first for the first result; a result without
-- a token gets pseudo tokens.
abbrev pub writes : List ℕ → List (List ℕ) → List ℕ → List Write
writes ts [] fresh = []
writes [] (r ∷ rs) fresh = pseudo_writes r ++ writes [] rs fresh
writes (t ∷ ts) (r ∷ rs) fresh = result_writes t r fresh ++ writes ts rs (skip (copies r) fresh)

-- The new addresses that are left.
abbrev pub unused : List ℕ → List (List ℕ) → List ℕ → List ℕ
unused ts [] fresh = fresh
unused [] (r ∷ rs) fresh = unused [] rs fresh
unused (t ∷ ts) (r ∷ rs) fresh = unused ts rs (skip (copies r) fresh)

-- The arrivals one after the other.
abbrev pub all_writes : List (List ℕ) → List Linger → List ℕ → List Write
all_writes outs [] fresh = []
all_writes outs (l ∷ ls) fresh =
    writes (reverse l.token_list) outs fresh
    ++ all_writes outs ls (unused (reverse l.token_list) outs fresh)

abbrev pub all_unused : List (List ℕ) → List Linger → List ℕ → List ℕ
all_unused outs [] fresh = fresh
all_unused outs (l ∷ ls) fresh = all_unused outs ls (unused (reverse l.token_list) outs fresh)

-- What the fifo `f` receives.
abbrev pub received : ℕ → List Write → List ℕ
received f [] = []
received f (placed g t ∷ ws) = if g == f then t ∷ received f ws else received f ws
received f (copied g t o ∷ ws) = if g == f then t ∷ received f ws else received f ws

-- The tokens after the copies are made.
abbrev pub with_copies : List Write → (ℕ → Token) → ℕ → Token
with_copies [] tokens = tokens
with_copies (placed f t ∷ ws) tokens = with_copies ws tokens
with_copies (copied f t original ∷ ws) tokens = with_copies ws (update tokens t (tokens original))

abbrev put_one : (ℕ → Fifo) → (f t : ℕ) → ℕ → Fifo
put_one fifos f t = update fifos f (put_token (fifos f) t)

abbrev put_writes : List Write → (ℕ → Fifo) → ℕ → Fifo
put_writes [] fifos = fifos
put_writes (placed f t ∷ ws) fifos = put_writes ws (put_one fifos f t)
put_writes (copied f t original ∷ ws) fifos = put_writes ws (put_one fifos f t)

abbrev pub applied : List Write → List ℕ → Outputs → Outputs
applied ws fresh o = record {
  fifos = put_writes ws o.fifos;
  tokens = with_copies ws o.tokens;
  fresh = fresh;
}

pub applied-append :
    (ws vs : List Write) (used fresh : List ℕ) (o : Outputs)
    → applied vs fresh (applied ws used o) ≡ applied (ws ++ vs) fresh o
applied-append [] vs used fresh o = refl
applied-append (placed f t ∷ ws) vs used fresh o =
    applied-append ws vs used fresh (record o { fifos = put_one o.fifos f t })
applied-append (copied f t original ∷ ws) vs used fresh o =
    applied-append ws vs used fresh
      (record o { fifos = put_one o.fifos f t; tokens = update o.tokens t (o.tokens original) })

put_copies-applied :
    (t : ℕ) (fs : List ℕ) (o : Outputs)
    → put_copies t fs o ≡ applied (copy_writes t fs o.fresh) (skip (length fs) o.fresh) o
unfolding put_copies
put_copies-applied t [] o = refl
put_copies-applied t (f ∷ fs) o = put_copies-applied t fs (record {
  fifos = put_one o.fifos f (head_or 0 o.fresh);
  tokens = update o.tokens (head_or 0 o.fresh) (o.tokens t);
  fresh = tail o.fresh;
})

put_result-applied :
    (t : ℕ) (r : List ℕ) (o : Outputs)
    → put_result t r o ≡ applied (result_writes t r o.fresh) (skip (copies r) o.fresh) o
unfolding put_result
put_result-applied t [] o = refl
put_result-applied t (f ∷ fs) o = put_copies-applied t fs (record o { fifos = put_one o.fifos f t })

put_row-applied :
    (r : List ℕ) (o : Outputs)
    → record o { fifos = put_row o.fifos r } ≡ applied (pseudo_writes r) o.fresh o
unfolding put_row
put_row-applied [] o = refl
put_row-applied (f ∷ fs) o = put_row-applied fs (record o { fifos = put_one o.fifos f 666 })

pub pass_tokens-applied :
    (ts : List ℕ) (rs : List (List ℕ)) (o : Outputs)
    → pass_tokens ts rs o ≡ applied (writes ts rs o.fresh) (unused ts rs o.fresh) o
unfolding pass_tokens
pass_tokens-applied [] [] o = refl
pass_tokens-applied (t ∷ ts) [] o = refl
pass_tokens-applied [] (r ∷ rs) o =
    ap (pass_tokens [] rs) (put_row-applied r o)
    ∙ pass_tokens-applied [] rs (applied (pseudo_writes r) o.fresh o)
    ∙ applied-append (pseudo_writes r) (writes [] rs o.fresh) o.fresh (unused [] rs o.fresh) o
pass_tokens-applied (t ∷ ts) (r ∷ rs) o =
    let left = skip (copies r) o.fresh in
    ap (pass_tokens ts rs) (put_result-applied t r o)
    ∙ pass_tokens-applied ts rs (applied (result_writes t r o.fresh) left o)
    ∙ applied-append (result_writes t r o.fresh) (writes ts rs left) left (unused ts rs left) o

-- What a fifo holds when the tokens `ts` are put into it.
put_each : Fifo → List ℕ → Fifo
put_each fifo [] = fifo
put_each fifo (t ∷ ts) = put_each (put_token fifo t) ts

contents-put_room :
    (fifo : Fifo) (t : ℕ)
    → IsValid fifo
    → occupancy fifo + 1 ≤ max_fifo - 1
    → contents (put_token fifo t) ≡ contents fifo ++ (t ∷ [])
contents-put_room fifo t v room =
    let below : (occupancy fifo == max_fifo - 1) ≡ false = ground arith in
    contents-put_token v t ∙ rw below refl

occupancy-put_room :
    (fifo : Fifo) (t : ℕ)
    → IsValid fifo
    → occupancy fifo + 1 ≤ max_fifo - 1
    → occupancy (put_token fifo t) ≡ occupancy fifo + 1
occupancy-put_room fifo t v room =
    sym (length-contents (put_token fifo t))
    ∙ ap length (contents-put_room fifo t v room)
    ∙ length-append (contents fifo) (t ∷ [])
    ∙ ap (λ n. n + 1) (length-contents fifo)

contents-put_each :
    (ts : List ℕ) (fifo : Fifo)
    → IsValid fifo
    → occupancy fifo + length ts ≤ max_fifo - 1
    → contents (put_each fifo ts) ≡ contents fifo ++ ts
unfolding put_each
contents-put_each [] fifo v room = sym (append-nil (contents fifo))
contents-put_each (t ∷ ts) fifo v room =
    let grown = occupancy-put_room fifo t v (omega arith) in
    contents-put_each ts (put_token fifo t) (put_token-IsValid v t) (omega (arith, grown))
    ∙ ap (λ l. l ++ ts) (contents-put_room fifo t v (omega arith))
    ∙ append_assoc (contents fifo) (t ∷ []) ts

fifo-put_writes :
    (ws : List Write) (fifos : ℕ → Fifo) (f : ℕ)
    → put_writes ws fifos f ≡ put_each (fifos f) (received f ws)
unfolding put_each
fifo-put_writes [] fifos f = refl
fifo-put_writes (placed g t ∷ ws) fifos f = ground (arith, fifo-put_writes ws (put_one fifos g t) f)
fifo-put_writes (copied g t original ∷ ws) fifos f =
    ground (arith, fifo-put_writes ws (put_one fifos g t) f)

-- A valid fifo with room for all that it receives holds it behind what it held, in that order.
pub contents-applied :
    (ws : List Write) (fresh : List ℕ) (o : Outputs) (f : ℕ)
    → IsValid (o.fifos f)
    → occupancy (o.fifos f) + length (received f ws) ≤ max_fifo - 1
    → contents ((applied ws fresh o).fifos f) ≡ contents (o.fifos f) ++ received f ws
contents-applied ws fresh o f v room =
    ap contents (fifo-put_writes ws o.fifos f)
    ∙ contents-put_each (received f ws) (o.fifos f) v room
