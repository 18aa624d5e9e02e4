-- ===== src/Fifo/Refine.antt =====
-- A token fifo against an unbounded queue, over sequences of calls.
use venus_scheduler.Prelude.{ℕ, ◌-◌, ◌<◌, ◌≡◌, refl, ap, List, [], ◌∷◌, ◌++◌, arith, length}
use mathlib.Core.List.{tail}
use venus_scheduler.Fifo.{max_fifo, null, Fifo, put_token, get_token}
use venus_scheduler.Fifo.Contents.{
  IsValid, contents, head_or, length-contents, put_token-IsValid, get_token-IsValid,
  contents-put_token, get_token_lem,
}

pub data Call : Type 0 where
  put : ℕ → Call
  get : Call

-- What the calls of `get_token` return, in order.
pub run : Fifo → List Call → List ℕ
run f [] = []
run f (put t ∷ calls) = run (put_token f t) calls
run f (get ∷ calls) = let (t, f') = get_token f in t ∷ run f' calls

-- The same for a queue with no bound.
pub run_queue : List ℕ → List Call → List ℕ
run_queue q [] = []
run_queue q (put t ∷ calls) = run_queue (q ++ (t ∷ [])) calls
run_queue q (get ∷ calls) = head_or null q ∷ run_queue (tail q) calls

-- No token is put while MAX_BUFFER tokens wait.
abbrev pub Fits : List ℕ → List Call → Type 0
Fits q [] = Unit
Fits q (put t ∷ calls) = (length q < max_fifo - 1) × Fits (q ++ (t ∷ [])) calls
Fits q (get ∷ calls) = Fits (tail q) calls

contents-put_of_room :
    {f : Fifo} (v : IsValid f) (t : ℕ)
    → length (contents f) < max_fifo - 1
    → contents (put_token f t) ≡ contents f ++ (t ∷ [])
contents-put_of_room {f} v t h = ground (arith, contents-put_token v t, length-contents f)

-- While no token is put into a fifo that holds MAX_BUFFER, a valid fifo returns what an unbounded
-- queue of its contents returns, over every sequence of `put_token` and `get_token`.
pub run_refines :
    (calls : List Call) (f : Fifo)
    → IsValid f
    → Fits (contents f) calls
    → run f calls ≡ run_queue (contents f) calls
unfolding run run_queue
run_refines [] f v fits = refl
run_refines (put t ∷ calls) f v fits =
    let step = contents-put_of_room v t fits.0 in
    rw (← step) (run_refines calls (put_token f t) (put_token-IsValid v t) (rw step fits.1))
run_refines (get ∷ calls) f v fits =
    let step = get_token_lem v in
    rw (step.0, ← step.1)
      (ap (λ out. head_or null (contents f) ∷ out)
        (run_refines calls (get_token f).1 (get_token-IsValid v) (rw step.1 fits)))
