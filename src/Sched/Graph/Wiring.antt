-- ===== src/Sched/Graph/Wiring.antt =====
-- The wiring that the calls of src/actor_create.c make, when each gets a fifo of its own.
use venus_scheduler.Prelude.{ℕ, ◌≡◌, ◌≢◌, arith, true, false, List, has, get_elem?, set, some}
use venus_scheduler.Fifo.{null}
use venus_scheduler.Sched.State.{Actor, max_in, max_res}
use venus_scheduler.Sched.Create.{nulls, null_rows, node_make_out, set_first}
use venus_scheduler.Sched.Graph.Slots.{
  NoTwice, NoTwice-set, NoTwice-nulls, has-set, has-nulls, has-node_make_out, held, held-set,
  held-get, held-set_first, held-null_rows,
}

-- No fifo stands in two inputs of the actor, or in an input and an output.
pub record IsWired (x : Actor) : Type 0 where
  pub once : NoTwice x.inputs
  pub apart : (g : ℕ) → g ≢ null → has g x.inputs ≡ true → held g x.outputs ≡ false

abbrev pub Lacks : ℕ → Actor → Type 0
Lacks g x = (has g x.inputs ≡ false) × (held g x.outputs ≡ false)

abbrev pub with_input : ℕ → ℕ → Actor → Actor
with_input i f x = record x { inputs = set x.inputs i f }

abbrev pub with_output : ℕ → List ℕ → ℕ → Actor → Actor
with_output d r f x = record x { outputs = set x.outputs d (node_make_out r f) }

with_input-IsWired : (i f : ℕ) (x : Actor) → IsWired x → Lacks f x → IsWired (with_input i f x)
with_input-IsWired i f x w (ni, no_) = record {
  once = NoTwice-set x.inputs i f w.once ni;
  apart = λ g nz inside. ground (arith, w.apart g nz, has-set x.inputs i f g);
}

with_output-IsWired :
    (d f : ℕ) (r : List ℕ) (x : Actor)
    → get_elem? x.outputs d ≡ some r
    → IsWired x
    → Lacks f x
    → IsWired (with_output d r f x)
with_output-IsWired d f r x at w (ni, no_) = record {
  once = w.once;
  apart = λ g nz inside.
      let free = w.apart g nz inside in
      let other : g ≢ f = ground arith in
      held-set x.outputs d g (node_make_out r f) free
        (has-node_make_out r f g (held-get x.outputs d g r free at) other);
}

-- What a call may do to an actor.
pub data Change (f : ℕ) (x : Actor) : Actor → Type 0 where
  same : Change f x x
  input : (i : ℕ) → f ≢ null → Change f x (with_input i f x)
  output :
      (d : ℕ) (r : List ℕ)
      → get_elem? x.outputs d ≡ some r
      → f ≢ null
      → Change f x (with_output d r f x)
  output_first : f ≢ null → Change f x (record x { outputs = set_first x.outputs f })
  marked : Change f x (record x { dynamic = 1 })
  created :
      (start len : ℕ)
      → Change f x (record {
        inputs = nulls max_in;
        outputs = null_rows max_res;
        task_addr = start;
        task_len = len;
        dynamic = 0;
      })

pub Change-IsWired :
    (f : ℕ) (x y : Actor) → Change f x y → IsWired x → (f ≢ null → Lacks f x) → IsWired y
Change-IsWired f x _ same w l = w
Change-IsWired f x _ (input i nz) w l = with_input-IsWired i f x w (l nz)
Change-IsWired f x _ (output d r at nz) w l = with_output-IsWired d f r x at w (l nz)
Change-IsWired f x _ (output_first own) w l =
    let (ni, no_) = l own in
    record {
      once = w.once;
      apart = λ g nz inside. held-set_first x.outputs f g (w.apart g nz inside) (ground arith);
    }
Change-IsWired f x _ marked w l = record { once = w.once; apart = w.apart }
Change-IsWired f x _ (created start len) w l = record {
  once = NoTwice-nulls max_in;
  apart = λ g nz inside. held-null_rows max_res g nz;
}

pub Change-Lacks : (f g : ℕ) (x y : Actor) → Change f x y → g ≢ f → g ≢ null → Lacks g x → Lacks g y
Change-Lacks f g x _ same ne nz l = l
Change-Lacks f g x _ (input i own) ne nz (ni, no_) = (has-set x.inputs i f g ni ne, no_)
Change-Lacks f g x _ (output d r at own) ne nz (ni, no_) = (
  ni,
  held-set x.outputs d g (node_make_out r f) no_
      (has-node_make_out r f g (held-get x.outputs d g r no_ at) ne),
)
Change-Lacks f g x _ (output_first own) ne nz (ni, no_) = (ni, held-set_first x.outputs f g no_ ne)
Change-Lacks f g x _ marked ne nz l = l
Change-Lacks f g x _ (created start len) ne nz l =
    (has-nulls max_in g nz, held-null_rows max_res g nz)
