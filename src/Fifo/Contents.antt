-- ===== src/Fifo/Contents.antt =====
-- What a fifo holds, and how each function of src/fifo.c changes it.
use venus_scheduler.Prelude.{
  ℕ, zero, suc, ◌+◌, ◌-◌, ◌%◌, ◌<◌, ◌≡◌, refl, ap, ◌∙◌, ◌≢◌, ◌↔◌, inl, inr, true, false, ◌&&◌, List,
  [], ◌∷◌, ◌++◌, arith, ◌==◌, ltb, if◌then◌else◌, update, length, Bool-cases, get_or, sym,
}
use mathlib.Core.List.{tail}
use venus_scheduler.Fifo.{
  max_fifo, null, Fifo, fifo_size, fifo_full, fifo_empty, put_token, get_token, read_token,
  read_else_token,
}

-- Both pointers index the array.
pub record IsValid (f : Fifo) : Type 0 where
  pub wptr_in : f.wptr < max_fifo
  pub rptr_in : f.rptr < max_fifo

-- The number of tokens between the pointers, going round the array.
abbrev pub occupancy : Fifo → ℕ
occupancy f = (f.wptr + max_fifo - f.rptr) % max_fifo

-- The `n` tokens from index `h` on.
abbrev pub window : (ℕ → ℕ) → ℕ → ℕ → List ℕ
window token h zero = []
window token h (suc n) = token h ∷ window token ((h + 1) % max_fifo) n

abbrev pub contents : Fifo → List ℕ
contents f = window f.token f.rptr (occupancy f)

abbrev pub head_or : ℕ → List ℕ → ℕ
head_or d [] = d
head_or d (x ∷ _) = x

pub length-window : (token : ℕ → ℕ) (n h : ℕ) → length (window token h n) ≡ n
length-window token zero h = refl
length-window token (suc n) h = ap suc (length-window token n ((h + 1) % max_fifo))

pub length-contents : (f : Fifo) → length (contents f) ≡ occupancy f
length-contents f = length-window f.token (occupancy f) f.rptr

-- A write past the window puts the token behind it.
window-update :
    (token : ℕ → ℕ) (t n h w : ℕ)
    → h < max_fifo
    → n < max_fifo
    → w ≡ (h + n) % max_fifo
    → window (update token w t) h (suc n) ≡ window token h n ++ (t ∷ [])
window-update token t zero h w hh hn e = ground arith
window-update token t (suc n) h w hh hn e = ground (
  arith,
  window-update token t n ((h + 1) % max_fifo) w (omega arith) (omega arith) (omega arith),
)

window_of_pos :
    (token : ℕ → ℕ) (n h : ℕ)
    → n ≢ 0
    → window token h n ≡ token h ∷ window token ((h + 1) % max_fifo) (n - 1)
window_of_pos token zero h p = absurd (p refl)
window_of_pos token (suc n) h p = ap (λ k. window token h (suc k)) (omega arith)

get_or-window :
    (token : ℕ → ℕ) (n h i : ℕ)
    → h < max_fifo
    → i < n
    → get_or (window token h n) i null ≡ token ((h + i) % max_fifo)
get_or-window token zero h i hh lt = absurd (omega arith)
get_or-window token (suc n) h zero hh lt = ap token (omega arith)
get_or-window token (suc n) h (suc i) hh lt =
    get_or-window token n ((h + 1) % max_fifo) i (omega arith) (omega arith)
    ∙ ap token (omega arith)

module _ {f : Fifo} (v : IsValid f) where
  -- The size that the code computes is the occupancy while the writer is ahead of the reader, and
  -- 247 more once it has gone round.
  pub fifo_size_lem : fifo_size f ≡ (if ltb f.wptr f.rptr then occupancy f + 247 else occupancy f)
  unfolding fifo_size
  fifo_size_lem = ground arith

  -- For a valid fifo `fifo_full` holds exactly if MAX_BUFFER tokens are held and the reader is at
  -- index 0.
  pub fifo_full_iff : (fifo_full f ≡ true) ↔ ((occupancy f ≡ max_fifo - 1) × (f.rptr ≡ 0))
  unfolding fifo_full
  fifo_full_iff = ground arith

  contents-nil : (f.wptr == f.rptr) ≡ true → contents f ≡ []
  contents-nil e = ap (window f.token f.rptr) none_left
    where
      none_left : occupancy f ≡ 0
      none_left = ground arith

  pub fifo_empty_iff : (fifo_empty f ≡ true) ↔ (contents f ≡ [])
  unfolding fifo_empty
  fifo_empty_iff = ground (arith, window_of_pos f.token (occupancy f) f.rptr, contents-nil)

  pub fifo_empty-length : fifo_empty f ≡ (length (contents f) == 0)
  unfolding fifo_empty
  fifo_empty-length = rw (length-contents f) (ground (arith, v.wptr_in, v.rptr_in))

  pub fifo_full-length : fifo_full f ≡ ((length (contents f) == max_fifo - 1) && (f.rptr == 0))
  unfolding fifo_full
  fifo_full-length = rw (length-contents f) (ground (arith, v.wptr_in, v.rptr_in))

  pub put_token-IsValid : (t : ℕ) → IsValid (put_token f t)
  unfolding put_token
  put_token-IsValid t = ground arith

  pub get_token-IsValid : IsValid (get_token f).1
  unfolding get_token
  get_token-IsValid = ground arith

  -- In a valid fifo, which has both pointers below MAXFIFO, a token is appended if fewer than
  -- MAX_BUFFER are held. At MAX_BUFFER it is refused only if the reader is at index 0; at any other
  -- index the writer meets the reader and the fifo is emptied.
  pub contents-put_token :
      (t : ℕ)
      → contents (put_token f t) ≡ (
          if occupancy f == max_fifo - 1
          then (if f.rptr == 0 then contents f else [])
          else contents f ++ (t ∷ []))
  unfolding put_token
  contents-put_token t = elim (Bool-cases (occupancy f == max_fifo - 1)) [
    | inl last ↦ ground (arith, ap (window (update f.token f.wptr t) f.rptr) (wrapped last))
    | inr room ↦ ground (
      arith,
      window-update f.token t (occupancy f) f.rptr f.wptr,
      ap (window (update f.token f.wptr t) f.rptr) (grown room),
    )
  ]
    where
      wrapped :
          (occupancy f == max_fifo - 1) ≡ true
          → ((f.wptr + 1) % max_fifo + max_fifo - f.rptr) % max_fifo ≡ 0
      wrapped last = ground arith

      grown :
          (occupancy f == max_fifo - 1) ≡ false
          → ((f.wptr + 1) % max_fifo + max_fifo - f.rptr) % max_fifo ≡ suc (occupancy f)
      grown room = ground arith

  -- From a valid fifo the oldest token comes out, NULL if there is none, and the others stay in
  -- order.
  pub get_token_lem :
      ((get_token f).0 ≡ head_or null (contents f)) × (contents (get_token f).1 ≡ tail (contents f))
  unfolding get_token
  get_token_lem = elim (Bool-cases (f.wptr == f.rptr)) [
    | inl none_left ↦ ground (arith, contents-nil none_left)
    | inr some_left ↦ ground (
      arith,
      window_of_pos f.token (occupancy f) f.rptr,
      ap (window f.token ((f.rptr + 1) % max_fifo)) (shrunk some_left),
    )
  ]
    where
      shrunk :
          (f.wptr == f.rptr) ≡ false
          → (f.wptr + max_fifo - (f.rptr + 1) % max_fifo) % max_fifo ≡ occupancy f - 1
      shrunk e = ground arith

  pub read_token_lem : read_token f ≡ head_or null (contents f)
  unfolding read_token
  read_token_lem = elim (Bool-cases (f.rptr == f.wptr)) [
    | inl none_left ↦ ground (arith, contents-nil (ground arith))
    | inr some_left ↦ ground (arith, window_of_pos f.token (occupancy f) f.rptr)
  ]

  -- `read_else_token` gives the token `dist` places behind the oldest of a valid fifo, if it holds
  -- more than `dist`.
  pub read_else_token_lem :
      (dist : ℕ) → dist < occupancy f → read_else_token f dist ≡ get_or (contents f) dist null
  unfolding read_else_token
  read_else_token_lem dist h = elim (Bool-cases (f.rptr == f.wptr)) [
    | inl none_left ↦ absurd (ground arith)
    | inr some_left ↦
        rw some_left (sym (get_or-window f.token (occupancy f) f.rptr dist v.rptr_in h))
  ]

  -- Taking a token from a fifo that holds one leaves fewer.
  pub occupancy-get_token : fifo_empty f ≡ false → occupancy (get_token f).1 < occupancy f
  unfolding get_token fifo_empty
  occupancy-get_token some_left = ground arith
