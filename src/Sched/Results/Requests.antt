-- ===== src/Sched/Results/Requests.antt =====
-- Which transfers `alloc_result` asks for.
use venus_scheduler.Prelude.{
  ℕ, zero, suc, ◌+◌, ◌*◌, ◌<◌, ◌≡◌, refl, false, List, [], ◌∷◌, arith, ◌==◌, ltb, length, ap,
  if◌then◌else◌, get_or, ◌∙◌,
}
use venus_scheduler.Sched.Results.{
  Addresses, Request, request, block_if_end, block_ret_num, static_results, dynamic_results,
  alloc_result,
}

-- The results of the actor that the block has.
abbrev pub take : ℕ → List (List ℕ) → List (List ℕ)
take zero rs = []
take (suc n) [] = []
take (suc n) (r ∷ rs) = r ∷ take n rs

-- The requests that these results want: a count for each successor, and the block with the last.
abbrev wanted : (ℕ → Addresses) → (i block : ℕ) → List (List ℕ) → List Request
wanted addrs i block [] = []
wanted addrs i block (r ∷ rs) =
    request addrs i r (block_if_end block rs) ∷ wanted addrs (i + 1) block rs

static_results-wanted :
    (addrs : ℕ → Addresses) (i block : ℕ) (rs : List (List ℕ))
    → static_results addrs i block rs ≡ wanted addrs i block rs
unfolding static_results
static_results-wanted addrs i block [] = refl
static_results-wanted addrs i block (r ∷ rs) =
    ap (λ l. request addrs i r (block_if_end block rs) ∷ l)
      (static_results-wanted addrs (i + 1) block rs)

alloc_result-wanted :
    (addrs : ℕ → Addresses) (block : ℕ) (outs : List (List ℕ))
    → alloc_result addrs block outs ≡ wanted addrs 0 block (take block_ret_num outs)
unfolding alloc_result dynamic_results
alloc_result-wanted addrs block [] = static_results-wanted addrs 0 block []
alloc_result-wanted addrs block (a ∷ []) = static_results-wanted addrs 0 block (a ∷ [])
alloc_result-wanted addrs block (a ∷ b ∷ []) = static_results-wanted addrs 0 block (a ∷ b ∷ [])
alloc_result-wanted addrs block (a ∷ b ∷ c ∷ []) =
    static_results-wanted addrs 0 block (a ∷ b ∷ c ∷ [])
alloc_result-wanted addrs block (a ∷ b ∷ c ∷ d ∷ []) =
    static_results-wanted addrs 0 block (a ∷ b ∷ c ∷ d ∷ [])
alloc_result-wanted addrs block (a ∷ b ∷ c ∷ d ∷ e ∷ rs) =
    let many : ltb (length (a ∷ b ∷ c ∷ d ∷ e ∷ rs)) block_ret_num ≡ false = ground arith in
    let differ : (block_ret_num == length (a ∷ b ∷ c ∷ d ∷ e ∷ rs)) ≡ false = ground arith in
    rw (many, differ) refl

-- How many results are brought back.
abbrev pub brought : List (List ℕ) → ℕ
brought outs = if ltb (length outs) 4 then length outs else 4

length-wanted :
    (addrs : ℕ → Addresses) (i block : ℕ) (rs : List (List ℕ))
    → length (wanted addrs i block rs) ≡ length rs
length-wanted addrs i block [] = refl
length-wanted addrs i block (r ∷ rs) = ap suc (length-wanted addrs (i + 1) block rs)

length-take :
    (n : ℕ) (rs : List (List ℕ)) → length (take n rs) ≡ (if ltb (length rs) n then length rs else n)
length-take zero rs = ground arith
length-take (suc n) [] = ground arith
length-take (suc n) (r ∷ rs) = ground (arith, length-take n rs)

get_or-take : (n k : ℕ) (rs : List (List ℕ)) → k < n → get_or (take n rs) k [] ≡ get_or rs k []
get_or-take zero k rs lt = absurd (omega arith)
get_or-take (suc n) k [] lt = refl
get_or-take (suc n) zero (r ∷ rs) lt = refl
get_or-take (suc n) (suc k) (r ∷ rs) lt = get_or-take n k rs (omega arith)

get_or-wanted :
    (addrs : ℕ → Addresses) (i block : ℕ) (rs : List (List ℕ)) (k : ℕ) (missing : Request)
    → k < length rs
    → get_or (wanted addrs i block rs) k missing ≡ record {
      dst = (addrs (i + k)).alloc_addr;
      src = 0x30 + (i + k) * 0x10;
      len = 0x38 + (i + k) * 0x10;
      block = if k + 1 == length rs then block else 0;
      token = (addrs (i + k)).token;
      datum = (addrs (i + k)).datum;
      cnt = length (get_or rs k []);
      attr = 0;
    }
unfolding request
get_or-wanted addrs i block [] k missing lt = absurd (omega arith)
get_or-wanted addrs i block (r ∷ []) zero missing lt =
    let here : i + 0 ≡ i = omega arith in rw here refl
get_or-wanted addrs i block (r ∷ r' ∷ rs) zero missing lt =
    let here : i + 0 ≡ i = omega arith in
    let more : (0 + 1 == length (r ∷ r' ∷ rs)) ≡ false = ground arith in rw (here, more) refl
get_or-wanted addrs i block (r ∷ rs) (suc k) missing lt =
    let at : i + 1 + k ≡ i + suc k = omega arith in
    let same : (k + 1 == length rs) ≡ (suc k + 1 == suc (length rs)) = ground arith in
    rw (← at, ← same) (get_or-wanted addrs (i + 1) block rs k missing (omega arith))

-- The actor's first four results are brought back, and no other. For result `i` the transfer goes
-- from 0x30 + i * 0x10 to the place allocated for it, with 0x38 + i * 0x10 as its length and the
-- token and datum allocated for it; the token has the attribute of a scalar and the datum the number
-- of successors of the result as its count. The last of these transfers, and it alone, carries the
-- block.
pub alloc_result_lem :
    (addrs : ℕ → Addresses) (block : ℕ) (outs : List (List ℕ)) (missing : Request)
    → (length (alloc_result addrs block outs) ≡ brought outs)
      × ((i : ℕ)
          → i < brought outs
          → get_or (alloc_result addrs block outs) i missing ≡ record {
            dst = (addrs i).alloc_addr;
            src = 0x30 + i * 0x10;
            len = 0x38 + i * 0x10;
            block = if i + 1 == brought outs then block else 0;
            token = (addrs i).token;
            datum = (addrs i).datum;
            cnt = length (get_or outs i []);
            attr = 0;
          })
alloc_result_lem addrs block outs missing =
    let all_results = alloc_result-wanted addrs block outs in
    let count : length (take 4 outs) ≡ brought outs = length-take 4 outs in
    (
      rw all_results (length-wanted addrs 0 block (take 4 outs) ∙ count),
      λ i lt.
          let here : 0 + i ≡ i = omega arith in
          let within : i < 4 = ground arith in
          rw (all_results, ← count, ← get_or-take 4 i outs within)
            (rw here at (get_or-wanted addrs 0 block (take 4 outs) i missing (rw count lt))),
    )
