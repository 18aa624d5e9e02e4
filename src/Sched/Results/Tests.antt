-- ===== src/Sched/Results/Tests.antt =====
-- An actor with five results.
use venus_scheduler.Prelude.{
  ℕ, ◌+◌, ◌*◌, ◌<◌, ◌≡◌, ◌==◌, List, [], ◌∷◌, length, get_or, if◌then◌else◌,
}
use venus_scheduler.Sched.Results.{Addresses, Request, alloc_result}
use venus_scheduler.Sched.Results.Requests.{alloc_result_lem}

abbrev addrs : ℕ → Addresses
addrs i = record { alloc_addr = 1000 + i; datum = 2000 + i; token = 3000 + i }

abbrev outs : List (List ℕ)
outs = (5 ∷ 6 ∷ []) ∷ (7 ∷ []) ∷ (8 ∷ []) ∷ (9 ∷ 10 ∷ 11 ∷ []) ∷ (12 ∷ []) ∷ []

abbrev missing : Request
missing = record { dst = 0; src = 0; len = 0; block = 0; token = 0; datum = 0; cnt = 0; attr = 0 }

alloc_result_lem_example :
    (length (alloc_result addrs 500 outs) ≡ 4)
    × ((i : ℕ)
        → i < 4
        → get_or (alloc_result addrs 500 outs) i missing ≡ record {
          dst = 1000 + i;
          src = 0x30 + i * 0x10;
          len = 0x38 + i * 0x10;
          block = if i + 1 == 4 then 500 else 0;
          token = 3000 + i;
          datum = 2000 + i;
          cnt = length (get_or outs i []);
          attr = 0;
        })
alloc_result_lem_example = alloc_result_lem addrs 500 outs missing
