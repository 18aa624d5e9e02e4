-- ===== src/Ulib.antt =====
-- src/ulib.c: strings and memory. A memory gives the byte at each address, below 256, a `char` is a
-- byte (unsigned, as on RISC-V), and an `int` that a function returns is a number modulo 2^32. The
-- loops over a string run on fuel: they go on up to its terminating 0, wherever that is. Addresses
-- do not wrap.
pub mod Move
pub mod Compare
pub mod Strings
mod Tests
use venus_scheduler.Prelude.{
  ℕ, zero, suc, ◌+◌, ◌-◌, ◌*◌, ◌%◌, ◌<◌, ◌≤◌, ◌≡◌, ◌&&◌, not, Option, none, some, ◌==◌,
  if◌then◌else◌, update, ltb, leb,
}

abbrev pub word_size : ℕ
word_size = 0x100000000

-- `dest` and `src` after the copied bytes are dropped: the result is the first `dest`.
pub strcpy : ℕ → (ℕ → ℕ) → ℕ → ℕ → Option (ℕ → ℕ)
strcpy zero mem dest src = none
strcpy (suc fuel) mem dest src =
    let copied = update mem dest (mem src) in
    let rest = strcpy fuel copied (dest + 1) (src + 1) in if mem src == 0 then some copied else rest

pub strcmp : ℕ → (ℕ → ℕ) → ℕ → ℕ → Option ℕ
strcmp zero mem p q = none
strcmp (suc fuel) mem p q =
    let rest = strcmp fuel mem (p + 1) (q + 1) in
    if not (mem p == 0) && (mem p == mem q)
    then rest
    else some ((mem p + word_size - mem q) % word_size)

pub strlen_loop : ℕ → (ℕ → ℕ) → ℕ → ℕ → Option ℕ
strlen_loop zero mem s n = none
strlen_loop (suc fuel) mem s n =
    let rest = strlen_loop fuel mem s (n + 1) in if mem (s + n) == 0 then some n else rest

pub strlen : ℕ → (ℕ → ℕ) → ℕ → Option ℕ
strlen fuel mem s = strlen_loop fuel mem s 0

pub memset_loop : ℕ → (ℕ → ℕ) → ℕ → ℕ → ℕ → ℕ
memset_loop zero mem dst c = mem
memset_loop (suc n) mem dst c = memset_loop n (update mem dst (c % 256)) (dst + 1) c

pub memset : (ℕ → ℕ) → ℕ → ℕ → ℕ → ℕ → ℕ
memset mem dst c n = memset_loop n mem dst c

-- The address of the first `c`, 0 if the string has none.
pub strchr : ℕ → (ℕ → ℕ) → ℕ → ℕ → Option ℕ
strchr zero mem s c = none
strchr (suc fuel) mem s c =
    let rest = strchr fuel mem (s + 1) c in
    if mem s == 0 then some 0 else if mem s == c then some s else rest

unfoldable pub atoi_loop : ℕ → (ℕ → ℕ) → ℕ → ℕ → Option ℕ
atoi_loop zero mem s n = none
atoi_loop (suc fuel) mem s n =
    let rest = atoi_loop fuel mem (s + 1) ((n * 10 + mem s - 48) % word_size) in
    if leb 48 (mem s) && leb (mem s) 57 then rest else some n

unfoldable pub atoi : ℕ → (ℕ → ℕ) → ℕ → Option ℕ
atoi fuel mem s = atoi_loop fuel mem s 0

-- The two loops of `memmove`. Upwards `dst` and `src` are the next bytes, downwards the ends of
-- what is left.
pub move_up : ℕ → (ℕ → ℕ) → ℕ → ℕ → ℕ → ℕ
move_up zero mem dst src = mem
move_up (suc n) mem dst src = move_up n (update mem dst (mem src)) (dst + 1) (src + 1)

pub move_down : ℕ → (ℕ → ℕ) → ℕ → ℕ → ℕ → ℕ
move_down zero mem dst src = mem
move_down (suc n) mem dst src =
    move_down n (update mem (dst - 1) (mem (src - 1))) (dst - 1) (src - 1)

pub memmove : (ℕ → ℕ) → ℕ → ℕ → ℕ → ℕ → ℕ
memmove mem vdst vsrc n =
    if ltb vdst vsrc then move_up n mem vdst vsrc else move_down n mem (vdst + n) (vsrc + n)

pub memcmp : ℕ → (ℕ → ℕ) → ℕ → ℕ → ℕ
memcmp zero mem s1 s2 = 0
memcmp (suc n) mem s1 s2 =
    let rest = memcmp n mem (s1 + 1) (s2 + 1) in
    if not (mem s1 == mem s2) then (mem s1 + word_size - mem s2) % word_size else rest

pub memcpy : (ℕ → ℕ) → ℕ → ℕ → ℕ → ℕ → ℕ
memcpy mem dst src n = memmove mem dst src n
