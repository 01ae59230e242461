-- ===== src/Rtl/Str/Copy.antt =====
-- The block copies and `StringCopySafe`.
use boron.Prelude.{
  ℕ, zero, suc, ◌+◌, ◌-◌, ◌%◌, ◌≤◌, ◌<◌, min, ◌≡◌, ◌⊎◌, subst, some, arith, ltb, leb, ◌==◌, ◌&&◌,
  if◌then◌else◌,
}
use boron.Prelude.Memory.{Memory, write}
use boron.Rtl.Str.Length.{IsString, IsString-write, IsString-next}
use boron.Rtl.Str.{copy_up, copy_down, memcpy, memmove, memset, string_copy_loop, string_copy_safe}

-- What a copy of `n` bytes from `src` to `dst` leaves at `x`, read from the memory before it.
abbrev pub copied : ℕ → ℕ → ℕ → Memory → ℕ → ℕ
copied dst src n m x = if leb dst x && ltb x (dst + n) then m (src + (x - dst)) else m x

pub copy_up-copied :
    (n dst src : ℕ) (m : Memory) (x : ℕ)
    → (dst ≤ src) ⊎ (src + n ≤ dst)
    → copy_up n dst src m x ≡ copied dst src n m x
unfolding copy_up
copy_up-copied zero dst src m x h = ground arith
copy_up-copied (suc n) dst src m x h =
    ground (arith, copy_up-copied n (dst + 1) (src + 1) (write m dst (m src)) x)

pub copy_down-copied :
    (n dst src : ℕ) (m : Memory) (x : ℕ)
    → src ≤ dst
    → copy_down n dst src m x ≡ copied dst src n m x
unfolding copy_down
copy_down-copied zero dst src m x h = ground arith
copy_down-copied (suc n) dst src m x h =
    ground (arith, copy_down-copied n dst src (write m (dst + n) (m (src + n))) x h)

-- `memmove` leaves in the destination what the source held before the call and changes no other
-- byte, also where the two blocks overlap.
pub memmove-copied :
    (dst src n : ℕ) (m : Memory) (x : ℕ) → memmove dst src n m x ≡ copied dst src n m x
unfolding memmove
memmove-copied dst src n m x =
    ground (arith, copy_up-copied n dst src m x, copy_down-copied n dst src m x)

-- `memcpy` does the same when the blocks are disjoint, or when the destination starts below the source.
pub memcpy-copied :
    (dst src n : ℕ) (m : Memory) (x : ℕ)
    → (dst ≤ src) ⊎ (src + n ≤ dst)
    → memcpy dst src n m x ≡ copied dst src n m x
unfolding memcpy
memcpy-copied dst src n m x h = copy_up-copied n dst src m x h

-- `memset` stores the low byte of `c` in the `n` bytes from `dst` on and changes no other byte.
pub memset_lem :
    (dst c n : ℕ) (m : Memory) (x : ℕ)
    → memset dst c n m x ≡ (if leb dst x && ltb x (dst + n) then c % 256 else m x)
unfolding memset
memset_lem dst c zero m x = ground arith
memset_lem dst c (suc n) m x = ground (arith, memset_lem (dst + 1) c n (write m dst (c % 256)) x)

-- The loop of `StringCopySafe` over the rest of a string of `k` characters, `left` of which fit.
string_copy_loop_lem :
    (left dst src i k : ℕ) (m : Memory)
    → IsString m (src + i) k
    → (dst + left ≤ src) ⊎ (src + k < dst)
    → (λ (r : ℕ × Memory).
          (r.0 ≡ i + min left k) × ((x : ℕ) → r.1 x ≡ copied (dst + i) (src + i) (min left k) m x))
        (string_copy_loop left dst src i m)
unfolding string_copy_loop
string_copy_loop_lem zero dst src i k m s h = (omega arith, λ x. ground arith)
string_copy_loop_lem (suc left) dst src i zero m s h =
    (ground (arith, s.ends), λ x. ground (arith, s.ends))
string_copy_loop_lem (suc left) dst src i (suc k) m s h =
    let m' = write m (dst + i) (m (src + i)) in
    let is : IsString m' (src + (i + 1)) k =
      subst (λ a. IsString m' a k) (omega arith)
        (IsString-next m' (src + i) k
          (IsString-write m (src + i) (suc k) (dst + i) (m (src + i)) (omega arith) s)) in
    let ih = string_copy_loop_lem left dst src (i + 1) k m' is (omega arith) in
    (ground (arith, s.before 0, ih.0), λ x. ground (arith, s.before 0, ih.1 x))

-- `StringCopySafe` of a string of `len` characters into a disjoint buffer that is not empty returns
-- the buffer, keeps the first `size_buf - 1` characters at most, ends them by a zero, and changes
-- no other byte.
pub string_copy_safe_lem :
    (dst src size_buf len : ℕ) (m : Memory)
    → IsString m src len
    → 0 < size_buf
    → (dst + size_buf ≤ src) ⊎ (src + len < dst)
    → ((string_copy_safe dst src size_buf m).0 ≡ some dst)
      × ((x : ℕ)
          → (string_copy_safe dst src size_buf m).1 x ≡ (
              if x == dst + min len (size_buf - 1)
              then 0
              else copied dst src (min len (size_buf - 1)) m x))
unfolding string_copy_safe
string_copy_safe_lem dst src size_buf len m is pos apart =
    let loop =
      string_copy_loop_lem size_buf dst src 0 len m (subst (λ a. IsString m a len) (omega arith) is)
        apart in
    (ground (arith, loop.0), λ x. ground (arith, is.ends, loop.0, loop.1 x, loop.1 (src + len)))
