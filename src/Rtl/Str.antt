-- ===== src/Rtl/Str.antt =====
-- boron/source/rtl/string.c: the C string functions, over byte-addressed memory. A `while` that
-- looks for a terminator takes fuel, and `none` says that the fuel ran out. Of the conditional
-- branches the portable ones are modelled (the file undefines TARGET_AMD64); plain `char` is the
-- signed one of amd64 and i386.
pub mod Copy
pub mod Length
pub mod Compare
pub mod Search
mod Tests
use boron.Prelude.{
  ℕ, zero, suc, ◌+◌, ◌-◌, ◌%◌, Bool, true, false, ◌&&◌, ◌||◌, not, Option, none, some, ltb, leb,
  ◌==◌, if◌then◌else◌,
}
use boron.Prelude.Int.{ℤ, pos, negsuc}
use boron.Prelude.Memory.{Memory, write, ◌>>=◌}

-- while (n--) *dstp++ = *srcp++;
pub copy_up : ℕ → ℕ → ℕ → Memory → Memory
copy_up zero dst src m = m
copy_up (suc n) dst src m = copy_up n (dst + 1) (src + 1) (write m dst (m src))

-- while (n--) *(--dstchr) = *(--srcchr); from `dst + n` and `src + n`
pub copy_down : ℕ → ℕ → ℕ → Memory → Memory
copy_down zero dst src m = m
copy_down (suc n) dst src m = copy_down n dst src (write m (dst + n) (m (src + n)))

pub memcpy : ℕ → ℕ → ℕ → Memory → Memory
unfolding copy_up
memcpy dst src n m = copy_up n dst src m

pub memmove : ℕ → ℕ → ℕ → Memory → Memory
unfolding copy_up copy_down
memmove dst src n m = if leb dst src then copy_up n dst src m else copy_down n dst src m

-- The same loop over a memory of 64-bit words.
pub memquadcpy : ℕ → ℕ → ℕ → Memory → Memory
unfolding copy_up
memquadcpy dst src n m = copy_up n dst src m

-- *dstp++ = c; stores the low byte of the `int`.
pub memset : ℕ → ℕ → ℕ → Memory → Memory
memset dst c zero m = m
memset dst c (suc n) m = memset (dst + 1) c n (write m dst (c % 256))

-- while (*s++) sz++;
pub strlen_loop : ℕ → Memory → ℕ → ℕ → Option ℕ
strlen_loop zero m s sz = none
strlen_loop (suc f) m s sz =
    let rest = strlen_loop f m (s + 1) (sz + 1) in if m s == 0 then some sz else rest

pub strlen : ℕ → Memory → ℕ → Option ℕ
unfolding strlen_loop
strlen f m s = strlen_loop f m s 0

pub strcpy : ℕ → ℕ → ℕ → Memory → Option Memory
strcpy f s d m = strlen f m d >>= λ n. some (memcpy s d (n + 1) m)

-- The loop of `strncpy`, with `left` rounds to go.
pub strncpy_loop : ℕ → ℕ → ℕ → Memory → Memory
strncpy_loop zero dst src m = m
strncpy_loop (suc left) dst src m =
    strncpy_loop left (dst + 1) (if m src == 0 then src else src + 1) (write m dst (m src))

pub strncpy : ℕ → ℕ → ℕ → Memory → Memory
unfolding strncpy_loop
strncpy dst src size_buf m = strncpy_loop size_buf dst src m

-- for (i = 0; i < szBuf && src[i] != '\0'; i++) dst[i] = src[i]; with `left` = szBuf - i
pub string_copy_loop : ℕ → ℕ → ℕ → ℕ → Memory → ℕ × Memory
string_copy_loop zero dst src i m = (i, m)
string_copy_loop (suc left) dst src i m =
    let rest = string_copy_loop left dst src (i + 1) (write m (dst + i) (m (src + i))) in
    if m (src + i) == 0 then (i, m) else rest

-- `StringCopySafe`: `none` is the NULL that it returns for a buffer of no size.
pub string_copy_safe : ℕ → ℕ → ℕ → Memory → Option ℕ × Memory
unfolding string_copy_loop
string_copy_safe dst src size_buf m =
    if size_buf == 0
    then (none, m)
    else let (i, copied) = string_copy_loop size_buf dst src 0 m in
      if i == size_buf
      then (some dst, write copied (dst + (size_buf - 1)) 0)
      else (some dst, write copied (dst + i) (copied (src + i)))

pub strcat : ℕ → ℕ → ℕ → Memory → Option Memory
strcat f s src m = strlen f m s >>= λ n. strcpy f (s + n) src m

pub memcmp : Memory → ℕ → ℕ → ℕ → ℤ
memcmp m b1 b2 zero = pos 0
memcmp m b1 b2 (suc n) =
    let rest = memcmp m (b1 + 1) (b2 + 1) n in
    if ltb (m b1) (m b2) then negsuc 0 else if ltb (m b2) (m b1) then pos 1 else rest

-- `a < b` on plain `char`, of bytes: the signed order.
abbrev pub char_ltb : ℕ → ℕ → Bool
char_ltb a b = ltb ((a + 128) % 256) ((b + 128) % 256)

pub strcmp : ℕ → Memory → ℕ → ℕ → Option ℤ
strcmp zero m s1 s2 = none
strcmp (suc f) m s1 s2 =
    let rest = strcmp f m (s1 + 1) (s2 + 1) in
    if m s1 == 0 && m s2 == 0
    then some (pos 0)
    else if char_ltb (m s1) (m s2)
    then some (negsuc 0)
    else if char_ltb (m s2) (m s1)
    then some (pos 1)
    else rest

pub strncmp : Memory → ℕ → ℕ → ℕ → ℤ
strncmp m s1 s2 zero = pos 0
strncmp m s1 s2 (suc len) =
    let rest = strncmp m (s1 + 1) (s2 + 1) len in
    if not (m s1 == m s2)
    then if char_ltb (m s1) (m s2) then negsuc 0 else pos 1
    else if m s1 == 0
    then pos 0
    else rest

-- The inner `none` is the NULL of a character that is not there. `c` is a `char` value.
pub strchr : ℕ → Memory → ℕ → ℕ → Option (Option ℕ)
strchr zero m str c = none
strchr (suc f) m str c =
    let rest = strchr f m (str + 1) c in
    if m str == 0 then some none else if m str == c then some (some str) else rest

abbrev pub is_zero : ℤ → Bool
is_zero (pos n) = n == 0
is_zero (negsuc n) = false

-- The loop of `strstr` at `haystack + i`; `fuel` bounds the calls of `strlen` too.
pub strstr_loop : ℕ → ℕ → Memory → ℕ → ℕ → Option (Option ℕ)
strstr_loop zero fuel m haystack needle = none
strstr_loop (suc f) fuel m haystack needle =
    let rest = strstr_loop f fuel m (haystack + 1) needle in
    if m haystack == 0
    then some none
    else strlen fuel m needle >>= λ n.
        if is_zero (strncmp m haystack needle n) then some (some haystack) else rest

pub strstr : ℕ → Memory → ℕ → ℕ → Option (Option ℕ)
unfolding strstr_loop
strstr f m haystack needle = strstr_loop f f m haystack needle

-- if (Ch >= 'a' && Ch <= 'z') Ch = Ch - 'a' + 'A';
pub upper_case : ℕ → ℕ
upper_case ch = if leb b'a' ch && leb ch b'z' then ch - b'a' + b'A' else ch

pub string_matches_case_insensitive : Memory → ℕ → ℕ → ℕ → Bool
string_matches_case_insensitive m string1 string2 zero = true
string_matches_case_insensitive m string1 string2 (suc len) =
    let rest = string_matches_case_insensitive m (string1 + 1) (string2 + 1) len in
    if not (upper_case (m string1) == upper_case (m string2)) then false else rest

-- for (i = 0; i + NeedleLength <= HaystackLength; i++), with `left` rounds to go
pub string_contains_loop : ℕ → Memory → ℕ → ℕ → ℕ → Bool
string_contains_loop zero m at needle needle_length = false
string_contains_loop (suc left) m at needle needle_length =
    let rest = string_contains_loop left m (at + 1) needle needle_length in
    if string_matches_case_insensitive m at needle needle_length then true else rest

pub string_contains_case_insensitive : ℕ → Memory → ℕ → ℕ → Option Bool
unfolding string_contains_loop
string_contains_case_insensitive f m haystack needle = strlen f m needle >>= λ n.
    strlen f m haystack >>= λ h. some (string_contains_loop (h + 1 - n) m haystack needle n)
