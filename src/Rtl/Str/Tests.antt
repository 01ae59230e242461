-- ===== src/Rtl/Str/Tests.antt =====
-- The string routines on a concrete memory.
use boron.Prelude.{ℕ, ◌+◌, ◌%◌, ◌≡◌, refl, arith, Option, some, ltb, ◌==◌, ◌||◌, if◌then◌else◌}
use boron.Prelude.Memory.{Memory}
use boron.Rtl.Str.{memmove, strstr}
use boron.Rtl.Str.Copy.{copied, memmove-copied}
use boron.Rtl.Str.Length.{IsString}
use boron.Rtl.Str.Compare.{IsBytes}
use boron.Rtl.Str.Search.{FirstMatch, strstr-FirstMatch}

-- "ABAB" at 0, "AB" at 5 and "ab" at 8.
abbrev memory : Memory
memory x =
    if ltb x 4
    then 65 + x % 2
    else if x == 5 || x == 6
    then 60 + x
    else if x == 8 || x == 9
    then 89 + x
    else 0

long : IsString memory 0 4
long = record { ends = refl; before = λ i lt. ground arith }

short : IsString memory 5 2
short = record { ends = refl; before = λ i lt. ground arith }

lower : IsString memory 8 2
lower = record { ends = refl; before = λ i lt. ground arith }

memory-IsBytes : IsBytes memory
memory-IsBytes x = ground arith

memmove-copied_example : memmove 2 0 4 memory 3 ≡ copied 2 0 4 memory 3
memmove-copied_example = memmove-copied 2 0 4 memory 3

strstr-FirstMatch_example :
    (r : Option ℕ) × (strstr 9 memory 0 5 ≡ some r) × FirstMatch memory 0 5 2 4 r
strstr-FirstMatch_example =
    strstr-FirstMatch 9 memory 0 5 4 2 long short (omega arith) (omega arith)
