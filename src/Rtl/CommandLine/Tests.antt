-- ===== src/Rtl/CommandLine/Tests.antt =====
-- A command line, an environment and a path.
use boron.Prelude.{ℕ, ◌+◌, ◌≡◌, refl, Bool, Option, some, arith, ltb, ◌==◌, ◌||◌, if◌then◌else◌}
use boron.Prelude.Memory.{Memory}
use boron.Prelude.Status.{Bstatus}
use boron.Rtl.Str.Length.{IsString}
use boron.Rtl.CommandLine.{command_line_string_to_description}
use boron.Rtl.CommandLine.Parse.{Described, command_line-Described}
use boron.Rtl.CommandLine.Scan.{IsDescription}

-- "'b' e" at 0, "k", a zero and "m" at 10, and "/v/x" at 20.
abbrev memory : Memory
memory x =
    if x == 0 || x == 2
    then 39
    else if x == 3
    then 32
    else if x == 20 || x == 22
    then 47
    else if x == 1 || x == 4 || x == 10 || x == 12 || x == 21 || x == 23
    then 97 + x
    else 0

line : IsString memory 0 5
line = record { ends = refl; before = λ i lt. ground arith }

path : IsString memory 20 4
path = record { ends = refl; before = λ i lt. ground arith }

environment : IsDescription memory 10 3
environment = record { ends = (refl, refl); before = λ i lt. ground arith }

abbrev alloc : ℕ → Bool
alloc n = ltb n 4096

command_line-Described_example :
    (r : Bstatus × Option Memory) × (command_line_string_to_description 6 alloc (λ x. 255) memory 0
      ≡ some r)
    × Described (alloc (5 + 2)) (λ x. 255) 5 r
command_line-Described_example =
    command_line-Described 6 alloc (λ x. 255) memory 0 5 line (omega arith)
