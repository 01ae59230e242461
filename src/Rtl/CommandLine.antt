-- ===== src/Rtl/CommandLine.antt =====
-- boron/source/rtl/cmdline.c: command lines and environments as strings of strings. A loop takes a
-- number of rounds, and `none` is a loop that has used it up. The description that the parser
-- allocates is a memory of its own, from 0 on; `alloc` says whether that many bytes can be had.
pub mod Parse
pub mod Scan
mod Tests
use boron.Prelude.{
  ℕ, zero, suc, ◌+◌, Bool, true, false, ◌&&◌, ◌||◌, not, Option, none, some, ◌==◌, if◌then◌else◌,
}
use boron.Prelude.Memory.{Memory, write}
use boron.Prelude.Status.{Bstatus, success, insufficient_memory, invalid_parameter}
use boron.Rtl.Str.{strlen}

-- `RtlEnvironmentLength`, with the length counted so far.
pub environment_length_loop : ℕ → Memory → ℕ → ℕ → Option ℕ
environment_length_loop zero m description length = none
environment_length_loop (suc f) m description length =
    let rest = environment_length_loop f m (description + 1) (length + 1) in
    if not (m description == 0) || not (m (description + 1) == 0) then rest else some length

pub environment_length : ℕ → Memory → ℕ → Option ℕ
environment_length f m description = environment_length_loop f m description 2

-- `RtlEnvironmentCount`: where `inside` is true the inner loop runs.
pub environment_count_loop : ℕ → Memory → ℕ → ℕ → Bool → Option ℕ
environment_count_loop zero m description count inside = none
environment_count_loop (suc f) m description count true =
    let data_left = environment_count_loop f m (description + 1) count true in
    let after = environment_count_loop f m (description + 1) (count + 1) false in
    if not (m description == 0) then data_left else after
environment_count_loop (suc f) m description count false =
    let entry = environment_count_loop f m description count true in
    if not (m description == 0) then entry else some count

pub environment_count : ℕ → Memory → ℕ → Option ℕ
environment_count f m description = environment_count_loop f m description 0 false

-- `RtlGetFileNameFromPath`, with the file name found so far.
pub file_name_loop : ℕ → Memory → ℕ → ℕ → Option ℕ
file_name_loop zero m path file_name = none
file_name_loop (suc f) m path file_name =
    let rest = λ (found : ℕ). file_name_loop f m (path + 1) found in
    if m path == 0
    then some file_name
    else rest (if m path == 0x2f && not (m (path + 1) == 0) then path + 1 else file_name)

pub get_file_name_from_path : ℕ → Memory → ℕ → Option ℕ
get_file_name_from_path f m path = file_name_loop f m path path

-- The loop of `RtlCommandLineStringToDescription` inside of quotes.
pub quoted_loop : ℕ → Memory → ℕ → ℕ → ℕ → Memory → Option (ℕ × ℕ × Memory)
quoted_loop zero m mark string index description = none
quoted_loop (suc f) m mark string index description =
    let rest = quoted_loop f m mark (string + 1) (index + 1) (write description index (m string)) in
    if m string == 0 || m string == mark then some (string, index, description) else rest

-- A round of its main loop; the next rounds are `again`, and `quoted` is the loop inside of quotes.
-- The result is the status, `Index` and the description.
pub parse_round :
    (ℕ → ℕ → Memory → Option (Bstatus × ℕ × Memory))
    → Option (ℕ × ℕ × Memory)
    → Memory
    → ℕ
    → ℕ
    → Memory
    → Option (Bstatus × ℕ × Memory)
parse_round again quoted m string index description =
    if m string == 0
    then some (success, index, description)
    else if m string == 0x20
    then again (string + 1) (index + 1) (write description index 0)
    else if m string == 0x5c
    then if m (string + 1) == 0
      then some (invalid_parameter, index, description)
      else again (string + 2) (index + 1) (write description index (m (string + 1)))
    else if m string == 0x22 || m string == 0x27
    then elim quoted [
      | none ↦ none
      | some (string', index', description') ↦
          if m string' == 0
          then some (invalid_parameter, index', description')
          else again (string' + 1) index' description'
    ]
    else again (string + 1) (index + 1) (write description index (m string))

pub parse_loop : ℕ → Memory → ℕ → ℕ → Memory → Option (Bstatus × ℕ × Memory)
unfolding parse_round quoted_loop
parse_loop zero m string index description = none
parse_loop (suc f) m string index description =
    let again = parse_loop f m in
    parse_round again (quoted_loop f m (m string) (string + 1) index description) m string index
      description

-- The two zeros at the end.
pub terminate : Bstatus × ℕ × Memory → Bstatus × Option Memory
terminate (success, index, description) =
    (success, some (write (write description index 0) (index + 1) 0))
terminate (status, index, description) = (status, none)

-- `RtlCommandLineStringToDescription`, where `fresh` is what the allocated block holds.
pub command_line_string_to_description :
    ℕ → (ℕ → Bool) → Memory → Memory → ℕ → Option (Bstatus × Option Memory)
unfolding parse_loop terminate
command_line_string_to_description f alloc fresh m string = elim (strlen f m string) [
  | none ↦ none
  | some length ↦
      if not (alloc (length + 2))
      then some (insufficient_memory, none)
      else elim (parse_loop f m string 0 fresh) [ none ↦ none | some r ↦ some (terminate r) ]
]
