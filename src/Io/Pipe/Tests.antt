-- ===== src/Io/Pipe/Tests.antt =====
-- A pipe of eight bytes whose queue wraps.
use boron.Prelude.{
  ◌+◌, ◌-◌, ◌≡◌, ◌≢◌, refl, Bool, true, false, arith, ltb, ◌==◌, if◌then◌else◌, some, none, [], ◌∷◌,
}
use boron.Prelude.Memory.{Memory}
use boron.Prelude.Status.{alerted, success}
use boron.Io.Pipe.{
  Pipe, pipe_size, Flags, wait_failed, woken, done, read_loop, read_pipe, write_loop, write_pipe,
  read_chunk, write_chunk, available_data, free_space,
}
use boron.Io.Pipe.Queue.{IsRing, item, Dequeued}
use boron.Io.Pipe.Write.{Wrote, write_pipe-Wrote, write_loop_total}
use boron.Io.Pipe.Read.{ring_end, ring_failed, ring_woken, Took, read_pipe-Took, read_loop_total}
use boron.Io.Pipe.Newline.{FirstNewline, read_pipe-newline, read_chunk-write_chunk}

-- Three bytes, 6, 7 and a newline, at the positions 6, 7 and 0.
abbrev pipe : Pipe
pipe = record {
  reference_count = 2;
  empty_event_pulses = 0;
  full_event_pulses = 0;
  head = 1;
  tail = 6;
  buffer_size = 8;
  end_read_now = false;
  buffer = λ x. if x == 0 then 10 else x;
}

pipe-IsRing : IsRing pipe
pipe-IsRing = record { head_bound = omega arith; tail_bound = omega arith }

abbrev flags_of : Bool → Flags
flags_of stop = record {
  nonblock = true;
  nonblock_unless_empty = false;
  finish_on_newline = stop;
  terminate_read = false;
}

abbrev bytes : Memory
bytes x = x + 100

three : available_data pipe ≡ 3
unfolding available_data
three = refl

four : free_space pipe ≡ 4
unfolding free_space
four = refl

read_chunk-write_chunk_example :
    (read_chunk (write_chunk pipe bytes 1 3) bytes 0 (available_data pipe + 3)).1 4
    ≡ (if ltb 4 (available_data pipe) then item pipe 4 else bytes (1 + (4 - available_data pipe)))
read_chunk-write_chunk_example =
    read_chunk-write_chunk pipe bytes bytes 1 3 4 pipe-IsRing (omega (arith, four))
      (omega (arith, three))

write_pipe-Wrote_example :
    Wrote (flags_of false) pipe bytes 6 (write_pipe 2 [] (flags_of false) success pipe bytes 6)
write_pipe-Wrote_example = write_pipe-Wrote 0 (flags_of false) pipe bytes 6 pipe-IsRing

write_loop_total_example : write_loop 8 (woken pipe ∷ []) (flags_of false) pipe bytes 0 0 6 ≢ none
write_loop_total_example =
    write_loop_total 8 (woken pipe ∷ []) (flags_of false) pipe bytes 0 0 6 (omega arith)

read_pipe-Took_example :
    Took (flags_of false) pipe bytes 2 (read_pipe 2 [] (flags_of false) success pipe bytes 2)
read_pipe-Took_example = read_pipe-Took 0 (flags_of false) pipe bytes 2 pipe-IsRing refl

read_loop_total_example :
    read_loop 9 (woken pipe ∷ (wait_failed alerted ∷ [])) (flags_of false) pipe bytes 0 6 ≢ none
read_loop_total_example =
    read_loop_total 9 (woken pipe ∷ (wait_failed alerted ∷ [])) (flags_of false) pipe bytes 0 6
      pipe-IsRing
      (ring_woken pipe (wait_failed alerted ∷ []) pipe-IsRing (ring_failed alerted [] ring_end))
      (omega arith)

pipe-FirstNewline : FirstNewline pipe 2
pipe-FirstNewline = record { at = refl; before = λ j lt. ground (arith, lt) }

read_pipe-newline_example :
    (q : Pipe) × (mdl : Memory) × (read_pipe 2 [] (flags_of true) success pipe bytes 5
      ≡ some (done success (2 + 1) q mdl))
    × Dequeued pipe bytes 0 (2 + 1) q mdl
read_pipe-newline_example =
    read_pipe-newline 0 [] (flags_of true) pipe bytes 5 2 pipe-IsRing refl pipe-FirstNewline
      (omega arith) (omega (arith, three))

default_size : pipe_size 0 ≡ some 1024
unfolding pipe_size
default_size = refl
