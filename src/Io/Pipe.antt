-- ===== src/Io/Pipe.antt =====
-- boron/source/io/pipe.c: a pipe is a ring buffer between readers and writers. A function holds the
-- pipe's mutex but while it waits for an event; what other threads have made of the pipe when it has
-- the mutex again is given by a list of `Wake`, one for each wait. Buffers are functions from
-- positions to bytes, and `mdl` is the caller's.
pub mod Queue
pub mod Read
pub mod Write
pub mod Newline
mod Tests
use boron.Prelude.{
  ℕ, zero, suc, ◌+◌, ◌-◌, ◌%◌, Bool, true, false, ◌&&◌, ◌||◌, not, Option, none, some, List, [],
  ◌∷◌, ltb, leb, ◌==◌, if◌then◌else◌,
}
use boron.Prelude.Status.{Bstatus, success, end_of_file, blocking_operation, invalid_parameter}
use boron.Prelude.Memory.{Memory}

-- `PIPE`. The two counters say how often each event has been pulsed.
pub record Pipe : Type 0 where
  pub reference_count : ℕ
  pub empty_event_pulses : ℕ
  pub full_event_pulses : ℕ
  pub head : ℕ
  pub tail : ℕ
  pub buffer_size : ℕ
  pub end_read_now : Bool
  pub buffer : Memory

-- The `IO_RW_` flags that the functions look at.
pub record Flags : Type 0 where
  pub nonblock : Bool
  pub nonblock_unless_empty : Bool
  pub finish_on_newline : Bool
  pub terminate_read : Bool

-- How a wait ends: it fails, for the event or for the mutex after it, or the pipe is locked again.
pub data Wake : Type 0 where
  wait_failed : Bstatus → Wake
  woken : Pipe → Wake

-- The pipe, the caller's buffer and the I/O status block at the end; or still in a wait.
pub data IoResult : Type 0 where
  done : Bstatus → ℕ → Pipe → Memory → IoResult
  waiting : Pipe → IoResult

-- MmCopyIntoMdl and MmCopyFromMdl: `n` bytes of `src` from `from` on go to `dst` from `to` on.
abbrev pub copy_bytes : Memory → ℕ → Memory → ℕ → ℕ → Memory
copy_bytes dst to src from n x = if leb to x && ltb x (to + n) then src (from + (x - to)) else dst x

-- `IopInitializePipe`, in an FCB extension that was zeroed.
pub initialize_pipe : ℕ → Pipe
initialize_pipe buffer_size = record {
  reference_count = 1;
  empty_event_pulses = 0;
  full_event_pulses = 0;
  head = 0;
  tail = 0;
  buffer_size = buffer_size;
  end_read_now = false;
  buffer = λ _. 0;
}

-- `AvailableData` of IopReadPipe.
pub available_data : Pipe → ℕ
available_data p = if leb p.tail p.head then p.head - p.tail else p.head + p.buffer_size - p.tail

-- `FreeSpace` of IopWritePipe.
pub free_space : Pipe → ℕ
free_space p =
    if leb p.tail p.head then p.buffer_size - 1 - (p.head - p.tail) else p.tail - p.head - 1

-- The scan for a newline from index `i`, at the buffer position `j`: the read size up to and with the
-- first one. (The code goes on with that size as the bound of its loop, so it stops there.)
pub scan_newline : ℕ → ℕ → ℕ → Pipe → Option ℕ
scan_newline zero i j p = none
scan_newline (suc left) i j p =
    let k = if leb p.buffer_size j then 0 else j in
    let rest = scan_newline left (i + 1) (k + 1) p in
    if p.buffer k == 0x0a || p.buffer k == 0x0d then some (i + 1) else rest

-- `TailAfterRead`
abbrev pub tail_after_read : Pipe → ℕ → ℕ
tail_after_read p n =
    if leb p.buffer_size (p.tail + n) then p.tail + n - p.buffer_size else p.tail + n

-- The copy of IopReadPipe of `n` bytes to `bytes_read`, in one piece or in two, to the pulse.
pub read_chunk : Pipe → Memory → ℕ → ℕ → Pipe × Memory
read_chunk p mdl bytes_read n =
    let tail_after = tail_after_read p n in
    let tail_size = p.buffer_size - p.tail in
    let first =
      if tail_size == 0 then mdl else copy_bytes mdl bytes_read p.buffer p.tail tail_size in
    (
      record p { tail = tail_after; full_event_pulses = p.full_event_pulses + 1 },
      if leb p.tail tail_after
          then copy_bytes mdl bytes_read p.buffer p.tail n
          else if n - tail_size == 0
          then first
          else copy_bytes first (bytes_read + tail_size) p.buffer 0 (n - tail_size),
    )

-- `ReadSize` and the new `ByteCount`
pub read_sizes : Flags → Pipe → ℕ → ℕ → ℕ × ℕ
unfolding available_data
read_sizes flags p bytes_read byte_count =
    let wanted = byte_count - bytes_read in
    let size = if ltb (available_data p) wanted then available_data p else wanted in
    if flags.finish_on_newline
    then elim (scan_newline size 0 p.tail p) [
      | none ↦ (size, byte_count)
      | some n ↦ (n, bytes_read + n)
    ]
    else (size, byte_count)

-- A round of the loop of `IopReadPipe`; the next rounds are `again`.
pub read_round :
    (List Wake → Flags → Pipe → Memory → ℕ → ℕ → Option IoResult)
    → List Wake
    → Flags
    → Pipe
    → Memory
    → ℕ
    → ℕ
    → Option IoResult
unfolding read_sizes read_chunk
read_round again env flags p mdl bytes_read byte_count =
    let (n, count) = read_sizes flags p bytes_read byte_count in
    let (p', mdl') = read_chunk p mdl bytes_read n in
    if leb byte_count bytes_read
    then some (done success bytes_read p mdl)
    else if p.head == p.tail
    then if p.reference_count == 1
      then some (done end_of_file bytes_read p mdl)
      else if flags.nonblock || (flags.nonblock_unless_empty && not (bytes_read == 0))
      then some (done blocking_operation bytes_read p mdl)
      else if p.end_read_now
      then some (done end_of_file bytes_read (record p { end_read_now = false }) mdl)
      else elim env [
        | [] ↦ some (waiting p)
        | wait_failed status ∷ _ ↦ some (done status bytes_read p mdl)
        | woken q ∷ more ↦ again more flags q mdl bytes_read byte_count
      ]
    else again env flags p' mdl' (bytes_read + n) count

-- The loop; `none` is out of fuel.
pub read_loop : ℕ → List Wake → Flags → Pipe → Memory → ℕ → ℕ → Option IoResult
unfolding read_round
read_loop zero env flags p mdl bytes_read byte_count = none
read_loop (suc f) env flags p mdl bytes_read byte_count =
    let again = read_loop f in read_round again env flags p mdl bytes_read byte_count

-- `IopReadPipe`, where `locked` is the status of the first wait for the mutex.
pub read_pipe : ℕ → List Wake → Flags → Bstatus → Pipe → Memory → ℕ → Option IoResult
read_pipe f env flags success p mdl byte_count = read_loop f env flags p mdl 0 byte_count
read_pipe f env flags locked p mdl byte_count = some (done locked 0 p mdl)

-- `HeadAfterWrite`
abbrev pub head_after_write : Pipe → ℕ → ℕ
head_after_write p n =
    if leb p.buffer_size (p.head + n) then (p.head + n) % p.buffer_size else p.head + n

-- The copy of IopWritePipe of `n` bytes from `bytes_written` on, to the pulse.
pub write_chunk : Pipe → Memory → ℕ → ℕ → Pipe
write_chunk p mdl bytes_written n =
    let head_after = head_after_write p n in
    let head_size = p.buffer_size - p.head in
    let first =
      if head_size == 0 then p.buffer else copy_bytes p.buffer p.head mdl bytes_written head_size in
    record p {
      head = head_after;
      empty_event_pulses = p.empty_event_pulses + 1;
      buffer =
          if leb p.head head_after
          then copy_bytes p.buffer p.head mdl bytes_written n
          else if n - head_size == 0
          then first
          else copy_bytes first 0 mdl (bytes_written + head_size) (n - head_size);
    }

-- A round of the loop of `IopWritePipe`, with what `Iosb->BytesWritten` holds: it is set at the head
-- of each round only. The next rounds are `again`.
pub write_round :
    (List Wake → Flags → Pipe → Memory → ℕ → ℕ → ℕ → Option IoResult)
    → List Wake
    → Flags
    → Pipe
    → Memory
    → ℕ
    → ℕ
    → ℕ
    → Option IoResult
unfolding write_chunk free_space
write_round again env flags p mdl reported bytes_written byte_count =
    let wanted = byte_count - bytes_written in
    let n = if ltb (free_space p) wanted then free_space p else wanted in
    if leb byte_count bytes_written
    then if flags.terminate_read
      then some (
          done success reported
            (record p { end_read_now = true; empty_event_pulses = p.empty_event_pulses + 1 }) mdl)
      else some (done success reported p mdl)
    else if free_space p == 0
    then if p.reference_count == 1
      then some (done end_of_file bytes_written p mdl)
      else if flags.nonblock
      then some (done blocking_operation bytes_written p mdl)
      else elim env [
        | [] ↦ some (waiting p)
        | wait_failed status ∷ _ ↦ some (done status bytes_written p mdl)
        | woken q ∷ more ↦ again more flags q mdl bytes_written bytes_written byte_count
      ]
    else again env flags (write_chunk p mdl bytes_written n) mdl bytes_written (bytes_written + n)
        byte_count

-- The loop; `none` is out of fuel.
pub write_loop : ℕ → List Wake → Flags → Pipe → Memory → ℕ → ℕ → ℕ → Option IoResult
unfolding write_round
write_loop zero env flags p mdl reported bytes_written byte_count = none
write_loop (suc f) env flags p mdl reported bytes_written byte_count =
    let again = write_loop f in write_round again env flags p mdl reported bytes_written byte_count

-- `IopWritePipe`, where `locked` is the status of the first wait for the mutex.
pub write_pipe : ℕ → List Wake → Flags → Bstatus → Pipe → Memory → ℕ → Option IoResult
write_pipe f env flags success p mdl byte_count = write_loop f env flags p mdl 0 0 byte_count
write_pipe f env flags locked p mdl byte_count = some (done locked 0 p mdl)

-- `IopReferencePipe`, and `IopDereferencePipe`, which says whether the FCB is freed.
pub reference_pipe : Pipe → Pipe
reference_pipe p = record p { reference_count = p.reference_count + 1 }

pub dereference_pipe : Pipe → Pipe × Bool
dereference_pipe p =
    (record p { reference_count = p.reference_count - 1 }, p.reference_count - 1 == 0)

-- The checks of `OSCreatePipe` on the size: what IoCreatePipe is given, or a refusal.
pub pipe_size : ℕ → Option ℕ
pipe_size buffer_size =
    let size = if buffer_size == 0 then 1024 else buffer_size in
    if ltb size 64 || ltb 32768 size then none else some size
