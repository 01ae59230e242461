-- ===== src/Io/Pipe/Write.antt =====
-- `IopWritePipe`, by what a round of its loop does.
use boron.Prelude.{
  ℕ, zero, suc, ◌+◌, ◌-◌, ◌≤◌, ◌<◌, ◌≡◌, ◌∙◌, refl, ap, arith, true, ltb, ◌==◌, if◌then◌else◌,
  Option, none, some, List, [], ◌∷◌, length, ◌≢◌, subst, dec_lt, ℕ_discrete,
}
use boron.Prelude.Memory.{Memory}
use boron.Prelude.Status.{success, end_of_file, blocking_operation}
use boron.Io.Pipe.{
  Pipe, Flags, Wake, wait_failed, woken, IoResult, done, waiting, free_space, write_chunk,
  write_round, write_loop, write_pipe,
}
use boron.Io.Pipe.Queue.{IsRing, Queued, write_chunk-Queued, Queued-none, Queued-free_space}

-- What a round does when all is written, when the buffer is full and when there is room.
abbrev pub written : Flags → ℕ → Pipe → Memory → IoResult
written flags reported p mdl =
    if flags.terminate_read
    then done success reported
        (record p { end_read_now = true; empty_event_pulses = p.empty_event_pulses + 1 }) mdl
    else done success reported p mdl

abbrev blocked :
    (List Wake → Flags → Pipe → Memory → ℕ → ℕ → ℕ → Option IoResult)
    → List Wake
    → Flags
    → Pipe
    → Memory
    → ℕ
    → ℕ
    → Option IoResult
blocked again env flags p mdl bytes_written byte_count =
    if p.reference_count == 1
    then some (done end_of_file bytes_written p mdl)
    else if flags.nonblock
    then some (done blocking_operation bytes_written p mdl)
    else elim env [
      | [] ↦ some (waiting p)
      | wait_failed status ∷ _ ↦ some (done status bytes_written p mdl)
      | woken q ∷ more ↦ again more flags q mdl bytes_written bytes_written byte_count
    ]

module _ (again : List Wake → Flags → Pipe → Memory → ℕ → ℕ → ℕ → Option IoResult) (env : List Wake)
    (flags : Flags) (p : Pipe) (mdl : Memory) (reported bytes_written byte_count : ℕ) where
  write_round_end :
      byte_count ≤ bytes_written
      → write_round again env flags p mdl reported bytes_written byte_count
        ≡ some (written flags reported p mdl)
  unfolding write_round
  write_round_end h = ground arith

  write_round_full :
      bytes_written < byte_count
      → free_space p ≡ 0
      → write_round again env flags p mdl reported bytes_written byte_count
        ≡ blocked again env flags p mdl bytes_written byte_count
  unfolding write_round
  write_round_full more full = ground arith

  write_round_put :
      (n : ℕ)
      → bytes_written < byte_count
      → 0 < free_space p
      → n ≡ (
          if ltb (free_space p) (byte_count - bytes_written)
          then free_space p
          else byte_count - bytes_written)
      → write_round again env flags p mdl reported bytes_written byte_count
        ≡ again env flags
            (write_chunk p mdl bytes_written n)
            mdl
            bytes_written
            (bytes_written + n)
            byte_count
  unfolding write_round
  write_round_put n more room e = ground (arith, e)

blocked_total :
    (again : List Wake → Flags → Pipe → Memory → ℕ → ℕ → ℕ → Option IoResult) (env : List Wake)
    (flags : Flags) (p : Pipe) (mdl : Memory) (bytes_written byte_count : ℕ)
    → ((q : Pipe) (more : List Wake)
        → length more < length env
        → again more flags q mdl bytes_written bytes_written byte_count ≢ none)
    → blocked again env flags p mdl bytes_written byte_count ≢ none
blocked_total again [] flags p mdl bytes_written byte_count h = ground arith
blocked_total again (wait_failed s ∷ more) flags p mdl bytes_written byte_count h = ground arith
blocked_total again (woken q ∷ more) flags p mdl bytes_written byte_count h =
    ground (arith, h q more (omega arith))

-- Whatever the other threads do while `IopWritePipe` waits, it does not loop for ever: a round for each
-- wait and for each byte is enough to come to an end, or to a wait that does not return.
pub write_loop_total :
    (f : ℕ) (env : List Wake) (flags : Flags) (p : Pipe) (mdl : Memory)
    (reported bytes_written byte_count : ℕ)
    → length env + (byte_count - bytes_written) < f
    → write_loop f env flags p mdl reported bytes_written byte_count ≢ none
unfolding write_loop
write_loop_total zero env flags p mdl reported bytes_written byte_count h = absurd (omega arith)
write_loop_total (suc f) env flags p mdl reported bytes_written byte_count h =
    elim (dec_lt bytes_written byte_count) [
      | no over ↦
          rw
            (write_round_end (write_loop f) env flags p mdl reported bytes_written byte_count
              (omega arith))
            (ground arith)
      | yes more ↦ elim (ℕ_discrete (free_space p) 0) [
        | yes full ↦
            rw
              (write_round_full (write_loop f) env flags p mdl reported bytes_written byte_count
                more full)
              (blocked_total (write_loop f) env flags p mdl bytes_written byte_count (λ q m less.
                write_loop_total f m flags q mdl bytes_written bytes_written byte_count
                  (omega arith)))
        | no room ↦
            let n =
              if ltb (free_space p) (byte_count - bytes_written)
              then free_space p
              else byte_count - bytes_written in
            rw
              (write_round_put (write_loop f) env flags p mdl reported bytes_written byte_count n
                more (omega arith) refl)
              (write_loop_total f env flags (write_chunk p mdl bytes_written n) mdl bytes_written
                (bytes_written + n) byte_count (ground (arith, room, more, h)))
      ]
    ]

-- Without a wait that returns: nothing to write, all bytes fit, or the buffer is filled.
pub data Wrote (flags : Flags) (p : Pipe) (mdl : Memory) (n : ℕ) : Option IoResult → Type 0 where
  wrote_none : n ≡ 0 → Wrote flags p mdl n (some (written flags 0 p mdl))
  wrote_all :
      (q : Pipe)
      → 0 < n
      → n ≤ free_space p
      → Queued p mdl 0 n q
      → Wrote flags p mdl n (some (written flags 0 q mdl))
  wrote_part :
      (q : Pipe) (k : ℕ)
      → k ≡ free_space p
      → k < n
      → Queued p mdl 0 k q
      → free_space q ≡ 0
      → q.reference_count ≡ p.reference_count
      → Wrote flags p mdl n (
          if p.reference_count == 1
          then some (done end_of_file k q mdl)
          else if flags.nonblock
          then some (done blocking_operation k q mdl)
          else some (waiting q))

write_loop-part :
    (f : ℕ) (flags : Flags) (p q : Pipe) (mdl : Memory) (reported k n : ℕ)
    → k < n
    → free_space q ≡ 0
    → q.reference_count ≡ p.reference_count
    → write_loop (suc f) [] flags q mdl reported k n ≡ (
        if p.reference_count == 1
        then some (done end_of_file k q mdl)
        else if flags.nonblock
        then some (done blocking_operation k q mdl)
        else some (waiting q))
unfolding write_loop
write_loop-part f flags p q mdl reported k n more full refs =
    write_round_full (write_loop f) [] flags q mdl reported k n more full
    ∙ ap
        (λ (r : ℕ).
          if r == 1
          then some (done end_of_file k q mdl)
          else if flags.nonblock
          then some (done blocking_operation k q mdl)
          else some (waiting q))
        refs

-- A write to a well-formed pipe, up to its first wait, appends the bytes that fit to the queue, in
-- order, and no others. Where the last byte fits it returns success but reports 0 bytes; where the buffer is
-- full first it reports the bytes that are queued, with the end of file for a pipe of one owner, or
-- `blocking_operation` if it must not wait, and otherwise waits.
pub write_pipe-Wrote :
    (f : ℕ) (flags : Flags) (p : Pipe) (mdl : Memory) (n : ℕ)
    → IsRing p
    → Wrote flags p mdl n (write_pipe (suc (suc f)) [] flags success p mdl n)
unfolding write_pipe write_loop
write_pipe-Wrote f flags p mdl n r = elim (ℕ_discrete n 0) [
  | yes z ↦
      rw (write_round_end (write_loop (suc f)) [] flags p mdl 0 0 n (omega arith)) (wrote_none z)
  | no pos ↦ elim (ℕ_discrete (free_space p) 0) [
    | yes full ↦
        rw (write_loop-part (suc f) flags p p mdl 0 0 n (omega arith) full refl)
          (wrote_part p 0 (omega arith) (omega arith) (Queued-none p mdl 0 r) full refl)
    | no room ↦ elim (dec_lt (free_space p) n) [
      | yes over ↦
          let q = write_chunk p mdl 0 (free_space p) in
          let queued = write_chunk-Queued p mdl 0 (free_space p) r (omega arith) in
          let full : free_space q ≡ 0 = omega (arith, Queued-free_space r queued) in
          rw
            (write_round_put (write_loop (suc f)) [] flags p mdl 0 0 n (free_space p) (omega arith)
              (omega arith) (ground arith))
            (rw (write_loop-part f flags p q mdl 0 (0 + free_space p) n (omega arith) full refl) (
              wrote_part q (0 + free_space p) (omega arith) (omega arith)
                (subst (λ k. Queued p mdl 0 k q) (omega arith) queued) full refl))
      | no fits ↦
          let q = write_chunk p mdl 0 n in
          rw
            (write_round_put (write_loop (suc f)) [] flags p mdl 0 0 n n (omega arith) (omega arith)
              (ground arith))
            (rw (write_round_end (write_loop f) [] flags q mdl 0 (0 + n) n (omega arith)) (
              wrote_all q (omega arith) (omega arith)
                (write_chunk-Queued p mdl 0 n r (omega arith))))
    ]
  ]
]
