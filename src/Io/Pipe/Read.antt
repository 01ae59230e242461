-- ===== src/Io/Pipe/Read.antt =====
-- `IopReadPipe`, by what a round of its loop does.
use boron.Prelude.{
  ℕ, zero, suc, ◌+◌, ◌-◌, ◌≤◌, ◌<◌, ◌≡◌, ◌≢◌, ◌∙◌, refl, sym, subst, arith, false, not, ltb, leb,
  ◌==◌, ◌&&◌, ◌||◌, if◌then◌else◌, Option, none, some, List, [], ◌∷◌, length, dec_lt, ℕ_discrete,
  Option-cases, inl, inr,
}
use boron.Prelude.Memory.{Memory}
use boron.Prelude.Status.{Bstatus, success, end_of_file, blocking_operation}
use boron.Io.Pipe.{
  Pipe, Flags, Wake, wait_failed, woken, IoResult, done, waiting, available_data, scan_newline,
  read_sizes, read_chunk, read_round, read_loop, read_pipe,
}
use boron.Io.Pipe.Queue.{
  IsRing, Dequeued, Dequeued-none, available-zero, available-pos, read_chunk-Dequeued,
}

-- What a round does when it finds the buffer empty.
abbrev starved :
    (List Wake → Flags → Pipe → Memory → ℕ → ℕ → Option IoResult)
    → List Wake
    → Flags
    → Pipe
    → Memory
    → ℕ
    → ℕ
    → Option IoResult
starved again env flags p mdl bytes_read byte_count =
    if p.reference_count == 1
    then some (done end_of_file bytes_read p mdl)
    else if flags.nonblock || (flags.nonblock_unless_empty && not (bytes_read == 0))
    then some (done blocking_operation bytes_read p mdl)
    else if p.end_read_now
    then some (done end_of_file bytes_read (record p { end_read_now = false }) mdl)
    else elim env [
      | [] ↦ some (waiting p)
      | wait_failed status ∷ _ ↦ some (done status bytes_read p mdl)
      | woken q ∷ more ↦ again more flags q mdl bytes_read byte_count
    ]

module _ (again : List Wake → Flags → Pipe → Memory → ℕ → ℕ → Option IoResult) (env : List Wake)
    (flags : Flags) (p : Pipe) (mdl : Memory) (bytes_read byte_count : ℕ) where
  pub read_round_end :
      byte_count ≤ bytes_read
      → read_round again env flags p mdl bytes_read byte_count
        ≡ some (done success bytes_read p mdl)
  unfolding read_round
  read_round_end h = ground arith

  read_round_empty :
      bytes_read < byte_count
      → p.head ≡ p.tail
      → read_round again env flags p mdl bytes_read byte_count
        ≡ starved again env flags p mdl bytes_read byte_count
  unfolding read_round
  read_round_empty more e = ground (arith, e)

  pub read_round_take :
      (n count : ℕ)
      → bytes_read < byte_count
      → p.head ≢ p.tail
      → read_sizes flags p bytes_read byte_count ≡ (n, count)
      → read_round again env flags p mdl bytes_read byte_count
        ≡ again env flags
            (read_chunk p mdl bytes_read n).0
            (read_chunk p mdl bytes_read n).1
            (bytes_read + n)
            count
  unfolding read_round
  read_round_take n count more ne e = ground (arith, ne, e)

scan_newline_bounds :
    (left i j : ℕ) (p : Pipe) (k : ℕ) → scan_newline left i j p ≡ some k → (i < k) × (k ≤ i + left)
unfolding scan_newline
scan_newline_bounds zero i j p k h = absurd (ground (arith, h))
scan_newline_bounds (suc left) i j p k h =
    ground
      (arith, h, scan_newline_bounds left (i + 1) ((if leb p.buffer_size j then 0 else j) + 1) p k)

read_sizes_bounds :
    (flags : Flags) (p : Pipe) (bytes_read byte_count : ℕ)
    → bytes_read < byte_count
    → 0 < available_data p
    → (λ (r : ℕ × ℕ).
          (r.0 ≤ available_data p) × (r.1 - (bytes_read + r.0) < byte_count - bytes_read))
        (read_sizes flags p bytes_read byte_count)
unfolding read_sizes
read_sizes_bounds flags p bytes_read byte_count more pos =
    let size =
      if ltb (available_data p) (byte_count - bytes_read)
      then available_data p
      else byte_count - bytes_read in
    elim (Option-cases (scan_newline size 0 p.tail p)) [
      | inl e ↦ ground (arith, e)
      | inr (k, e) ↦ ground (arith, e, scan_newline_bounds size 0 p.tail p k e)
    ]

-- Every pipe that the reader finds after a wait is well-formed.
pub data AllRing : List Wake → Type 0 where
  ring_end : AllRing []
  ring_failed : (s : Bstatus) (env : List Wake) → AllRing env → AllRing (wait_failed s ∷ env)
  ring_woken : (q : Pipe) (env : List Wake) → IsRing q → AllRing env → AllRing (woken q ∷ env)

starved_total :
    (again : List Wake → Flags → Pipe → Memory → ℕ → ℕ → Option IoResult) (env : List Wake)
    (flags : Flags) (p : Pipe) (mdl : Memory) (bytes_read byte_count : ℕ)
    → AllRing env
    → ((q : Pipe) (more : List Wake)
        → length more < length env
        → IsRing q
        → AllRing more
        → again more flags q mdl bytes_read byte_count ≢ none)
    → starved again env flags p mdl bytes_read byte_count ≢ none
starved_total again [] flags p mdl bytes_read byte_count a h = ground arith
starved_total again (wait_failed s ∷ more) flags p mdl bytes_read byte_count a h = ground arith
starved_total again (woken q ∷ more) flags p mdl bytes_read byte_count (ring_woken _ _ r rest) h =
    ground (arith, h q more (omega arith) r rest)

-- Where the other threads leave a well-formed pipe, `IopReadPipe` does not loop for ever: a round for each
-- wait and for each byte is enough to come to an end, or to a wait that does not return.
pub read_loop_total :
    (f : ℕ) (env : List Wake) (flags : Flags) (p : Pipe) (mdl : Memory) (bytes_read byte_count : ℕ)
    → IsRing p
    → AllRing env
    → length env + (byte_count - bytes_read) < f
    → read_loop f env flags p mdl bytes_read byte_count ≢ none
unfolding read_loop
read_loop_total zero env flags p mdl bytes_read byte_count r a h = absurd (omega arith)
read_loop_total (suc f) env flags p mdl bytes_read byte_count r a h =
    elim (dec_lt bytes_read byte_count) [
      | no over ↦
          rw (read_round_end (read_loop f) env flags p mdl bytes_read byte_count (omega arith))
            (ground arith)
      | yes more ↦ elim (ℕ_discrete p.head p.tail) [
        | yes e ↦ rw (read_round_empty (read_loop f) env flags p mdl bytes_read byte_count more e) (
            starved_total (read_loop f) env flags p mdl bytes_read byte_count a (λ q m less rq am.
              read_loop_total f m flags q mdl bytes_read byte_count rq am (omega arith)))
        | no ne ↦
            let n = (read_sizes flags p bytes_read byte_count).0 in
            let count = (read_sizes flags p bytes_read byte_count).1 in
            let b = read_sizes_bounds flags p bytes_read byte_count more (available-pos p r ne) in
            let d = read_chunk-Dequeued p mdl bytes_read n r b.0 in
            rw
              (read_round_take (read_loop f) env flags p mdl bytes_read byte_count n count more ne
                refl)
              (read_loop_total f env flags (read_chunk p mdl bytes_read n).0
                (read_chunk p mdl bytes_read n).1 (bytes_read + n) count d.ring a
                (omega (arith, b.1)))
      ]
    ]

-- Without a wait that returns: all the bytes are there, or the buffer is emptied.
pub data Took (flags : Flags) (p : Pipe) (mdl : Memory) (n : ℕ) : Option IoResult → Type 0 where
  took_all :
      (q : Pipe) (mdl' : Memory) (k : ℕ)
      → k ≡ n
      → k ≤ available_data p
      → Dequeued p mdl 0 k q mdl'
      → Took flags p mdl n (some (done success k q mdl'))
  took_part :
      (q : Pipe) (mdl' : Memory) (k : ℕ)
      → k ≡ available_data p
      → k < n
      → Dequeued p mdl 0 k q mdl'
      → Took flags p mdl n (
          if p.reference_count == 1
          then some (done end_of_file k q mdl')
          else if flags.nonblock || (flags.nonblock_unless_empty && not (k == 0))
          then some (done blocking_operation k q mdl')
          else if p.end_read_now
          then some (done end_of_file k (record q { end_read_now = false }) mdl')
          else some (waiting q))

-- An emptied ring stands at head ≡ tail.
empty-head_tail : (p : Pipe) → IsRing p → available_data p ≡ 0 → p.head ≡ p.tail
unfolding available_data
empty-head_tail p r e = ground (arith, e, r.head_bound, r.tail_bound)

read_sizes_plain :
    (flags : Flags) (p : Pipe) (n : ℕ)
    → flags.finish_on_newline ≡ false
    → read_sizes flags p 0 n ≡ ((if ltb (available_data p) n then available_data p else n), n)
unfolding read_sizes
read_sizes_plain flags p n e = ground (arith, e)

-- A read from a well-formed pipe that does not look for a newline, up to its first wait, moves the bytes
-- that are there, and at most `n`, from the front of the queue to the caller's buffer, in order,
-- and changes no other byte of it. If they are `n` it returns success; if they are fewer it reports
-- their number, with the end of file for a pipe of one owner, `blocking_operation` if it must
-- not wait, the end of file if a writer has asked for it, which it acknowledges, and otherwise waits.
pub read_pipe-Took :
    (f : ℕ) (flags : Flags) (p : Pipe) (mdl : Memory) (n : ℕ)
    → IsRing p
    → flags.finish_on_newline ≡ false
    → Took flags p mdl n (read_pipe (suc (suc f)) [] flags success p mdl n)
unfolding read_pipe read_loop
read_pipe-Took f flags p mdl n r plain = elim (ℕ_discrete n 0) [
  | yes z ↦
      rw (read_round_end (read_loop (suc f)) [] flags p mdl 0 n (omega arith))
        (took_all p mdl 0 (sym z) (omega arith) (Dequeued-none p mdl 0 r))
  | no pos ↦ elim (ℕ_discrete p.head p.tail) [
    | yes e ↦
        rw (read_round_empty (read_loop (suc f)) [] flags p mdl 0 n (omega arith) e)
          (took_part p mdl 0 (sym (available-zero p r e)) (omega arith) (Dequeued-none p mdl 0 r))
    | no ne ↦ elim (dec_lt (available_data p) n) [
      | yes over ↦
          let k = available_data p in
          let d = read_chunk-Dequeued p mdl 0 k r (omega arith) in
          let q = (read_chunk p mdl 0 k).0 in
          let mdl' = (read_chunk p mdl 0 k).1 in
          rw
            (read_round_take (read_loop (suc f)) [] flags p mdl 0 n k n (omega arith) ne
              (read_sizes_plain flags p n plain ∙ ground (arith, over)))
            (rw
              (read_round_empty (read_loop f) [] flags q mdl' (0 + k) n (omega arith)
                (empty-head_tail q d.ring (omega (arith, d.fewer))))
              (took_part q mdl' (0 + k) (omega arith) (omega arith)
                (subst (λ j. Dequeued p mdl 0 j q mdl') (omega arith) d)))
      | no fits ↦
          let d = read_chunk-Dequeued p mdl 0 n r (omega arith) in
          let q = (read_chunk p mdl 0 n).0 in
          let mdl' = (read_chunk p mdl 0 n).1 in
          rw
            (read_round_take (read_loop (suc f)) [] flags p mdl 0 n n n (omega arith) ne
              (read_sizes_plain flags p n plain ∙ ground (arith, fits)))
            (rw (read_round_end (read_loop f) [] flags q mdl' (0 + n) n (omega arith)) (
              took_all q mdl' (0 + n) (omega arith) (omega arith)
                (subst (λ j. Dequeued p mdl 0 j q mdl') (omega arith) d)))
    ]
  ]
]
