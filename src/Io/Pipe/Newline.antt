-- ===== src/Io/Pipe/Newline.antt =====
-- `IopReadPipe` with `IO_RW_FINISH_ON_NEWLINE`, and bytes that go through the queue.
use boron.Prelude.{
  ℕ, zero, suc, ◌+◌, ◌-◌, ◌≤◌, ◌<◌, ◌≡◌, ◌∙◌, sym, ap, subst, arith, Bool, true, false, ltb, leb,
  ◌==◌, ◌||◌, if◌then◌else◌, some, List, ℕ_discrete,
}
use boron.Prelude.Memory.{Memory}
use boron.Prelude.Status.{success}
use boron.Io.Pipe.{
  Pipe, Flags, Wake, done, available_data, free_space, scan_newline, read_sizes, read_chunk,
  write_chunk, read_loop, read_pipe,
}
use boron.Io.Pipe.Queue.{
  IsRing, Dequeued, available-free, available-zero, read_chunk-Dequeued, write_chunk-Queued, wrap,
  item,
}
use boron.Io.Pipe.Read.{read_round_end, read_round_take}

abbrev pub is_newline : ℕ → Bool
is_newline c = c == 0x0a || c == 0x0d

-- The queue's first newline is at `i`.
pub record FirstNewline (p : Pipe) (i : ℕ) : Type 0 where
  pub at : is_newline (item p i) ≡ true
  pub before : (j : ℕ) → j < i → is_newline (item p j) ≡ false

wrap_next :
    (p : Pipe) (c i : ℕ)
    → p.tail < p.buffer_size
    → i < p.buffer_size
    → c ≡ wrap p i
    → (if leb p.buffer_size (c + 1) then 0 else c + 1) ≡ wrap p (i + 1)
wrap_next p c i t b e = ground (arith, t, b, e)

scan_newline-FirstNewline :
    (left i j : ℕ) (p : Pipe) (k : ℕ)
    → IsRing p
    → FirstNewline p k
    → i ≤ k
    → k < i + left
    → i + left ≤ p.buffer_size
    → (if leb p.buffer_size j then 0 else j) ≡ wrap p i
    → scan_newline left i j p ≡ some (k + 1)
unfolding scan_newline
scan_newline-FirstNewline zero i j p k r h le lt b e = absurd (omega arith)
scan_newline-FirstNewline (suc left) i j p k r h le lt b e =
    let c = if leb p.buffer_size j then 0 else j in
    elim (ℕ_discrete i k) [
      | yes same ↦
          let found : is_newline (p.buffer c) ≡ true =
            subst (λ y. is_newline (p.buffer y) ≡ true) (ap (wrap p) (sym same) ∙ sym e) h.at in
          ground (arith, found, same)
      | no other ↦
          let passed : is_newline (p.buffer c) ≡ false =
            subst (λ y. is_newline (p.buffer y) ≡ false) (sym e) (h.before i (omega arith)) in
          let rest =
            scan_newline-FirstNewline left (i + 1) (c + 1) p k r h (omega arith) (omega arith)
              (omega arith) (wrap_next p c i r.tail_bound (omega arith) e) in
          ground (arith, passed, rest)
    ]

read_sizes-newline :
    (flags : Flags) (p : Pipe) (n k : ℕ)
    → IsRing p
    → flags.finish_on_newline ≡ true
    → FirstNewline p k
    → k < n
    → k < available_data p
    → read_sizes flags p 0 n ≡ (k + 1, 0 + (k + 1))
unfolding read_sizes
read_sizes-newline flags p n k r stop h small there =
    let size = if ltb (available_data p) (n - 0) then available_data p else n - 0 in
    let scan =
      scan_newline-FirstNewline size 0 p.tail p k r h (omega arith) (ground arith)
        (ground (arith, available-free p r)) (ground (arith, r.tail_bound)) in
    ground (arith, stop, scan)

-- A read that looks for a newline, of a well-formed pipe whose first newline is among its bytes and among the first
-- `n`, returns success with the bytes up to the newline and with it; the others stay in the queue.
pub read_pipe-newline :
    (f : ℕ) (env : List Wake) (flags : Flags) (p : Pipe) (mdl : Memory) (n k : ℕ)
    → IsRing p
    → flags.finish_on_newline ≡ true
    → FirstNewline p k
    → k < n
    → k < available_data p
    → (q : Pipe) × (mdl' : Memory) × (read_pipe (suc (suc f)) env flags success p mdl n
        ≡ some (done success (k + 1) q mdl'))
      × Dequeued p mdl 0 (k + 1) q mdl'
unfolding read_pipe read_loop
read_pipe-newline f env flags p mdl n k r stop h small there =
    let d = read_chunk-Dequeued p mdl 0 (k + 1) r (omega arith) in
    let q = (read_chunk p mdl 0 (k + 1)).0 in
    let mdl' = (read_chunk p mdl 0 (k + 1)).1 in
    (
      q,
      mdl',
      rw
          (read_round_take (read_loop (suc f)) env flags p mdl 0 n (k + 1) (0 + (k + 1))
            (omega arith) (λ e. absurd (omega (arith, available-zero p r e)))
            (read_sizes-newline flags p n k r stop h small there))
          (rw
            (read_round_end (read_loop f) env flags q mdl' (0 + (k + 1)) (0 + (k + 1))
              (omega arith))
            (ap (λ (j : ℕ). some (done success j q mdl')) (omega arith))),
      d,
    )

-- Bytes go through the queue in order: what a well-formed pipe held before a write comes out first, and
-- then the `n` bytes that were written from `from` on.
pub read_chunk-write_chunk :
    (p : Pipe) (mdl dst : Memory) (from n x : ℕ)
    → IsRing p
    → n ≤ free_space p
    → x < available_data p + n
    → (read_chunk (write_chunk p mdl from n) dst 0 (available_data p + n)).1 x
      ≡ (if ltb x (available_data p) then item p x else mdl (from + (x - available_data p)))
read_chunk-write_chunk p mdl dst from n x r fits inside =
    let w = write_chunk-Queued p mdl from n r fits in
    let d =
      read_chunk-Dequeued (write_chunk p mdl from n) dst 0 (available_data p + n) w.ring
        (omega (arith, w.more)) in
    d.read x ∙ ground (arith, inside) ∙ w.items x inside
