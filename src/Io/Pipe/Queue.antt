-- ===== src/Io/Pipe/Queue.antt =====
-- The ring buffer as the queue of its bytes, and what one copy of each direction does to it.
use boron.Prelude.{
  ℕ, ◌+◌, ◌-◌, ◌≤◌, ◌<◌, ◌≡◌, ◌≢◌, ◌∙◌, refl, ap, arith, dec_lt, ℕ_discrete, ltb, leb, some, ◌&&◌,
  if◌then◌else◌,
}
use boron.Prelude.Memory.{Memory}
use boron.Io.Pipe.{
  Pipe, initialize_pipe, pipe_size, available_data, free_space, read_chunk, write_chunk,
  head_after_write, copy_bytes,
}
use native.Mathlib.Nat.{mod-eq-sub-mod, mod-eq_of_lt}

-- The two indices are inside the buffer.
pub record IsRing (p : Pipe) : Type 0 where
  pub head_bound : p.head < p.buffer_size
  pub tail_bound : p.tail < p.buffer_size

-- The position of the byte that is `i`-th to be read, and the byte.
abbrev pub wrap : Pipe → ℕ → ℕ
wrap p i = if leb p.buffer_size (p.tail + i) then p.tail + i - p.buffer_size else p.tail + i

abbrev pub item : Pipe → ℕ → ℕ
item p i = p.buffer (wrap p i)

head_after_write_lem :
    (p : Pipe) (n : ℕ)
    → p.head < p.buffer_size
    → n < p.buffer_size
    → head_after_write p n
      ≡ (if leb p.buffer_size (p.head + n) then p.head + n - p.buffer_size else p.head + n)
head_after_write_lem p n h k = elim (dec_lt (p.head + n) p.buffer_size) [
  | yes lt ↦ ground (arith, lt)
  | no ge ↦ ground (
    arith,
    mod-eq-sub-mod {n = p.head + n} {m = p.buffer_size} (omega arith),
    mod-eq_of_lt {n = p.head + n - p.buffer_size} {m = p.buffer_size} (omega arith),
  )
]

-- No byte is counted twice and one place stays empty.
pub available-free : (p : Pipe) → IsRing p → available_data p + free_space p + 1 ≡ p.buffer_size
unfolding available_data free_space
available-free p r = ground (arith, r.head_bound, r.tail_bound)

-- What a copy of `n` bytes into the buffer leaves: `n` items more, and those before them as they were.
pub record Queued (p : Pipe) (mdl : Memory) (from n : ℕ) (q : Pipe) : Type 0 where
  pub ring : IsRing q
  pub same_size : q.buffer_size ≡ p.buffer_size
  pub more : available_data q ≡ available_data p + n
  pub items :
      (i : ℕ)
      → i < available_data p + n
      → item q i
        ≡ (if ltb i (available_data p) then item p i else mdl (from + (i - available_data p)))

-- What a copy of `n` bytes out of the buffer leaves: `n` items less, which are in `mdl'`.
pub record Dequeued (p : Pipe) (mdl : Memory) (to n : ℕ) (q : Pipe) (mdl' : Memory) : Type 0 where
  pub ring : IsRing q
  pub same_size : q.buffer_size ≡ p.buffer_size
  pub fewer : available_data q + n ≡ available_data p
  pub items : (i : ℕ) → i < available_data q → item q i ≡ item p (n + i)
  pub read : (x : ℕ) → mdl' x ≡ (if leb to x && ltb x (to + n) then item p (x - to) else mdl x)

read_chunk_straight :
    (p : Pipe) (mdl : Memory) (to n : ℕ)
    → p.tail + n < p.buffer_size
    → (read_chunk p mdl to n).1 ≡ copy_bytes mdl to p.buffer p.tail n
unfolding read_chunk
read_chunk_straight p mdl to n h = ground (arith, h)

read_chunk_wrapped :
    (p : Pipe) (mdl : Memory) (to n x : ℕ)
    → p.buffer_size ≤ p.tail + n
    → n < p.buffer_size
    → p.tail < p.buffer_size
    → (read_chunk p mdl to n).1 x
      ≡ copy_bytes
          (copy_bytes mdl to p.buffer p.tail (p.buffer_size - p.tail))
          (to + (p.buffer_size - p.tail))
          p.buffer
          0
          (n - (p.buffer_size - p.tail))
          x
unfolding read_chunk
read_chunk_wrapped p mdl to n x h k t = elim (ℕ_discrete (n - (p.buffer_size - p.tail)) 0) [
  | yes e ↦ ground (arith, h, k, t, e)
  | no ne ↦ ground (arith, h, k, t, ne)
]

-- The bytes that arrive, in one piece or in two.
read_chunk_lem :
    (p : Pipe) (mdl : Memory) (to n x : ℕ)
    → p.tail < p.buffer_size
    → n < p.buffer_size
    → (read_chunk p mdl to n).1 x ≡ (if leb to x && ltb x (to + n) then item p (x - to) else mdl x)
unfolding read_chunk
read_chunk_lem p mdl to n x t k = elim (dec_lt (p.tail + n) p.buffer_size) [
  | yes lt ↦ ap (λ (f : Memory). f x) (read_chunk_straight p mdl to n lt) ∙ ground (arith, lt)
  | no ge ↦ read_chunk_wrapped p mdl to n x (omega arith) k t ∙ ground (arith, ge, k, t)
]

pub read_chunk-Dequeued :
    (p : Pipe) (mdl : Memory) (to n : ℕ)
    → IsRing p
    → n ≤ available_data p
    → Dequeued p mdl to n (read_chunk p mdl to n).0 (read_chunk p mdl to n).1
unfolding read_chunk available_data
read_chunk-Dequeued p mdl to n r h = record {
  ring = record {
    head_bound = r.head_bound;
    tail_bound = ground (arith, r.head_bound, r.tail_bound);
  };
  same_size = refl;
  fewer = ground (arith, r.head_bound, r.tail_bound);
  items = λ i k. ground (arith, r.head_bound, r.tail_bound);
  read = λ x. read_chunk_lem p mdl to n x r.tail_bound (omega (arith, available-free p r));
}

write_chunk_straight :
    (p : Pipe) (mdl : Memory) (from n : ℕ)
    → p.head + n < p.buffer_size
    → (write_chunk p mdl from n).buffer ≡ copy_bytes p.buffer p.head mdl from n
unfolding write_chunk
write_chunk_straight p mdl from n h = ground (arith, h)

write_chunk_wrapped :
    (p : Pipe) (mdl : Memory) (from n y : ℕ)
    → p.buffer_size ≤ p.head + n
    → n < p.buffer_size
    → p.head < p.buffer_size
    → (write_chunk p mdl from n).buffer y
      ≡ copy_bytes
          (copy_bytes p.buffer p.head mdl from (p.buffer_size - p.head))
          0
          mdl
          (from + (p.buffer_size - p.head))
          (n - (p.buffer_size - p.head))
          y
unfolding write_chunk
write_chunk_wrapped p mdl from n y h k t = elim (ℕ_discrete (n - (p.buffer_size - p.head)) 0) [
  | yes e ↦ ground (arith, h, k, t, e, head_after_write_lem p n t k)
  | no ne ↦ ground (arith, h, k, t, ne, head_after_write_lem p n t k)
]

write_chunk-head :
    (p : Pipe) (mdl : Memory) (from n : ℕ)
    → n < p.buffer_size
    → p.head < p.buffer_size
    → (write_chunk p mdl from n).head
      ≡ (if leb p.buffer_size (p.head + n) then p.head + n - p.buffer_size else p.head + n)
unfolding write_chunk
write_chunk-head p mdl from n k t = head_after_write_lem p n t k

write_chunk_items :
    (p : Pipe) (mdl : Memory) (from n i : ℕ)
    → IsRing p
    → n ≤ free_space p
    → i < available_data p + n
    → n < p.buffer_size
    → (write_chunk p mdl from n).buffer (wrap p i)
      ≡ (if ltb i (available_data p) then item p i else mdl (from + (i - available_data p)))
unfolding available_data free_space
write_chunk_items p mdl from n i r h k small = elim (dec_lt (p.head + n) p.buffer_size) [
  | yes lt ↦
      ap (λ (f : Memory). f (wrap p i)) (write_chunk_straight p mdl from n lt)
      ∙ ground (arith, lt, r.head_bound, r.tail_bound)
  | no ge ↦
      write_chunk_wrapped p mdl from n (wrap p i) (omega arith) small r.head_bound
      ∙ ground (arith, ge, r.head_bound, r.tail_bound)
]

pub write_chunk-Queued :
    (p : Pipe) (mdl : Memory) (from n : ℕ)
    → IsRing p
    → n ≤ free_space p
    → Queued p mdl from n (write_chunk p mdl from n)
unfolding write_chunk available_data free_space
write_chunk-Queued p mdl from n r h =
    let small : n < p.buffer_size = omega (arith, available-free p r) in
    let head = head_after_write_lem p n r.head_bound small in
    record {
      ring = record {
        head_bound = ground (arith, head, r.head_bound, r.tail_bound);
        tail_bound = r.tail_bound;
      };
      same_size = refl;
      more = ground (arith, head, r.head_bound, r.tail_bound);
      items = λ i k. write_chunk_items p mdl from n i r h k small;
    }

pub Queued-none : (p : Pipe) (mdl : Memory) (from : ℕ) → IsRing p → Queued p mdl from 0 p
Queued-none p mdl from r = record {
  ring = r;
  same_size = refl;
  more = omega arith;
  items = λ i k. ground arith;
}

pub Queued-free_space :
    {p q : Pipe} {mdl : Memory} {from n : ℕ}
    → IsRing p
    → Queued p mdl from n q
    → free_space q + n ≡ free_space p
Queued-free_space {p} {q} r w =
    omega (arith, available-free p r, available-free q w.ring, w.more, w.same_size)

pub Dequeued-none : (p : Pipe) (mdl : Memory) (to : ℕ) → IsRing p → Dequeued p mdl to 0 p mdl
Dequeued-none p mdl to r = record {
  ring = r;
  same_size = refl;
  fewer = omega arith;
  items = λ i k. ap (item p) (omega arith);
  read = λ x. ground arith;
}

-- An empty ring has nothing to read, and only that.
pub available-zero : (p : Pipe) → IsRing p → p.head ≡ p.tail → available_data p ≡ 0
unfolding available_data
available-zero p r e = ground (arith, e)

pub available-pos : (p : Pipe) → IsRing p → p.head ≢ p.tail → 0 < available_data p
unfolding available_data
available-pos p r ne = ground (arith, ne, r.head_bound, r.tail_bound)

-- A pipe of a size that `OSCreatePipe` accepts starts with an empty queue and room for all bytes of
-- the buffer but one, and that is at least 63.
pub initialize_pipe-IsRing :
    (size n : ℕ)
    → pipe_size size ≡ some n
    → IsRing (initialize_pipe n)
      × (available_data (initialize_pipe n) ≡ 0)
      × (free_space (initialize_pipe n) + 1 ≡ n)
      × (64 ≤ n)
      × (n ≤ 32768)
unfolding pipe_size initialize_pipe available_data free_space
initialize_pipe-IsRing size n h =
    let bounds : (64 ≤ n) × (n ≤ 32768) = ground (arith, h) in
    (
      record { head_bound = omega arith; tail_bound = omega arith },
      ground arith,
      ground (arith, bounds),
      bounds.0,
      bounds.1,
    )
