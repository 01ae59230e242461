-- ===== src/Rtl/Str/Length.antt =====
-- Terminated strings, and `strlen`.
use boron.Prelude.{
  ℕ, zero, suc, ◌+◌, ◌<◌, ◌≡◌, ◌≢◌, ◌↔◌, ◌⊎◌, some, arith, ◌==◌, Bool-cases, inl, inr, subst, ap,
  ◌∙◌,
}
use boron.Prelude.Memory.{Memory, write}
use boron.Rtl.Str.{strlen_loop, strlen}

-- A string of `k` characters stands at `s`: its terminator is the first zero.
pub record IsString (m : Memory) (s k : ℕ) : Type 0 where
  pub ends : m (s + k) ≡ 0
  pub before : (i : ℕ) → i < k → m (s + i) ≢ 0

-- Writes elsewhere keep it.
pub IsString-write :
    (m : Memory) (s k a v : ℕ) → (a < s) ⊎ (s + k < a) → IsString m s k → IsString (write m a v) s k
IsString-write m s k a v h is = record {
  ends = ground (arith, is.ends);
  before = λ i lt. ground (arith, is.before i);
}

pub IsString-next : (m : Memory) (s k : ℕ) → IsString m s (suc k) → IsString m (s + 1) k
IsString-next m s k is = record {
  ends = ground (arith, is.ends);
  before = λ i lt. ground (arith, is.before (i + 1));
}

pub IsString-cons : (m : Memory) (s k : ℕ) → m s ≢ 0 → IsString m (s + 1) k → IsString m s (suc k)
IsString-cons m s k h is = record { ends = ground (arith, is.ends); before = λ i lt. before i lt }
  where
    before : (i : ℕ) → i < suc k → m (s + i) ≢ 0
    before zero lt = ground arith
    before (suc i) lt = ground (arith, is.before i)

strlen_loop_complete :
    (f : ℕ) (m : Memory) (s sz k : ℕ)
    → IsString m s k
    → k < f
    → strlen_loop f m s sz ≡ some (sz + k)
unfolding strlen_loop
strlen_loop_complete zero m s sz k is h = absurd (omega arith)
strlen_loop_complete (suc f) m s sz zero is h = ground (arith, is.ends)
strlen_loop_complete (suc f) m s sz (suc k) is h =
    ground
      (arith, is.before 0, strlen_loop_complete f m (s + 1) (sz + 1) k (IsString-next m s k is))

abbrev Counted : ℕ → Memory → ℕ → ℕ → ℕ → Type 0
Counted f m s sz r = (k : ℕ) × (r ≡ sz + k) × IsString m s k × (k < f)

strlen_loop_sound :
    (f : ℕ) (m : Memory) (s sz r : ℕ) → strlen_loop f m s sz ≡ some r → Counted f m s sz r
unfolding strlen_loop
strlen_loop_sound zero m s sz r h = absurd (cc)
strlen_loop_sound (suc f) m s sz r h = elim (Bool-cases (m s == 0)) [
  | inl stop ↦ (
    0,
    ground arith,
    record { ends = ground arith; before = λ i lt. absurd (omega arith) },
    omega arith,
  )
  | inr more ↦
      let (k, e, is, lt) = strlen_loop_sound f m (s + 1) (sz + 1) r (rw more at h) in
      (suc k, omega arith, IsString-cons m s k (ground arith) is, omega arith)
]

-- With `f` rounds allowed, `strlen` returns `k` exactly when a string of `k` characters, fewer than
-- `f`, stands at `s`.
pub strlen_iff :
    (f : ℕ) (m : Memory) (s k : ℕ) → (strlen f m s ≡ some k) ↔ (IsString m s k × (k < f))
unfolding strlen
strlen_iff f m s k = (
  λ h.
      let (n, e, is, lt) = strlen_loop_sound f m s 0 k h in
      let same : n ≡ k = omega arith in (subst (IsString m s) same is, omega arith),
  λ h. strlen_loop_complete f m s 0 k h.0 h.1 ∙ ap some (omega arith),
)
