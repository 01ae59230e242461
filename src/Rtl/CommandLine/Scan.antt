-- ===== src/Rtl/CommandLine/Scan.antt =====
-- `RtlEnvironmentLength` and `RtlGetFileNameFromPath`.
use boron.Prelude.{
  ℕ, zero, suc, ◌+◌, ◌<◌, ◌≡◌, ◌≢◌, ◌⊎◌, ◌∙◌, inl, inr, refl, ap, Bool, true, false, ◌&&◌, not,
  some, arith, ◌==◌, if◌then◌else◌, Bool-cases,
}
use boron.Prelude.Memory.{Memory}
use boron.Rtl.Str.Length.{IsString, IsString-next}
use boron.Rtl.CommandLine.{
  environment_length_loop, environment_length, file_name_loop, get_file_name_from_path,
}

-- The first two zeros side by side stand `n` bytes behind `s`.
pub record IsDescription (m : Memory) (s n : ℕ) : Type 0 where
  pub ends : (m (s + n) ≡ 0) × (m (s + n + 1) ≡ 0)
  pub before : (i : ℕ) → i < n → (m (s + i) ≢ 0) ⊎ (m (s + i + 1) ≢ 0)

IsDescription-next : (m : Memory) (s n : ℕ) → IsDescription m s (suc n) → IsDescription m (s + 1) n
IsDescription-next m s n is = record {
  ends = ground (arith, is.ends);
  before = λ i lt. ground (arith, is.before (i + 1));
}

environment_length_loop_lem :
    (f : ℕ) (m : Memory) (s n length : ℕ)
    → IsDescription m s n
    → n < f
    → environment_length_loop f m s length ≡ some (length + n)
unfolding environment_length_loop
environment_length_loop_lem zero m s n length is h = absurd (omega arith)
environment_length_loop_lem (suc f) m s zero length is h = ground (arith, is.ends)
environment_length_loop_lem (suc f) m s (suc n) length is h = ground (
  arith,
  is.before 0,
  environment_length_loop_lem f m (s + 1) n (length + 1) (IsDescription-next m s n is),
)

-- With more rounds than bytes, `RtlEnvironmentLength` counts the bytes up to the first two zeros side
-- by side, and these two.
pub environment_length_lem :
    (f : ℕ) (m : Memory) (s n : ℕ)
    → IsDescription m s n
    → n < f
    → environment_length f m s ≡ some (n + 2)
unfolding environment_length
environment_length_lem f m s n is h =
    environment_length_loop_lem f m s n 2 is h ∙ ap some (omega arith)

-- A separator that is not at the end of the path.
abbrev pub is_cut : Memory → ℕ → Bool
is_cut m a = m a == 0x2f && not (m (a + 1) == 0)

-- `r` is the place behind the last such separator of the `k` characters from `s` on, and `a` if there is none.
abbrev pub BehindLastCut : Memory → ℕ → ℕ → ℕ → ℕ → Type 0
BehindLastCut m s k a r =
    ((r ≡ a) × ((i : ℕ) → i < k → is_cut m (s + i) ≡ false))
    ⊎ ((j : ℕ) × (j < k)
        × (r ≡ s + j + 1)
        × (is_cut m (s + j) ≡ true)
        × ((i : ℕ) → j < i → i < k → is_cut m (s + i) ≡ false))

BehindLastCut-cons :
    (m : Memory) (s k a r : ℕ)
    → BehindLastCut m (s + 1) k (if is_cut m s then s + 1 else a) r
    → BehindLastCut m s (suc k) a r
BehindLastCut-cons m s k a r (inr (j, lt, e, cut, rest)) =
    inr (suc j, omega arith, omega arith, ground (arith, cut), after)
  where
    after : (i : ℕ) → suc j < i → i < suc k → is_cut m (s + i) ≡ false
    after zero a b = absurd (omega arith)
    after (suc i) a b = ap (is_cut m) (omega arith) ∙ rest i (omega arith) (omega arith)
BehindLastCut-cons m s k a r (inl (e, rest)) = elim (Bool-cases (is_cut m s)) [
  | inl cut ↦ inr (
    0,
    omega arith,
    ground (arith, e, cut),
    ap (is_cut m) (omega arith) ∙ cut,
    λ i lo hi. later i lo hi,
  )
  | inr no_cut ↦ inl (ground (arith, e, no_cut), λ i hi. every no_cut i hi)
]
  where
    later : (i : ℕ) → 0 < i → i < suc k → is_cut m (s + i) ≡ false
    later zero lo hi = absurd (omega arith)
    later (suc i) lo hi = ap (is_cut m) (omega arith) ∙ rest i (omega arith)

    every : is_cut m s ≡ false → (i : ℕ) → i < suc k → is_cut m (s + i) ≡ false
    every no_cut zero hi = ap (is_cut m) (omega arith) ∙ no_cut
    every no_cut (suc i) hi = ap (is_cut m) (omega arith) ∙ rest i (omega arith)

file_name_loop_lem :
    (f : ℕ) (m : Memory) (s k a : ℕ)
    → IsString m s k
    → k < f
    → (r : ℕ) × (file_name_loop f m s a ≡ some r) × BehindLastCut m s k a r
unfolding file_name_loop
file_name_loop_lem zero m s k a is h = absurd (omega arith)
file_name_loop_lem (suc f) m s zero a is h =
    (a, ground (arith, is.ends), inl (refl, λ i lt. absurd (omega arith)))
file_name_loop_lem (suc f) m s (suc k) a is h =
    let found = if is_cut m s then s + 1 else a in
    let (r, run, b) =
      file_name_loop_lem f m (s + 1) k found (IsString-next m s k is) (omega arith) in
    let there : (m s == 0) ≡ false = ground (arith, is.before 0) in
    (r, rw there run, BehindLastCut-cons m s k a r b)

-- With more rounds than the path has characters, `RtlGetFileNameFromPath` returns the place behind the
-- last separator that has a character behind it, and the path itself if there is none.
pub get_file_name_from_path-BehindLastCut :
    (f : ℕ) (m : Memory) (path k : ℕ)
    → IsString m path k
    → k < f
    → (r : ℕ) × (get_file_name_from_path f m path ≡ some r) × BehindLastCut m path k path r
unfolding get_file_name_from_path
get_file_name_from_path-BehindLastCut f m path k is h = file_name_loop_lem f m path k path is h
