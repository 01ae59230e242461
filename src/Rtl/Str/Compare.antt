-- ===== src/Rtl/Str/Compare.antt =====
-- The comparisons `memcmp`, `strcmp` and `strncmp`.
use boron.Prelude.{
  ℕ, zero, suc, ◌+◌, ◌<◌, ◌≡◌, ◌≢◌, ◌↔◌, ◌⊎◌, inl, inr, refl, sym, some, true, false, arith, ◌==◌,
  ltb, Bool, Bool-cases,
}
use boron.Prelude.Int.{ℤ, pos, negsuc}
use boron.Prelude.Memory.{Memory}
use boron.Rtl.Str.{memcmp, strcmp, strncmp, char_ltb, is_zero}
use boron.Rtl.Str.Length.{IsString, IsString-next}

abbrev pub IsBytes : Memory → Type 0
IsBytes m = (x : ℕ) → m x < 256

-- The `n` cells from `a` and from `b` hold the same.
abbrev pub Agree : Memory → ℕ → ℕ → ℕ → Type 0
Agree m a b n = (i : ℕ) → i < n → m (a + i) ≡ m (b + i)

Agree-cons : (m : Memory) (a b n : ℕ) → m a ≡ m b → Agree m (a + 1) (b + 1) n → Agree m a b (suc n)
Agree-cons m a b n e h zero lt = ground arith
Agree-cons m a b n e h (suc i) lt = ground (arith, h i)

-- At the first place where they differ, among the first `n`, `a` holds the smaller value.
abbrev pub Below : (ℕ → ℕ → Bool) → Memory → ℕ → ℕ → ℕ → Type 0
Below lt m a b n = (i : ℕ) × (i < n) × Agree m a b i × (lt (m (a + i)) (m (b + i)) ≡ true)

Below-here :
    (lt : ℕ → ℕ → Bool) (m : Memory) (a b n : ℕ) → lt (m a) (m b) ≡ true → Below lt m a b (suc n)
Below-here lt m a b n h = (0, omega arith, λ i l. absurd (omega arith), ground arith)

Below-cons :
    (lt : ℕ → ℕ → Bool) (m : Memory) (a b n : ℕ)
    → m a ≡ m b
    → Below lt m (a + 1) (b + 1) n
    → Below lt m a b (suc n)
Below-cons lt m a b n e (i, l, h, d) = (suc i, omega arith, Agree-cons m a b i e h, ground arith)

-- The result of a comparison of at most `n` cells by the order `lt`, of which `Equal` are the same.
abbrev pub Compared : (ℕ → ℕ → Bool) → Memory → ℕ → ℕ → ℕ → Type 0 → ℤ → Type 0
Compared lt m a b n Equal r =
    ((r ≡ pos 0) × Equal) ⊎ ((r ≡ negsuc 0) × Below lt m a b n) ⊎ ((r ≡ pos 1) × Below lt m b a n)

Compared-cons :
    (lt : ℕ → ℕ → Bool) (m : Memory) (a b n : ℕ) (P Q : Type 0) (r : ℤ)
    → m a ≡ m b
    → (P → Q)
    → Compared lt m (a + 1) (b + 1) n P r
    → Compared lt m a b (suc n) Q r
Compared-cons lt m a b n P Q r e f (inl (z, h)) = inl (z, f h)
Compared-cons lt m a b n P Q r e f (inr (inl (z, h))) = inr (inl (z, Below-cons lt m a b n e h))
Compared-cons lt m a b n P Q r e f (inr (inr (z, h))) =
    inr (inr (z, Below-cons lt m b a n (sym e) h))

-- `memcmp` compares by the first byte that differs: it returns 0 exactly for equal blocks, -1 where
-- the first block has the smaller byte there, and 1 where the second has.
pub memcmp-Compared :
    (m : Memory) (a b n : ℕ) → Compared ltb m a b n (Agree m a b n) (memcmp m a b n)
unfolding memcmp
memcmp-Compared m a b zero = inl (refl, λ i l. absurd (omega arith))
memcmp-Compared m a b (suc n) = elim (Bool-cases (ltb (m a) (m b))) [
  | inl lt ↦ rw lt (inr (inl (refl, Below-here ltb m a b n lt)))
  | inr ge ↦ elim (Bool-cases (ltb (m b) (m a))) [
    | inl gt ↦ rw (ge, gt) (inr (inr (refl, Below-here ltb m b a n gt)))
    | inr le ↦
        let e : m a ≡ m b = ground arith in
        rw (ge, le)
          (Compared-cons ltb m a b n _ _ _ e (Agree-cons m a b n e)
            (memcmp-Compared m (a + 1) (b + 1) n))
  ]
]

-- Bytes whose order neither way round is strict are the same.
char_eq : (a b : ℕ) → a < 256 → b < 256 → char_ltb a b ≡ false → char_ltb b a ≡ false → a ≡ b
char_eq a b ha hb p q = ground arith

Agree-one : (m : Memory) (a b : ℕ) → m a ≡ m b → Agree m a b 1
Agree-one m a b h = Agree-cons m a b 0 h (λ i l. absurd (omega arith))

-- What `strcmp` returns at a first string of `k` characters.
abbrev Outcome : ℕ → Memory → ℕ → ℕ → ℕ → Type 0
Outcome f m a b k =
    (r : ℤ) × (strcmp f m a b ≡ some r) × Compared char_ltb m a b (suc k) (Agree m a b (suc k)) r

-- With more rounds than the first string has characters `strcmp` returns a result, which compares by
-- the first character that differs, in the order of signed `char`: 0 exactly for equal strings.
pub strcmp-Compared :
    (f : ℕ) (m : Memory) (a b k : ℕ)
    → IsBytes m
    → IsString m a k
    → k < f
    → (r : ℤ) × (strcmp f m a b ≡ some r) × Compared char_ltb m a b (suc k) (Agree m a b (suc k)) r
unfolding strcmp
strcmp-Compared zero m a b k bytes is lt = absurd (omega arith)
strcmp-Compared (suc f) m a b k bytes is lt = elim (Bool-cases (char_ltb (m a) (m b))) [
  | inl less ↦ (negsuc 0, ground arith, inr (inl (refl, Below-here char_ltb m a b k less)))
  | inr ge ↦ elim (Bool-cases (char_ltb (m b) (m a))) [
    | inl more ↦ (pos 1, ground arith, inr (inr (refl, Below-here char_ltb m b a k more)))
    | inr le ↦
        same f k (char_eq (m a) (m b) (bytes a) (bytes b) ge le) is lt
          (λ k' is' lt'. strcmp-Compared f m (a + 1) (b + 1) k' bytes is' lt')
  ]
]
  where
    same :
        (f k : ℕ)
        → m a ≡ m b
        → IsString m a k
        → k < suc f
        → ((k' : ℕ) → IsString m (a + 1) k' → k' < f → Outcome f m (a + 1) (b + 1) k')
        → Outcome (suc f) m a b k
    same f zero e is lt rest = (pos 0, ground (arith, is.ends), inl (refl, Agree-one m a b e))
    same f (suc k) e is lt rest =
        let (r, run, cmp) = rest k (IsString-next m a k is) (omega arith) in
        (
          r,
          ground (arith, is.before 0),
          Compared-cons char_ltb m a b (suc k) _ _ r e (Agree-cons m a b (suc k) e) cmp,
        )

-- For a second string with no terminator among its first `n` characters, `strncmp` is zero exactly
-- when the first `n` characters agree.
pub strncmp-zero_iff :
    (m : Memory) (a b n : ℕ)
    → ((i : ℕ) → i < n → m (b + i) ≢ 0)
    → (is_zero (strncmp m a b n) ≡ true) ↔ Agree m a b n
unfolding strncmp
strncmp-zero_iff m a b zero full = (λ h i l. absurd (omega arith), λ h. refl)
strncmp-zero_iff m a b (suc n) full =
    let ih = strncmp-zero_iff m (a + 1) (b + 1) n (λ i l. ground (arith, full (i + 1))) in
    elim (Bool-cases (m a == m b)) [
      | inl eq ↦
          let e : m a ≡ m b = ground arith in
          (
            λ h. Agree-cons m a b n e (ih.0 (ground (arith, full 0))),
            λ h. ground (arith, full 0, ih.1 (λ i l. ground (arith, h (i + 1)))),
          )
      | inr ne ↦ (λ h. absurd (ground arith), λ h. absurd (ground (arith, h 0)))
    ]
