-- ===== src/Rtl/Str/Search.antt =====
-- `strstr` and the search that ignores case.
use boron.Prelude.{
  ℕ, zero, suc, ◌+◌, ◌-◌, ◌<◌, ◌≤◌, ◌≡◌, ◌↔◌, inl, inr, refl, some, none, true, false, arith, ◌==◌,
  Bool, Bool-cases, Option,
}
use boron.Prelude.Memory.{Memory}
use boron.Rtl.Str.{
  strncmp, is_zero, strlen, strstr_loop, strstr, upper_case, string_matches_case_insensitive,
  string_contains_loop, string_contains_case_insensitive,
}
use boron.Rtl.Str.Length.{IsString, IsString-next, strlen_iff}
use boron.Rtl.Str.Compare.{Agree, strncmp-zero_iff}

-- The first of the `h` places from `haystack` on at which the `n` characters of `needle` stand.
abbrev pub FirstMatch : Memory → ℕ → ℕ → ℕ → ℕ → Option ℕ → Type 0
FirstMatch m haystack needle n h none = (i : ℕ) → i < h → ¬ Agree m (haystack + i) needle n
FirstMatch m haystack needle n h (some p) =
    (i : ℕ) × (i < h)
    × (p ≡ haystack + i)
    × Agree m p needle n
    × ((j : ℕ) → j < i → ¬ Agree m (haystack + j) needle n)

Miss-cons :
    (m : Memory) (a needle n h : ℕ)
    → (¬ Agree m a needle n)
    → ((i : ℕ) → i < h → ¬ Agree m (a + 1 + i) needle n)
    → (i : ℕ) → i < suc h
    → ¬ Agree m (a + i) needle n
Miss-cons m a needle n h miss f zero lt = λ g. miss (λ i l. ground (arith, g i))
Miss-cons m a needle n h miss f (suc i) lt = λ g. f i (omega arith) (λ j l. ground (arith, g j))

FirstMatch-cons :
    (m : Memory) (a needle n h : ℕ) (r : Option ℕ)
    → (¬ Agree m a needle n)
    → FirstMatch m (a + 1) needle n h r
    → FirstMatch m a needle n (suc h) r
FirstMatch-cons m a needle n h none miss f = λ i lt. Miss-cons m a needle n h miss f i lt
FirstMatch-cons m a needle n h (some p) miss (i, lt, e, at, before) =
    (suc i, omega arith, omega arith, at, Miss-cons m a needle n i miss before)

strstr_loop-FirstMatch :
    (f fuel : ℕ) (m : Memory) (a needle n h : ℕ)
    → IsString m a h
    → IsString m needle n
    → h < f
    → n < fuel
    → (r : Option ℕ) × (strstr_loop f fuel m a needle ≡ some r) × FirstMatch m a needle n h r
unfolding strstr_loop
strstr_loop-FirstMatch zero fuel m a needle n h is key lt more = absurd (omega arith)
strstr_loop-FirstMatch (suc f) fuel m a needle n zero is key lt more =
    (none, ground (arith, is.ends), λ i l. absurd (omega arith))
strstr_loop-FirstMatch (suc f) fuel m a needle n (suc h) is key lt more =
    let size : strlen fuel m needle ≡ some n = (strlen_iff fuel m needle n).1 (key, more) in
    let there : (m a == 0) ≡ false = ground (arith, is.before 0) in
    let same = strncmp-zero_iff m a needle n key.before in
    elim (Bool-cases (is_zero (strncmp m a needle n))) [
      | inl hit ↦ (
        some a,
        rw (there, size, hit),
        (0, omega arith, omega arith, same.0 hit, λ j l. absurd (omega arith)),
      )
      | inr miss ↦
          let (r, run, found) =
            strstr_loop-FirstMatch f fuel m (a + 1) needle n h (IsString-next m a h is) key
              (omega arith) more in
          (
            r,
            rw (there, size, miss) run,
            FirstMatch-cons m a needle n h r (λ g. ground (arith, same.1 g)) found,
          )
    ]

-- With more rounds than either string has characters, `strstr` returns the first place among the
-- characters of `haystack` at which `needle` stands, and NULL exactly when there is none.
pub strstr-FirstMatch :
    (f : ℕ) (m : Memory) (haystack needle h n : ℕ)
    → IsString m haystack h
    → IsString m needle n
    → h < f
    → n < f
    → (r : Option ℕ) × (strstr f m haystack needle ≡ some r) × FirstMatch m haystack needle n h r
unfolding strstr
strstr-FirstMatch f m haystack needle h n is key lt more =
    strstr_loop-FirstMatch f f m haystack needle n h is key lt more

-- The `n` characters from `a` and from `b` on are the same up to case.
abbrev pub AgreeUpper : Memory → ℕ → ℕ → ℕ → Type 0
AgreeUpper m a b n = (i : ℕ) → i < n → upper_case (m (a + i)) ≡ upper_case (m (b + i))

AgreeUpper-cons :
    (m : Memory) (a b n : ℕ)
    → upper_case (m a) ≡ upper_case (m b)
    → AgreeUpper m (a + 1) (b + 1) n
    → AgreeUpper m a b (suc n)
AgreeUpper-cons m a b n e h zero lt = ground arith
AgreeUpper-cons m a b n e h (suc i) lt = ground (arith, h i)

matches_iff :
    (m : Memory) (a b n : ℕ) → (string_matches_case_insensitive m a b n ≡ true) ↔ AgreeUpper m a b n
unfolding string_matches_case_insensitive
matches_iff m a b zero = (λ h i l. absurd (omega arith), λ h. refl)
matches_iff m a b (suc n) =
    let ih = matches_iff m (a + 1) (b + 1) n in
    elim (Bool-cases (upper_case (m a) == upper_case (m b))) [
      | inl eq ↦ (
        λ h. AgreeUpper-cons m a b n (ground arith) (ih.0 (ground arith)),
        λ h. ground (arith, ih.1 (λ i l. ground (arith, h (i + 1)))),
      )
      | inr ne ↦ (λ h. absurd (ground arith), λ h. absurd (ground (arith, h 0)))
    ]

contains_loop_iff :
    (left : ℕ) (m : Memory) (at needle n : ℕ)
    → (string_contains_loop left m at needle n ≡ true)
      ↔ ((i : ℕ) × (i < left) × AgreeUpper m (at + i) needle n)
unfolding string_contains_loop
contains_loop_iff zero m at needle n = (λ h. absurd (cc), λ h. absurd (omega (arith, h.1)))
contains_loop_iff (suc left) m at needle n =
    let here = matches_iff m at needle n in
    let later = contains_loop_iff left m (at + 1) needle n in
    elim (Bool-cases (string_matches_case_insensitive m at needle n)) [
      | inl hit ↦ (λ h. (0, omega arith, λ i l. ground (arith, here.0 hit i)), λ h. rw hit)
      | inr miss ↦ (
        λ h. forward (later.0 (rw miss at h)),
        λ (i, l, g). rw miss (back (λ e. ground (arith, here.1 e)) later.1 i l g),
      )
    ]
  where
    forward :
        ((i : ℕ) × (i < left) × AgreeUpper m (at + 1 + i) needle n)
        → (i : ℕ) × (i < suc left) × AgreeUpper m (at + i) needle n
    forward (i, l, g) = (suc i, omega arith, λ j k. ground (arith, g j))

    back :
        (AgreeUpper m at needle n → ⊥)
        → (((i : ℕ) × (i < left) × AgreeUpper m (at + 1 + i) needle n)
            → string_contains_loop left m (at + 1) needle n ≡ true)
        → (i : ℕ) → i < suc left
        → AgreeUpper m (at + i) needle n
        → string_contains_loop left m (at + 1) needle n ≡ true
    back miss rest zero l g = absurd (miss (λ i l. ground (arith, g i)))
    back miss rest (suc i) l g = rest (i, omega arith, λ j k. ground (arith, g j))

-- The search that ignores case returns, and says yes exactly when some place in `haystack` that
-- leaves room for `needle` has its characters up to case.
pub string_contains_iff :
    (f : ℕ) (m : Memory) (haystack needle h n : ℕ)
    → IsString m haystack h
    → IsString m needle n
    → h < f
    → n < f
    → (b : Bool) × (string_contains_case_insensitive f m haystack needle ≡ some b)
      × ((b ≡ true) ↔ ((i : ℕ) × (i + n ≤ h) × AgreeUpper m (haystack + i) needle n))
unfolding string_contains_case_insensitive
string_contains_iff f m haystack needle h n is key lt more =
    let loop = contains_loop_iff (h + 1 - n) m haystack needle n in
    (
      string_contains_loop (h + 1 - n) m haystack needle n,
      rw ((strlen_iff f m needle n).1 (key, more), (strlen_iff f m haystack h).1 (is, lt)),
      (
        λ e. let (i, l, g) = loop.0 e in (i, omega arith, g),
        λ (i, l, g). loop.1 (i, omega arith, g),
      ),
    )
