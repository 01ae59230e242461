-- ===== src/Mm/Sla/Assign.antt =====
-- The walk of `MmAssignEntrySlaEx` down the pages: their kinds, and what a failure leaves.
use boron.Prelude.{
  ℕ, zero, suc, ◌+◌, ◌/◌, ◌%◌, ◌≤◌, ◌≡◌, ◌∙◌, refl, false, arith, ◌==◌, Bool-cases, inl, inr,
}
use boron.Mm.Sla.{Slot, invalid, data_page, pfn_page, Sla, walk, put, walk_modify, Written}
use boron.Mm.Sla.Lookup.{walk-put_same, walk_invalid}

-- The pages are of the kind that their level calls for.
abbrev pub Shaped : ℕ → Slot → Type 0
Shaped l invalid = Unit {0}
Shaped zero (data_page p) = Unit {0}
Shaped (suc l) (pfn_page p) = (i : ℕ) → Shaped l (p i)
Shaped _ _ = ⊥

abbrev pub IsSla : Sla → Type 0
IsSla s = (l : ℕ) → Shaped l (s.indirect l)

put-Shaped :
    (l : ℕ) (p : ℕ → Slot) (k : ℕ) (c : Slot)
    → ((i : ℕ) → Shaped l (p i))
    → Shaped l c
    → (i : ℕ) → Shaped l (put p k c i)
put-Shaped l p k c h hc i = elim (Bool-cases (i == k)) [ inl e ↦ rw e hc | inr e ↦ rw e (h i) ]

pub invalid-Shaped : (l : ℕ) → Shaped l invalid
invalid-Shaped zero = tt
invalid-Shaped (suc l) = tt

pub walk_modify-Shaped :
    (l : ℕ) (s : Slot) (i v free : ℕ) → Shaped l s → Shaped l (walk_modify l s i v free).slot
walk_modify-Shaped zero invalid i v zero h = tt
walk_modify-Shaped zero invalid i v (suc free) h = tt
walk_modify-Shaped zero (data_page p) i v free h = tt
walk_modify-Shaped zero (pfn_page p) i v free h = absurd h
walk_modify-Shaped (suc l) invalid i v zero h = tt
walk_modify-Shaped (suc l) invalid i v (suc free) h =
    put-Shaped l (λ x. invalid) (i % 1024) (walk_modify l invalid (i / 1024) v free).slot
      (λ x. invalid-Shaped l) (walk_modify-Shaped l invalid (i / 1024) v free (invalid-Shaped l))
walk_modify-Shaped (suc l) (pfn_page p) i v free h =
    put-Shaped l p (i % 1024) (walk_modify l (p (i % 1024)) (i / 1024) v free).slot h
      (walk_modify-Shaped l (p (i % 1024)) (i / 1024) v free (h (i % 1024)))
walk_modify-Shaped (suc l) (data_page p) i v free h = absurd h

-- A walk without memory has taken all there was, and reads as before.
abbrev pub Failed : ℕ → Slot → ℕ → Written → Type 0
Failed l s free w = (free ≤ l) × (w.free ≡ 0) × ((j : ℕ) → walk l w.slot j ≡ walk l s j)

pub walk_modify-Failed :
    (l : ℕ) (s : Slot) (i v free : ℕ)
    → Shaped l s
    → (walk_modify l s i v free).ok ≡ false
    → Failed l s free (walk_modify l s i v free)
walk_modify-Failed zero invalid i v zero h ok = (omega arith, refl, λ j. refl)
walk_modify-Failed zero invalid i v (suc free) h ok = absurd (ground (arith, ok))
walk_modify-Failed zero (data_page p) i v free h ok = absurd (ground (arith, ok))
walk_modify-Failed zero (pfn_page p) i v free h ok = absurd h
walk_modify-Failed (suc l) invalid i v zero h ok = (omega arith, refl, λ j. refl)
walk_modify-Failed (suc l) invalid i v (suc free) h ok =
    let (few, none', same) = walk_modify-Failed l invalid (i / 1024) v free (invalid-Shaped l) ok in
    (
      omega (arith, few),
      none',
      λ j.
          walk-put_same l (λ x. invalid) (walk_modify l invalid (i / 1024) v free).slot i j same
          ∙ walk_invalid l (j / 1024),
    )
walk_modify-Failed (suc l) (pfn_page p) i v free h ok =
    let (few, none', same) =
      walk_modify-Failed l (p (i % 1024)) (i / 1024) v free (h (i % 1024)) ok in
    (
      omega (arith, few),
      none',
      λ j. walk-put_same l p (walk_modify l (p (i % 1024)) (i / 1024) v free).slot i j same,
    )
walk_modify-Failed (suc l) (data_page p) i v free h ok = absurd h

-- A walk takes at most one page for each level.
pub walk_modify_free :
    (l : ℕ) (s : Slot) (i v free : ℕ) → free ≤ (walk_modify l s i v free).free + suc l
walk_modify_free zero invalid i v zero = omega arith
walk_modify_free zero invalid i v (suc free) = omega arith
walk_modify_free zero (data_page p) i v free = omega arith
walk_modify_free zero (pfn_page p) i v free = omega arith
walk_modify_free (suc l) invalid i v zero = omega arith
walk_modify_free (suc l) invalid i v (suc free) =
    let rest = walk_modify_free l invalid (i / 1024) v free in omega (arith, rest)
walk_modify_free (suc l) (pfn_page p) i v free =
    let rest = walk_modify_free l (p (i % 1024)) (i / 1024) v free in omega (arith, rest)
walk_modify_free (suc l) (data_page p) i v free = omega arith
