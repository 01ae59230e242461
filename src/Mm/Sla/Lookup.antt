-- ===== src/Mm/Sla/Lookup.antt =====
-- The places of the sparse linear array: different indices have different ones.
use boron.Prelude.{
  ℕ, zero, suc, ◌+◌, ◌-◌, ◌*◌, ◌/◌, ◌%◌, ◌^◌, ◌≤◌, ◌<◌, ◌≡◌, ◌≢◌, ◌∙◌, refl, sym, ap, true, false,
  arith, some, none, ltb, ◌==◌, if◌then◌else◌, Bool-cases, ℕ_discrete, inl, inr,
}
use boron.Mm.Sla.{
  find_level, locate, Slot, invalid, data_page, pfn_page, walk, put, walk_modify,
  direct_entry_count, no_data,
}

-- How many indices stand before level `L`, from `level` on.
abbrev skipped : ℕ → ℕ → ℕ → ℕ → ℕ
skipped zero level max L = 0
skipped (suc n) level max L =
    let rest = skipped n (suc level) (max * 1024) L in if level == L then 0 else max + rest

find_level_lem :
    (n level i max L a : ℕ)
    → find_level n level i max ≡ some (L, a)
    → (level ≤ L) × (i ≡ a + skipped n level max L)
find_level_lem zero level i max L a e = absurd (ground (arith, e))
find_level_lem (suc n) level i max L a e = elim (Bool-cases (ltb i max)) [
  | inl here ↦ (ground (arith, e, here), ground (arith, e, here))
  | inr later ↦
      let rest =
        find_level_lem n (suc level) (i - max) (max * 1024) L a (sym (rw later refl) ∙ e) in
      (ground (arith, rest.0), ground (arith, later, rest.0, rest.1))
]

-- The index is the one in the level and those before the level.
pub locate_inj :
    (x y L a : ℕ)
    → direct_entry_count ≤ x
    → direct_entry_count ≤ y
    → locate x ≡ some (L, a)
    → locate y ≡ some (L, a)
    → x ≡ y
locate_inj x y L a hx hy ex ey =
    let rx = (find_level_lem 4 0 (x - direct_entry_count) 512 L a ex).1 in
    let ry = (find_level_lem 4 0 (y - direct_entry_count) 512 L a ey).1 in
    let same : x - direct_entry_count ≡ y - direct_entry_count = rx ∙ sym ry in
    omega (arith, same, hx, hy)

-- The number of indices that the array has.
abbrev pub capacity : ℕ
capacity = 64 + 512 + 512 * 1024 + 512 * 1024 ^ 2 + 512 * 1024 ^ 3

pub locate_lem :
    (x : ℕ)
    → x < capacity
    → (L : ℕ) × (a : ℕ) × (locate x ≡ some (L, a)) × (L < 4) × (a < 512 * 1024 ^ L)
locate_lem x h = elim (Bool-cases (ltb (x - 64) 512)) [
  | inl a ↦ (0, x - 64, rw a refl, omega arith, ground (arith, a))
  | inr a ↦ elim (Bool-cases (ltb (x - 64 - 512) 524288)) [
    | inl b ↦ (1, x - 64 - 512, rw (a, b) refl, omega arith, ground (arith, b))
    | inr b ↦ elim (Bool-cases (ltb (x - 64 - 512 - 524288) 536870912)) [
      | inl c ↦ (2, x - 64 - 512 - 524288, rw (a, b, c) refl, omega arith, ground (arith, c))
      | inr c ↦
          let d : ltb (x - 64 - 512 - 524288 - 536870912) 549755813888 ≡ true =
            ground (arith, a, b, c, h) in
          (
            3,
            x - 64 - 512 - 524288 - 536870912,
            rw (a, b, c, d) refl,
            omega arith,
            ground (arith, d),
          )
    ]
  ]
]

pub locate-none : (x : ℕ) → capacity ≤ x → locate x ≡ none
locate-none x h =
    let a : ltb (x - 64) 512 ≡ false = ground (arith, h) in
    let b : ltb (x - 64 - 512) 524288 ≡ false = ground (arith, h) in
    let c : ltb (x - 64 - 512 - 524288) 536870912 ≡ false = ground (arith, h) in
    let d : ltb (x - 64 - 512 - 524288 - 536870912) 549755813888 ≡ false = ground (arith, h) in
    rw (a, b, c, d) refl

pub walk_invalid : (l i : ℕ) → walk l invalid i ≡ no_data
walk_invalid zero i = refl
walk_invalid (suc l) i = refl

-- Two indices with the same place in a page differ in the page.
digits : (i j : ℕ) → j % 1024 ≡ i % 1024 → (j == i) ≡ (j / 1024 == i / 1024)
digits i j e = elim (ℕ_discrete j i) [
  | yes same ↦ ground (arith, same, ap (λ z. z / 1024) same)
  | no ne ↦
      let high : j / 1024 ≢ i / 1024 = λ h. ne (omega (arith, h, e)) in ground (arith, ne, high)
]

-- One level up from a slot that has been written to at `i / 1024`.
walk-put :
    (l : ℕ) (p : ℕ → Slot) (c : Slot) (i j v : ℕ)
    → walk l c (j / 1024) ≡ (if j / 1024 == i / 1024 then v else walk l (p (i % 1024)) (j / 1024))
    → walk l (put p (i % 1024) c (j % 1024)) (j / 1024)
      ≡ (if j == i then v else walk l (p (j % 1024)) (j / 1024))
walk-put l p c i j v below = elim (ℕ_discrete (j % 1024) (i % 1024)) [
  | yes e ↦
      let same : (j == i) ≡ (j / 1024 == i / 1024) = digits i j e in
      ap (λ z. walk l z (j / 1024)) (ground (arith, e))
      ∙ below
      ∙ ap (λ z. if z then v else walk l (p (i % 1024)) (j / 1024)) (sym same)
      ∙ ap (λ z. if j == i then v else walk l (p z) (j / 1024)) (sym e)
  | no ne ↦
      let other : (j == i) ≡ false = ground (arith, ne) in
      ap (λ z. walk l z (j / 1024)) (ground (arith, ne))
      ∙ ap (λ z. if z then v else walk l (p (j % 1024)) (j / 1024)) (sym other)
]

-- What the slot holds at each index after a write at one.
pub walk-walk_modify :
    (l : ℕ) (s : Slot) (i j v free : ℕ)
    → (walk_modify l s i v free).ok ≡ true
    → walk l (walk_modify l s i v free).slot j ≡ (if j == i then v else walk l s j)
walk-walk_modify zero invalid i j v zero ok = absurd (ground (arith, ok))
walk-walk_modify zero invalid i j v (suc free) ok = refl
walk-walk_modify zero (data_page p) i j v free ok = refl
walk-walk_modify zero (pfn_page p) i j v free ok = absurd (ground (arith, ok))
walk-walk_modify (suc l) invalid i j v zero ok = absurd (ground (arith, ok))
walk-walk_modify (suc l) invalid i j v (suc free) ok =
    walk-put l (λ x. invalid) (walk_modify l invalid (i / 1024) v free).slot i j v
      (walk-walk_modify l invalid (i / 1024) (j / 1024) v free ok)
    ∙ ap (λ z. if j == i then v else z) (walk_invalid l (j / 1024))
walk-walk_modify (suc l) (pfn_page p) i j v free ok =
    walk-put l p (walk_modify l (p (i % 1024)) (i / 1024) v free).slot i j v
      (walk-walk_modify l (p (i % 1024)) (i / 1024) (j / 1024) v free ok)
walk-walk_modify (suc l) (data_page p) i j v free ok = absurd (ground (arith, ok))

-- One level up from a slot that reads as before.
pub walk-put_same :
    (l : ℕ) (p : ℕ → Slot) (c : Slot) (i j : ℕ)
    → ((k : ℕ) → walk l c k ≡ walk l (p (i % 1024)) k)
    → walk l (put p (i % 1024) c (j % 1024)) (j / 1024) ≡ walk l (p (j % 1024)) (j / 1024)
walk-put_same l p c i j below = elim (ℕ_discrete (j % 1024) (i % 1024)) [
  | yes e ↦
      ap (λ z. walk l z (j / 1024)) (ground (arith, e))
      ∙ below (j / 1024)
      ∙ ap (λ z. walk l (p z) (j / 1024)) (sym e)
  | no ne ↦ ap (λ z. walk l z (j / 1024)) (ground (arith, ne))
]
