-- ===== src/Mm/Sla/Map.antt =====
-- `MmAssignEntrySlaEx` and `MmLookUpEntrySlaEx` as the operations of a map from indices to entries.
use boron.Prelude.{
  ℕ, ◌+◌, ◌≤◌, ◌<◌, ◌≡◌, ◌≢◌, ◌∙◌, refl, sym, subst, ap, true, false, arith, some, ltb, ◌==◌,
  if◌then◌else◌, Bool-cases, ℕ_discrete, inl, inr,
}
use boron.Mm.Sla.{
  locate, Slot, Sla, walk, put, walk_modify, direct_entry_count, no_data, out_of_memory,
  initialize_sla, look_up, assign, Written, Assigned,
}
use boron.Mm.Sla.Lookup.{
  walk_invalid, walk-walk_modify, locate_inj, locate_lem, locate-none, capacity,
}
use boron.Mm.Sla.Assign.{
  Shaped, IsSla, walk_modify-Shaped, walk_modify-Failed, walk_modify_free, invalid-Shaped,
}

-- What an assignment may make of a map, with the entry it returns and the free pages before and after.
pub data Assigns (index v free : ℕ) (m : ℕ → ℕ) (entry free' : ℕ) (m' : ℕ → ℕ) : Type 0 where
  written :
      index < capacity
      → entry ≡ v
      → free ≤ free' + 4
      → ((j : ℕ) → m' j ≡ (if j == index then v else m j))
      → Assigns index v free m entry free' m'
  no_memory :
      index < capacity
      → entry ≡ out_of_memory
      → free < 4
      → free' ≡ 0
      → ((j : ℕ) → m' j ≡ m j)
      → Assigns index v free m entry free' m'
  too_large :
      capacity ≤ index
      → entry ≡ no_data
      → free' ≡ free
      → ((j : ℕ) → m' j ≡ m j)
      → Assigns index v free m entry free' m'

look_up_direct : (s : Sla) (j : ℕ) → j < direct_entry_count → look_up s j ≡ s.direct j
unfolding look_up
look_up_direct s j h = let small : ltb j 64 ≡ true = ground (arith, h) in rw (look_up, small) refl

look_up_indirect :
    (s : Sla) (j L a : ℕ)
    → direct_entry_count ≤ j
    → locate j ≡ some (L, a)
    → look_up s j ≡ walk L (s.indirect L) a
unfolding look_up
look_up_indirect s j L a h e =
    let large : ltb j 64 ≡ false = ground (arith, h) in rw (look_up, large, e) refl

look_up_beyond : (s : Sla) (j : ℕ) → capacity ≤ j → look_up s j ≡ no_data
unfolding look_up
look_up_beyond s j h =
    let large : ltb j 64 ≡ false = ground (arith, h) in rw (look_up, large, locate-none j h) refl

-- The array reads as `f` at each index of a level, by what it holds there.
by_place :
    (s s' : Sla) (f : ℕ → ℕ → ℕ)
    → ((j : ℕ) → j < direct_entry_count → s'.direct j ≡ f j (s.direct j))
    → ((j L a : ℕ)
        → direct_entry_count ≤ j
        → locate j ≡ some (L, a)
        → walk L (s'.indirect L) a ≡ f j (walk L (s.indirect L) a))
    → ((j : ℕ) → capacity ≤ j → f j no_data ≡ no_data)
    → (j : ℕ) → look_up s' j ≡ f j (look_up s j)
by_place s s' f direct indirect beyond j = elim (Bool-cases (ltb j 64)) [
  | inl small ↦
      let h : j < direct_entry_count = ground (arith, small) in
      look_up_direct s' j h ∙ direct j h ∙ ap (f j) (sym (look_up_direct s j h))
  | inr large ↦
      let h : direct_entry_count ≤ j = ground (arith, large) in
      elim (Bool-cases (ltb j capacity)) [
        | inl inside ↦
            let (L, a, e, _, _) = locate_lem j (ground (arith, inside)) in
            look_up_indirect s' j L a h e
            ∙ indirect j L a h e
            ∙ ap (f j) (sym (look_up_indirect s j L a h e))
        | inr outside ↦
            let h' : capacity ≤ j = ground (arith, outside) in
            look_up_beyond s' j h' ∙ sym (beyond j h') ∙ ap (f j) (sym (look_up_beyond s j h'))
      ]
]

pub assign_direct :
    (s : Sla) (index v free : ℕ)
    → index < direct_entry_count
    → assign s index v free
      ≡ record { entry = v; sla = record s { direct = put s.direct index v }; free = free }
unfolding assign
assign_direct s index v free h =
    let small : ltb index 64 ≡ true = ground (arith, h) in rw (assign, small) refl

pub assign_beyond :
    (s : Sla) (index v free : ℕ)
    → capacity ≤ index
    → assign s index v free ≡ record { entry = no_data; sla = s; free = free }
unfolding assign
assign_beyond s index v free h =
    let large : ltb index 64 ≡ false = ground (arith, h) in
    rw (assign, large, locate-none index h) refl

-- Where an index behind the direct entries is.
module _ (s : Sla) (index v free L a : ℕ) (h : direct_entry_count ≤ index)
    (inside : index < capacity) (at : locate index ≡ some (L, a)) (four : L < 4)
    (shaped : IsSla s) where
  -- The array with the slot of level `L` replaced.
  abbrev pub replaced : Slot → Sla
  replaced c = record s { indirect = put s.indirect L c }

  pub assign_at :
      (λ (w : Written). assign s index v free ≡ record {
        entry = if w.ok then v else out_of_memory;
        sla = replaced w.slot;
        free = w.free;
      })
        (walk_modify L (s.indirect L) a v free)
  unfolding assign
  assign_at = let large : ltb index 64 ≡ false = ground (arith, h) in rw (assign, large, at) refl

  replaced-IsSla : (c : Slot) → Shaped L c → IsSla (replaced c)
  replaced-IsSla c hc l = elim (ℕ_discrete l L) [
    | yes e ↦ rw e (subst (Shaped L) (ground arith) hc)
    | no ne ↦ subst (Shaped l) (ground (arith, ne)) (shaped l)
  ]

  there : (c : Slot) (M b : ℕ) → M ≡ L → walk M (put s.indirect L c M) b ≡ walk L c b
  there c M b e = rw e (ap (λ z. walk L z b) (ground arith))

  same_place :
      (j M b : ℕ) → direct_entry_count ≤ j → locate j ≡ some (M, b) → j ≡ index → (M ≡ L) × (b ≡ a)
  same_place j M b hj e same =
      let pair : some (M, b) ≡ some (L, a) = sym e ∙ ap locate same ∙ at in
      (ground (arith, pair), ground (arith, pair))

  place :
      (j M b : ℕ)
      → direct_entry_count ≤ j
      → locate j ≡ some (M, b)
      → M ≡ L
      → (j == index) ≡ (b == a)
  place j M b hj e same = elim (ℕ_discrete b a) [
    | yes eq' ↦
        let j' : j ≡ index =
          locate_inj j index L a hj h (e ∙ ap (λ z. some (z, b)) same ∙ ap (λ z. some (L, z)) eq')
            at in
        ground (arith, j', eq')
    | no ne ↦
        let other : j ≢ index = λ q. ne (same_place j M b hj e q).1 in ground (arith, other, ne)
  ]

  reads_written :
      (c : Slot)
      → ((j : ℕ) → walk L c j ≡ (if j == a then v else walk L (s.indirect L) j))
      → (j : ℕ) → look_up (replaced c) j ≡ (if j == index then v else look_up s j)
  reads_written c wrote =
      by_place s (replaced c) (λ j x. if j == index then v else x) (λ j hj. ground (arith, h, hj))
        (λ j M b hj e. elim (ℕ_discrete M L) [
          | yes same ↦
              there c M b same
              ∙ wrote b
              ∙ ap (λ z. if z then v else walk L (s.indirect L) b) (sym (place j M b hj e same))
              ∙ ap (λ z. if j == index then v else walk z (s.indirect z) b) (sym same)
          | no ne ↦
              let apart : j ≢ index = λ q. ne (same_place j M b hj e q).0 in
              let other : (j == index) ≡ false = ground (arith, apart) in
              ap (λ z. walk M z b) (ground (arith, ne))
              ∙ ap (λ z. if z then v else walk M (s.indirect M) b) (sym other)
        ])
        (λ j hj. ground (arith, hj, inside))

  reads_same :
      (c : Slot)
      → ((j : ℕ) → walk L c j ≡ walk L (s.indirect L) j)
      → (j : ℕ) → look_up (replaced c) j ≡ look_up s j
  reads_same c same =
      by_place s (replaced c) (λ j x. x) (λ j hj. refl)
        (λ j M b hj e. elim (ℕ_discrete M L) [
          | yes e' ↦ there c M b e' ∙ same b ∙ ap (λ z. walk z (s.indirect z) b) (sym e')
          | no ne ↦ ap (λ z. walk M z b) (ground (arith, ne))
        ])
        (λ j hj. refl)

  assign-Assigns_at :
      IsSla (assign s index v free).sla
      × Assigns index v free
          (look_up s)
          (assign s index v free).entry
          (assign s index v free).free
          (look_up (assign s index v free).sla)
  assign-Assigns_at =
      let w = walk_modify L (s.indirect L) a v free in
      let kept = replaced-IsSla w.slot (walk_modify-Shaped L (s.indirect L) a v free (shaped L)) in
      subst
        (λ (r : Assigned).
          IsSla r.sla × Assigns index v free (look_up s) r.entry r.free (look_up r.sla))
        (sym assign_at)
        (
          kept,
          elim (Bool-cases w.ok) [
            | inl ok ↦
                let taken = walk_modify_free L (s.indirect L) a v free in
                written inside (ap (λ z. if z then v else out_of_memory) ok)
                  (omega (arith, taken, four))
                  (reads_written w.slot (λ j. walk-walk_modify L (s.indirect L) a j v free ok))
            | inr failed ↦
                let (few, none', same) =
                  walk_modify-Failed L (s.indirect L) a v free (shaped L) failed in
                no_memory inside (ap (λ z. if z then v else out_of_memory) failed)
                  (omega (arith, few, four)) none' (reads_same w.slot same)
          ],
        )

-- `MmAssignEntrySlaEx` on a well-formed array, where no page that it is given is a standby page
-- whose prototype pointer lies in the array, keeps it well formed and refines the assignment of a
-- map: it writes the entry and no other, or returns that there is no memory, with fewer than four
-- pages free, or no such index, and no entry has changed.
pub assign-Assigns :
    (s : Sla) (index v free : ℕ)
    → IsSla s
    → IsSla (assign s index v free).sla
      × Assigns index v free
          (look_up s)
          (assign s index v free).entry
          (assign s index v free).free
          (look_up (assign s index v free).sla)
assign-Assigns s index v free shaped = elim (Bool-cases (ltb index 64)) [
  | inl small ↦
      let direct' : Sla = record s { direct = put s.direct index v } in
      let h : index < direct_entry_count = ground (arith, small) in
      subst
        (λ (r : Assigned).
          IsSla r.sla × Assigns index v free (look_up s) r.entry r.free (look_up r.sla))
        (sym (assign_direct s index v free h))
        (
          shaped,
          written (omega (arith, h)) refl (omega arith) (
              by_place s direct' (λ j x. if j == index then v else x) (λ j hj. refl)
                (λ j L a hj e. ground (arith, hj, h)) (λ j hj. ground (arith, hj, h))),
        )
  | inr large ↦
      let h : direct_entry_count ≤ index = ground (arith, large) in
      elim (Bool-cases (ltb index capacity)) [
        | inl inside ↦
            let (L, a, at, four, _) = locate_lem index (ground (arith, inside)) in
            assign-Assigns_at s index v free L a h (ground (arith, inside)) at four shaped
        | inr outside ↦
            subst
              (λ (r : Assigned).
                IsSla r.sla × Assigns index v free (look_up s) r.entry r.free (look_up r.sla))
              (sym (assign_beyond s index v free (ground (arith, outside))))
              (shaped, too_large (ground (arith, outside)) refl refl (λ j. refl))
      ]
]

-- A new array has no data anywhere.
pub initialize_sla-IsSla : IsSla initialize_sla × ((j : ℕ) → look_up initialize_sla j ≡ no_data)
unfolding initialize_sla
initialize_sla-IsSla = (
  (λ l. invalid-Shaped l),
  λ j. elim (Bool-cases (ltb j 64)) [
    | inl small ↦ look_up_direct initialize_sla j (ground (arith, small))
    | inr large ↦ elim (Bool-cases (ltb j capacity)) [
      | inl inside ↦
          let (L, a, at, _, _) = locate_lem j (ground (arith, inside)) in
          look_up_indirect initialize_sla j L a (ground (arith, large)) at ∙ walk_invalid L a
      | inr outside ↦ look_up_beyond initialize_sla j (ground (arith, outside))
    ]
  ],
)
