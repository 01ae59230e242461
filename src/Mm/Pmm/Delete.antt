-- ===== src/Mm/Pmm/Delete.antt =====
-- boron/source/mm/pmm.c: a page is taken out of one of the lists.
use boron.Prelude.{
  count, count-append, if-both_two, ℕ, ◌+◌, ◌<◌, ◌≤◌, ◌≡◌, sym, ap, ◌∙◌, arith, List, ◌∷◌, ◌++◌,
  if-both, subst,
}
use boron.Mm.Pmm.{
  PageFrame, Ends, PageList, modified_list, same_list, set_ends, unlink_pfn,
  ensure_pfn_isnt_ends_of_list,
}
use boron.Mm.Pmm.Link.{Chain, SameLinks, unlink_pfn-next, unlink_pfn-prev}
use boron.Mm.Pmm.Unlink.{IsNot-first, IsNot-last, Place, Chain-Place, unlink_pfn-Chain}
use boron.Mm.Pmm.Lists.{
  IsLists, set_list, Outside, IsLists-disjoint, Chain-same, unlink_pfn-SameBody, same_list-eq,
}

-- The frame of a page that is none of the neighbours keeps its links.
unlink_pfn-other :
    (f : ℕ → PageFrame) (xs : List ℕ) (x : ℕ) (ys : List ℕ) (z : ℕ)
    → Place f xs x ys
    → count z xs ≡ 0
    → count z ys ≡ 0
    → SameLinks (unlink_pfn f x z) (f z)
unlink_pfn-other f xs x ys z p a b = (
  ground (arith, unlink_pfn-prev f x z p.next_ne, p.next, IsNot-first z ys b),
  ground (arith, unlink_pfn-next f x z p.next_ne, p.prev, IsNot-last z xs a),
)

-- The ends after a removal.
abbrev pub removed_ends : (ℕ → PageFrame) → (PageList → Ends) → PageList → ℕ → PageList → Ends
removed_ends f ends k x =
    set_ends ends k (ensure_pfn_isnt_ends_of_list (ends k) (unlink_pfn f x x) x)

module _ (f : ℕ → PageFrame) (ends : PageList → Ends) (v : PageList → List ℕ) (k : PageList)
    (xs : List ℕ) (x : ℕ) (ys : List ℕ) (i : IsLists f ends v) (here : v k ≡ xs ++ (x ∷ ys)) where
  once_here : (z : ℕ) → count z (xs ++ (x ∷ ys)) ≤ 1
  once_here z = subst (λ l. count z l ≤ 1) here (i.once k z)

  here-Chain : Chain f (ends k) (xs ++ (x ∷ ys))
  here-Chain = subst (Chain f (ends k)) here (i.chain k)

  count_here : (z : ℕ) → count z (v k) ≡ count z xs + count z (x ∷ ys)
  count_here z = ap (count z) here ∙ count-append z xs (x ∷ ys)

  pub removed-Place : Place f xs x ys
  removed-Place = Chain-Place f (ends k) xs x ys here-Chain once_here

  pub delete-Outside : Outside (set_list v k (xs ++ ys)) x
  delete-Outside j =
      if-both (λ l. count x l ≡ 0) (same_list j k) _ _
        (λ b. ground (arith, count-append x xs ys, count_here x, i.once k x))
        (λ b. IsLists-disjoint f ends v j k x i b (ground (arith, count_here x)))

  smaller : (j : PageList) (z : ℕ) → 0 < count z (set_list v k (xs ++ ys) j) → 0 < count z (v j)
  smaller j z =
      if-both (λ l. 0 < count z l → 0 < count z (v j)) (same_list j k) _ _
        (λ b h.
          subst (λ l. 0 < count z (v l)) (sym (same_list-eq j k b))
            (ground (arith, h, count-append z xs ys, count_here z)))
        (λ b h. h)

  pub delete-IsLists : IsLists (unlink_pfn f x) (removed_ends f ends k x) (set_list v k (xs ++ ys))
  delete-IsLists = record {
    chain = λ j.
        if-both_two (Chain (unlink_pfn f x)) (same_list j k) _ _ _ _
          (λ b. unlink_pfn-Chain f (ends k) xs x ys here-Chain once_here)
          (λ b.
            Chain-same f (unlink_pfn f x) (ends j) (v j)
              (λ z h.
                let none = IsLists-disjoint f ends v k j z i (ground (arith, b)) h in
                unlink_pfn-other f xs x ys z removed-Place (omega (arith, none, count_here z))
                  (omega (arith, none, count_here z)))
              (i.chain j));
    once = λ j z.
        if-both (λ l. count z l ≤ 1) (same_list j k) _ _
          (λ b. ground (arith, count-append z xs ys, count_here z, i.once k z)) (λ b. i.once j z);
    typed = λ j z h. (unlink_pfn-SameBody f x z).0 ∙ i.typed j z (smaller j z h);
    idle = λ j z h. (unlink_pfn-SameBody f x z).1 ∙ i.idle j z (smaller j z h);
    flagged = λ z h. (unlink_pfn-SameBody f x z).2 ∙ i.flagged z (smaller modified_list z h);
  }
