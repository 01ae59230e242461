-- ===== src/Mm/Pmm/Insert.antt =====
-- boron/source/mm/pmm.c: a page that no list has is added to one of the lists.
use boron.Prelude.{
  count, count-append, if-both_two, ℕ, ◌<◌, ◌≤◌, ◌≡◌, ◌≢◌, refl, sym, arith, true, false, List, [],
  ◌∷◌, ◌++◌, ◌⊎◌, inl, inr, ◌==◌, if◌then◌else◌, if-both, subst, Bool-cases,
}
use boron.Ke.Dispatcher.{update}
use boron.Mm.Pmm.{
  PageFrame, Ends, PageList, modified_list, pfn_invalid, list_type, same_list, set_ends, link_pfn,
}
use boron.Mm.Pmm.Chain.{last_or-count}
use boron.Mm.Pmm.Link.{Chain, SameLinks, link_pfn-Chain, count_ne}
use boron.Mm.Pmm.Lists.{
  IsLists, set_list, Outside, IsLists-disjoint, Chain-same, link_pfn-SameBody, same_list-eq,
}

last_count :
    (f : ℕ → PageFrame) (e : Ends) (xs : List ℕ)
    → Chain f e xs
    → e.first ≢ pfn_invalid
    → 0 < count e.last xs
last_count f e [] c h = absurd (h c.first)
last_count f e (y ∷ ys) c h = subst (λ z. 0 < count z (y ∷ ys)) (sym c.last) (last_or-count y ys)

link_pfn-other :
    (f : ℕ → PageFrame) (e : Ends) (x z : ℕ)
    → z ≢ x
    → (e.first ≢ pfn_invalid → z ≢ e.last)
    → SameLinks (link_pfn f e x z) (f z)
link_pfn-other f e x z h k = (ground (arith, h, k), ground (arith, h, k))

-- What the frame of an added page has to be.
pub record IsAdded (f : ℕ → PageFrame) (e : Ends) (k : PageList) (x : ℕ) (p : PageFrame)
    : Type 0 where
  pub links : SameLinks p (link_pfn f e x x)
  pub typed : p.page_type ≡ list_type k
  pub idle : p.ref_count ≡ 0
  pub flagged : same_list modified_list k ≡ true → p.is_in_modified_page_list ≡ true

pub insert-IsLists :
    (f : ℕ → PageFrame) (ends : PageList → Ends) (v : PageList → List ℕ) (k : PageList) (x : ℕ)
    (p : PageFrame)
    → IsLists f ends v
    → Outside v x
    → x ≢ pfn_invalid
    → IsAdded f (ends k) k x p
    → IsLists
        (update (link_pfn f (ends k) x) x p)
        (set_ends ends k (record {
          first = if (ends k).first == pfn_invalid then x else (ends k).first;
          last = x;
        }))
        (set_list v k (v k ++ (x ∷ [])))
insert-IsLists f ends v k x p i out real a = record {
  chain = λ j.
      if-both_two (Chain g) (same_list j k) _ _ _ _
        (λ b.
          Chain-same (link_pfn f (ends k) x) g _ (v k ++ (x ∷ [])) (λ z h. at_page z)
            (link_pfn-Chain f (ends k) (v k) x (i.chain k) (i.once k) (out k) real))
        (λ b. Chain-same f g (ends j) (v j) (λ z h. at_other j z b h) (i.chain j));
  once = λ j z.
      if-both (λ xs. count z xs ≤ 1) (same_list j k) _ _ (λ b. once_added z) (λ b. i.once j z);
  typed = λ j z h. elim (member j z h) [
    | inl (e, b) ↦ ground (arith, e, b, a.typed)
    | inr (ne, m) ↦ ground (arith, ne, i.typed j z m, (link_pfn-SameBody f (ends k) x z).0)
  ];
  idle = λ j z h. elim (member j z h) [
    | inl (e, b) ↦ ground (arith, e, a.idle)
    | inr (ne, m) ↦ ground (arith, ne, i.idle j z m, (link_pfn-SameBody f (ends k) x z).1)
  ];
  flagged = λ z h. elim (member modified_list z h) [
    | inl (e, b) ↦ ground (arith, e, a.flagged b)
    | inr (ne, m) ↦ ground (arith, ne, i.flagged z m, (link_pfn-SameBody f (ends k) x z).2)
  ];
}
  where
    g : ℕ → PageFrame
    g = update (link_pfn f (ends k) x) x p

    at_page : (z : ℕ) → SameLinks (g z) (link_pfn f (ends k) x z)
    at_page z =
        if-both (λ q. SameLinks q (link_pfn f (ends k) x z)) (z == x) _ _
          (λ e. subst (λ y. SameLinks p (link_pfn f (ends k) x y)) (ground (arith, e)) a.links)
          (λ e. (refl, refl))

    at_other :
        (j : PageList) (z : ℕ) → same_list j k ≡ false → 0 < count z (v j) → SameLinks (g z) (f z)
    at_other j z b h =
        let ne = count_ne z x (v j) h (out j) in
        let (p', n') = link_pfn-other f (ends k) x z ne (λ some' e. absurd (
          ground (
            arith,
            h,
            IsLists-disjoint f ends v j k z i b (
                subst (λ y. 0 < count y (v k)) (sym e)
                  (last_count f (ends k) (v k) (i.chain k) some')),
          ))) in
        (ground (arith, ne, p'), ground (arith, ne, n'))

    once_added : (z : ℕ) → count z (v k ++ (x ∷ [])) ≤ 1
    once_added z =
        ground (arith, count-append z (v k) (x ∷ []), i.once k z, count_ne z x (v k), out k)

    member :
        (j : PageList) (z : ℕ)
        → 0 < count z (set_list v k (v k ++ (x ∷ [])) j)
        → ((z ≡ x) × (same_list j k ≡ true)) ⊎ ((z ≢ x) × (0 < count z (v j)))
    member j z =
        if-both
          (λ xs.
            0 < count z xs → ((z ≡ x) × (same_list j k ≡ true)) ⊎ ((z ≢ x) × (0 < count z (v j))))
          (same_list j k) _ _
          (λ b h. elim (Bool-cases (x == z)) [
            | inl e ↦ inl (ground (arith, e), b)
            | inr e ↦ inr (
              ground (arith, e),
              subst (λ l. 0 < count z (v l)) (sym (same_list-eq j k b))
                  (ground (arith, e, h, count-append z (v k) (x ∷ []))),
            )
          ])
          (λ b h. inr (count_ne z x (v j) h (out j), h))
