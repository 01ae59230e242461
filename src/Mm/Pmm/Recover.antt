-- ===== src/Mm/Pmm/Recover.antt =====
-- boron/source/mm/pmm.c: a page of the standby or the modified list gets a reference again.
use boron.Prelude.{
  count, count-append, if-both_two, ℕ, ◌+◌, ◌<◌, ◌≡◌, ◌≢◌, refl, sym, ap, ◌∙◌, arith, false, List,
  [], ◌∷◌, ◌++◌, ◌==◌, if-both, subst, none, some, fun_ext,
}
use boron.Ke.Dispatcher.{update}
use boron.Mm.Pmm.{
  PageFrame, Ends, Pfdb, PageList, zero_list, free_list, standby_list, modified_list, pfn_invalid,
  pf_type_used, same_list, set_ends, unlink_pfn, ensure_not_first, ensure_not_last,
  ensure_pfn_isnt_ends_of_list, detransition_pfn, page_add_reference,
}
use boron.Mm.Pmm.Chain.{last_or, last_or-count}
use boron.Mm.Pmm.Link.{Chain, SameLinks, count_ne}
use boron.Mm.Pmm.Delete.{removed_ends, removed-Place, delete-Outside, delete-IsLists}
use boron.Mm.Pmm.Lists.{IsLists, set_list, update-IsLists, IsLists-disjoint}

-- The ends of a list that does not end in the page stay.
ensure_same :
    (e : Ends) (p : PageFrame) (x : ℕ)
    → e.first ≢ x
    → e.last ≢ x
    → ensure_pfn_isnt_ends_of_list e p x ≡ e
ensure_same e p x a b =
    ap (λ r. ensure_not_last r p x) front
    ∙ if-both (λ r. r ≡ e) (e.last == x) _ e (λ h. absurd (ground (arith, h, b))) (λ h. refl)
  where
    front : ensure_not_first e p x ≡ e
    front = if-both (λ r. r ≡ e) (e.first == x) _ e (λ h. absurd (ground (arith, h, a))) (λ h. refl)

Chain-ends :
    (f : ℕ → PageFrame) (e : Ends) (xs : List ℕ) (x : ℕ)
    → Chain f e xs
    → count x xs ≡ 0
    → x ≢ pfn_invalid
    → (e.first ≢ x) × (e.last ≢ x)
Chain-ends f e [] x c out real = (λ h. real (sym h ∙ c.first), λ h. real (sym h ∙ c.last))
Chain-ends f e (y ∷ ys) x c out real = (
  λ h. ground (arith, h, c.first, out),
  λ h. count_ne (last_or y ys) x (y ∷ ys) (last_or-count y ys) out (sym c.last ∙ h),
)

-- Only the ends of each list matter.
pub IsLists-ends :
    (f : ℕ → PageFrame) (ends ends' : PageList → Ends) (v : PageList → List ℕ)
    → ((k : PageList) → ends k ≡ ends' k)
    → IsLists f ends v
    → IsLists f ends' v
IsLists-ends f ends ends' v same i = record {
  chain = λ k. subst (λ e. Chain f e (v k)) (same k) (i.chain k);
  once = i.once;
  typed = i.typed;
  idle = i.idle;
  flagged = i.flagged;
}

-- The ends after MiDetransitionPfn.
abbrev recovered_ends : (ℕ → PageFrame) → (PageList → Ends) → ℕ → PageList → Ends
recovered_ends f ends x =
    set_ends
      (set_ends ends standby_list
        (ensure_pfn_isnt_ends_of_list (ends standby_list) (unlink_pfn f x x) x))
      modified_list (ensure_pfn_isnt_ends_of_list (ends modified_list) (unlink_pfn f x x) x)

module _ (f : ℕ → PageFrame) (ends : PageList → Ends) (v : PageList → List ℕ) (xs : List ℕ) (x : ℕ)
    (ys : List ℕ) (i : IsLists f ends v) where
  others_same :
      (j k : PageList)
      → v k ≡ xs ++ (x ∷ ys)
      → same_list j k ≡ false
      → ensure_pfn_isnt_ends_of_list (ends j) (unlink_pfn f x x) x ≡ ends j
  others_same j k e b =
      let real = (removed-Place f ends v k xs x ys i e).real in
      let here : 0 < count x (v k) = ground (arith, ap (count x) e, count-append x xs (x ∷ ys)) in
      let (a, c) =
        Chain-ends f (ends j) (v j) x (i.chain j) (IsLists-disjoint f ends v j k x i b here) real in
      ensure_same (ends j) (unlink_pfn f x x) x a c

  pub recovered_standby :
      v standby_list ≡ xs ++ (x ∷ ys)
      → (j : PageList) → removed_ends f ends standby_list x j ≡ recovered_ends f ends x j
  recovered_standby e zero_list = refl
  recovered_standby e free_list = refl
  recovered_standby e standby_list = refl
  recovered_standby e modified_list = sym (others_same modified_list standby_list e refl)

  pub recovered_modified :
      v modified_list ≡ xs ++ (x ∷ ys)
      → (j : PageList) → removed_ends f ends modified_list x j ≡ recovered_ends f ends x j
  recovered_modified e zero_list = refl
  recovered_modified e free_list = refl
  recovered_modified e standby_list = sym (others_same standby_list modified_list e refl)
  recovered_modified e modified_list = refl

-- The frame of the page is counted up before it is unlinked, which the links do not depend on.
abbrev pub counted_up : (ℕ → PageFrame) → ℕ → ℕ → PageFrame
counted_up f x = update f x (record (f x) { ref_count = (f x).ref_count + 1 })

pub unlink_update-next :
    (f : ℕ → PageFrame) (x : ℕ) (q : PageFrame)
    → SameLinks q (f x)
    → (f x).next_frame ≢ x
    → (unlink_pfn (update f x q) x x).next_frame ≡ (unlink_pfn f x x).next_frame
unlink_update-next f x q (p, n) h = ground (arith, h, p, n)

pub unlink_update-prev :
    (f : ℕ → PageFrame) (x : ℕ) (q : PageFrame)
    → SameLinks q (f x)
    → (f x).next_frame ≢ x
    → (unlink_pfn (update f x q) x x).prev_frame ≡ (unlink_pfn f x x).prev_frame
unlink_update-prev f x q (p, n) h = ground (arith, h, p, n)

pub unlink_update-other :
    (f : ℕ → PageFrame) (x : ℕ) (q : PageFrame) (z : ℕ)
    → SameLinks q (f x)
    → (f x).next_frame ≢ x
    → z ≢ x
    → unlink_pfn (update f x q) x z ≡ unlink_pfn f x z
unlink_update-other f x q z (p, n) h ne = ground (arith, h, ne, p, n)

-- The ends depend on the links of the page alone.
pub ensure-links :
    (e : Ends) (a b : PageFrame) (x : ℕ)
    → a.next_frame ≡ b.next_frame
    → a.prev_frame ≡ b.prev_frame
    → ensure_pfn_isnt_ends_of_list e a x ≡ ensure_pfn_isnt_ends_of_list e b x
ensure-links e a b x h k =
    ap (λ n. ensure_pfn_isnt_ends_of_list e (record a { next_frame = n }) x) h
    ∙ ap
        (λ q.
          ensure_pfn_isnt_ends_of_list e (record a { next_frame = b.next_frame; prev_frame = q }) x)
        k

counted_up-ends :
    (f : ℕ → PageFrame) (ends : PageList → Ends) (x : ℕ)
    → (f x).next_frame ≢ x
    → (j : PageList) → recovered_ends f ends x j ≡ recovered_ends (counted_up f x) ends x j
counted_up-ends f ends x h zero_list = refl
counted_up-ends f ends x h free_list = refl
counted_up-ends f ends x h standby_list =
    ensure-links (ends standby_list) (unlink_pfn f x x) (unlink_pfn (counted_up f x) x x) x
      (sym
        (unlink_update-next f x (record (f x) { ref_count = (f x).ref_count + 1 }) (refl, refl) h))
      (sym
        (unlink_update-prev f x (record (f x) { ref_count = (f x).ref_count + 1 }) (refl, refl) h))
counted_up-ends f ends x h modified_list =
    ensure-links (ends modified_list) (unlink_pfn f x x) (unlink_pfn (counted_up f x) x x) x
      (sym
        (unlink_update-next f x (record (f x) { ref_count = (f x).ref_count + 1 }) (refl, refl) h))
      (sym
        (unlink_update-prev f x (record (f x) { ref_count = (f x).ref_count + 1 }) (refl, refl) h))

pub update_agree :
    (g h : ℕ → PageFrame) (x : ℕ) (y : PageFrame)
    → ((z : ℕ) → z ≢ x → g z ≡ h z)
    → (z : ℕ) → update g x y z ≡ update h x y z
update_agree g h x y same z =
    if-both_two (λ a b. a ≡ b) (z == x) y (g z) y (h z) (λ e. refl)
      (λ e. same z (ground (arith, e)))

-- The frame of a page that had no reference after MiPageAddReferenceWithPfdbLocked.
abbrev pub recovered_frame : PageFrame → PageFrame
recovered_frame p = record p {
  ref_count = 1;
  next_frame = 0;
  prev_frame = 0;
  page_type = pf_type_used;
}

pub recovered-IsLists :
    (f : ℕ → PageFrame) (ends : PageList → Ends) (v : PageList → List ℕ) (k : PageList)
    (xs : List ℕ) (x : ℕ) (ys : List ℕ) (y : PageFrame)
    → IsLists f ends v
    → v k ≡ xs ++ (x ∷ ys)
    → ((j : PageList) → removed_ends f ends k x j ≡ recovered_ends f ends x j)
    → IsLists
        (update (unlink_pfn (counted_up f x) x) x y)
        (recovered_ends (counted_up f x) ends x)
        (set_list v k (xs ++ ys))
recovered-IsLists f ends v k xs x ys y i e same =
    subst (λ g. IsLists g (recovered_ends (counted_up f x) ends x) (set_list v k (xs ++ ys)))
      (fun_ext (
        update_agree (unlink_pfn f x) (unlink_pfn (counted_up f x) x) x y (λ z out. sym (
          unlink_update-other f x (record (f x) { ref_count = (f x).ref_count + 1 }) z (refl, refl)
            ne out))))
      (IsLists-ends _ (removed_ends f ends k x) (recovered_ends (counted_up f x) ends x) _
        (λ j. same j ∙ counted_up-ends f ends x ne j)
        (update-IsLists (unlink_pfn f x) (removed_ends f ends k x) _ x y
          (delete-IsLists f ends v k xs x ys i e) (delete-Outside f ends v k xs x ys i e)))
  where
    ne : (f x).next_frame ≢ x
    ne = (removed-Place f ends v k xs x ys i e).next_ne

-- The database after it.
abbrev pub recovered : Pfdb → ℕ → Pfdb
recovered s x =
    let g = unlink_pfn (counted_up s.frame x) x in
    record s {
      frame = update g x (recovered_frame (g x));
      ends = recovered_ends (counted_up s.frame x) s.ends x;
    }

pub page_add_reference-recovered :
    (s : Pfdb) (x : ℕ)
    → (s.frame x).ref_count ≡ 0
    → (s.frame x).prototype_pte ≢ 0
    → page_add_reference s x ≡ some (recovered s x)
unfolding page_add_reference detransition_pfn
page_add_reference-recovered s x idle pte =
    if-both (λ r. r ≡ some (recovered s x)) ((s.frame x).ref_count == 0) _ _
      (λ b.
        if-both (λ r. r ≡ some (recovered s x)) ((counted_up s.frame x x).prototype_pte == 0) none _
          (λ c. absurd (ground (arith, c, pte))) (λ c. refl))
      (λ b. absurd (ground (arith, b, idle)))
