-- ===== src/Mm/Pmm/ZeroOut.antt =====
-- boron/source/mm/pmm.c: MmZeroOutFirstPFN moves the first free page to the zero list.
use boron.Prelude.{
  count, ℕ, ◌+◌, ◌<◌, ◌≡◌, ◌≢◌, refl, sym, ap, ◌∙◌, arith, not, List, [], ◌∷◌, ◌++◌, ◌==◌,
  if◌then◌else◌, if-both, subst, Option, none, some, length, length-append, fun_ext,
}
use boron.Ke.Dispatcher.{update}
use boron.Mm.Pmm.{
  PageFrame, Ends, Pfdb, PageList, zero_list, free_list, pfn_invalid, pf_type_free, pf_type_zeroed,
  same_list, set_frame, unlink_pfn, link_pfn, remove_pfn_from_list, add_pfn_to_list,
  take_first_free_pfn,
}
use boron.Mm.Pmm.Delete.{removed_ends, removed-Place, delete-Outside, delete-IsLists}
use boron.Mm.Pmm.Insert.{insert-IsLists}
use boron.Mm.Pmm.Allocate.{first_of_list}
use boron.Mm.Pmm.Recover.{
  unlink_update-next, unlink_update-prev, unlink_update-other, ensure-links, update_agree,
  IsLists-ends,
}
use boron.Mm.Pmm.Link.{SameLinks}
use boron.Mm.Pmm.Lists.{
  IsLists, IsPfdb, set_list, Outside, available-set_list, update-IsLists, unlink_pfn-SameBody,
  link_pfn-SameBody,
}
use boron.Mm.Pmm.Free.{put}

-- A change of a frame with its links to itself changes nothing.
update_self : (f : ℕ → PageFrame) (x z : ℕ) → update f x (f x) z ≡ f z
update_self f x z =
    if-both (λ p. p ≡ f z) (z == x) (f x) (f z) (λ e. ap f (ground (arith, e))) (λ e. refl)

module _ (f : ℕ → PageFrame) (ends : PageList → Ends) (v : PageList → List ℕ) (k : PageList)
    (xs : List ℕ) (x : ℕ) (ys : List ℕ) (q : PageFrame) (i : IsLists f ends v)
    (here : v k ≡ xs ++ (x ∷ ys)) (same : SameLinks q (f x)) where
  abbrev changed : ℕ → PageFrame
  changed = update f x q

  next_ne : (f x).next_frame ≢ x
  next_ne = (removed-Place f ends v k xs x ys i here).next_ne

  changed_ends : (j : PageList) → removed_ends f ends k x j ≡ removed_ends changed ends k x j
  changed_ends j =
      ap (λ e. if same_list j k then e else ends j)
        (ensure-links (ends k) (unlink_pfn f x x) (unlink_pfn changed x x) x
          (sym (unlink_update-next f x q same next_ne))
          (sym (unlink_update-prev f x q same next_ne)))

  -- A page is taken out of its list after its frame was changed beside the links.
  pub changed-IsLists :
      IsLists (unlink_pfn changed x) (removed_ends changed ends k x) (set_list v k (xs ++ ys))
  changed-IsLists =
      subst (λ g. IsLists g (removed_ends changed ends k x) (set_list v k (xs ++ ys)))
        (fun_ext (λ z.
          update_agree (unlink_pfn f x) (unlink_pfn changed x) x (unlink_pfn changed x x)
            (λ y ne. sym (unlink_update-other f x q y same next_ne ne)) z
          ∙ update_self (unlink_pfn changed x) x z))
        (IsLists-ends _ (removed_ends f ends k x) (removed_ends changed ends k x) _ changed_ends (
          update-IsLists (unlink_pfn f x) (removed_ends f ends k x) _ x (unlink_pfn changed x x)
            (delete-IsLists f ends v k xs x ys i here) (delete-Outside f ends v k xs x ys i here)))

-- A page on no list, marked zeroed, that is being zeroed.
pub record BeingZeroed (s : Pfdb) (v : PageList → List ℕ) (x : ℕ) : Type 0 where
  pub real : x ≢ pfn_invalid
  pub outside : Outside v x
  pub idle : (s.frame x).ref_count ≡ 0
  pub is_zeroed : (s.frame x).page_type ≡ pf_type_zeroed

-- The database after the first section, for the page that it takes.
abbrev unfree : Pfdb → ℕ → Pfdb
unfree s x =
    remove_pfn_from_list (set_frame s x (record (s.frame x) { page_type = pf_type_zeroed }))
      free_list x

take_first_free_pfn-unfree :
    (s : Pfdb) (x : ℕ)
    → (s.ends free_list).first ≡ x
    → x ≢ pfn_invalid
    → (s.frame x).page_type ≡ pf_type_free
    → take_first_free_pfn s ≡ some (unfree s x, some x)
unfolding take_first_free_pfn
take_first_free_pfn-unfree s x at real u =
    if-both R (y == pfn_invalid) (some (s, none)) _ (λ b. absurd (ground (arith, b, at, real)))
      (λ b.
        if-both R ((s.frame y).page_type == pf_type_zeroed) (some (s, none)) _
          (λ c. absurd (ground (arith, c, kind)))
          (λ c.
            if-both R (not ((s.frame y).page_type == pf_type_free)) none _
              (λ d. absurd (ground (arith, d, kind)))
              (λ d. ap (λ z. some (unfree s z, some z)) at)))
  where
    y : ℕ
    y = (s.ends free_list).first

    R : Option (Pfdb × Option ℕ) → Type 0
    R r = r ≡ some (unfree s x, some x)

    kind : (s.frame y).page_type ≡ pf_type_free
    kind = ap (λ z. (s.frame z).page_type) at ∙ u

-- The first section takes the first free page off its list; it counts as free all the same.
pub take_first_free_pfn-BeingZeroed :
    (s : Pfdb) (v : PageList → List ℕ) (n x : ℕ) (xs : List ℕ)
    → IsPfdb s v n
    → v free_list ≡ x ∷ xs
    → (s' : Pfdb) × (take_first_free_pfn s ≡ some (s', some x))
      × IsPfdb s' (set_list v free_list xs) (n + 1)
      × BeingZeroed s' (set_list v free_list xs) x
take_first_free_pfn-BeingZeroed s v n x xs i e = (
  unfree s x,
  take_first_free_pfn-unfree s x (first_of_list s v free_list x xs i.lists e) real
      (i.lists.typed free_list x here),
  record {
    lists = changed-IsLists s.frame s.ends v free_list [] x xs _ i.lists e (refl, refl);
    counted = omega (arith, i.counted, available-set_list v free_list xs refl, ap length e);
  },
  record {
    real = real;
    outside = delete-Outside s.frame s.ends v free_list [] x xs i.lists e;
    idle = (unlink_pfn-SameBody f x x).1 ∙ ground (arith, i.lists.idle free_list x here);
    is_zeroed = (unlink_pfn-SameBody f x x).0 ∙ ground arith;
  },
)
  where
    real : x ≢ pfn_invalid
    real = (removed-Place s.frame s.ends v free_list [] x xs i.lists e).real

    here : 0 < count x (v free_list)
    here = subst (λ l. 0 < count x l) (sym e) (ground arith)

    f : ℕ → PageFrame
    f = update s.frame x (record (s.frame x) { page_type = pf_type_zeroed })

-- The second section puts it at the end of the zero list.
pub add_zeroed :
    (s : Pfdb) (v : PageList → List ℕ) (n x : ℕ)
    → IsPfdb s v (n + 1)
    → BeingZeroed s v x
    → IsPfdb (add_pfn_to_list s zero_list x) (put v zero_list x) n
add_zeroed s v n x i z = record {
  lists =
      subst (λ g. IsLists g (add_pfn_to_list s zero_list x).ends (put v zero_list x))
        (fun_ext (λ y. update_self (link_pfn s.frame (s.ends zero_list) x) x y))
        (insert-IsLists s.frame s.ends v zero_list x (link_pfn s.frame (s.ends zero_list) x x)
          i.lists z.outside z.real
          (record {
            links = (refl, refl);
            typed = (link_pfn-SameBody s.frame (s.ends zero_list) x x).0 ∙ z.is_zeroed;
            idle = (link_pfn-SameBody s.frame (s.ends zero_list) x x).1 ∙ z.idle;
            flagged = λ b. absurd (ground (arith, b));
          }));
  counted = omega (
    arith,
    i.counted,
    available-set_list v zero_list (v zero_list ++ (x ∷ [])) refl,
    length-append (v zero_list) (x ∷ []),
  );
}

-- In a database that describes four lists, where the free list has a page, both guarded sections of
-- MmZeroOutFirstPFN, with nothing in between, move its first page to the end of the zero list.
pub zero_out_first_pfn-Moves :
    (s : Pfdb) (v : PageList → List ℕ) (n x : ℕ) (xs : List ℕ)
    → IsPfdb s v n
    → v free_list ≡ x ∷ xs
    → (s' : Pfdb) × (take_first_free_pfn s ≡ some (s', some x))
      × IsPfdb (add_pfn_to_list s' zero_list x) (put (set_list v free_list xs) zero_list x) n
zero_out_first_pfn-Moves s v n x xs i e =
    let (s', run, j, z) = take_first_free_pfn-BeingZeroed s v n x xs i e in
    (s', run, add_zeroed s' _ n x j z)
