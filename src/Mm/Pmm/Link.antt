-- ===== src/Mm/Pmm/Link.antt =====
-- boron/source/mm/pmm.c: MmpAddPfnToList appends a page to a list, and MmpRemovePfnFromList takes one out.
use boron.Prelude.{
  count, count-append, ℕ, ◌<◌, ◌≤◌, ◌≡◌, ◌≢◌, refl, sym, ap, ◌∙◌, arith, not, ◌&&◌, List, [], ◌∷◌,
  ◌++◌, ◌==◌, if◌then◌else◌, if-both, subst,
}
use boron.Mm.Pmm.{PageFrame, Ends, pfn_invalid, link_pfn, unlink_pfn}
use boron.Mm.Pmm.Chain.{
  Linked, nothing, page, first_or, last_or, Linked-append, Linked-same, List-snoc, last_or-append,
}

-- The pages of a list, as its two ends and the links give them.
pub record Chain (f : ℕ → PageFrame) (e : Ends) (xs : List ℕ) : Type 0 where
  pub linked : Linked f pfn_invalid xs pfn_invalid
  pub first : e.first ≡ first_or xs pfn_invalid
  pub last : e.last ≡ last_or pfn_invalid xs

-- Two frames have the same links.
abbrev pub SameLinks : PageFrame → PageFrame → Type 0
SameLinks p q = (p.prev_frame ≡ q.prev_frame) × (p.next_frame ≡ q.next_frame)

pub set_last-Linked :
    (f g : ℕ → PageFrame) (a b c w : ℕ) (zs : List ℕ)
    → ((z : ℕ) → 0 < count z zs → SameLinks (g z) (f z))
    → (g w).prev_frame ≡ (f w).prev_frame
    → (g w).next_frame ≡ c
    → Linked f a (zs ++ (w ∷ [])) b
    → Linked g a (zs ++ (w ∷ [])) c
set_last-Linked f g a b c w [] h p n (page _ _ _ _ v p' n' l) =
    page a w c [] v (omega (arith, p, p')) n (nothing w c)
set_last-Linked f g a b c w (z ∷ []) h p n (page _ _ _ _ v p' n' l) =
    let (hp, hn) = h z (ground arith) in
    page a z c _ v (omega (arith, hp, p')) (omega (arith, hn, n'))
      (set_last-Linked f g z b c w [] (λ y k. elim k [ ]) p n l)
set_last-Linked f g a b c w (z ∷ y ∷ zs) h p n (page _ _ _ _ v p' n' l) =
    let (hp, hn) = h z (ground arith) in
    page a z c _ v (omega (arith, hp, p')) (omega (arith, hn, n'))
      (set_last-Linked f g z b c w (y ∷ zs) (λ x k. h x (omega (arith, k))) p n l)

pub set_first-Linked :
    (f g : ℕ → PageFrame) (a b c y : ℕ) (ys : List ℕ)
    → ((z : ℕ) → 0 < count z ys → SameLinks (g z) (f z))
    → (g y).next_frame ≡ (f y).next_frame
    → (g y).prev_frame ≡ c
    → Linked f a (y ∷ ys) b
    → Linked g c (y ∷ ys) b
set_first-Linked f g a b c y ys h n p (page _ _ _ _ v p' n' l) =
    page c y b ys v p (omega (arith, n, n')) (Linked-same f g y b ys h l)

pub count_ne : (z x : ℕ) (xs : List ℕ) → 0 < count z xs → count x xs ≡ 0 → z ≢ x
count_ne z x xs h k e = absurd (omega (arith, h, k, ap (λ t. count t xs) e))

pub count_snoc_ne : (z w : ℕ) (zs : List ℕ) → count w (zs ++ (w ∷ [])) ≤ 1 → 0 < count z zs → z ≢ w
count_snoc_ne z w zs once h = count_ne z w zs h (ground (arith, once, count-append w zs (w ∷ [])))

link_pfn-Linked :
    (f : ℕ → PageFrame) (e : Ends) (zs : List ℕ) (w x : ℕ)
    → e.first ≢ pfn_invalid
    → e.last ≡ w
    → Linked f pfn_invalid (zs ++ (w ∷ [])) pfn_invalid
    → ((z : ℕ) → count z (zs ++ (w ∷ [])) ≤ 1)
    → count x (zs ++ (w ∷ [])) ≡ 0
    → x ≢ pfn_invalid
    → Linked (link_pfn f e x) pfn_invalid ((zs ++ (w ∷ [])) ++ (x ∷ [])) pfn_invalid
link_pfn-Linked f e zs w x some' at l once new real =
    if-both (λ g. Linked g pfn_invalid ((zs ++ (w ∷ [])) ++ (x ∷ [])) pfn_invalid)
      (e.first == pfn_invalid) _ _ (λ h. absurd (ground (arith, h, some')))
      (λ h.
        Linked-append _ pfn_invalid pfn_invalid (zs ++ (w ∷ [])) (x ∷ [])
          (set_last-Linked f _ pfn_invalid pfn_invalid x w zs
            (λ z k.
              let ne = count_snoc_ne z w zs (once w) k in
              let nx = count_ne z x zs k (omega (arith, new, count-append x zs (w ∷ []))) in
              (ground (arith, ne, nx, at), ground (arith, ne, nx, at)))
            (ground (arith, at, wx)) (ground (arith, at, wx)) l)
          (page _ x pfn_invalid [] real (ground (arith, at, last_or-append pfn_invalid w zs))
            (ground arith) (nothing x _)))
  where
    wx : w ≢ x
    wx = count_ne w x (zs ++ (w ∷ [])) (ground (arith, count-append w zs (w ∷ []))) new

-- A page that is in no list becomes the last one of a list.
pub link_pfn-Chain :
    (f : ℕ → PageFrame) (e : Ends) (xs : List ℕ) (x : ℕ)
    → Chain f e xs
    → ((z : ℕ) → count z xs ≤ 1)
    → count x xs ≡ 0
    → x ≢ pfn_invalid
    → Chain
        (link_pfn f e x)
        (record { first = if e.first == pfn_invalid then x else e.first; last = x })
        (xs ++ (x ∷ []))
link_pfn-Chain f e [] x c once new real = record {
  linked =
      if-both (λ g. Linked g pfn_invalid (x ∷ []) pfn_invalid) (e.first == pfn_invalid) _ _
        (λ h. page pfn_invalid x pfn_invalid [] real (ground arith) (ground arith) (nothing x _))
        (λ h. absurd (ground (arith, h, c.first)));
  first = ground (arith, c.first);
  last = refl;
}
link_pfn-Chain f e (y ∷ ys) x c once new real = record {
  linked =
      let (zs, w, is_snoc) = List-snoc y ys in
      subst (λ l. Linked (link_pfn f e x) pfn_invalid (l ++ (x ∷ [])) pfn_invalid) (sym is_snoc)
        (link_pfn-Linked f e zs w x (ground (arith, c.first, nonempty c.linked))
          (c.last ∙ ap (last_or pfn_invalid) is_snoc ∙ last_or-append pfn_invalid w zs)
          (subst (λ l. Linked f pfn_invalid l pfn_invalid) is_snoc c.linked)
          (λ z. subst (λ l. count z l ≤ 1) is_snoc (once z))
          (subst (λ l. count x l ≡ 0) is_snoc new) real);
  first = ground (arith, c.first, nonempty c.linked);
  last = sym (last_or-append pfn_invalid x (y ∷ ys));
}
  where
    nonempty : Linked f pfn_invalid (y ∷ ys) pfn_invalid → y ≢ pfn_invalid
    nonempty (page _ _ _ _ v p n l) = v

-- What the links are after a page was unlinked that is not linked to itself.
pub unlink_pfn-next :
    (f : ℕ → PageFrame) (x z : ℕ)
    → (f x).next_frame ≢ x
    → (unlink_pfn f x z).next_frame ≡ (
        if not ((f x).prev_frame == pfn_invalid) && z == (f x).prev_frame
        then (f x).next_frame
        else (f z).next_frame)
unlink_pfn-next f x z h = ground (arith, h)

pub unlink_pfn-prev :
    (f : ℕ → PageFrame) (x z : ℕ)
    → (f x).next_frame ≢ x
    → (unlink_pfn f x z).prev_frame ≡ (
        if not ((f x).next_frame == pfn_invalid) && z == (f x).next_frame
        then (f x).prev_frame
        else (f z).prev_frame)
unlink_pfn-prev f x z h = ground (arith, h)
