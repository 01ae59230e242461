-- ===== src/Mm/Pmm/Unlink.antt =====
-- boron/source/mm/pmm.c: MmpRemovePfnFromList takes a page out of a list.
use boron.Prelude.{
  count, count-append, ℕ, ◌+◌, ◌<◌, ◌≤◌, ◌≡◌, ◌≢◌, sym, ap, ◌∙◌, arith, false, not, ◌&&◌, List, [],
  ◌∷◌, ◌++◌, ◌==◌, subst,
}
use boron.Mm.Pmm.{PageFrame, Ends, pfn_invalid, unlink_pfn, ensure_pfn_isnt_ends_of_list}
use boron.Mm.Pmm.Chain.{
  Linked, nothing, page, first_or, last_or, Linked-append, Linked-front, Linked-back, List-snoc,
  last_or-append, last_or-append_list, first_or-append, last_or-count, Linked-valid,
}
use boron.Mm.Pmm.Link.{
  Chain, unlink_pfn-next, unlink_pfn-prev, set_last-Linked, set_first-Linked, count_ne,
  count_snoc_ne,
}

-- The page is not the neighbour, if there is one.
abbrev pub IsNot : ℕ → ℕ → Type 0
IsNot b z = (not (b == pfn_invalid) && z == b) ≡ false

before_snoc :
    (f : ℕ → PageFrame) (x b w : ℕ) (zs : List ℕ)
    → Linked f pfn_invalid (zs ++ (w ∷ [])) x
    → (f x).prev_frame ≡ w
    → (f x).next_frame ≡ b
    → b ≢ x
    → ((z : ℕ) → count z (zs ++ (w ∷ [])) ≤ 1)
    → ((z : ℕ) → 0 < count z (zs ++ (w ∷ [])) → IsNot b z)
    → Linked (unlink_pfn f x) pfn_invalid (zs ++ (w ∷ [])) b
before_snoc f x b w zs l p n ne once out =
    set_last-Linked f (unlink_pfn f x) pfn_invalid x b w zs
      (λ z k.
        let nw = count_snoc_ne z w zs (once w) k in
        let nb = out z (omega (arith, k, count-append z zs (w ∷ []))) in
        (
          ground (arith, unlink_pfn-prev f x z next_ne, nb, n),
          ground (arith, unlink_pfn-next f x z next_ne, nw, p),
        ))
      (ground (arith, unlink_pfn-prev f x w next_ne, out w at_w, n))
      (ground (
        arith,
        unlink_pfn-next f x w next_ne,
        p,
        n,
        valid (Linked-back f pfn_invalid x zs (w ∷ []) l),
      ))
      l
  where
    next_ne : (f x).next_frame ≢ x
    next_ne e = ne (omega (arith, e, n))

    at_w : 0 < count w (zs ++ (w ∷ []))
    at_w = ground (arith, count-append w zs (w ∷ []))

    valid : Linked f (last_or pfn_invalid zs) (w ∷ []) x → w ≢ pfn_invalid
    valid (page _ _ _ _ v _ _ _) = v

before :
    (f : ℕ → PageFrame) (x b : ℕ) (xs : List ℕ)
    → Linked f pfn_invalid xs x
    → (f x).prev_frame ≡ last_or pfn_invalid xs
    → (f x).next_frame ≡ b
    → b ≢ x
    → ((z : ℕ) → count z xs ≤ 1)
    → ((z : ℕ) → 0 < count z xs → IsNot b z)
    → Linked (unlink_pfn f x) pfn_invalid xs b
before f x b [] l p n ne once out = nothing _ b
before f x b (y ∷ ys) l p n ne once out =
    let (zs, w, e) = List-snoc y ys in
    subst (λ xs. Linked (unlink_pfn f x) pfn_invalid xs b) (sym e)
      (before_snoc f x b w zs (subst (λ xs. Linked f pfn_invalid xs x) e l)
        (p ∙ ap (last_or pfn_invalid) e ∙ last_or-append pfn_invalid w zs) n ne
        (λ z. subst (λ xs. count z xs ≤ 1) e (once z))
        (λ z k. out z (subst (λ xs. 0 < count z xs) (sym e) k)))

after :
    (f : ℕ → PageFrame) (x a : ℕ) (ys : List ℕ)
    → Linked f x ys pfn_invalid
    → (f x).prev_frame ≡ a
    → (f x).next_frame ≡ first_or ys pfn_invalid
    → first_or ys pfn_invalid ≢ x
    → ((z : ℕ) → count z ys ≤ 1)
    → ((z : ℕ) → 0 < count z ys → IsNot a z)
    → Linked (unlink_pfn f x) a ys pfn_invalid
after f x a [] l p n ne once out = nothing a _
after f x a (y ∷ ys) l p n ne once out =
    set_first-Linked f (unlink_pfn f x) x pfn_invalid a y ys
      (λ z k.
        let ny = count_ne z y ys k (ground (arith, once y)) in
        let na = out z (ground (arith, k)) in
        (
          ground (arith, unlink_pfn-prev f x z next_ne, ny, n),
          ground (arith, unlink_pfn-next f x z next_ne, na, p),
        ))
      (ground (arith, unlink_pfn-next f x y next_ne, out y (ground arith), p))
      (ground (arith, unlink_pfn-prev f x y next_ne, n, p, valid l)) l
  where
    next_ne : (f x).next_frame ≢ x
    next_ne e = ne (omega (arith, e, n))

    valid : Linked f x (y ∷ ys) pfn_invalid → y ≢ pfn_invalid
    valid (page _ _ _ _ v _ _ _) = v

-- The ends of a list that a page is taken out of.
record Ended (e : Ends) (xs : List ℕ) : Type 0 where
  first : e.first ≡ first_or xs pfn_invalid
  last : e.last ≡ last_or pfn_invalid xs

ensure-Ended :
    (e : Ends) (p : PageFrame) (xs : List ℕ) (x : ℕ) (ys : List ℕ)
    → e.first ≡ first_or xs x
    → e.last ≡ last_or x ys
    → p.next_frame ≡ first_or ys pfn_invalid
    → p.prev_frame ≡ last_or pfn_invalid xs
    → x ≢ pfn_invalid
    → count x xs ≡ 0
    → count x ys ≡ 0
    → count pfn_invalid xs ≡ 0
    → count pfn_invalid ys ≡ 0
    → Ended (ensure_pfn_isnt_ends_of_list e p x) (xs ++ ys)
ensure-Ended e p [] x [] a b n q v _ _ _ _ = record {
  first = ground (arith, a, b, n, q, v);
  last = ground (arith, a, b, n, q, v);
}
ensure-Ended e p [] x (y ∷ ys) a b n q v _ cx _ ci =
    let ne = count_ne (last_or y ys) x (y ∷ ys) (last_or-count y ys) cx in
    record {
      first = ground (arith, a, b, n, q, v, ne, ci);
      last = ground (arith, a, b, n, q, v, ne, ci);
    }
ensure-Ended e p (w ∷ ws) x [] a b n q v cx _ ci _ =
    let ni = count_ne (last_or w ws) pfn_invalid (w ∷ ws) (last_or-count w ws) ci in
    record {
      first = ground (arith, a, b, q, v, ni, cx);
      last = ground (arith, a, b, q, v, ni, cx, last_or-append_list pfn_invalid (w ∷ ws) []);
    }
ensure-Ended e p (w ∷ ws) x (y ∷ ys) a b n q v cx cy ci cj =
    let ne = count_ne (last_or y ys) x (y ∷ ys) (last_or-count y ys) cy in
    record {
      first = ground (arith, a, b, ne, cx);
      last = ground (arith, a, b, ne, cx, last_or-append_list pfn_invalid (w ∷ ws) (y ∷ ys));
    }

-- The counts of a list with no page twice, around one of its pages.
record Apart (xs : List ℕ) (x : ℕ) (ys : List ℕ) : Type 0 where
  none_before : count x xs ≡ 0
  none_after : count x ys ≡ 0
  once_before : (z : ℕ) → count z xs ≤ 1
  once_after : (z : ℕ) → count z ys ≤ 1
  disjoint : (z : ℕ) → count z xs + count z ys ≤ 1

once-Apart :
    (xs : List ℕ) (x : ℕ) (ys : List ℕ) → ((z : ℕ) → count z (xs ++ (x ∷ ys)) ≤ 1) → Apart xs x ys
once-Apart xs x ys once = record {
  none_before = ground (arith, once x, count-append x xs (x ∷ ys));
  none_after = ground (arith, once x, count-append x xs (x ∷ ys));
  once_before = λ z. omega (arith, once z, count-append z xs (x ∷ ys));
  once_after = λ z. omega (arith, once z, count-append z xs (x ∷ ys));
  disjoint = λ z. omega (arith, once z, count-append z xs (x ∷ ys));
}

-- A page of the one part is not the next one of the other.
pub IsNot-first : (z : ℕ) (ys : List ℕ) → count z ys ≡ 0 → IsNot (first_or ys pfn_invalid) z
IsNot-first z [] h = ground arith
IsNot-first z (y ∷ ys) h = ground (arith, h)

pub IsNot-last : (z : ℕ) (xs : List ℕ) → count z xs ≡ 0 → IsNot (last_or pfn_invalid xs) z
IsNot-last z [] h = ground arith
IsNot-last z (y ∷ ys) h = ground (arith, count_ne (last_or y ys) z (y ∷ ys) (last_or-count y ys) h)

first_or_ne : (x : ℕ) (ys : List ℕ) → x ≢ pfn_invalid → count x ys ≡ 0 → first_or ys pfn_invalid ≢ x
first_or_ne x [] v h e = v (sym e)
first_or_ne x (y ∷ ys) v h e = ground (arith, e, h)

-- A list without the page that is taken out of it, with the pages before and after it.
pub unlink_pfn-Chain :
    (f : ℕ → PageFrame) (e : Ends) (xs : List ℕ) (x : ℕ) (ys : List ℕ)
    → Chain f e (xs ++ (x ∷ ys))
    → ((z : ℕ) → count z (xs ++ (x ∷ ys)) ≤ 1)
    → Chain (unlink_pfn f x) (ensure_pfn_isnt_ends_of_list e (unlink_pfn f x x) x) (xs ++ ys)
unlink_pfn-Chain f e xs x ys c once =
    go (Linked-back f pfn_invalid pfn_invalid xs (x ∷ ys) c.linked)
  where
    d : Apart xs x ys
    d = once-Apart xs x ys once

    front : Linked f pfn_invalid xs x
    front = Linked-front f pfn_invalid pfn_invalid xs (x ∷ ys) c.linked

    go :
        Linked f (last_or pfn_invalid xs) (x ∷ ys) pfn_invalid
        → Chain (unlink_pfn f x) (ensure_pfn_isnt_ends_of_list e (unlink_pfn f x x) x) (xs ++ ys)
    go (page _ _ _ _ v p n l) =
        let ne = first_or_ne x ys v d.none_after in
        let next_ne : (f x).next_frame ≢ x = λ k. ne (omega (arith, k, n)) in
        let ends =
          ensure-Ended e (unlink_pfn f x x) xs x ys
            (c.first ∙ first_or-append xs (x ∷ ys) pfn_invalid)
            (c.last ∙ last_or-append_list pfn_invalid xs (x ∷ ys))
            (ground (arith, unlink_pfn-next f x x next_ne, n, p, IsNot-last x xs d.none_before))
            (ground (arith, unlink_pfn-prev f x x next_ne, n, p, next_ne)) v d.none_before
            d.none_after (Linked-valid f pfn_invalid x xs front)
            (Linked-valid f x pfn_invalid ys l) in
        record {
          linked =
              Linked-append (unlink_pfn f x) pfn_invalid pfn_invalid xs ys
                (before f x (first_or ys pfn_invalid) xs front p n ne d.once_before
                  (λ z k. IsNot-first z ys (omega (arith, k, d.disjoint z))))
                (after f x (last_or pfn_invalid xs) ys l p n ne d.once_after
                  (λ z k. IsNot-last z xs (omega (arith, k, d.disjoint z))));
          first = ends.first;
          last = ends.last;
        }

-- The links of a page of a list are those to its neighbours.
pub record Place (f : ℕ → PageFrame) (xs : List ℕ) (x : ℕ) (ys : List ℕ) : Type 0 where
  pub prev : (f x).prev_frame ≡ last_or pfn_invalid xs
  pub next : (f x).next_frame ≡ first_or ys pfn_invalid
  pub next_ne : (f x).next_frame ≢ x
  pub real : x ≢ pfn_invalid

pub Chain-Place :
    (f : ℕ → PageFrame) (e : Ends) (xs : List ℕ) (x : ℕ) (ys : List ℕ)
    → Chain f e (xs ++ (x ∷ ys))
    → ((z : ℕ) → count z (xs ++ (x ∷ ys)) ≤ 1)
    → Place f xs x ys
Chain-Place f e xs x ys c once = go (Linked-back f pfn_invalid pfn_invalid xs (x ∷ ys) c.linked)
  where
    go : Linked f (last_or pfn_invalid xs) (x ∷ ys) pfn_invalid → Place f xs x ys
    go (page _ _ _ _ v p n l) = record {
      prev = p;
      next = n;
      next_ne = λ k. first_or_ne x ys v (once-Apart xs x ys once).none_after (omega (arith, k, n));
      real = v;
    }
