-- ===== src/Mm/Pmm/Chain.antt =====
-- boron/source/mm/pmm.c: the pages that are linked from the first to the last page of a list.
use boron.Prelude.{count, ℕ, ◌<◌, ◌≡◌, ◌≢◌, refl, ap, arith, List, [], ◌∷◌, ◌++◌}
use boron.Mm.Pmm.{PageFrame, pfn_invalid}

-- The head of a list of pages, and its last page, or else what is given.
abbrev pub first_or : List ℕ → ℕ → ℕ
first_or [] b = b
first_or (x ∷ xs) b = x

abbrev pub last_or : ℕ → List ℕ → ℕ
last_or a [] = a
last_or a (x ∷ xs) = last_or x xs

-- The pages are linked to each other, the first one back to `a` and the last one on to `b`.
pub data Linked (f : ℕ → PageFrame) : ℕ → List ℕ → ℕ → Type 0 where
  nothing : (a b : ℕ) → Linked f a [] b
  page :
      (a x b : ℕ) (xs : List ℕ)
      → x ≢ pfn_invalid
      → (f x).prev_frame ≡ a
      → (f x).next_frame ≡ first_or xs b
      → Linked f x xs b
      → Linked f a (x ∷ xs) b

pub Linked-append :
    (f : ℕ → PageFrame) (a b : ℕ) (xs ys : List ℕ)
    → Linked f a xs (first_or ys b)
    → Linked f (last_or a xs) ys b
    → Linked f a (xs ++ ys) b
Linked-append f a b [] ys _ k = k
Linked-append f a b (x ∷ []) ys (page _ _ _ _ v p n l) k = page a x b ys v p n k
Linked-append f a b (x ∷ z ∷ zs) ys (page _ _ _ _ v p n l) k =
    page a x b ((z ∷ zs) ++ ys) v p n (Linked-append f x b (z ∷ zs) ys l k)

pub Linked-front :
    (f : ℕ → PageFrame) (a b : ℕ) (xs ys : List ℕ)
    → Linked f a (xs ++ ys) b
    → Linked f a xs (first_or ys b)
Linked-front f a b [] ys l = nothing a _
Linked-front f a b (x ∷ []) ys (page _ _ _ _ v p n l) = page a x _ [] v p n (nothing x _)
Linked-front f a b (x ∷ z ∷ zs) ys (page _ _ _ _ v p n l) =
    page a x _ (z ∷ zs) v p n (Linked-front f x b (z ∷ zs) ys l)

pub Linked-back :
    (f : ℕ → PageFrame) (a b : ℕ) (xs ys : List ℕ)
    → Linked f a (xs ++ ys) b
    → Linked f (last_or a xs) ys b
Linked-back f a b [] ys l = l
Linked-back f a b (x ∷ xs) ys (page _ _ _ _ v p n l) = Linked-back f x b xs ys l

-- Only the links of the pages themselves matter.
pub Linked-same :
    (f g : ℕ → PageFrame) (a b : ℕ) (xs : List ℕ)
    → ((z : ℕ)
        → 0 < count z xs
        → ((g z).prev_frame ≡ (f z).prev_frame) × ((g z).next_frame ≡ (f z).next_frame))
    → Linked f a xs b
    → Linked g a xs b
Linked-same f g a b [] h l = nothing a b
Linked-same f g a b (x ∷ xs) h (page _ _ _ _ v p n l) =
    let (hp, hn) = h x (ground arith) in
    page a x b xs v (omega (arith, hp, p)) (omega (arith, hn, n))
      (Linked-same f g x b xs (λ z k. h z (omega (arith, k))) l)

-- A list of pages ends with one.
pub List-snoc : (x : ℕ) (xs : List ℕ) → (zs : List ℕ) × (w : ℕ) × (x ∷ xs ≡ zs ++ (w ∷ []))
List-snoc x [] = ([], x, refl)
List-snoc x (y ∷ ys) = let (zs, w, e) = List-snoc y ys in (x ∷ zs, w, ap (λ l. x ∷ l) e)

pub last_or-append : (a w : ℕ) (zs : List ℕ) → last_or a (zs ++ (w ∷ [])) ≡ w
last_or-append a w [] = refl
last_or-append a w (z ∷ zs) = last_or-append z w zs

pub last_or-append_list :
    (a : ℕ) (xs ys : List ℕ) → last_or a (xs ++ ys) ≡ last_or (last_or a xs) ys
last_or-append_list a [] ys = refl
last_or-append_list a (x ∷ xs) ys = last_or-append_list x xs ys

pub first_or-append : (xs ys : List ℕ) (b : ℕ) → first_or (xs ++ ys) b ≡ first_or xs (first_or ys b)
first_or-append [] ys b = refl
first_or-append (x ∷ xs) ys b = refl

-- The last page is one of them.
pub last_or-count : (y : ℕ) (ys : List ℕ) → 0 < count (last_or y ys) (y ∷ ys)
last_or-count y [] = ground arith
last_or-count y (z ∷ zs) = omega (arith, last_or-count z zs)

-- PFN_INVALID is none of them.
pub Linked-valid :
    (f : ℕ → PageFrame) (a b : ℕ) (xs : List ℕ) → Linked f a xs b → count pfn_invalid xs ≡ 0
Linked-valid f a b [] l = refl
Linked-valid f a b (x ∷ xs) (page _ _ _ _ v p n l) = ground (arith, v, Linked-valid f x b xs l)
