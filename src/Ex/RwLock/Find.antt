-- ===== src/Ex/RwLock/Find.antt =====
-- boron/source/ex/rwlock.c: what the searches for an entry find, in ExFindOwnerRwLock and in
-- ExReleaseRwLock.
use boron.Prelude.{
  ℕ, suc, ◌+◌, ◌<◌, ◌≡◌, refl, false, arith, Option, some, none, ◌⊎◌, inl, inr, List, [], ◌∷◌,
  length, get_or, ◌==◌, if◌then◌else◌, subst, if-both, not, ◌&&◌,
}
use boron.Ex.RwLock.{
  Owner, RwLock, OwnerPointer, exclusive, shared, table, no_owner, owner_of, find_in_table,
  find_owner, find_thread, find_held,
}
use boron.Ex.RwLock.Table.{IsShared, total, entries, owned}

-- The predicate holds of what is there, if anything is.
abbrev pub OfFound {ℓ} : {A : Type ℓ} → (A → Type 0) → Option A → Type 0
OfFound P none = Unit
OfFound P (some a) = P a

-- What holds of every entry of the thread or of nobody, and of the free entry, holds of what is found.
find_in_table-OfFound :
    (P : OwnerPointer → Type 0) (t i : ℕ) (free : Option OwnerPointer) (os : List Owner)
    → ((j : ℕ)
        → j < length os
        → ((get_or os j no_owner).owner_thread ≡ t) ⊎ ((get_or os j no_owner).owner_thread ≡ 0)
        → P (table (i + j)))
    → OfFound P free
    → OfFound P (find_in_table t i free os)
unfolding find_in_table
find_in_table-OfFound P t i free [] h f = f
find_in_table-OfFound P t i free (o ∷ os) h f =
    if-both (OfFound P) (o.owner_thread == t) (some (table i)) _
      (λ e. subst (λ k. P (table k)) (omega arith) (h 0 (omega arith) (inl (ground (arith, e)))))
      (λ e.
        find_in_table-OfFound P t (suc i) _ os
          (λ j k m. subst (λ n. P (table n)) (omega arith) (h (suc j) (omega (arith, k)) m))
          (later free f))
  where
    later :
        (free' : Option OwnerPointer)
        → OfFound P free'
        → OfFound P (elim free' [
          | some s ↦ some s
          | none ↦ if o.owner_thread == 0 then some (table i) else none
        ])
    later (some s) p = p
    later none p =
        if-both (OfFound P) (o.owner_thread == 0) (some (table i)) none
          (λ e.
            subst (λ k. P (table k)) (omega arith) (h 0 (omega arith) (inr (ground (arith, e)))))
          (λ e. tt)

-- An entry for shared owners, of the thread or of nobody.
abbrev pub Usable : RwLock → ℕ → OwnerPointer → Type 0
Usable l t s =
    IsShared l s × (((owner_of l s).owner_thread ≡ t) ⊎ ((owner_of l s).owner_thread ≡ 0))

at_index : (l : RwLock) (P : OwnerPointer → Type 0) (j : ℕ) → P (table j) → P (table (0 + j))
at_index l P j = subst (λ n. P (table n)) (omega arith)

-- ExFindOwnerRwLock finds a usable entry of a lock that the thread does not own exclusively.
pub find_owner-Usable :
    (l : RwLock) (t : ℕ)
    → (not (t == 0) && (l.exclusive_owner.owner_thread == t)) ≡ false
    → OfFound (Usable l t) (find_owner l t)
unfolding find_owner
find_owner-Usable l t h =
    if-both (OfFound (Usable l t)) (not (t == 0) && (l.exclusive_owner.owner_thread == t))
      (some exclusive) _ (λ e. absurd (ground (arith, e, h)))
      (λ e.
        find_in_table-OfFound (Usable l t) t 0 _ l.owner_table
          (λ j k m. at_index l (Usable l t) j (k, m))
          (if-both (OfFound (Usable l t)) (l.shared_owner.owner_thread == 0) (some shared) none
            (λ z. (tt, inr (ground (arith, z)))) (λ z. tt)))

find_thread-OfFound :
    (P : OwnerPointer → Type 0) (t i : ℕ) (os : List Owner)
    → ((j : ℕ) → j < length os → (get_or os j no_owner).owner_thread ≡ t → P (table (i + j)))
    → OfFound P (find_thread t i os)
unfolding find_thread
find_thread-OfFound P t i [] h = tt
find_thread-OfFound P t i (o ∷ os) h =
    if-both (OfFound P) (o.owner_thread == t) (some (table i)) _
      (λ e. subst (λ k. P (table k)) (omega arith) (h 0 (omega arith) (ground (arith, e))))
      (λ e.
        find_thread-OfFound P t (suc i) os
          (λ j k m. subst (λ n. P (table n)) (omega arith) (h (suc j) (omega (arith, k)) m)))

-- ExReleaseRwLock finds an entry of the thread.
abbrev pub Held : RwLock → ℕ → OwnerPointer → Type 0
Held l t s = IsShared l s × ((owner_of l s).owner_thread ≡ t)

pub find_held-Held :
    (l : RwLock) (t : ℕ)
    → (l.exclusive_owner.owner_thread == t) ≡ false
    → OfFound (Held l t) (find_held l t)
unfolding find_held
find_held-Held l t h =
    if-both (OfFound (Held l t)) (l.exclusive_owner.owner_thread == t) (some exclusive) _
      (λ e. absurd (ground (arith, e, h)))
      (λ e.
        if-both (OfFound (Held l t)) (l.shared_owner.owner_thread == t) (some shared) _
          (λ z. (tt, ground (arith, z)))
          (λ z.
            find_thread-OfFound (Held l t) t 0 l.owner_table
              (λ j k m. at_index l (Held l t) j (k, m))))

find_thread-none : (t i : ℕ) (os : List Owner) → find_thread t i os ≡ none → total (owned t) os ≡ 0
unfolding find_thread
find_thread-none t i [] h = refl
find_thread-none t i (o ∷ os) h = ground (arith, find_thread-none t (suc i) os, h)

-- The search finds an entry of every thread that has one.
pub find_held-none : (l : RwLock) (t : ℕ) → find_held l t ≡ none → total (owned t) (entries l) ≡ 0
unfolding find_held
find_held-none l t h = ground (arith, find_thread-none t 0 l.owner_table, h)
