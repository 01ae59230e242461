-- ===== src/Ex/RwLock/Table.antt =====
-- boron/source/ex/rwlock.c: sums over the entries for shared owners, and how an entry's change
-- changes them.
use boron.Prelude.{
  ℕ, zero, suc, ◌+◌, ◌<◌, ◌≡◌, refl, arith, List, [], ◌∷◌, ◌++◌, length, get_or, set, replicate,
  ◌==◌, if◌then◌else◌,
}
use boron.Ex.RwLock.{
  Owner, RwLock, OwnerPointer, exclusive, shared, table, no_owner, owner_of, set_owner,
}

abbrev pub total : (Owner → ℕ) → List Owner → ℕ
total f [] = 0
total f (o ∷ os) = f o + total f os

-- The entries that shared owners have.
abbrev pub entries : RwLock → List Owner
entries l = l.shared_owner ∷ l.owner_table

-- An entry with an owner.
abbrev pub used : Owner → ℕ
used o = if o.owner_thread == 0 then 0 else 1

-- An entry of a given owner.
abbrev pub owned : ℕ → Owner → ℕ
owned t o = if o.owner_thread == t then 1 else 0

-- An entry whose owner has it not locked, or which is locked and has none.
abbrev pub broken : Owner → ℕ
broken o =
    if o.owner_thread == 0 then (if o.locked == 0 then 0 else 1) else if o.locked == 0 then 1 else 0

-- The entry exists, and is one for shared owners.
abbrev pub IsShared : RwLock → OwnerPointer → Type 0
IsShared l exclusive = ⊥
IsShared l shared = Unit
IsShared l (table i) = i < length l.owner_table

total-set :
    (f : Owner → ℕ) (os : List Owner) (i : ℕ) (o : Owner)
    → i < length os
    → total f (set os i o) + f (get_or os i no_owner) ≡ total f os + f o
total-set f [] i o h = elim h [ ]
total-set f (p ∷ os) zero o h = omega arith
total-set f (p ∷ os) (suc i) o h = omega (arith, total-set f os i o (omega arith))

-- Any sum changes by what the entry counted and counts.
pub total-set_owner :
    (f : Owner → ℕ) (l : RwLock) (s : OwnerPointer) (o : Owner)
    → IsShared l s
    → total f (entries (set_owner l s o)) + f (owner_of l s) ≡ total f (entries l) + f o
total-set_owner f l exclusive o h = elim h [ ]
total-set_owner f l shared o h = omega arith
total-set_owner f l (table i) o h = omega (arith, total-set f l.owner_table i o h)

total-append : (f : Owner → ℕ) (os ps : List Owner) → total f (os ++ ps) ≡ total f os + total f ps
total-append f [] ps = omega arith
total-append f (o ∷ os) ps = omega (arith, total-append f os ps)

-- New entries count nothing when an empty entry counts nothing.
pub total-grow :
    (f : Owner → ℕ) (os : List Owner)
    → f no_owner ≡ 0
    → total f (os ++ replicate 4 no_owner) ≡ total f os
total-grow f os h = omega (arith, total-append f os (replicate 4 no_owner), h)

-- A change of an entry for shared owners leaves the rest of the lock.
pub record Rest (l l' : RwLock) : Type 0 where
  pub held : l'.held_count ≡ l.held_count
  pub shared_waits : l'.shared_waiter_count ≡ l.shared_waiter_count
  pub exclusive_waits : l'.exclusive_waiter_count ≡ l.exclusive_waiter_count
  pub exclusive_locked : l'.exclusive_owner.locked ≡ l.exclusive_owner.locked
  pub exclusive_thread : l'.exclusive_owner.owner_thread ≡ l.exclusive_owner.owner_thread

pub set_owner-Rest :
    (l : RwLock) (s : OwnerPointer) (o : Owner) → IsShared l s → Rest l (set_owner l s o)
set_owner-Rest l exclusive o h = elim h [ ]
set_owner-Rest l shared o h = record {
  held = refl;
  shared_waits = refl;
  exclusive_waits = refl;
  exclusive_locked = refl;
  exclusive_thread = refl;
}
set_owner-Rest l (table i) o h = record {
  held = refl;
  shared_waits = refl;
  exclusive_waits = refl;
  exclusive_locked = refl;
  exclusive_thread = refl;
}
