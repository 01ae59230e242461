-- ===== src/Ex/RwLock/Growth.antt =====
-- boron/source/ex/rwlock.c: with a table that has grown, a pass of ExAcquireSharedRwLock or of
-- ExDemoteToSharedRwLock is the last one.
use boron.Prelude.{
  ℕ, suc, ◌≡◌, ◌≢◌, Bool, not, ◌&&◌, arith, Option, none, some, List, [], ◌∷◌, ◌++◌, length,
  replicate, ◌==◌, if-both,
}
use boron.Ex.RwLock.{
  RwLock, Owner, OwnerPointer, table, retries, no_owner, find_in_table, find_owner,
  grow_owner_table, acquire_shared, demote_to_shared,
}

find_in_table_free :
    (t i : ℕ) (s : OwnerPointer) (os : List Owner) → find_in_table t i (some s) os ≢ none
unfolding find_in_table
find_in_table_free t i s [] h = ground (arith, h)
find_in_table_free t i s (o ∷ os) h = ground (arith, h, find_in_table_free t (suc i) s os)

find_in_table_room :
    (t i n : ℕ) (free : Option OwnerPointer) (os : List Owner)
    → find_in_table t i free (os ++ replicate (suc n) no_owner) ≢ none
unfolding find_in_table
find_in_table_room t i n (some s) os h =
    find_in_table_free t i s (os ++ replicate (suc n) no_owner) h
find_in_table_room t i n none [] h =
    ground (arith, h, find_in_table_free t (suc i) (table i) (replicate n no_owner))
find_in_table_room t i n none (o ∷ os) h =
    if-both (λ r. r ≢ none) (o.owner_thread == t) (some (table i)) _ (λ e k. ground (arith, k))
      (λ e. find_in_table_room t (suc i) n _ os) h

-- A table that has grown has room.
find_owner-grow :
    (l : RwLock) (t : ℕ) → find_owner (grow_owner_table l (length l.owner_table)) t ≢ none
unfolding find_owner
find_owner-grow l t =
    if-both (λ k. find_owner k t ≢ none) (length l.owner_table == length l.owner_table) _ _
      (λ e.
        if-both (λ r. r ≢ none) (not (t == 0) && (l.exclusive_owner.owner_thread == t)) _ _
          (λ z h. ground (arith, h)) (λ z. find_in_table_room t 0 3 _ l.owner_table))
      (λ e. absurd (ground (arith, e)))

acquire_shared_found :
    (l : RwLock) (t : ℕ) (dont_block can_starve : Bool)
    → find_owner l 0 ≢ none
    → find_owner l t ≢ none
    → (acquire_shared l t dont_block can_starve).1 ≢ retries
unfolding acquire_shared
acquire_shared_found l t d c h k e = ground (arith, h, k, e)

-- The pass of ExAcquireSharedRwLock that directly follows a growth of the table is the last one: it
-- acquires the lock, gives up or waits.
pub acquire_shared-Settles :
    (l : RwLock) (t : ℕ) (dont_block can_starve : Bool)
    → (acquire_shared (grow_owner_table l (length l.owner_table)) t dont_block can_starve).1
      ≢ retries
unfolding acquire_shared
acquire_shared-Settles l t d c =
    acquire_shared_found (grow_owner_table l (length l.owner_table)) t d c (find_owner-grow l 0)
      (find_owner-grow l t)

pub demote_to_shared-Settles :
    (l : RwLock) (t : ℕ) (r : RwLock × Option ℕ)
    → demote_to_shared (grow_owner_table l (length l.owner_table)) t ≡ some r
    → r.1 ≢ none
unfolding demote_to_shared
demote_to_shared-Settles l t r e h = ground (arith, e, h, find_owner-grow l 0)
