-- ===== src/Ex/RwLock/Hold.antt =====
-- boron/source/ex/rwlock.c: a lock with the threads around it, and what is invariant of them.
use boron.Prelude.{
  count, ℕ, ◌+◌, ◌<◌, ◌≡◌, ◌≢◌, refl, subst, Bool-cases, arith, inl, inr, List, [], ◌∷◌, length,
  ◌==◌, if◌then◌else◌,
}
use boron.Ex.RwLock.{RwLock, initialize_rw_lock}
use boron.Ex.RwLock.Table.{total, entries, used, owned, broken}

-- The lock; the permits of its semaphore, and whether its event is set for a waiter that has not
-- run yet; the threads to which it is granted, once for each entry that they own, and the threads
-- in ExWaitOnRwLock.
pub record World : Type 0 where
  pub lock : RwLock
  pub permits : ℕ
  pub signals : ℕ
  pub readers : List ℕ
  pub writers : List ℕ
  pub shared_waiters : List ℕ
  pub exclusive_waiters : List ℕ

-- The thread is once less in the second list.
pub data Removes : ℕ → List ℕ → List ℕ → Type 0 where
  here : (t : ℕ) (xs : List ℕ) → Removes t (t ∷ xs) xs
  there : (t x : ℕ) (xs ys : List ℕ) → Removes t xs ys → Removes t (x ∷ xs) (x ∷ ys)

pub count-Removes : (t : ℕ) (xs : List ℕ) → 0 < count t xs → (ys : List ℕ) × Removes t xs ys
count-Removes t [] h = elim h [ ]
count-Removes t (x ∷ xs) h = elim (Bool-cases (x == t)) [
  | inl e ↦ (xs, subst (λ y. Removes t (y ∷ xs) xs) (ground (arith, e)) (here t xs))
  | inr e ↦ let (ys, r) = count-Removes t xs (ground (arith, e, h)) in (x ∷ ys, there t x xs ys r)
]

pub Removes-length : (t : ℕ) (xs ys : List ℕ) → Removes t xs ys → length xs ≡ length ys + 1
Removes-length _ _ _ (here t xs) = omega arith
Removes-length _ _ _ (there t x xs ys r) = omega (arith, Removes-length t xs ys r)

pub Removes-count :
    (t : ℕ) (xs ys : List ℕ) (u : ℕ)
    → Removes t xs ys
    → count u xs ≡ (if t == u then 1 else 0) + count u ys
Removes-count _ _ _ u (here t xs) = refl
Removes-count _ _ _ u (there t x xs ys r) = omega (arith, Removes-count t xs ys u r)

abbrev pub locked_exclusively : RwLock → ℕ
locked_exclusively l = if l.exclusive_owner.locked == 0 then 0 else 1

-- Every entry is accounted for, and the threads around the lock are those that it counts.
pub record IsWorld (w : World) : Type 0 where
  pub holds :
      total used (entries w.lock) + locked_exclusively w.lock
      ≡ w.lock.held_count + w.lock.shared_waiter_count
  pub alone : locked_exclusively w.lock ≡ 1 → w.lock.held_count ≡ 1
  pub free :
      w.lock.held_count ≡ 0 → (w.lock.shared_waiter_count ≡ 0) × (w.lock.exclusive_waiter_count ≡ 0)
  pub sound : total broken (entries w.lock) ≡ 0
  pub unowned : w.lock.exclusive_owner.locked ≡ 0 → w.lock.exclusive_owner.owner_thread ≡ 0
  pub granted : total used (entries w.lock) ≡ length w.readers + length w.shared_waiters
  pub owners :
      (t : ℕ)
      → t ≢ 0
      → total (owned t) (entries w.lock) ≡ count t w.readers + count t w.shared_waiters
  pub sleeping : length w.shared_waiters ≡ w.lock.shared_waiter_count + w.permits
  pub queued : length w.exclusive_waiters ≡ w.lock.exclusive_waiter_count + w.signals
  pub written : length w.writers + w.signals ≡ locked_exclusively w.lock
  pub writer :
      (t : ℕ)
      → w.lock.exclusive_owner.owner_thread ≡ t
      → t ≢ 0
      → w.signals ≡ 0
      → 0 < count t w.writers
  pub author :
      (t : ℕ)
      → 0 < count t w.writers
      → w.lock.exclusive_owner.owner_thread ≢ 0
      → w.lock.exclusive_owner.owner_thread ≡ t
  pub chosen :
      (t : ℕ)
      → w.lock.exclusive_owner.owner_thread ≡ t
      → t ≢ 0
      → w.signals ≡ 1
      → 0 < count t w.exclusive_waiters

-- A lock that was just initialized, with nobody around it.
abbrev pub initial : World
initial = record {
  lock = initialize_rw_lock;
  permits = 0;
  signals = 0;
  readers = [];
  writers = [];
  shared_waiters = [];
  exclusive_waiters = [];
}

pub initial-IsWorld : IsWorld initial
initial-IsWorld = record {
  holds = refl;
  alone = λ h. ground (arith, h);
  free = λ h. (refl, refl);
  sound = refl;
  unowned = λ h. refl;
  granted = refl;
  owners = λ t h. ground (arith, h);
  sleeping = refl;
  queued = refl;
  written = refl;
  writer = λ t h z s. ground (arith, h, z);
  author = λ t h z. elim h [ ];
  chosen = λ t h z s. ground (arith, h, z);
}

-- In a lock that is held exclusively, no reader and no permit is left.
pub IsWorld-alone :
    (w : World)
    → IsWorld w
    → w.lock.exclusive_owner.locked ≢ 0
    → (length w.readers ≡ 0) × (w.permits ≡ 0) × (length w.writers + w.signals ≡ 1)
IsWorld-alone w v h = ground (arith, h, v.holds, v.alone, v.granted, v.sleeping, v.written)
