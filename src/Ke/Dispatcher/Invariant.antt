-- ===== src/Ke/Dispatcher/Invariant.antt =====
-- The invariant of the dispatcher: its objects, its wait lists and the waits of its threads.
use boron.Prelude.{ℕ, ◌≡◌, ◌≢◌, Bool, true, false, ◌||◌, ◌==◌, List, [], ◌∷◌}
use boron.Ke.Dispatcher.{WaitBlock, Dispatcher, member}
use boron.Ke.Dispatcher.Objects.{IsObject, HasRoom}

abbrev pub waits_in : ℕ → List WaitBlock → Bool
waits_in t [] = false
waits_in t (b ∷ bs) = b.thread == t || waits_in t bs

-- No thread has two blocks.
abbrev pub Once : List WaitBlock → Type 0
Once [] = Unit {0}
Once (b ∷ bs) = (waits_in b.thread bs ≡ false) × Once bs

abbrev pub AllFor : ℕ → List WaitBlock → Type 0
AllFor o [] = Unit {0}
AllFor o (b ∷ bs) = (b.object ≡ o) × AllFor o bs

abbrev pub Distinct : List ℕ → Type 0
Distinct [] = Unit {0}
Distinct (x ∷ xs) = (member x xs ≡ false) × Distinct xs

-- The list of an object has one block for each thread that waits for it, and no other.
pub record IsDispatcher (d : Dispatcher) : Type 0 where
  pub objects : (o : ℕ) → IsObject (d.object o)
  pub queued : (o t : ℕ) → waits_in t (d.object o).wait_blocks ≡ member o (d.thread t).wait_objects
  pub once : (o : ℕ) → Once (d.object o).wait_blocks
  pub placed : (o : ℕ) → AllFor o (d.object o).wait_blocks
  pub distinct : (t : ℕ) → Distinct (d.thread t).wait_objects
  pub real : (t o : ℕ) → member o (d.thread t).wait_objects ≡ true → t ≢ 0
  pub room :
      (t o : ℕ)
      → member o (d.thread t).wait_objects ≡ true
      → (d.object o).owner ≡ t
      → HasRoom (d.object o)
