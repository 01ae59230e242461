-- ===== src/Ke/Dispatcher/Objects.antt =====
-- One dispatcher object: its invariant, and what an acquisition does to who can have it.
use boron.Prelude.{ℕ, ◌+◌, ◌^◌, ◌<◌, ◌≡◌, ◌≢◌, true, false, ◌==◌, arith}
use boron.Ke.Dispatcher.{Object, is_mutex, is_object_signaled, acquired, owned_by_other}

-- The count is not negative, and a mutex, alone, has an owner exactly while it is held.
pub record IsObject (o : Object) : Type 0 where
  pub limit : o.signaled < 2 ^ 15
  pub held : is_mutex o.kind ≡ true → (o.signaled == 0) ≡ (o.owner == 0)
  pub unowned : is_mutex o.kind ≡ false → o.owner ≡ 0

-- A further acquisition does not overflow the count of a mutex.
abbrev pub HasRoom : Object → Type 0
HasRoom o = o.signaled + 1 < 2 ^ 15

pub signaled-owned_by_other :
    (o : Object) (t : ℕ) → IsObject o → is_object_signaled o t ≡ true → owned_by_other o t ≡ false
signaled-owned_by_other o t v h = ground (arith, v.limit, v.held)

pub acquired-IsObject :
    (o : Object) (t : ℕ)
    → IsObject o
    → t ≢ 0
    → is_object_signaled o t ≡ true
    → (o.owner ≡ t → HasRoom o)
    → IsObject (acquired o t)
acquired-IsObject o t v nz h room = record {
  limit = ground (arith, v.limit, v.held, room);
  held = ground (arith, v.limit, v.held, room);
  unowned = ground (arith, v.unowned);
}

-- What another thread could not have before, it cannot have after.
pub acquired-others :
    (o : Object) (t u : ℕ)
    → IsObject o
    → u ≢ t
    → is_object_signaled o t ≡ true
    → (o.owner ≡ t → HasRoom o)
    → is_object_signaled (acquired o t) u ≡ true
    → is_object_signaled o u ≡ true
acquired-others o t u v ne h room after = ground (arith, v.limit, v.held, room, after)
