-- ===== src/Prelude/Status.antt =====
-- `BSTATUS` of common/include/status.h: the codes that the modelled functions return or compare.
use Prim.Native.Nat.{ℕ}
use mathlib.Core.Bool.{Bool, true, false}

pub data Bstatus : Type 0 where
  success : Bstatus
  invalid_parameter insufficient_memory unimplemented : Bstatus
  waiting alerted timeout killed kernel_apc : Bstatus
  unsupported_function invalid_handle : Bstatus
  table_not_empty delete_canceled too_many_handles : Bstatus
  end_of_file blocking_operation : Bstatus
  -- `STATUS_WAIT(n)`
  range_wait : ℕ → Bstatus

-- `FAILED(x)`
abbrev pub failed : Bstatus → Bool
failed success = false
failed _ = true
