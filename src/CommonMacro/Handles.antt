-- ===== src/CommonMacro/Handles.antt =====
-- The handles of toolbox/src/main/cpp/lcu/common_macro.h.
use my_toolbox.Base.{ℕ, ◌≡◌, ◌↔◌, ◌<◌, ◌^◌, ℤ, pos, negsuc, arith}
use my_toolbox.CommonMacro.{
  Platform, bits32, bits64, addresses, as_intptr, as_ptr, ptr_to_long64, long64_to_ptr,
}

-- The range of a `long long`.
abbrev pub IsInt64 : ℤ → Type 0
IsInt64 (pos n) = n < 2 ^ 63
IsInt64 (negsuc n) = n < 2 ^ 63

-- A pointer of either size that goes to Java as a handle comes back as the same pointer, the
-- handle is a `long` of Java, and it is 0 only for NULL.
pub long64_to_ptr-ptr_to_long64 :
    (f : Platform) (p : ℕ)
    → p < addresses f
    → (long64_to_ptr f (ptr_to_long64 f p) ≡ p)
      × (IsInt64 (ptr_to_long64 f p) × ((ptr_to_long64 f p ≡ pos 0) ↔ (p ≡ 0)))
unfolding ptr_to_long64 long64_to_ptr as_intptr as_ptr
long64_to_ptr-ptr_to_long64 bits32 p h = ground arith
long64_to_ptr-ptr_to_long64 bits64 p h = ground arith
