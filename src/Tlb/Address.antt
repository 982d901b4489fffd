-- ===== src/Tlb/Address.antt =====
-- arch/Address.h, arch/Address.cpp: an address with its width, where `Addr` has 64 bits. `none` is the
-- exception for an address that is not valid.
use mgsim.Base.{ℕ, ◌/◌, ◌^◌, Bool, true, leb, ◌==◌, if◌then◌else◌, Option, ◌>>◌, assert}

pub record RAddr : Type 0 where
  pub value : ℕ
  pub width : ℕ

-- `isValid`; `a >> w` for a width beyond the bits of `Addr`.
unfoldable pub is_valid : ℕ → ℕ → Bool
is_valid a w = if leb w 64 then true else a / 2 ^ w == 0

-- `strictExpect`, which is the same as `alwaysExpect` where `RMADDR_STRICT` is set.
unfoldable pub strict_expect : ℕ → RAddr → Option (Unit {0})
unfolding is_valid
strict_expect w a = do assert (a.width == w); assert (is_valid a.value a.width)

-- `operator==` compares the values only.
abbrev pub same_value : RAddr → RAddr → Bool
same_value a b = a.value == b.value
