-- ===== src/Lua/Bits.antt =====
-- `setBit`, `getBit` and `getBitAmount` of src/luaRegister.cc.
use Prim.Native.Nat.{bit_and, bit_or}
use proj.Base.{
  ℕ, zero, suc, ◌+◌, ◌-◌, ◌^◌, not, ◌&&◌, Option, none, some, if◌then◌else◌, leb, ◌==◌, ◌>>=◌,
}
use proj.Lua.{Stack, Pushed}

-- `1 << (pos-1)`, none where C++ gives it no value.
abbrev pub mask_of : ℕ → Option ℕ
mask_of pos = if leb 1 pos && leb pos 32 then some (2 ^ (pos - 1)) else none

-- `setBit`
unfoldable pub set_bit : Stack → Option Pushed
set_bit p_state = p_state.to_int 1 >>= λ val. p_state.to_int 2 >>= λ pos.
    p_state.to_int 3 >>= λ bit. mask_of pos >>= λ set. some (
      Pushed.int (
        if bit == 1
        then bit_or val set
        else if bit == 0
        then bit_and val (2 ^ 32 - 1 - set)
        else val))

-- `getBit`
unfoldable pub get_bit : Stack → Option Pushed
get_bit p_state = p_state.to_int 1 >>= λ val. p_state.to_int 2 >>= λ pos.
    mask_of pos >>= λ set. some (Pushed.boolean (not (bit_and val set == 0)))

-- The loop of `getBitAmount`, on at most `fuel` rounds. `val-1` has no value for the least `int`.
unfoldable pub amount : ℕ → ℕ → ℕ → Option ℕ
amount zero val amt = if val == 0 then some amt else none
amount (suc fuel) val amt =
    let rest = amount fuel (bit_and val (val - 1)) (amt + 1) in
    if val == 0 then some amt else if val == 2 ^ 31 then none else rest

-- `getBitAmount`
unfoldable pub get_bit_amount : Stack → Option Pushed
get_bit_amount p_state =
    p_state.to_int 1 >>= λ val. amount 32 val 0 >>= λ amt. some (Pushed.int amt)
