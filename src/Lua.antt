-- ===== src/Lua.antt =====
-- src/luaRegister.h, src/luaRegister.cc, src/luaState.h and src/luaState.cc: the functions that Lua
-- scripts call, and their registration. Lua's own library is a parameter: what a function reads from
-- the stack, and what a new state has for globals.
pub mod Bits
pub mod BitLaws
pub mod Register
pub mod Logging
mod Tests
use proj.Base.{
  ℕ, ◌+◌, ◌-◌, ◌*◌, ◌%◌, ◌^◌, Bool, true, ◌&&◌, Option, none, some, ◌++◌, [], ◌∷◌, if◌then◌else◌,
  leb, ltb, ◌>>=◌,
}
use proj.Base.Text.{Text}

-- What a function finds on the stack: `lua_tonumber` made an `int`, by its bits, none where it does not
-- fit one; and `lua_tostring`, none where it is null.
pub record Stack : Type 0 where
  pub to_int : ℕ → Option ℕ
  pub to_text : ℕ → Option Text

-- What a function pushes for its result: a number as an `int` by its bits, an unsigned number, or a
-- truth value.
pub data Pushed : Type 0 where
  int unsigned : ℕ → Pushed
  boolean : Bool → Pushed

-- `assert_s`: what is printed to `std::cout`; none where the text is null.
unfoldable pub assert_s : Stack → Option (Text × Pushed)
assert_s p_state = p_state.to_text 1 >>= λ str. some (str ++ 10 ∷ [], Pushed.unsigned 1)

-- The order of `int`s by their bits.
abbrev signed_le : ℕ → ℕ → Bool
signed_le a b = leb ((a + 2 ^ 31) % 2 ^ 32) ((b + 2 ^ 31) % 2 ^ 32)

-- `rand`; `dist` is what the distribution of `min` and `max` gives, which wants `min <= max`.
unfoldable pub rand : (ℕ → ℕ → ℕ) → Stack → Option Pushed
rand dist p_state = p_state.to_int 1 >>= λ lo.
    p_state.to_int 2 >>= λ hi. if signed_le lo hi then some (Pushed.int (dist lo hi)) else none

-- `Sleep`; `sleep` returns the seconds that are left.
unfoldable pub sleep_s : (ℕ → ℕ) → Stack → Option Pushed
sleep_s sleep p_state = p_state.to_int 1 >>= λ s. some (Pushed.unsigned (sleep s))

-- `SleepMs`; the product of `int`s has a value only if it fits one.
unfoldable pub sleep_ms : (ℕ → ℕ) → Stack → Option Pushed
sleep_ms usleep p_state = p_state.to_int 1 >>= λ mis.
    let magnitude = if ltb mis (2 ^ 31) then mis else 2 ^ 32 - mis in
    let bound = if ltb mis (2 ^ 31) then 2 ^ 31 - 1 else 2 ^ 31 in
    if leb (magnitude * 1000) bound
    then some (Pushed.unsigned (usleep (mis * 1000 % 2 ^ 32)))
    else none
