-- ===== src/Vm/Instruction/Logic.antt =====
-- The logical and bitwise cases of `execute_code_switch`.
use malachite_scripting_lang.Prelude.{
  ℕ, ◌-◌, ◌*◌, ◌/◌, ◌^◌, bit_and, bit_or, Bool, not, ◌&&◌, ◌||◌, ltb, ◌==◌, if◌then◌else◌,
}
use malachite_scripting_lang.Outcome.{Outcome, ok, undefined}
use malachite_scripting_lang.Vm.Definitions.{u64}

-- `condition ? 1 : 0`
abbrev pub truth : Bool → ℕ
truth b = if b then 1 else 0

unfoldable pub and_words : ℕ → ℕ → Outcome ℕ
and_words a b = ok (truth (not (a == 0) && not (b == 0)))

unfoldable pub or_words : ℕ → ℕ → Outcome ℕ
or_words a b = ok (truth (not (a == 0) || not (b == 0)))

unfoldable pub not_word : ℕ → Outcome ℕ
not_word a = ok (truth (a == 0))

unfoldable pub bit_and_words : ℕ → ℕ → Outcome ℕ
bit_and_words a b = ok (bit_and a b)

unfoldable pub bit_or_words : ℕ → ℕ → Outcome ℕ
bit_or_words a b = ok (bit_or a b)

unfoldable pub bit_not_word : ℕ → Outcome ℕ
bit_not_word a = ok (2 ^ 64 - 1 - a)

-- A shift by 64 or more has no meaning in C++.
unfoldable pub offset_left : ℕ → ℕ → Outcome ℕ
offset_left a b = if ltb b 64 then ok (u64 (a * 2 ^ b)) else undefined

unfoldable pub offset_right : ℕ → ℕ → Outcome ℕ
offset_right a b = if ltb b 64 then ok (a / 2 ^ b) else undefined
