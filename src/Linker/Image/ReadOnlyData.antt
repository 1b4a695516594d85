-- ===== src/Linker/Image/ReadOnlyData.antt =====
-- The first loop of TranslatorVM_1::Translate: each constant gets its place in the read-only data.
pub mod Places
use malachite_scripting_lang.Prelude.{
  ℕ, ◌+◌, ◌-◌, ◌<◌, ◌≤◌, ◌≡◌, Bool, true, false, Option, none, some, List, [], ◌∷◌, leb, ltb,
  if◌then◌else◌,
}
use malachite_scripting_lang.Outcome.{Outcome, ok, undefined, ◌>>=◌}
use malachite_scripting_lang.Vm.Definitions.{u64}
use malachite_scripting_lang.Buffer.{StaticBpointer, copy_to}
use malachite_scripting_lang.Linker.Definitions.{ConstantData}

-- The constants with their places, the read-only data, and the offset behind the last constant.
pub record Layout : Type 0 where
  pub constants : List ConstantData
  pub read_only_data : StaticBpointer
  pub rod_offset : ℕ

-- `memcpy(ptr + rod_offset, constant.data, constant.real_size_in_bytes)`
unfoldable pub place_constant : ConstantData → ℕ → StaticBpointer → Outcome StaticBpointer
place_constant c rod_offset rod =
    if leb (rod_offset + c.real_size_in_bytes) rod.bytes_size
    then ok (record rod { byte = copy_to rod_offset c.real_size_in_bytes c.data_bytes rod.byte })
    else undefined

-- The loop; `none` is the return by the error about the sizes.
unfoldable pub lay_constants : List ConstantData → StaticBpointer → ℕ → Outcome (Option Layout)
unfolding place_constant
lay_constants [] rod rod_offset =
    ok (some (record { constants = []; read_only_data = rod; rod_offset = rod_offset }))
lay_constants (c ∷ cs) rod rod_offset =
    if ltb rod.bytes_size (u64 (c.real_size_in_bytes + rod_offset))
    then ok none
    else (place_constant c rod_offset rod >>= λ rod'.
        lay_constants cs rod' (u64 (rod_offset + c.using_size_in_bytes)) >>= λ laid. ok (elim laid [
          | none ↦ none
          | some layout ↦ some (record layout {
            constants = record c { memory_offset = rod_offset } ∷ layout.constants;
          })
        ]))
