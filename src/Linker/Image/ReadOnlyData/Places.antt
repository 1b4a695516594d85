-- ===== src/Linker/Image/ReadOnlyData/Places.antt =====
-- Every constant is found in the read-only data at the place that it was given.
use malachite_scripting_lang.Prelude.{
  ℕ, ◌+◌, ◌^◌, ◌<◌, ◌≤◌, ◌≡◌, refl, ap, ◌∙◌, arith, true, false, Option, some, List, [], ◌∷◌, All,
  leb, ltb,
}
use malachite_scripting_lang.Outcome.{Returns, Returns-bind}
use malachite_scripting_lang.Vm.Definitions.{u64}
use malachite_scripting_lang.Buffer.{StaticBpointer, copy_to}
use malachite_scripting_lang.Buffer.Fields.{copy_to-below, copy_to-inside}
use malachite_scripting_lang.Linker.Definitions.{ConstantData}
use malachite_scripting_lang.Linker.Image.ReadOnlyData.{Layout, place_constant, lay_constants}

-- The room that constants take.
abbrev pub room_of : List ConstantData → ℕ
room_of [] = 0
room_of (c ∷ cs) = c.using_size_in_bytes + room_of cs

-- The constants one behind another from `offset` on.
abbrev pub at_offsets : ℕ → List ConstantData → List ConstantData
at_offsets offset [] = []
at_offsets offset (c ∷ cs) =
    record c { memory_offset = offset } ∷ at_offsets (offset + c.using_size_in_bytes) cs

-- The bytes of a constant stand at its place.
abbrev pub Stored : StaticBpointer → ConstantData → Type 0
Stored rod c = (i : ℕ) → i < c.real_size_in_bytes → rod.byte (c.memory_offset + i) ≡ c.data_bytes i

-- What the loop returns, for constants from `offset` on in what was `rod`.
pub record IsLaid (cs : List ConstantData) (rod : StaticBpointer) (offset : ℕ) (layout : Layout)
    : Type 0 where
  pub places : layout.constants ≡ at_offsets offset cs
  pub end : layout.rod_offset ≡ offset + room_of cs
  pub stored : All (Stored layout.read_only_data) (at_offsets offset cs)
  pub size : layout.read_only_data.bytes_size ≡ rod.bytes_size
  pub before : (a : ℕ) → a < offset → layout.read_only_data.byte a ≡ rod.byte a

abbrev pub Fits : ConstantData → Type 0
Fits c = c.real_size_in_bytes ≤ c.using_size_in_bytes

-- Where every constant uses at least its own size, and the read-only data have room for all behind the
-- offset and are below 2 ^ 64 bytes, the loop returns without its error: the constants are placed one
-- behind another, each constant's bytes stand at its place, and what stood before the offset is kept.
pub lay_constants-IsLaid :
    (cs : List ConstantData) (rod : StaticBpointer) (offset : ℕ)
    → All Fits cs
    → offset + room_of cs ≤ rod.bytes_size
    → rod.bytes_size < 2 ^ 64
    → Returns
        (λ (answer : Option Layout).
          (layout : Layout) × (answer ≡ some layout) × IsLaid cs rod offset layout)
        (lay_constants cs rod offset)
unfolding lay_constants place_constant
lay_constants-IsLaid [] rod offset fits room small = (
  _,
  refl,
  record { places = refl; end = omega arith; stored = tt; size = refl; before = λ a lt. refl },
)
lay_constants-IsLaid (c ∷ cs) rod offset (fit, fits) room small =
    let sum : u64 (c.real_size_in_bytes + offset) ≡ c.real_size_in_bytes + offset = omega arith in
    let next : u64 (offset + c.using_size_in_bytes) ≡ offset + c.using_size_in_bytes =
      omega arith in
    let sizes : ltb rod.bytes_size (c.real_size_in_bytes + offset) ≡ false = ground arith in
    let inside : leb (offset + c.real_size_in_bytes) rod.bytes_size ≡ true = ground arith in
    rw (sum, sizes, inside, next)
      (Returns-bind _ _ (lay_constants cs rod' (offset + c.using_size_in_bytes)) _
        (lay_constants-IsLaid cs rod' (offset + c.using_size_in_bytes) fits (omega arith) small)
        λ answer (layout, e, laid). rw e (
          _,
          refl,
          record {
            places =
                ap (λ (xs : List ConstantData). record c { memory_offset = offset } ∷ xs)
                  laid.places;
            end = omega (arith, laid.end);
            stored = (
              λ i lt.
                  laid.before (offset + i) (omega arith)
                  ∙ copy_to-inside offset c.real_size_in_bytes c.data_bytes rod.byte i lt,
              laid.stored,
            );
            size = laid.size;
            before = λ a lt.
                laid.before a (omega arith)
                ∙ copy_to-below offset c.real_size_in_bytes c.data_bytes rod.byte a lt;
          },
        ))
  where
    rod' : StaticBpointer
    rod' = record rod { byte = copy_to offset c.real_size_in_bytes c.data_bytes rod.byte }
