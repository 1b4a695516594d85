-- ===== src/Compiler/Packer/State/Reading.antt =====
-- The loops of the linker over the three sections read what the compiler has written there.
use malachite_scripting_lang.Prelude.{
  ℕ, zero, suc, ◌+◌, ◌*◌, ◌<◌, ◌≤◌, ◌≡◌, refl, ap, ◌∙◌, arith, Bool, true, false, none, List, [],
  ◌∷◌, ◌++◌, length, leb, ltb, All, if◌then◌else◌,
}
use malachite_scripting_lang.Prelude.Bytes.{bytes_value}
use malachite_scripting_lang.Outcome.{ok}
use malachite_scripting_lang.Buffer.{StaticBpointer, Field}
use malachite_scripting_lang.Buffer.Fields.{total, Holds, read_fields-Holds, bytes_value-shift}
use malachite_scripting_lang.Linker.Definitions.{SymbolType, SymbolData, ConstantData}
use malachite_scripting_lang.Linker.Objects.{
  read_order, read_constants, read_symbols, symbol_type, aligned_size,
}
use malachite_scripting_lang.Compiler.Packer.State.{
  PackedConstant, PackedSymbol, field, type_value, order_fields, constant_fields, place_fields,
  symbol_fields, constants_size,
}

-- A function or a variable: the symbols that are written with a place.
abbrev pub HasPlace : SymbolType → Type 0
HasPlace SymbolType.function = Unit
HasPlace SymbolType.variable = Unit
HasPlace _ = ⊥

-- The symbols as the linker numbers them.
abbrev pub symbols_from : ℕ → List PackedSymbol → List SymbolData
symbols_from i [] = []
symbols_from i (s ∷ ss) =
    record {
      id = i;
      offset_m_c = s.offset;
      native_code_offset = none;
      module_id = s.module_id;
      type = s.symbol_type;
    }
    ∷ symbols_from (i + 1) ss

pub total-order_fields : (m_ids : List ℕ) → total (order_fields m_ids) ≡ length m_ids * 2
unfolding order_fields
total-order_fields [] = refl
total-order_fields (m_id ∷ m_ids) = omega (arith, total-order_fields m_ids)

pub total-constant_fields :
    (i : ℕ) (cs : List PackedConstant) → total (constant_fields i cs) ≡ constants_size cs
unfolding constant_fields
total-constant_fields i [] = refl
total-constant_fields i (c ∷ cs) = omega (arith, total-constant_fields (i + 1) cs)

-- The fields of a symbol with a place.
abbrev four_fields : ℕ → PackedSymbol → List Field
four_fields i s =
    field i 8 ∷ field s.offset 8 ∷ field s.module_id 2 ∷ field (type_value s.symbol_type) 1 ∷ []

pub symbol_fields-four :
    (i : ℕ) (s : PackedSymbol) (ss : List PackedSymbol)
    → HasPlace s.symbol_type
    → symbol_fields i (s ∷ ss) ≡ four_fields i s ++ symbol_fields (i + 1) ss
unfolding symbol_fields
symbol_fields-four i s ss placed = by s.symbol_type placed
  where
    by :
        (t : SymbolType)
        → HasPlace t
        → field i 8
            ∷ (place_fields t s ++ field (type_value s.symbol_type) 1 ∷ symbol_fields (i + 1) ss)
          ≡ four_fields i s ++ symbol_fields (i + 1) ss
    by SymbolType.function h = refl
    by SymbolType.variable h = refl
    by SymbolType.undefined h = elim h [ ]
    by SymbolType.type h = elim h [ ]
    by SymbolType.namespace h = elim h [ ]
    by (SymbolType.other n) h = elim h [ ]

pub total-symbol_fields :
    (i : ℕ) (ss : List PackedSymbol)
    → All (λ (s : PackedSymbol). HasPlace s.symbol_type) ss
    → total (symbol_fields i ss) ≡ length ss * 19
unfolding symbol_fields
total-symbol_fields i [] h = refl
total-symbol_fields i (s ∷ ss) (placed, h) =
    ap total (symbol_fields-four i s ss placed) ∙ omega (arith, total-symbol_fields (i + 1) ss h)

symbol_type-value :
    (b : StaticBpointer) (t : SymbolType) → HasPlace t → symbol_type b (type_value t) ≡ t
unfolding symbol_type type_value
symbol_type-value b SymbolType.function h = refl
symbol_type-value b SymbolType.variable h = refl
symbol_type-value b SymbolType.undefined h = elim h [ ]
symbol_type-value b SymbolType.type h = elim h [ ]
symbol_type-value b SymbolType.namespace h = elim h [ ]
symbol_type-value b (SymbolType.other n) h = elim h [ ]

-- What the linker keeps of a constant is what the compiler wrote: its number, its size and its bytes.
abbrev pub SameConstants : ℕ → List PackedConstant → List ConstantData → Type 0
SameConstants i [] [] = Unit
SameConstants i [] (d ∷ ds) = ⊥
SameConstants i (c ∷ cs) [] = ⊥
SameConstants i (c ∷ cs) (d ∷ ds) =
    ((d.id ≡ i)
      × (d.real_size_in_bytes ≡ c.data_size)
      × (bytes_value d.data_bytes 0 c.data_size ≡ c.data_word))
    × SameConstants (i + 1) cs ds

module _ (b : StaticBpointer) where
  pub read_order-Holds :
      (m_ids : List ℕ) (rounds offset end : ℕ)
      → length m_ids < rounds
      → offset + length m_ids * 2 ≡ end
      → end ≤ b.bytes_size
      → Holds b.byte offset (order_fields m_ids)
      → read_order b rounds offset end ≡ ok m_ids
  unfolding read_order order_fields
  read_order-Holds m_ids zero offset end enough e room h = ground arith
  read_order-Holds [] (suc rounds) offset end enough e room h =
      let done : ltb offset end ≡ false = ground arith in rw (done, read_order) refl
  read_order-Holds (m_id ∷ m_ids) (suc rounds) offset end enough e room h =
      let more : ltb offset end ≡ true = ground arith in
      rw
        (
          more,
          read_order,
          read_fields-Holds (field m_id 2 ∷ []) b offset (omega arith) (h.0, tt),
          read_order-Holds m_ids rounds (offset + 2) end (omega arith) (omega arith) room h.1,
        )
        refl

  pub read_symbols-Holds :
      (i : ℕ) (ss : List PackedSymbol) (rounds offset end : ℕ)
      → All (λ (s : PackedSymbol). HasPlace s.symbol_type) ss
      → length ss < rounds
      → offset + length ss * 19 ≡ end
      → end ≤ b.bytes_size
      → Holds b.byte offset (symbol_fields i ss)
      → read_symbols b rounds offset end ≡ ok (symbols_from i ss)
  unfolding read_symbols
  read_symbols-Holds i ss zero offset end placed enough e room h = ground arith
  read_symbols-Holds i [] (suc rounds) offset end placed enough e room h =
      let done : ltb offset end ≡ false = ground arith in rw (done, read_symbols) refl
  read_symbols-Holds i (s ∷ ss) (suc rounds) offset end (place, placed) enough e room h =
      let more : ltb offset end ≡ true = ground arith in
      let there = rw (symbol_fields-four i s ss place) at h in
      let sum : offset + 8 + 8 + 2 + 1 ≡ offset + 19 = omega arith in
      rw
        (
          more,
          read_symbols,
          read_fields-Holds (four_fields i s) b offset (omega arith)
              (there.0, (there.1.0, (there.1.1.0, (there.1.1.1.0, tt)))),
          symbol_type-value b s.symbol_type place,
          read_symbols-Holds (i + 1) ss rounds (offset + 19) end placed (omega arith) (omega arith)
              room (rw sum at there.1.1.1.1),
        )
        refl

  -- The constants as the linker finds them, when the first one's header is at `offset`.
  abbrev pub constants_from : Bool → ℕ → ℕ → List PackedConstant → List ConstantData
  constants_from alignment i offset [] = []
  constants_from alignment i offset (c ∷ cs) =
      record {
        id = i;
        real_size_in_bytes = c.data_size;
        using_size_in_bytes = if alignment then aligned_size b c.data_size else c.data_size;
        data_bytes = λ k. b.byte (offset + 16 + k);
        memory_offset = 0;
      }
      ∷ constants_from alignment (i + 1) (offset + 16 + c.data_size) cs

  pub read_constants-Holds :
      (alignment : Bool) (i : ℕ) (cs : List PackedConstant) (rounds offset end : ℕ)
      → length cs < rounds
      → offset + constants_size cs ≡ end
      → end ≤ b.bytes_size
      → Holds b.byte offset (constant_fields i cs)
      → read_constants b alignment rounds offset end ≡ ok (constants_from alignment i offset cs)
  unfolding read_constants constant_fields
  read_constants-Holds alignment i cs zero offset end enough e room h = ground arith
  read_constants-Holds alignment i [] (suc rounds) offset end enough e room h =
      let done : ltb offset end ≡ false = ground arith in rw (done, read_constants) refl
  read_constants-Holds alignment i (c ∷ cs) (suc rounds) offset end enough e room h =
      let more : ltb offset end ≡ true = ground arith in
      let inside : leb (offset + 16 + c.data_size) b.bytes_size ≡ true = ground arith in
      let sum : offset + 8 + 8 + c.data_size ≡ offset + 16 + c.data_size = omega arith in
      rw
        (
          more,
          read_constants,
          read_fields-Holds (field i 8 ∷ field c.data_size 8 ∷ []) b offset (omega arith)
              (h.0, (h.1.0, tt)),
          inside,
          read_constants-Holds alignment (i + 1) cs rounds (offset + 16 + c.data_size) end
              (omega arith) (omega arith) room (rw sum at h.1.1.1),
        )
        refl

  pub constants_from-SameConstants :
      (alignment : Bool) (i : ℕ) (cs : List PackedConstant) (offset : ℕ)
      → Holds b.byte offset (constant_fields i cs)
      → SameConstants i cs (constants_from alignment i offset cs)
  unfolding constant_fields
  constants_from-SameConstants alignment i [] offset h = tt
  constants_from-SameConstants alignment i (c ∷ cs) offset h =
      let sum : offset + 8 + 8 ≡ offset + 16 = omega arith in
      let next : offset + 8 + 8 + c.data_size ≡ offset + 16 + c.data_size = omega arith in
      let start : offset + 16 + 0 ≡ offset + 8 + 8 = omega arith in
      (
        (
          refl,
          refl,
          bytes_value-shift b.byte (offset + 16) 0 c.data_size
              ∙ ap (λ (a : ℕ). bytes_value b.byte a c.data_size) start
              ∙ h.1.1.0,
        ),
        constants_from-SameConstants alignment (i + 1) cs (offset + 16 + c.data_size)
            (rw next at h.1.1.1),
      )
