-- ===== src/Compiler/Packer/State/Fits.antt =====
-- The fields of a main object file fit their widths.
use malachite_scripting_lang.Prelude.{
  ◌++◌, ℕ, ◌+◌, ◌*◌, ◌^◌, ◌<◌, ◌≡◌, refl, arith, List, [], ◌∷◌, length, All,
}
use malachite_scripting_lang.Buffer.Fields.{Fit}
use malachite_scripting_lang.Linker.Definitions.{SymbolType}
use malachite_scripting_lang.Buffer.{Field}
use malachite_scripting_lang.Compiler.Packer.State.{
  section_fields, PackedConstant, PackedSymbol, order_fields, constant_fields, symbol_fields,
  order_size, constants_size, symbols_size, type_value,
}
use malachite_scripting_lang.Compiler.Packer.State.Reading.{HasPlace, symbol_fields-four}

-- What the C++ types allow, and a file below 2 ^ 60 bytes.
pub record IsState (flags : ℕ) (m_ids : List ℕ) (cs : List PackedConstant) (ss : List PackedSymbol)
    : Type 0 where
  pub flags_fit : flags < 2 ^ 16
  pub ids_fit : All (λ (m_id : ℕ). m_id < 2 ^ 16) m_ids
  pub data_fit : All (λ (c : PackedConstant). c.data_word < 2 ^ (c.data_size * 8)) cs
  pub places_fit : All (λ (s : PackedSymbol). (s.offset < 2 ^ 64) × (s.module_id < 2 ^ 16)) ss
  pub placed : All (λ (s : PackedSymbol). HasPlace s.symbol_type) ss
  pub small : order_size m_ids + constants_size cs + symbols_size ss < 2 ^ 60

pub order_fields-Fit :
    (m_ids : List ℕ) → All (λ (m_id : ℕ). m_id < 2 ^ 16) m_ids → Fit (order_fields m_ids)
unfolding order_fields
order_fields-Fit [] h = tt
order_fields-Fit (m_id ∷ m_ids) (fits, h) = (fits, order_fields-Fit m_ids h)

pub constant_fields-Fit :
    (i : ℕ) (cs : List PackedConstant)
    → All (λ (c : PackedConstant). c.data_word < 2 ^ (c.data_size * 8)) cs
    → i + constants_size cs < 2 ^ 60
    → Fit (constant_fields i cs)
unfolding constant_fields
constant_fields-Fit i [] h small = tt
constant_fields-Fit i (c ∷ cs) (fits, h) small =
    (omega arith, (omega arith, (fits, constant_fields-Fit (i + 1) cs h (omega arith))))

type_value-lt : (t : SymbolType) → HasPlace t → type_value t < 256
unfolding type_value
type_value-lt SymbolType.function h = omega arith
type_value-lt SymbolType.variable h = omega arith
type_value-lt SymbolType.undefined h = elim h [ ]
type_value-lt SymbolType.type h = elim h [ ]
type_value-lt SymbolType.namespace h = elim h [ ]
type_value-lt (SymbolType.other n) h = elim h [ ]

symbol_fields-none : (i : ℕ) → symbol_fields i [] ≡ []
unfolding symbol_fields
symbol_fields-none i = refl

pub symbol_fields-Fit :
    (i : ℕ) (ss : List PackedSymbol)
    → All (λ (s : PackedSymbol). (s.offset < 2 ^ 64) × (s.module_id < 2 ^ 16)) ss
    → All (λ (s : PackedSymbol). HasPlace s.symbol_type) ss
    → i + length ss * 19 < 2 ^ 60
    → Fit (symbol_fields i ss)
symbol_fields-Fit i [] h placed small = rw (symbol_fields-none i) tt
symbol_fields-Fit i (s ∷ ss) ((offset, module_id), h) (place, placed) small =
    rw (symbol_fields-four i s ss place) (
      omega arith,
      (
        offset,
        (
          module_id,
          (type_value-lt s.symbol_type place, symbol_fields-Fit (i + 1) ss h placed (omega arith)),
        ),
      ),
    )

-- An entry of the section table, before the entries behind it.
pub section_fields-Fit :
    (type offset size : ℕ) (fields : List Field)
    → type < 256
    → offset < 2 ^ 64
    → size < 2 ^ 64
    → Fit fields
    → Fit (section_fields type offset size ++ fields)
section_fields-Fit _ _ _ _ type offset size h = (type, (offset, (size, h)))
