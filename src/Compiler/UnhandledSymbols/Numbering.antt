-- ===== src/Compiler/UnhandledSymbols/Numbering.antt =====
-- Every key keeps one number, and the number leads back to the key.
use malachite_scripting_lang.Prelude.{
  ℕ, zero, suc, ◌+◌, ◌<◌, ◌^◌, ◌==◌, ◌&&◌, ◌≡◌, refl, sym, ap, ◌∙◌, arith, Option, none, some, Bool,
  true, false, ==_self, ==→eq, if◌then◌else◌,
}
use malachite_scripting_lang.Vm.Definitions.{u64}
use malachite_scripting_lang.Linker.Translator.Flow.{find, assign}
use malachite_scripting_lang.Linker.Translator.TwoPass.Labels.{find-assign}
use malachite_scripting_lang.Compiler.UnhandledSymbols.{
  SymbolType, type_index, UnhandledSymbol, NumberedSymbol, UnhandledSymbolTable, has_key,
  find_number, add_new_symbol, add_unhandled_symbol, get_unhandled_symbol,
}

abbrev type_at : ℕ → SymbolType
type_at zero = SymbolType.undefined
type_at (suc zero) = SymbolType.variable
type_at (suc (suc zero)) = SymbolType.type
type_at (suc (suc (suc zero))) = SymbolType.function
type_at _ = SymbolType.namespace

type_at-type_index : (t : SymbolType) → type_at (type_index t) ≡ t
type_at-type_index SymbolType.undefined = refl
type_at-type_index SymbolType.variable = refl
type_at-type_index SymbolType.type = refl
type_at-type_index SymbolType.function = refl
type_at-type_index SymbolType.namespace = refl

-- The entry of a key, as AddUnhandledSymbol stores it.
abbrev pub entry_of : ℕ → SymbolType → ℕ → UnhandledSymbol
entry_of global_id symbol_type desc_id = record {
  global_id = global_id;
  symbol_type = symbol_type;
  desc_id = desc_id;
  module_id = 0;
}

-- Every number that a key has is given out, and has the key's entry.
abbrev pub IsNumbered : UnhandledSymbolTable → Type 0
IsNumbered t =
    (symbol_type : SymbolType) (desc_id global_id : ℕ)
    → find_number symbol_type desc_id t.local_desc_to_global_id ≡ some global_id
    → (global_id < t.global_us_id)
      × (get_unhandled_symbol global_id t ≡ some (entry_of global_id symbol_type desc_id))

and-parts : (a b : Bool) → (a && b) ≡ true → (a ≡ true) × (b ≡ true)
and-parts true b h = (refl, h)
and-parts false b h = cc h

has_key-eq :
    (symbol_type : SymbolType) (desc_id : ℕ) (entry : NumberedSymbol)
    → has_key symbol_type desc_id entry ≡ true
    → (entry.symbol_type ≡ symbol_type) × (entry.desc_id ≡ desc_id)
has_key-eq symbol_type desc_id entry h =
    let parts = and-parts _ _ h in
    (
      sym (type_at-type_index entry.symbol_type)
          ∙ ap type_at (==→eq _ _ parts.0)
          ∙ type_at-type_index symbol_type,
      ==→eq _ _ parts.1,
    )

has_key_self :
    (symbol_type : SymbolType) (desc_id n : ℕ)
    → has_key symbol_type desc_id
        (record { symbol_type = symbol_type; desc_id = desc_id; global_id = n })
      ≡ true
has_key_self symbol_type desc_id n = rw (==_self (type_index symbol_type), ==_self desc_id) refl

-- A key that has a number already.
add_unhandled_symbol-known :
    (symbol_type : SymbolType) (desc_id current_module id : ℕ) (t : UnhandledSymbolTable)
    → find_number symbol_type desc_id t.local_desc_to_global_id ≡ some id
    → add_unhandled_symbol symbol_type desc_id current_module t ≡ (id, t)
unfolding add_unhandled_symbol add_new_symbol
add_unhandled_symbol-known symbol_type desc_id current_module id t e =
    ap
      (λ (o : Option ℕ). elim o [
        | some global_id ↦ (global_id, t)
        | none ↦ add_new_symbol symbol_type desc_id current_module t
      ])
      e

module _ (t : UnhandledSymbolTable) (numbered : IsNumbered t) (symbol_type : SymbolType)
    (desc_id current_module : ℕ) (room : t.global_us_id + 1 < 2 ^ 64) where
  abbrev number : NumberedSymbol
  number = record { symbol_type = symbol_type; desc_id = desc_id; global_id = t.global_us_id }

  add_new_symbol-IsNumbered : IsNumbered (add_new_symbol symbol_type desc_id current_module t).1
  unfolding add_new_symbol
  add_new_symbol-IsNumbered type' desc' id = by (has_key type' desc' number) refl
    where
      by :
          (b : Bool)
          → has_key type' desc' number ≡ b
          → (if b then some t.global_us_id else find_number type' desc' t.local_desc_to_global_id)
            ≡ some id
          → (id < u64 (t.global_us_id + 1))
            × (find id (
                  assign t.global_us_id
                    (entry_of t.global_us_id symbol_type desc_id)
                    t.unhandled_symbols)
                ≡ some (entry_of id type' desc'))
      by true e found =
          let same = has_key-eq type' desc' number e in
          let at : t.global_us_id ≡ id = cc found in
          (
            omega (arith, at),
            rw
                (
                  find-assign t.global_us_id id (entry_of t.global_us_id symbol_type desc_id)
                      t.unhandled_symbols,
                  sym at,
                  ==_self t.global_us_id,
                )
                (cc (same.0, same.1)),
          )
      by false e found =
          let old = numbered type' desc' id found in
          let other : (t.global_us_id == id) ≡ false = ground (arith, old.0) in
          (
            omega (arith, old.0),
            rw
                (
                  find-assign t.global_us_id id (entry_of t.global_us_id symbol_type desc_id)
                      t.unhandled_symbols,
                  other,
                )
                old.1,
          )

  -- In a table in which every key's number has the key's entry, AddUnhandledSymbol keeps that so, while
  -- numbers are below 2 ^ 64 - 1; GetUnhandledSymbol then finds the symbol's type and description at the
  -- number that was given, with the module 0 whatever the current module is; and to add the symbol
  -- again, from any module, gives the same number and changes nothing.
  pub add_unhandled_symbol-numbers :
      IsNumbered (add_unhandled_symbol symbol_type desc_id current_module t).1
      × (get_unhandled_symbol
            (add_unhandled_symbol symbol_type desc_id current_module t).0
            (add_unhandled_symbol symbol_type desc_id current_module t).1
          ≡ some (
              entry_of
                (add_unhandled_symbol symbol_type desc_id current_module t).0
                symbol_type
                desc_id))
      × ((other_module : ℕ)
          → add_unhandled_symbol symbol_type desc_id other_module
              (add_unhandled_symbol symbol_type desc_id current_module t).1
            ≡ add_unhandled_symbol symbol_type desc_id current_module t)
  unfolding add_unhandled_symbol add_new_symbol
  add_unhandled_symbol-numbers = by (find_number symbol_type desc_id t.local_desc_to_global_id) refl
    where
      added : Option ℕ → ℕ × UnhandledSymbolTable
      added o = elim o [
        | some global_id ↦ (global_id, t)
        | none ↦ add_new_symbol symbol_type desc_id current_module t
      ]

      by :
          (o : Option ℕ)
          → find_number symbol_type desc_id t.local_desc_to_global_id ≡ o
          → IsNumbered (added o).1
            × (get_unhandled_symbol (added o).0 (added o).1
                ≡ some (entry_of (added o).0 symbol_type desc_id))
            × ((other_module : ℕ)
                → add_unhandled_symbol symbol_type desc_id other_module (added o).1 ≡ added o)
      by (some id) e = (
        numbered,
        (numbered symbol_type desc_id id e).1,
        λ other_module. add_unhandled_symbol-known symbol_type desc_id other_module id t e,
      )
      by none e =
          let mine = has_key_self symbol_type desc_id t.global_us_id in
          (
            add_new_symbol-IsNumbered,
            (add_new_symbol-IsNumbered symbol_type desc_id t.global_us_id (rw mine refl)).1,
            λ other_module.
                add_unhandled_symbol-known symbol_type desc_id other_module t.global_us_id
                  (add_new_symbol symbol_type desc_id current_module t).1 (rw mine refl),
          )
