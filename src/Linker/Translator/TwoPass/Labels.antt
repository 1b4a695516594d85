-- ===== src/Linker/Translator/TwoPass/Labels.antt =====
-- The two maps over labels: what a label has behind an entry or an erasing.
use malachite_scripting_lang.Prelude.{
  ℕ, ◌≡◌, refl, ap, ◌∙◌, inl, inr, arith, Bool, true, false, ◌||◌, ◌&&◌, ◌==◌, Option, none, some,
  List, [], ◌∷◌, ◌++◌, if◌then◌else◌, Bool-cases, ==→eq,
}
use malachite_scripting_lang.Linker.Definitions.{Labelled}
use malachite_scripting_lang.Linker.Translator.Flow.{find, erase, assign, or_empty, waiting, await}
use malachite_scripting_lang.Linker.Translator.TwoPass.Patches.{member, member-append}

module _ {ℓ} {A : Type ℓ} where
  pub find-erase :
      (id id' : ℕ) (entries : List (Labelled A))
      → find id' (erase id entries) ≡ (if id == id' then none else find id' entries)
  find-erase id id' [] = by (id == id')
    where
      by : (b : Bool) → ◌≡◌ {A = Option A} none (if b then none else none)
      by true = refl
      by false = refl
  find-erase id id' (entry ∷ entries) = elim (Bool-cases (entry.label == id)) [
    | inl at_id ↦
        let same : entry.label ≡ id = ==→eq _ _ at_id in
        rw (at_id, find-erase id id' entries, same) (absorb (id == id'))
    | inr other ↦
        rw (other, find-erase id id' entries)
          (swap (entry.label == id') (id == id') λ h h'.
            let e : entry.label ≡ id' = ==→eq _ _ h in
            let e' : id ≡ id' = ==→eq _ _ h' in ground (arith, other))
  ]
    where
      absorb :
          (b : Bool)
          → (if b then none else find id' entries)
            ≡ (if b then none else if b then some entry.known else find id' entries)
      absorb true = refl
      absorb false = refl

      swap :
          (a b : Bool)
          → (a ≡ true → b ≡ true → ⊥)
          → (if a then some entry.known else if b then none else find id' entries)
            ≡ (if b then none else if a then some entry.known else find id' entries)
      swap true true apart = elim (apart refl refl) [ ]
      swap true false apart = refl
      swap false b apart = refl

  pub find-assign :
      (id id' : ℕ) (a : A) (entries : List (Labelled A))
      → find id' (assign id a entries) ≡ (if id == id' then some a else find id' entries)
  find-assign id id' a entries = rw (find-erase id id' entries) (twice (id == id'))
    where
      twice :
          (b : Bool)
          → (if b then some a else if b then none else find id' entries)
            ≡ (if b then some a else find id' entries)
      twice true = refl
      twice false = refl

module _ (entries : List (Labelled (List ℕ))) where
  pub waiting-erase :
      (id id' : ℕ)
      → waiting id' (erase id entries) ≡ (if id == id' then [] else waiting id' entries)
  waiting-erase id id' = ap or_empty (find-erase id id' entries) ∙ by (id == id')
    where
      by :
          (b : Bool)
          → or_empty (if b then none else find id' entries)
            ≡ (if b then [] else waiting id' entries)
      by true = refl
      by false = refl

  pub member-await :
      (id id' ip k : ℕ)
      → member k (waiting id' (await id ip entries))
        ≡ (member k (waiting id' entries) || ((id == id') && (ip == k)))
  unfolding await
  member-await id id' ip k =
      ap (λ (o : Option (List ℕ)). member k (or_empty o))
        (find-assign id id' (waiting id entries ++ ip ∷ []) entries)
      ∙ elim (Bool-cases (id == id')) [
        | inl same ↦
            let e : id ≡ id' = ==→eq _ _ same in
            rw (same, member-append k (waiting id entries) (ip ∷ []), e) (one _ (ip == k))
        | inr other ↦ rw other (or_false _)
      ]
    where
      one : (a b : Bool) → (a || (b || false)) ≡ (a || b)
      one a true = refl
      one a false = refl

      or_false : (a : Bool) → a ≡ (a || false)
      or_false true = refl
      or_false false = refl
