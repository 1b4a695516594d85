-- ===== src/Linker/Translator/TwoPass/Steps.antt =====
-- Each operation on the progress keeps its agreement with the description.
use malachite_scripting_lang.Prelude.{
  ℕ, ◌+◌, ◌<◌, ◌≤◌, ◌≡◌, refl, ap, sym, ◌∙◌, ◌⊎◌, inl, inr, arith, Bool, true, false, ◌||◌, ◌&&◌,
  ◌==◌, Option, none, some, List, [], ◌∷◌, ◌++◌, length, length-append, if◌then◌else◌, Bool-cases,
  ==_self, ==→eq,
}
use malachite_scripting_lang.Outcome.{Returns}
use malachite_scripting_lang.Vm.Definitions.{VmOperation}
use malachite_scripting_lang.Linker.Definitions.{LinkingState}
use malachite_scripting_lang.Linker.Translator.Emission.{Progress}
use malachite_scripting_lang.Linker.Translator.Flow.{
  find, erase, waiting, await, place_label, place_known, place_jump,
}
use malachite_scripting_lang.Linker.Translator.TwoPass.Agreement.{
  aimed, Agrees, Each-append, Each-walk, Each-map, length-walk,
}
use malachite_scripting_lang.Linker.Translator.TwoPass.Patches.{
  member, aim_if, aim_members, patch-walk,
}
use malachite_scripting_lang.Linker.Translator.TwoPass.Labels.{
  find-assign, waiting-erase, member-await,
}
use malachite_scripting_lang.Linker.Translator.TwoPass.Tracks.{Tracks, Each-same, All-member}

module _ (target : ℕ → ℕ) (origin : LinkingState) (p : Progress) (described : List VmOperation)
    (tracks : Tracks target origin p described) where
  abbrev waits : ℕ → ℕ → Bool
  waits id k = member k (waiting id p.state.except_handling_jmps)

  -- No jump waits that is not there yet.
  beyond : (id k : ℕ) → length p.result ≤ k → waits id k ≡ false
  beyond id k le = elim (Bool-cases (waits id k)) [
    | inl waiting_there ↦ elim (absurd (tracks.in_range id k waiting_there)) [ ]
    | inr absent ↦ absent
  ]
    where
      absurd : k < length p.result → ⊥
      absurd lt = ground arith

  -- Operations that are added as they are described.
  pub Tracks-append :
      (os : List VmOperation)
      → Tracks target origin (record p { result = p.result ++ os }) (described ++ os)
  Tracks-append os = record {
    agree =
        Each-append (Agrees target waits) 0 p.result described os os tracks.agree
          (Each-same target waits _ os λ id k le. beyond id k (omega (arith, le)));
    in_range = λ id k w. omega (arith, tracks.in_range id k w, length-append p.result os);
    labels = tracks.labels;
    same_tables = tracks.same_tables;
  }

  -- What waits behind the erasing of a label waited before, and for another label.
  erased-waits :
      (id id' k : ℕ)
      → member k (waiting id' (erase id p.state.except_handling_jmps)) ≡ true
      → waits id' k ≡ true
  erased-waits id id' k = by (id == id') (waiting-erase p.state.except_handling_jmps id id')
    where
      by :
          {ips : List ℕ} (b : Bool)
          → ips ≡ (if b then [] else waiting id' p.state.except_handling_jmps)
          → member k ips ≡ true
          → waits id' k ≡ true
      by true e w = cc (e, w)
      by false e w = sym (ap (member k) e) ∙ w

  still-waits :
      (id id' k : ℕ)
      → waits id k ≡ false
      → waits id' k ≡ true
      → member k (waiting id' (erase id p.state.except_handling_jmps)) ≡ true
  still-waits id id' k idle w = elim (Bool-cases (id == id')) [
    | inl same ↦ let e : id ≡ id' = ==→eq _ _ same in cc (w, idle, ap (λ (i : ℕ). waits i k) e)
    | inr other ↦ rw (waiting-erase p.state.except_handling_jmps id id', other) w
  ]

  -- An operation, when the label `id` is placed behind all operations.
  placed_step :
      (id : ℕ)
      → target id ≡ length p.result
      → (k : ℕ) (o r : VmOperation) → Agrees target waits k o r
      → Agrees target
          (λ id' k'. member k' (waiting id' (erase id p.state.except_handling_jmps)))
          k
          (aim_if (length p.result) (waits id k) o)
          r
  placed_step id placed k o r a = elim (Bool-cases (waits id k)) [
    | inl waiting_here ↦ rw waiting_here (record {
      but_for_target = a.but_for_target;
      expected = λ id' w. a.expected id' (erased-waits id id' k w);
      settled = inl (ap (aimed o) (sym placed ∙ a.expected id waiting_here) ∙ a.but_for_target);
    })
    | inr idle ↦ rw idle (record {
      but_for_target = a.but_for_target;
      expected = λ id' w. a.expected id' (erased-waits id id' k w);
      settled = elim a.settled [
        | inl same ↦ inl same
        | inr (id', w) ↦ inr (id', still-waits id id' k idle w)
      ];
    })
  ]

  -- A label at the address that the description has.
  pub Tracks-place_label :
      (id : ℕ)
      → target id ≡ length p.result
      → Returns
          (λ (answer : Bool × Progress).
            (answer.0 ≡ true) × Tracks target origin answer.1 described)
          (place_label id p)
  unfolding place_label
  Tracks-place_label id placed =
      rw
        (patch-walk (waiting id p.state.except_handling_jmps) (length p.result) p.result
          (All-member _ _ (tracks.in_range id)))
        (
          refl,
          record {
            agree =
                Each-walk (Agrees target waits) _
                  (aim_members (waiting id p.state.except_handling_jmps) (length p.result)) 0
                  p.result described (λ k o r lo hi. placed_step id placed k o r) tracks.agree;
            in_range = λ id' k w.
                rw
                  (length-walk
                    (aim_members (waiting id p.state.except_handling_jmps) (length p.result)) 0
                    p.result)
                  (tracks.in_range id' k (erased-waits id id' k w));
            labels = λ id' ip e.
                known id' ip (sym (find-assign id id' (length p.result) p.state.label_jmp_ip) ∙ e);
            same_tables = tracks.same_tables;
          },
        )
    where
      known :
          (id' ip : ℕ)
          → (if id == id' then some (length p.result) else find id' p.state.label_jmp_ip) ≡ some ip
          → target id' ≡ ip
      known id' ip e = elim (Bool-cases (id == id')) [
        | inl same ↦
            let same_id : id ≡ id' = ==→eq _ _ same in cc (rw same at e, placed, ap target same_id)
        | inr other ↦ tracks.labels id' ip (rw other at e)
      ]

  awaited :
      (id id' k : ℕ)
      → waits id' k ≡ true
      → member k (waiting id' (await id (length p.result) p.state.except_handling_jmps)) ≡ true
  awaited id id' k w =
      rw (member-await p.state.except_handling_jmps id id' (length p.result) k, w) refl

  -- What waits behind the adding of a jump: what waited, and the new one.
  awaits :
      (id id' k : ℕ)
      → member k (waiting id' (await id (length p.result) p.state.except_handling_jmps)) ≡ true
      → (waits id' k ≡ true) ⊎ ((id ≡ id') × (length p.result ≡ k))
  awaits id id' k w =
      by (waits id' k) refl
        (sym (member-await p.state.except_handling_jmps id id' (length p.result) k) ∙ w)
    where
      by :
          (b : Bool)
          → waits id' k ≡ b
          → (b || ((id == id') && (length p.result == k))) ≡ true
          → (waits id' k ≡ true) ⊎ ((id ≡ id') × (length p.result ≡ k))
      by true e h = inl e
      by false e h = inr (ground (arith, h), ground (arith, h))

  waiting_jump :
      (operation : VmOperation) (id : ℕ)
      → Tracks target origin
          (place_known none operation id p)
          (described ++ aimed operation (target id) ∷ [])
  unfolding place_known
  waiting_jump operation id = record {
    agree =
        Each-append (Agrees target after) 0 p.result described _ _
          (Each-map (Agrees target waits) (Agrees target after) 0 p.result described older
            tracks.agree)
          (
            record {
              but_for_target = refl;
              expected = λ id' w. elim (awaits id id' _ w) [
                | inl old ↦ elim (absurd id' old) [ ]
                | inr (same, _) ↦ ap target (sym same)
              ];
              settled = inr (id, new_waits);
            },
            tt,
          );
    in_range = λ id' k w. elim (awaits id id' k w) [
      | inl old ↦ omega (arith, tracks.in_range id' k old, length-append p.result (operation ∷ []))
      | inr (_, there) ↦ omega (arith, there, length-append p.result (operation ∷ []))
    ];
    labels = tracks.labels;
    same_tables = tracks.same_tables;
  }
    where
      after : ℕ → ℕ → Bool
      after id' k = member k (waiting id' (await id (length p.result) p.state.except_handling_jmps))

      absurd : (id' : ℕ) → waits id' (0 + length p.result) ≡ true → ⊥
      absurd id' w = cc (beyond id' (0 + length p.result) (omega arith), w)

      new_waits : after id (0 + length p.result) ≡ true
      new_waits =
          let same : 0 + length p.result ≡ length p.result = omega arith in
          rw
            (
              member-await p.state.except_handling_jmps id id (length p.result)
                  (0 + length p.result),
              ==_self id,
              same,
              ==_self (length p.result),
            )
            (or_true (waits id (length p.result)))
        where
          or_true : (b : Bool) → (b || true) ≡ true
          or_true true = refl
          or_true false = refl

      older :
          (k : ℕ) (o r : VmOperation)
          → 0 ≤ k
          → k < 0 + length p.result
          → Agrees target waits k o r
          → Agrees target after k o r
      older k o r lo hi a = record {
        but_for_target = a.but_for_target;
        expected = λ id' w. elim (awaits id id' k w) [
          | inl old ↦ a.expected id' old
          | inr (_, there) ↦ ground (arith, hi, there)
        ];
        settled = elim a.settled [
          | inl same ↦ inl same
          | inr (id', w) ↦ inr (id', awaited id id' k w)
        ];
      }

  -- A jump whose label has the address that the description has.
  pub Tracks-place_jump :
      (operation : VmOperation) (id : ℕ)
      → Tracks target origin
          (place_jump operation id p)
          (described ++ aimed operation (target id) ∷ [])
  unfolding place_jump
  Tracks-place_jump operation id = by (find id p.state.label_jmp_ip) refl
    where
      by :
          (o : Option ℕ)
          → find id p.state.label_jmp_ip ≡ o
          → Tracks target origin
              (place_known o operation id p)
              (described ++ aimed operation (target id) ∷ [])
      by none e = waiting_jump operation id
      by (some ip) e =
          let at_label : target id ≡ ip = tracks.labels id ip e in
          rw at_label (Tracks-append (aimed operation ip ∷ []))
