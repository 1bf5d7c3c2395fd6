-- ===== src/Keystore/Enrolment.antt =====
-- What enrolling and revoking keys does to the keystore.
use moto_ctrl.Base.{
  ℕ, ◌<◌, ◌≡◌, ◌≢◌, refl, sym, ap, ◌∙◌, ℤ, pos, negsuc, Bool, true, false, not, ◌&&◌, Option, none,
  some, List, [], ◌∷◌, inl, inr, ◌⊎◌, arith, Bool-cases, ==-eq, Option-cases, ◌==◌, take, take_all,
  length-take, leb, ◌||◌, find_from, find_from-some, find_from-none, same_bytes, same_bytes_refl,
  same_bytes-eq, subst,
}
use mathlib.Core.Path.{ap₂}
use moto_ctrl.Keystore.Slots.{
  max_keys, KeySlot, Keystore, blank_slot, init, find_pubkey, set_label, with_slot, add, remove,
  wipe, get, label_max,
}

-- No two slots in use hold the same key.
pub record IsUnique (ks : Keystore) : Type 0 where
  pub at :
      (i j : ℕ)
      → i < max_keys
      → j < max_keys
      → (ks.slots i).in_use ≡ true
      → (ks.slots j).in_use ≡ true
      → (ks.slots i).pubkey ≡ (ks.slots j).pubkey
      → i ≡ j

-- The slot holds the key.
abbrev pub is_key : List ℕ → KeySlot → Bool
is_key pubkey slot = slot.in_use && same_bytes slot.pubkey pubkey

in_use-set_label :
    (label : Option (List ℕ)) (slot : KeySlot) → (set_label label slot).in_use ≡ slot.in_use
in_use-set_label none slot = refl
in_use-set_label (some _) slot = refl

pubkey-set_label :
    (label : Option (List ℕ)) (slot : KeySlot) → (set_label label slot).pubkey ≡ slot.pubkey
pubkey-set_label none slot = refl
pubkey-set_label (some _) slot = refl

-- A key that no slot holds may be put in any slot.
IsUnique-with_slot :
    (ks : Keystore) (n : ℕ) (slot : KeySlot)
    → IsUnique ks
    → ((j : ℕ)
        → j < max_keys
        → j ≢ n
        → (ks.slots j).in_use ≡ true
        → slot.in_use ≡ true
        → slot.pubkey ≢ (ks.slots j).pubkey)
    → IsUnique (with_slot n slot ks)
IsUnique-with_slot ks n slot h apart = record {
  at = λ i j lt lt' on on' same. elim (Bool-cases (i == n)) [
    | inl e ↦ elim (Bool-cases (j == n)) [
      | inl e' ↦ ==-eq i n e ∙ sym (==-eq j n e')
      | inr e' ↦
          absurd (apart j lt' (ground arith) (rw e' at on') (rw e at on) (rw e at (rw e' at same)))
    ]
    | inr e ↦ elim (Bool-cases (j == n)) [
      | inl e' ↦
          absurd
            (apart i lt (ground arith) (rw e at on) (rw e' at on') (sym (rw e at (rw e' at same))))
      | inr e' ↦ h.at i j lt lt' (rw e at on) (rw e' at on') (rw e at (rw e' at same))
    ]
  ];
}

module _ (ks : Keystore) (pubkey : List ℕ) (label : Option (List ℕ)) where
  -- The key was there, and its label changes.
  record Relabelled : Type 0 where
    slot : ℕ
    in_range : slot < max_keys
    answer : (add ks pubkey label).0 ≡ some slot
    held : is_key pubkey (ks.slots slot) ≡ true
    after : (add ks pubkey label).1 ≡ with_slot slot (set_label label (ks.slots slot)) ks

  -- The key was nowhere, and takes a free slot.
  record Enrolled : Type 0 where
    slot : ℕ
    in_range : slot < max_keys
    answer : (add ks pubkey label).0 ≡ some slot
    was_free : (ks.slots slot).in_use ≡ false
    absent : (j : ℕ) → j < max_keys → is_key pubkey (ks.slots j) ≡ false
    after :
        (add ks pubkey label).1
        ≡ with_slot slot
            (set_label label
              (record { in_use = true; pubkey = pubkey; label = (ks.slots slot).label }))
            ks

  -- The key was nowhere, and no slot is free.
  record Refused : Type 0 where
    answer : (add ks pubkey label).0 ≡ none
    full : (j : ℕ) → j < max_keys → (ks.slots j).in_use ≡ true
    absent : (j : ℕ) → j < max_keys → is_key pubkey (ks.slots j) ≡ false
    after : (add ks pubkey label).1 ≡ ks

  add-cases : Relabelled ⊎ (Enrolled ⊎ Refused)
  unfolding add find_pubkey
  add-cases = elim (Option-cases (find_pubkey ks pubkey)) [
    | inr (i, e) ↦
        let (_, lt, hit, _) =
          find_from-some max_keys 0 (λ i. is_key pubkey (ks.slots i)) {i = i} e in
        inl (record {
          slot = i;
          in_range = omega arith;
          answer = ground arith;
          held = hit;
          after = ground arith;
        })
    | inl e ↦
        let nowhere = find_from-none max_keys 0 (λ i. is_key pubkey (ks.slots i)) e in
        elim (Option-cases (find_from max_keys 0 (λ i. not (ks.slots i).in_use))) [
          | inr (i, e') ↦
              let (_, lt, hit, _) =
                find_from-some max_keys 0 (λ i. not (ks.slots i).in_use) {i = i} e' in
              inr (
                inl (record {
                  slot = i;
                  in_range = omega arith;
                  answer = ground arith;
                  was_free = ground arith;
                  absent = λ j lt. nowhere j (omega arith) (omega arith);
                  after = ground arith;
                }))
          | inl e' ↦
              let busy = find_from-none max_keys 0 (λ i. not (ks.slots i).in_use) e' in
              inr (
                inr (record {
                  answer = ground arith;
                  full = λ j lt. ground (arith, busy j (omega arith) (omega arith));
                  absent = λ j lt. nowhere j (omega arith) (omega arith);
                  after = ground arith;
                }))
        ]
  ]

  -- The slot that an enrolment answers with is in use after it.
  pub in_use-add :
      (slot : ℕ)
      → (add ks pubkey label).0 ≡ some slot
      → ((add ks pubkey label).1.slots slot).in_use ≡ true
  in_use-add slot e = elim add-cases [
    | inl r ↦ ground (arith, e, r.answer, r.after, r.held, in_use-set_label label (ks.slots slot))
    | inr (inl r) ↦ ground (
      arith,
      e,
      r.answer,
      r.after,
      in_use-set_label label
          (record { in_use = true; pubkey = pubkey; label = (ks.slots r.slot).label }),
    )
    | inr (inr r) ↦ absurd (ground (arith, e, r.answer))
  ]

  IsUnique-add : IsUnique ks → IsUnique (add ks pubkey label).1
  IsUnique-add h = elim add-cases [
    | inl r ↦ subst IsUnique (sym r.after) (
        IsUnique-with_slot ks r.slot (set_label label (ks.slots r.slot)) h (λ j lt ne on on' same.
          absurd (
            ne (
              h.at j r.slot lt r.in_range on (sym (in_use-set_label label _) ∙ on')
                (sym same ∙ pubkey-set_label label _)))))
    | inr (inl r) ↦ subst IsUnique (sym r.after) (
        IsUnique-with_slot ks r.slot _ h (λ j lt ne on on' same.
          let there : (ks.slots j).pubkey ≡ pubkey = sym same ∙ pubkey-set_label label _ in
          let hit = ap (λ k. same_bytes k pubkey) there ∙ same_bytes_refl pubkey in
          absurd (ground (arith, r.absent j lt))))
    | inr (inr r) ↦ subst IsUnique (sym r.after) h
  ]

-- A change of the keystore.
pub data KeyOp : Type 0 where
  enrol : List ℕ → Option (List ℕ) → KeyOp
  revoke : ℤ → KeyOp
  wipe_all : KeyOp

unfoldable pub step : KeyOp → Keystore → Keystore
step (enrol pubkey label) ks = (add ks pubkey label).1
step (revoke slot) ks = (remove ks slot).1
step wipe_all ks = wipe ks

unfoldable pub run : List KeyOp → Keystore → Keystore
run [] ks = ks
run (op ∷ ops) ks = run ops (step op ks)

IsUnique-init : IsUnique init
unfolding init
IsUnique-init = record { at = λ i j lt lt' on on' same. absurd (ground arith) }

IsUnique-remove : (ks : Keystore) (slot : ℤ) → IsUnique ks → IsUnique (remove ks slot).1
unfolding remove
IsUnique-remove ks (negsuc n) h = h
IsUnique-remove ks (pos n) h = elim (Bool-cases (leb max_keys n || not (ks.slots n).in_use)) [
  | inl e ↦ rw e h
  | inr e ↦
      rw e (IsUnique-with_slot ks n blank_slot h (λ j lt ne on on' same. absurd (ground arith)))
]

IsUnique-run : (ops : List KeyOp) (ks : Keystore) → IsUnique ks → IsUnique (run ops ks)
unfolding run step wipe
IsUnique-run [] ks h = h
IsUnique-run (enrol pubkey label ∷ ops) ks h = IsUnique-run ops _ (IsUnique-add ks pubkey label h)
IsUnique-run (revoke slot ∷ ops) ks h = IsUnique-run ops _ (IsUnique-remove ks slot h)
IsUnique-run (wipe_all ∷ ops) ks h = IsUnique-run ops _ IsUnique-init

-- Through any enrolments, revocations and wipes of a new keystore, no two slots in use hold the same
-- key.
pub run-IsUnique : (ops : List KeyOp) → IsUnique (run ops init)
run-IsUnique ops = IsUnique-run ops init IsUnique-init

-- A reader of a slot that was just written gets its key, and its label as far as it fits.
get-with_slot :
    (ks ks' : Keystore) (n slot : ℕ) (held : KeySlot) (pubkey label : List ℕ)
    → ks' ≡ with_slot n held ks
    → slot ≡ n
    → n < max_keys
    → held.in_use ≡ true
    → held.pubkey ≡ pubkey
    → held.label ≡ take 23 label
    → get ks' (pos slot) label_max ≡ some (pubkey, take 23 label)
unfolding get
get-with_slot ks ks' n slot held pubkey label after same lt on key name =
    let fits = take_all 23 (take 23 label) (omega (arith, length-take 23 label)) in
    let here : get (with_slot n held ks) (pos n) label_max
        ≡ some (held.pubkey, take 23 held.label) =
      ground arith in
    ap (λ k. get k (pos slot) label_max) after
    ∙ ap (λ i. get (with_slot n held ks) (pos i) label_max) same
    ∙ here
    ∙ ap some (ap₂ (λ k x. (k, x)) key (ap (take 23) name ∙ fits))

-- An enrolment that answers with a slot leaves the key there under its label, cut to the 23 characters
-- that fit, whether the key was new or there before.
pub add-enrols :
    (ks : Keystore) (pubkey label : List ℕ) (slot : ℕ)
    → (add ks pubkey (some label)).0 ≡ some slot
    → get (add ks pubkey (some label)).1 (pos slot) label_max ≡ some (pubkey, take 23 label)
add-enrols ks pubkey label slot e = elim (add-cases ks pubkey (some label)) [
  | inl r ↦
      get-with_slot ks _ r.slot slot (set_label (some label) (ks.slots r.slot)) pubkey label r.after
        (ground (arith, r.answer)) r.in_range (ground (arith, r.held))
        (same_bytes-eq (ks.slots r.slot).pubkey pubkey (ground (arith, r.held))) refl
  | inr (inl r) ↦
      get-with_slot ks _ r.slot slot
        (record { in_use = true; pubkey = pubkey; label = take 23 label }) pubkey label r.after
        (ground (arith, r.answer)) r.in_range refl refl refl
  | inr (inr r) ↦ absurd (ground (arith, r.answer))
]

-- Enrolment is refused only when all eight slots are in use and none holds the key.
pub add-refuses :
    (ks : Keystore) (pubkey : List ℕ) (label : Option (List ℕ)) (j : ℕ)
    → (add ks pubkey label).0 ≡ none
    → j < max_keys
    → ((ks.slots j).in_use ≡ true) × ((ks.slots j).pubkey ≢ pubkey) × ((add ks pubkey label).1 ≡ ks)
add-refuses ks pubkey label j e lt = elim (add-cases ks pubkey label) [
  | inl r ↦ absurd (ground (arith, r.answer))
  | inr (inl r) ↦ absurd (ground (arith, r.answer))
  | inr (inr r) ↦ (
    r.full j lt,
    (λ same.
        let hit = ap (λ k. same_bytes k pubkey) same ∙ same_bytes_refl pubkey in
        absurd (ground (arith, r.absent j lt, r.full j lt))),
    r.after,
  )
]
