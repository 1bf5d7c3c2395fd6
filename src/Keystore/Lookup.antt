-- ===== src/Keystore/Lookup.antt =====
-- The key that verifies a signature.
use moto_ctrl.Base.{
  ℕ, ◌<◌, ◌≡◌, ◌≢◌, pos, Bool, true, false, ◌&&◌, none, some, List, inl, inr, ◌↔◌, arith,
  Option-cases, find_from-some, find_from-none,
}
use moto_ctrl.Crypto.{Nacl, verify}
use moto_ctrl.Keystore.Slots.{max_keys, Keystore, remove, find_verifying}
use moto_ctrl.Keystore.Enrolment.{IsUnique}

-- The slot is in use and its key verifies the signature.
abbrev pub verifies : Nacl → Keystore → List ℕ → List ℕ → ℕ → Bool
verifies nacl ks msg sig i = (ks.slots i).in_use && verify nacl (ks.slots i).pubkey msg sig

-- The search finds no slot exactly if no slot in use has a key that verifies the signature.
pub find_verifying-none :
    (nacl : Nacl) (ks : Keystore) (msg sig : List ℕ)
    → (find_verifying nacl ks msg sig ≡ none)
      ↔ ((i : ℕ) → i < max_keys → verifies nacl ks msg sig i ≡ false)
unfolding find_verifying
find_verifying-none nacl ks msg sig = (
  λ e i lt. find_from-none max_keys 0 (verifies nacl ks msg sig) e i (omega arith) (omega arith),
  λ missed. elim (Option-cases (find_verifying nacl ks msg sig)) [
    | inl e ↦ e
    | inr (i, e) ↦
        let (_, lt, hit, _) = find_from-some max_keys 0 (verifies nacl ks msg sig) {i = i} e in
        absurd (ground (arith, missed i (omega arith)))
  ],
)

-- In a keystore that holds no key twice, once a key is revoked no signature finds its slot, nor any
-- slot with that key, whatever it signs; what is found is a slot that was in use before and whose key
-- verifies the signature.
pub remove-revokes :
    (nacl : Nacl) (ks : Keystore) (slot i : ℕ) (msg sig : List ℕ)
    → IsUnique ks
    → (remove ks (pos slot)).0 ≡ true
    → find_verifying nacl (remove ks (pos slot)).1 msg sig ≡ some i
    → (i ≢ slot)
      × ((ks.slots i).pubkey ≢ (ks.slots slot).pubkey)
      × (verifies nacl ks msg sig i ≡ true)
unfolding remove find_verifying
remove-revokes nacl ks slot i msg sig h done e =
    let ks' = (remove ks (pos slot)).1 in
    let (_, lt, hit, _) = find_from-some max_keys 0 (verifies nacl ks' msg sig) {i = i} e in
    let other : i ≢ slot = ground arith in
    let same : verifies nacl ks msg sig i ≡ true = ground arith in
    (
      other,
      (λ key.
          absurd
            (other (h.at i slot (omega arith) (ground arith) (ground arith) (ground arith) key))),
      same,
    )
