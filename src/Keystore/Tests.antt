-- ===== src/Keystore/Tests.antt =====
-- A keystore of two phones.
use moto_ctrl.Base.{
  ℕ, ◌≡◌, ◌≢◌, refl, true, ◌==◌, if◌then◌else◌, List, [], ◌∷◌, take, arith, find_from, same_bytes,
  length, ◌%◌,
}
use moto_ctrl.Crypto.{Nacl, verify}
use moto_ctrl.Keystore.Slots.{Keystore, blank_slot, remove, find_verifying}
use moto_ctrl.Keystore.Enrolment.{IsUnique}
use moto_ctrl.Keystore.Lookup.{verifies, remove-revokes}

-- A signature is good if it is the key itself.
abbrev toy : Nacl
toy = record {
  hashblocks = λ h bytes. (h, length bytes % 128);
  sign_open = λ msg key. same_bytes (take 1 msg) key;
}

abbrev phone : List ℕ
phone = 11 ∷ []

abbrev watch : List ℕ
watch = 22 ∷ []

abbrev two_keys : Keystore
two_keys = record {
  slots = λ i.
      if i == 0
      then record { in_use = true; pubkey = phone; label = 65 ∷ [] }
      else if i == 1
      then record { in_use = true; pubkey = watch; label = 66 ∷ [] }
      else blank_slot;
}

two_keys-IsUnique : IsUnique two_keys
two_keys-IsUnique = record { at = λ i j lt lt' on on' same. ground arith }

remove-revokes_example :
    let found : ℕ = 1 in
    (found ≢ 0)
    × ((two_keys.slots 1).pubkey ≢ (two_keys.slots 0).pubkey)
    × (verifies toy two_keys [] watch 1 ≡ true)
unfolding remove find_verifying find_from verify same_bytes
remove-revokes_example = remove-revokes toy two_keys 0 1 [] watch two_keys-IsUnique refl refl
