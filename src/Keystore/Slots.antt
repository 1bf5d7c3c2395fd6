-- ===== src/Keystore/Slots.antt =====
-- firmware/components/core/mc_keystore.c, but for the versioned blob. A label is the C string that its
-- array holds.
use moto_ctrl.Base.{
  ℕ, ◌+◌, ◌-◌, ℤ, pos, negsuc, Bool, true, false, not, ◌&&◌, ◌||◌, Option, none, some, List, [],
  leb, if◌then◌else◌, update, for_range, find_from, take, replicate, same_bytes,
}
use moto_ctrl.Crypto.{Nacl, verify}

-- MC_KEYSTORE_MAX_KEYS and MC_KEY_LABEL_MAX
abbrev pub max_keys : ℕ
max_keys = 8

abbrev pub label_max : ℕ
label_max = 24

-- `mc_key_slot_t`
pub record KeySlot : Type 0 where
  pub in_use : Bool
  pub pubkey : List ℕ
  pub label : List ℕ

-- `mc_keystore_t`
pub record Keystore : Type 0 where
  pub slots : ℕ → KeySlot

-- A slot of zeroes.
abbrev pub blank_slot : KeySlot
blank_slot = record { in_use = false; pubkey = replicate 32 0; label = [] }

-- `mc_keystore_init`, and what `mc_keystore_wipe` leaves
unfoldable pub init : Keystore
init = record { slots = λ _. blank_slot }

-- `mc_keystore_count`
unfoldable pub count : Keystore → ℕ
count ks = for_range max_keys 0 (λ i n. if (ks.slots i).in_use then n + 1 else n) 0

-- `find_pubkey`; -1 is `none`.
unfoldable pub find_pubkey : Keystore → List ℕ → Option ℕ
find_pubkey ks pubkey =
    find_from max_keys 0 (λ i. (ks.slots i).in_use && same_bytes (ks.slots i).pubkey pubkey)

-- `set_label`; a label that is NULL is `none`.
abbrev pub set_label : Option (List ℕ) → KeySlot → KeySlot
set_label none slot = record slot { label = [] }
set_label (some label) slot = record slot { label = take (label_max - 1) label }

abbrev pub with_slot : ℕ → KeySlot → Keystore → Keystore
with_slot i slot ks = record { slots = update ks.slots i slot }

-- `mc_keystore_add`
unfoldable pub add : Keystore → List ℕ → Option (List ℕ) → Option ℕ × Keystore
unfolding find_pubkey
add ks pubkey label = elim (find_pubkey ks pubkey) [
  | some existing ↦ (some existing, with_slot existing (set_label label (ks.slots existing)) ks)
  | none ↦ elim (find_from max_keys 0 (λ i. not (ks.slots i).in_use)) [
    | none ↦ (none, ks)
    | some i ↦ (
      some i,
      with_slot i
          (set_label label (record { in_use = true; pubkey = pubkey; label = (ks.slots i).label }))
          ks,
    )
  ]
]

-- `mc_keystore_remove`
unfoldable pub remove : Keystore → ℤ → Bool × Keystore
remove ks (negsuc _) = (false, ks)
remove ks (pos slot) =
    if leb max_keys slot || not (ks.slots slot).in_use
    then (false, ks)
    else (true, with_slot slot blank_slot ks)

-- `mc_keystore_wipe`
unfoldable pub wipe : Keystore → Keystore
unfolding init
wipe ks = init

-- `mc_keystore_find_verifying`; -1 is `none`.
unfoldable pub find_verifying : Nacl → Keystore → List ℕ → List ℕ → Option ℕ
find_verifying nacl ks msg sig =
    find_from max_keys 0 (λ i. (ks.slots i).in_use && verify nacl (ks.slots i).pubkey msg sig)

-- `mc_keystore_get`, with both outputs asked for; `label_cap` is the size of the label's buffer.
unfoldable pub get : Keystore → ℤ → ℕ → Option (List ℕ × List ℕ)
get ks (negsuc _) label_cap = none
get ks (pos slot) label_cap =
    if leb max_keys slot || not (ks.slots slot).in_use
    then none
    else some ((ks.slots slot).pubkey, take (label_cap - 1) (ks.slots slot).label)
