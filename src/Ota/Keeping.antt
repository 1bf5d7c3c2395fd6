-- ===== src/Ota/Keeping.antt =====
-- Each call of mc_ota.h keeps what holds of an update that is under way.
use moto_ctrl.Base.{
  ℕ, ◌+◌, ◌≤◌, ◌≡◌, refl, ap, ◌∙◌, Bool, true, false, ◌&&◌, List, ◌∷◌, inl, inr, ◌⊎◌, arith,
  Bool-cases, ◌==◌, add32, length, length-append, same_bytes,
}
use moto_ctrl.Crypto.{Nacl, hash_init, hash_update, hash_final, verify}
use moto_ctrl.Ota.Transfer.{
  OtaState, idle, receiving, committed, FlashCall, flash_begin, flash_write, flash_finalize,
  reboot_device, Ota, max_image_size, is_state, call, succeeds, begin, chunk, commit, abort, reboot,
}
use moto_ctrl.Ota.Image.{
  image, in_order, is_active, digest, UnderWay, Kept, Kept-same, Kept-inactive,
}

module _ (nacl : Nacl) where
  -- A begin that succeeds, over a HAL that begins the flash.
  abbrev begun : Ota → ℕ → List ℕ → Ota
  begun ota size sha512 = record ota {
    calls = flash_begin size ∷ ota.calls;
    declared_sha512 = sha512;
    image_size = size;
    bytes_received = 0;
    running_hash = hash_init;
    state = receiving;
  }

  begin-cases :
      (ota : Ota) (size : ℕ) (sha512 signature : List ℕ) (safe : Bool)
      → ota.hal.has_begin ≡ true
      → let ota' = (begin nacl ota size sha512 signature safe).1 in
        ((ota' ≡ begun ota size sha512)
          × (verify nacl ota.release_pubkey sha512 signature ≡ true)
          × (size ≤ max_image_size))
        ⊎ ((ota' ≡ ota) ⊎ ((ota'.hal ≡ ota.hal) × (is_active ota'.state ≡ false)))
  unfolding begin call succeeds
  begin-cases ota size sha512 signature safe has = elim (Bool-cases (is_state ota.state idle)) [
    | inr busy ↦ inr (inl (ground arith))
    | inl free ↦ elim (Bool-cases (is_active (begin nacl ota size sha512 signature safe).1.state)) [
      | inr off ↦ inr (inr (ground arith, off))
      | inl on ↦ inl (ground arith, ground arith, ground arith)
    ]
  ]

  pub Kept-begin :
      (ota : Ota) (size : ℕ) (sha512 signature : List ℕ) (safe : Bool)
      → Kept nacl ota
      → Kept nacl (begin nacl ota size sha512 signature safe).1
  unfolding digest image in_order
  Kept-begin ota size sha512 signature safe h =
      elim (begin-cases ota size sha512 signature safe h.has_begin) [
        | inr (inl e) ↦ Kept-same nacl ota _ e h
        | inr (inr (e, off)) ↦ Kept-inactive nacl ota _ e off h
        | inl (e, signed, fits) ↦ Kept-same nacl (begun ota size sha512) _ e (record {
          has_begin = h.has_begin;
          has_write = h.has_write;
          under_way = λ on. record {
            signature = signature;
            signed = signed;
            hashed = refl;
            counted = refl;
            ordered = refl;
            within = omega arith;
            fits = fits;
            complete = λ done. absurd (ground arith);
            checked = λ done. absurd (ground arith);
          };
        })
      ]

  -- A chunk that is taken, over a HAL that writes the flash.
  abbrev taken : Ota → ℕ → List ℕ → Ota
  taken ota offset bytes = record ota {
    calls = flash_write offset bytes ∷ ota.calls;
    running_hash = hash_update nacl ota.running_hash bytes;
    bytes_received = ota.bytes_received + length bytes;
  }

  chunk-cases :
      (ota : Ota) (offset : ℕ) (bytes : List ℕ)
      → ota.hal.has_write ≡ true
      → Kept nacl ota
      → let ota' = (chunk nacl ota offset bytes).1 in
        ((ota' ≡ taken ota offset bytes)
          × (is_state ota.state receiving ≡ true)
          × (offset ≡ ota.bytes_received)
          × (ota.bytes_received + length bytes ≤ ota.image_size))
        ⊎ ((ota' ≡ ota) ⊎ ((ota'.hal ≡ ota.hal) × (is_active ota'.state ≡ false)))
  unfolding chunk call succeeds
  chunk-cases ota offset bytes has h = elim (Bool-cases (is_state ota.state receiving)) [
    | inr busy ↦ inr (inl (ground arith))
    | inl free ↦ elim (Bool-cases (is_active (chunk nacl ota offset bytes).1.state)) [
      | inr off ↦ inr (inr (ground arith, off))
      | inl on ↦
          let u = h.under_way (ground arith) in
          let small : add32 ota.bytes_received (length bytes) ≡ ota.bytes_received + length bytes =
            ground (arith, u.fits) in
          inl (ground (arith, small), free, ground arith, ground arith)
    ]
  ]

  pub Kept-chunk :
      (ota : Ota) (offset : ℕ) (bytes : List ℕ)
      → Kept nacl ota
      → Kept nacl (chunk nacl ota offset bytes).1
  unfolding digest image in_order
  Kept-chunk ota offset bytes h = elim (chunk-cases ota offset bytes h.has_write h) [
    | inr (inl e) ↦ Kept-same nacl ota _ e h
    | inr (inr (e, off)) ↦ Kept-inactive nacl ota _ e off h
    | inl (e, free, at, room) ↦
        let u = h.under_way (ground arith) in
        Kept-same nacl (taken ota offset bytes) _ e (record {
          has_begin = h.has_begin;
          has_write = h.has_write;
          under_way = λ on. record {
            signature = u.signature;
            signed = u.signed;
            hashed = ap (λ c. hash_update nacl c bytes) u.hashed;
            counted = length-append (image ota.calls) bytes ∙ ap (◌+ length bytes) u.counted;
            ordered = ground (arith, u.counted, u.ordered, at);
            within = room;
            fits = u.fits;
            complete = λ done. absurd (ground arith);
            checked = λ done. absurd (ground arith);
          };
        })
  ]

  -- A call that ends an update or restarts the device leaves the image alone.
  UnderWay-call :
      (has : Bool) (c : FlashCall) (ota : Ota) (st : OtaState)
      → (c ≡ flash_finalize) ⊎ (c ≡ reboot_device)
      → UnderWay nacl ota
      → (is_state st committed ≡ true → ota.bytes_received ≡ ota.image_size)
      → (is_state st committed ≡ true
          → same_bytes (hash_final nacl ota.running_hash) ota.declared_sha512 ≡ true)
      → UnderWay nacl (record (call has c ota) { state = st })
  unfolding call digest image in_order
  UnderWay-call false c ota st is u complete checked = record {
    signature = u.signature;
    signed = u.signed;
    hashed = u.hashed;
    counted = u.counted;
    ordered = u.ordered;
    within = u.within;
    fits = u.fits;
    complete = complete;
    checked = checked;
  }
  UnderWay-call true c ota st is u complete checked = record {
    signature = u.signature;
    signed = u.signed;
    hashed = elim is [ inl e ↦ rw e u.hashed | inr e ↦ rw e u.hashed ];
    counted = elim is [ inl e ↦ rw e u.counted | inr e ↦ rw e u.counted ];
    ordered = elim is [ inl e ↦ rw e u.ordered | inr e ↦ rw e u.ordered ];
    within = u.within;
    fits = u.fits;
    complete = complete;
    checked = checked;
  }

  commit-cases :
      (ota : Ota)
      → let ota' = (commit nacl ota).1 in
        ((ota' ≡ record (call ota.hal.has_finalize flash_finalize ota) { state = committed })
          × (is_state ota.state receiving ≡ true)
          × (ota.bytes_received ≡ ota.image_size)
          × (same_bytes (hash_final nacl ota.running_hash) ota.declared_sha512 ≡ true))
        ⊎ ((ota' ≡ ota) ⊎ ((ota'.hal ≡ ota.hal) × (is_active ota'.state ≡ false)))
  unfolding commit call succeeds
  commit-cases ota =
      elim (Bool-cases (is_state ota.state receiving && ota.bytes_received == ota.image_size)) [
        | inr busy ↦ inr (inl (ground arith))
        | inl free ↦ elim (Bool-cases (is_active (commit nacl ota).1.state)) [
          | inr off ↦ inr (inr (ground arith, off))
          | inl on ↦ inl (ground arith, ground arith, ground arith, ground arith)
        ]
      ]

  pub Kept-commit : (ota : Ota) → Kept nacl ota → Kept nacl (commit nacl ota).1
  unfolding call
  Kept-commit ota h = elim (commit-cases ota) [
    | inr (inl e) ↦ Kept-same nacl ota _ e h
    | inr (inr (e, off)) ↦ Kept-inactive nacl ota _ e off h
    | inl (e, free, full, right) ↦ Kept-same nacl _ _ e (record {
      has_begin = ground (arith, h.has_begin);
      has_write = ground (arith, h.has_write);
      under_way = λ on.
          UnderWay-call ota.hal.has_finalize flash_finalize ota committed (inl refl)
            (h.under_way (ground arith)) (λ _. full) (λ _. right);
    })
  ]

  reboot-cases :
      (ota : Ota) (safe : Bool)
      → let ota' = (reboot ota safe).1 in
        ((ota' ≡ record (call ota.hal.has_reboot reboot_device ota) { state = committed })
          × (is_state ota.state committed ≡ true))
        ⊎ (ota' ≡ ota)
  unfolding reboot call
  reboot-cases ota safe = elim (Bool-cases (is_state ota.state committed && safe)) [
    | inr busy ↦ inr (ground arith)
    | inl free ↦ inl (ground arith, ground arith)
  ]

  pub Kept-reboot : (ota : Ota) (safe : Bool) → Kept nacl ota → Kept nacl (reboot ota safe).1
  unfolding call
  Kept-reboot ota safe h = elim (reboot-cases ota safe) [
    | inr e ↦ Kept-same nacl ota _ e h
    | inl (e, done) ↦
        let u = h.under_way (ground arith) in
        Kept-same nacl _ _ e (record {
          has_begin = ground (arith, h.has_begin);
          has_write = ground (arith, h.has_write);
          under_way = λ on.
              UnderWay-call ota.hal.has_reboot reboot_device ota committed (inr refl) u
                (λ _. u.complete done) (λ _. u.checked done);
        })
  ]

  pub Kept-abort : (ota : Ota) → Kept nacl ota → Kept nacl (abort ota)
  unfolding abort call
  Kept-abort ota h = Kept-inactive nacl ota _ (ground arith) refl h
