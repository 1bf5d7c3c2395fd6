-- ===== src/Crypto/Tests.antt =====
-- A hash that counts its blocks in the first byte of the state.
use moto_ctrl.Base.{
  true, ℕ, ◌+◌, ap, ◌<◌, ◌/◌, ◌%◌, ◌≡◌, refl, List, [], ◌∷◌, ◌++◌, length, length-append, arith,
  replicate,
}
use moto_ctrl.Crypto.{Nacl, hash_init, hash_update}
use moto_ctrl.Crypto.Streaming.{IsBlockwise, hash_update-append}

abbrev pub bump : ℕ → List ℕ → List ℕ
bump n [] = []
bump n (x ∷ xs) = (x + n) ∷ xs

abbrev pub counting : Nacl
counting = record {
  hashblocks = λ h bytes. (bump (length bytes / 128) h, length bytes % 128);
  sign_open = λ msg key. true;
}

counting-joint :
    (h a b : List ℕ)
    → length a % 128 ≡ 0
    → bump (length (a ++ b) / 128) h ≡ bump (length b / 128) (bump (length a / 128) h)
counting-joint [] a b whole = refl
counting-joint (x ∷ xs) a b whole =
    let n : x + length (a ++ b) / 128 ≡ x + length a / 128 + length b / 128 =
      omega (arith, length-append a b) in
    ap (λ y. y ∷ xs) n

counting-short : (h m : List ℕ) → length m < 128 → bump (length m / 128) h ≡ h
counting-short [] m few = refl
counting-short (x ∷ xs) m few = let n : x + length m / 128 ≡ x = omega arith in ap (λ y. y ∷ xs) n

pub counting-IsBlockwise : IsBlockwise counting
counting-IsBlockwise = record {
  left_over = λ h m. refl;
  short = counting-short;
  joint = counting-joint;
}

hash_update-append_example :
    hash_update counting (hash_update counting hash_init (replicate 100 1)) (replicate 200 2)
    ≡ hash_update counting hash_init (replicate 100 1 ++ replicate 200 2)
hash_update-append_example =
    hash_update-append counting (replicate 100 1) (replicate 200 2) counting-IsBlockwise
