-- ===== src/Crypto/Streaming.antt =====
-- The incremental hash of mc_crypto.c is the hash of all the bytes together.
use moto_ctrl.Base.{
  ℕ, ◌+◌, ◌-◌, ◌%◌, ◌^◌, ◌<◌, ◌≡◌, refl, sym, ap, ◌∙◌, subst, min, List, [], ◌++◌, inl, inr, arith,
  Bool-cases, ltb, leb, length, take, drop, length-append, length-take, length-drop, length-zero,
  take_all, take-append, drop-append, take-append-drop,
}
use mathlib.Core.List.{append_assoc}
use moto_ctrl.Crypto.{Nacl, HashCtx, sha512_iv, hash_init, keep_rest, hash_blocks, hash_update}

-- What TweetNaCl documents of `crypto_hashblocks`: it takes whole blocks of 128 bytes in turn, leaves
-- what does not fill one, and returns the count of bytes that it leaves.
pub record IsBlockwise (nacl : Nacl) : Type 0 where
  pub left_over : (h m : List ℕ) → (nacl.hashblocks h m).1 ≡ length m % 128
  pub short : (h m : List ℕ) → length m < 128 → (nacl.hashblocks h m).0 ≡ h
  pub joint :
      (h a b : List ℕ)
      → length a % 128 ≡ 0
      → (nacl.hashblocks h (a ++ b)).0 ≡ (nacl.hashblocks (nacl.hashblocks h a).0 b).0

-- The context has taken in the message: its whole blocks are hashed and the rest is buffered.
record Absorbed (nacl : Nacl) (m : List ℕ) (ctx : HashCtx) : Type 0 where
  front : List ℕ
  split : m ≡ front ++ ctx.block
  whole : length front % 128 ≡ 0
  small : length ctx.block < 128
  hashed : ctx.h ≡ (nacl.hashblocks sha512_iv front).0

block-keep_rest :
    (rest : List ℕ) (ctx : HashCtx) → ctx.block ≡ [] → (keep_rest rest ctx).block ≡ rest
unfolding keep_rest
block-keep_rest rest ctx e = elim (Bool-cases (ltb 0 (length rest))) [
  | inl some_left ↦ rw some_left refl
  | inr none_left ↦ rw none_left (e ∙ sym (length-zero rest (ground arith)))
]

h-keep_rest : (rest : List ℕ) (ctx : HashCtx) → (keep_rest rest ctx).h ≡ ctx.h
unfolding keep_rest
h-keep_rest rest ctx = ground arith

module _ (nacl : Nacl) (law : IsBlockwise nacl) where
  Absorbed-hash_blocks :
      (front bytes : List ℕ) (ctx : HashCtx)
      → length front % 128 ≡ 0
      → ctx.h ≡ (nacl.hashblocks sha512_iv front).0
      → ctx.block ≡ []
      → Absorbed nacl (front ++ bytes) (hash_blocks nacl bytes ctx)
  unfolding hash_blocks
  Absorbed-hash_blocks front bytes ctx whole hashed empty =
      elim (Bool-cases (leb 128 (length bytes))) [
        | inr few ↦ rw few (record {
          front = front;
          split = ap (λ b. front ++ b) (sym (block-keep_rest bytes ctx empty));
          whole = whole;
          small = ground (arith, ap length (block-keep_rest bytes ctx empty));
          hashed = h-keep_rest bytes ctx ∙ hashed;
        })
        | inl many ↦
            let k = length bytes - (nacl.hashblocks ctx.h bytes).1 in
            let rem = law.left_over ctx.h bytes in
            let ctx' = record ctx { h = (nacl.hashblocks ctx.h bytes).0 } in
            let kept = block-keep_rest (drop k bytes) ctx' empty in
            let lt = length-take k bytes in
            let ld = length-drop k bytes in
            let parts = take-append-drop k bytes in
            rw many (record {
              front = front ++ take k bytes;
              split =
                  ap (λ b. front ++ b) (sym parts)
                  ∙ sym (append_assoc front (take k bytes) (drop k bytes))
                  ∙ ap (λ b. front ++ take k bytes ++ b) (sym kept);
              whole = omega (arith, length-append front (take k bytes), lt, rem, whole);
              small = omega (arith, ap length kept, ld, rem);
              hashed =
                  h-keep_rest (drop k bytes) ctx'
                  ∙ ap (λ b. (nacl.hashblocks ctx.h b).0) (sym parts)
                  ∙ law.joint ctx.h (take k bytes) (drop k bytes) (omega (arith, lt, rem))
                  ∙ law.short _ (drop k bytes) (omega (arith, ld, rem))
                  ∙ ap (λ h. (nacl.hashblocks h (take k bytes)).0) hashed
                  ∙ sym (law.joint sha512_iv front (take k bytes) whole);
            })
      ]

  -- The message grows by the bytes of each update.
  Absorbed-hash_update :
      (m bytes : List ℕ) (ctx : HashCtx)
      → Absorbed nacl m ctx
      → Absorbed nacl (m ++ bytes) (hash_update nacl ctx bytes)
  unfolding hash_update
  Absorbed-hash_update m bytes ctx a =
      let counted = record ctx { total_len = (ctx.total_len + length bytes) % 2 ^ 64 } in
      let n = min (length bytes) (128 - length ctx.block) in
      let block = ctx.block ++ take n bytes in
      let lb = length-append ctx.block (take n bytes) in
      let lt = length-take n bytes in
      let grown = ap (λ x. x ++ bytes) a.split ∙ append_assoc a.front ctx.block bytes in
      elim (Bool-cases (ltb 0 (length ctx.block))) [
        | inr none_kept ↦
            let empty = length-zero ctx.block (ground arith) in
            rw none_kept (
              subst (λ x. Absorbed nacl x (hash_blocks nacl bytes counted))
                (sym (grown ∙ ap (λ b. a.front ++ (b ++ bytes)) empty))
                (Absorbed-hash_blocks a.front bytes counted a.whole a.hashed empty))
        | inl some_kept ↦ elim (Bool-cases (ltb (length block) 128)) [
          | inl short ↦
              let all : take n bytes ≡ bytes = take_all n bytes (ground (arith, lb, lt, a.small)) in
              rw some_kept (
                rw short (record {
                  front = a.front;
                  split = grown ∙ ap (λ b. a.front ++ (ctx.block ++ b)) (sym all);
                  whole = a.whole;
                  small = ground arith;
                  hashed = a.hashed;
                }))
          | inr full ↦
              let next = record counted { h = (nacl.hashblocks ctx.h block).0; block = [] } in
              let joined = law.joint sha512_iv a.front block a.whole in
              rw some_kept (
                rw full (
                  subst (λ x. Absorbed nacl x (hash_blocks nacl (drop n bytes) next))
                    (append_assoc a.front block (drop n bytes)
                      ∙ ap (λ b. a.front ++ b)
                          (append_assoc ctx.block (take n bytes) (drop n bytes)
                            ∙ ap (λ b. ctx.block ++ b) (take-append-drop n bytes))
                      ∙ sym grown)
                    (Absorbed-hash_blocks (a.front ++ block) (drop n bytes) next
                      (ground (arith, length-append a.front block, lb, lt, a.whole, a.small))
                      (ap (λ h. (nacl.hashblocks h block).0) a.hashed ∙ sym joined) refl)))
        ]
      ]

  Absorbed-hash_init : Absorbed nacl [] hash_init
  unfolding hash_init
  Absorbed-hash_init = record {
    front = [];
    split = refl;
    whole = refl;
    small = omega arith;
    hashed = sym (law.short sha512_iv [] (omega arith));
  }

  -- The context is a function of the message and the count.
  unique :
      (m : List ℕ) (c d : HashCtx)
      → Absorbed nacl m c
      → Absorbed nacl m d
      → c.total_len ≡ d.total_len
      → c ≡ d
  unique m c d a b count =
      let la = ap length a.split ∙ length-append a.front c.block in
      let lb = ap length b.split ∙ length-append b.front d.block in
      let same : length a.front ≡ length b.front =
        omega (arith, la, lb, a.whole, b.whole, a.small, b.small) in
      let n = length a.front in
      let fronts : a.front ≡ b.front =
        sym (take-append n a.front c.block refl)
        ∙ ap (take n) (sym a.split ∙ b.split)
        ∙ take-append n b.front d.block same in
      let blocks : c.block ≡ d.block =
        sym (drop-append n a.front c.block refl)
        ∙ ap (drop n) (sym a.split ∙ b.split)
        ∙ drop-append n b.front d.block same in
      let hs : c.h ≡ d.h =
        a.hashed ∙ ap (λ x. (nacl.hashblocks sha512_iv x).0) fronts ∙ sym b.hashed in
      λ i. record { h = hs i; block = blocks i; total_len = count i }

total_len-hash_update :
    (nacl : Nacl) (ctx : HashCtx) (bytes : List ℕ)
    → (hash_update nacl ctx bytes).total_len ≡ (ctx.total_len + length bytes) % 2 ^ 64
unfolding hash_update hash_blocks keep_rest
total_len-hash_update nacl ctx bytes = ground arith

add_mod_twice : (z a b : ℕ) → ((z + a) % 2 ^ 64 + b) % 2 ^ 64 ≡ (z + (a + b)) % 2 ^ 64
add_mod_twice z a b = omega arith

-- Over a TweetNaCl that hashes by blocks, two updates of a fresh hash leave the context that one
-- update with both byte strings leaves, wherever the strings are cut.
pub hash_update-append :
    (nacl : Nacl) (first second : List ℕ)
    → IsBlockwise nacl
    → hash_update nacl (hash_update nacl hash_init first) second
      ≡ hash_update nacl hash_init (first ++ second)
hash_update-append nacl first second law =
    let one = Absorbed-hash_update nacl law [] first hash_init (Absorbed-hash_init nacl law) in
    unique nacl law (first ++ second) _ _ (Absorbed-hash_update nacl law first second _ one)
      (Absorbed-hash_update nacl law [] (first ++ second) hash_init (Absorbed-hash_init nacl law))
      (total_len-hash_update nacl (hash_update nacl hash_init first) second
        ∙ ap (λ t. (t + length second) % 2 ^ 64) (total_len-hash_update nacl hash_init first)
        ∙ add_mod_twice hash_init.total_len (length first) (length second)
        ∙ ap (λ t. (hash_init.total_len + t) % 2 ^ 64) (sym (length-append first second))
        ∙ sym (total_len-hash_update nacl hash_init (first ++ second)))
