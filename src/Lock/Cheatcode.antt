-- ===== src/Lock/Cheatcode.antt =====
-- The cheat-code of firmware/components/core/mc_lock.c.
use moto_ctrl.Base.{
  ℕ, ◌+◌, ◌%◌, Bool, true, false, not, ◌||◌, Option, none, some, List, [], ◌∷◌, ◌++◌, ltb, leb,
  ◌==◌, if◌then◌else◌, add32, elapsed_at_least, length, replicate, same_bytes, any,
}
use moto_ctrl.Crypto.{Nacl, hash_sha512}
use moto_ctrl.Output.Types.{Engine, input_count}
use moto_ctrl.Lock.Types.{
  LockConfig, Lock, Outcome, pending, match, mismatch, in_backoff, not_set, cheatcode_min_len,
  cheatcode_max_len,
}
use moto_ctrl.Lock.Moves.{is_locked, reset_cheatcode_runtime, backoff_duration_ms, enter_unlocked}

-- How `mc_lock_cheatcode_press` buffers a button; a full buffer keeps what it has.
unfoldable pub buffer_press : Lock → ℕ → ℕ → Lock
buffer_press lock now_ms button =
    let stale =
      length lock.entry == 0
      || elapsed_at_least now_ms lock.entry_start_ms lock.config.cheatcode_window_ms in
    let entry : List ℕ = if stale then [] else lock.entry in
    record lock {
      entry = if ltb (length entry) cheatcode_max_len then entry ++ button ∷ [] else entry;
      entry_start_ms = if stale then now_ms else lock.entry_start_ms;
    }

-- A wrong code: the count, and the back-off that it may start.
unfoldable pub count_wrong : Lock → ℕ → Lock
count_wrong lock now_ms =
    let wrong = (lock.consecutive_wrong + 1) % 65536 in
    let dur = backoff_duration_ms wrong in
    record lock {
      consecutive_wrong = wrong;
      backoff_until_ms = if ltb 0 dur then add32 now_ms dur else lock.backoff_until_ms;
      backoff_active = if ltb 0 dur then true else lock.backoff_active;
    }

module _ (nacl : Nacl) where
  -- The salted hash that stands for a code.
  unfoldable pub code_hash : List ℕ → List ℕ → List ℕ
  code_hash salt buttons = hash_sha512 nacl (salt ++ length buttons ∷ buttons)

  -- `mc_lock_test_cheatcode`
  unfoldable pub test_cheatcode : LockConfig → List ℕ → Bool
  unfolding code_hash
  test_cheatcode cfg buttons =
      if not cfg.cheatcode_set || length buttons == 0 || not (length buttons == cfg.cheatcode_len)
      then false
      else same_bytes (code_hash cfg.cheatcode_salt buttons) cfg.cheatcode_hash

  -- What `mc_lock_cheatcode_press` does with a complete entry.
  unfoldable pub judge : Lock → Engine → ℕ → Outcome × Lock × Engine
  unfolding count_wrong
  judge lock output now_ms =
      let tried = record lock { entry = []; last_attempt_ms = now_ms } in
      let cleared = record tried {
        consecutive_wrong = 0;
        backoff_until_ms = 0;
        backoff_active = false;
      } in
      if test_cheatcode lock.config lock.entry
      then (let (lock', output') = enter_unlocked cleared output in (match, lock', output'))
      else (mismatch, count_wrong tried now_ms, output)

  -- `mc_lock_cheatcode_press`
  unfoldable pub cheatcode_press : Lock → Engine → ℕ → ℕ → Outcome × Lock × Engine
  unfolding buffer_press judge
  cheatcode_press lock output now_ms button =
      let buffered = buffer_press lock now_ms button in
      if not (is_locked lock.state)
      then (pending, lock, output)
      else if not lock.config.cheatcode_set
      then (not_set, lock, output)
      else if lock.backoff_active
      then (in_backoff, lock, output)
      else if leb input_count button
      then (pending, lock, output)
      else if ltb (length buffered.entry) lock.config.cheatcode_len
      then (pending, buffered, output)
      else judge buffered output now_ms

  -- `mc_lock_set_cheatcode`; `random` is the salt that `mc_crypto_random` fills in, or `none` where
  -- it fails.
  unfoldable pub set_cheatcode : Lock → List ℕ → Option (List ℕ) → Bool × Lock
  set_cheatcode lock buttons random =
      if ltb (length buttons) cheatcode_min_len || ltb cheatcode_max_len (length buttons)
      then (false, lock)
      else if any (λ b. leb input_count b) buttons
      then (false, lock)
      else elim random [
        | none ↦ (false, lock)
        | some salt ↦ (
          true,
          record (reset_cheatcode_runtime lock) {
            config = record lock.config {
              cheatcode_salt = salt;
              cheatcode_hash = code_hash salt buttons;
              cheatcode_len = length buttons;
              cheatcode_set = true;
            };
            dirty = true;
          },
        )
      ]

-- `mc_lock_clear_cheatcode`
unfoldable pub clear_cheatcode : Lock → Bool × Lock
clear_cheatcode lock = if lock.config.immobilizer_enabled then (false, lock) else (
  true,
  record (reset_cheatcode_runtime lock) {
    config = record lock.config {
      cheatcode_salt = replicate 16 0;
      cheatcode_hash = replicate 64 0;
      cheatcode_len = 0;
      cheatcode_set = false;
    };
    dirty = true;
  },
)
