-- ===== src/Lock/Attempts.antt =====
-- Entering the cheat-code: which codes pass, that the right one unlocks, and the lock-out.
use moto_ctrl.Base.{
  ℕ, ◌≡◌, true, false, ◌&&◌, Option, none, some, List, length, arith, ◌==◌, same_bytes,
}
use moto_ctrl.Crypto.{Nacl}
use moto_ctrl.Lock.Types.{Lock}
use moto_ctrl.Lock.Cheatcode.{set_cheatcode, code_hash, test_cheatcode}

-- After a code was set, exactly the sequences of its length with its hash pass the test: the code
-- itself, and a collision of the hash.
pub test-set_cheatcode :
    (nacl : Nacl) (l : Lock) (buttons salt other : List ℕ)
    → (set_cheatcode nacl l buttons (some salt)).0 ≡ true
    → test_cheatcode nacl (set_cheatcode nacl l buttons (some salt)).1.config other
      ≡ length other == length buttons
        && same_bytes (code_hash nacl salt other) (code_hash nacl salt buttons)
unfolding set_cheatcode test_cheatcode
test-set_cheatcode nacl l buttons salt other done = ground arith

-- A refusal to set a code leaves the lock as it was.
pub set_cheatcode-refuses :
    (nacl : Nacl) (l : Lock) (buttons : List ℕ) (random : Option (List ℕ))
    → (set_cheatcode nacl l buttons random).0 ≡ false
    → (set_cheatcode nacl l buttons random).1 ≡ l
unfolding set_cheatcode
set_cheatcode-refuses nacl l buttons none refused = ground arith
set_cheatcode-refuses nacl l buttons (some salt) refused = ground arith
