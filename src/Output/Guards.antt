-- ===== src/Output/Guards.antt =====
-- The guards of `mc_output_set`: when it refuses, and what its acceptance says.
use moto_ctrl.Base.{
  ℕ, ◌<◌, ◌≡◌, ◌≢◌, ◌⊎◌, inl, inr, Bool, true, false, Bool-cases, refl, arith, if◌then◌else◌, ℤ,
  pos, negsuc, ◌||◌, leb, ◌==◌,
}
use moto_ctrl.Output.Types.{Source, local, remote, ok, Engine, channel, output_count}
use moto_ctrl.Output.Parts.{is_assigned, validate_starter_command}
use moto_ctrl.Output.Command.{switch, set, alternate_press}

-- What an accepted command has passed.
pub record Accepted (s : Engine) (ch : ℕ) (on : Bool) (src : Source) : Type 0 where
  pub in_range : ch < output_count
  pub mobile : on ≡ true → s.immobilized ≡ false
  pub starter_local : on ≡ true → (channel s ch).is_starter ≡ true → src ≡ local
  pub starter_stopped : on ≡ true → (channel s ch).is_starter ≡ true → s.engine_running ≡ false
  pub starter_interlocked :
      on ≡ true
      → (channel s ch).is_starter ≡ true
      → is_assigned s.config.starter_interlock_input ≡ true
      → s.interlock_engaged ≡ true

-- A command is refused and changes nothing, or it has passed every guard and switches its channel.
pub set-cases :
    (s : Engine) (ch : ℕ) (on : Bool) (src : Source)
    → (((set s ch on src).0 ≢ ok) × ((set s ch on src).1 ≡ s))
      ⊎ (((set s ch on src).0 ≡ ok) × ((set s ch on src).1 ≡ switch ch on s) × Accepted s ch on src)
unfolding set validate_starter_command
set-cases s ch true local = ground arith
set-cases s ch true remote = ground arith
set-cases s ch false src = ground arith

-- A step of an alternating pair changes nothing, or it commands on the member that is not lit.
pub alternate_press-cases :
    (s : Engine) (ch : ℕ) (src : Source)
    → (((alternate_press s ch src).0 ≢ ok) × ((alternate_press s ch src).1 ≡ s))
      ⊎ ((p : ℕ) × ((channel s ch).alternate_channel ≡ pos p)
          × (ch < output_count)
          × (p < output_count)
          × (p ≢ ch)
          × (alternate_press s ch src
              ≡ set s (if (channel s ch).commanded_on then p else ch) true src))
unfolding alternate_press
alternate_press-cases s ch src = go (channel s ch).alternate_channel refl
  where
    go :
        (a : ℤ)
        → (channel s ch).alternate_channel ≡ a
        → (((alternate_press s ch src).0 ≢ ok) × ((alternate_press s ch src).1 ≡ s))
          ⊎ ((p : ℕ) × ((channel s ch).alternate_channel ≡ pos p)
              × (ch < output_count)
              × (p < output_count)
              × (p ≢ ch)
              × (alternate_press s ch src
                  ≡ set s (if (channel s ch).commanded_on then p else ch) true src))
    go (negsuc n) e = inl (ground arith, ground arith)
    go (pos p) e = elim (Bool-cases (leb output_count ch || (leb output_count p || p == ch))) [
      | inl refused ↦ inl (ground arith, ground arith)
      | inr taken ↦ inr (p, e, ground arith, ground arith, ground arith, ground arith)
    ]
