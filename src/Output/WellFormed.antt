-- ===== src/Output/WellFormed.antt =====
-- What `mc_output_config_validate` accepts.
use moto_ctrl.Base.{
  ℕ, ◌<◌, ◌≤◌, ◌≡◌, ◌≢◌, ◌↔◌, ap, refl, pos, negsuc, ℤ, Bool, true, false, ◌||◌, ltb,
  for_range-count, count_from_unique, count_from-le_one, any_from-false, any_from-false_of, arith,
  for_range, any_from,
}
use moto_ctrl.Output.Types.{Channel, Config, output_count}
use moto_ctrl.Output.Settings.{
  Flags, no_flags, count_role, is_index, pair_is_bad, pair_is_ambiguous, config_validate,
  config_default,
}

-- At most one channel has the role.
pub record AtMostOne (role : Channel → Bool) (config : Config) : Type 0 where
  pub none_beyond :
      (i j : ℕ)
      → i < j
      → j < output_count
      → role (config.channels i) ≡ true
      → role (config.channels j) ≡ true
      → ⊥

pub record IsWellFormed (config : Config) : Type 0 where
  pub one_ignition : AtMostOne (λ c. c.is_ignition) config
  pub one_starter : AtMostOne (λ c. c.is_starter) config
  pub duty_in_range :
      (i : ℕ)
      → i < output_count
      → (1 ≤ (config.channels i).pwm_duty_pct) × ((config.channels i).pwm_duty_pct ≤ 100)
  pub flashes : 0 < config.turn_flash_period_ms
  pub reciprocal :
      (i p : ℕ)
      → i < output_count
      → (config.channels i).alternate_channel ≡ pos p
      → (p < output_count) × (p ≢ i) × ((config.channels p).alternate_channel ≡ pos i)
  pub unambiguous :
      (i p : ℕ)
      → i < output_count
      → (config.channels i).alternate_channel ≡ pos p
      → (config.channels i).on_with_ignition ≡ true
      → (config.channels p).on_with_ignition ≡ false

AtMostOne-count_role :
    (role : Channel → Bool) (config : Config)
    → (ltb 1 (count_role role config) ≡ false) ↔ AtMostOne role config
unfolding count_role
AtMostOne-count_role role config = (
  (λ few. record {
    none_beyond = λ i j lt lt'.
        count_from_unique output_count 0 (λ i. role (config.channels i))
          (ground (arith, for_range-count output_count 0 0 (λ i. role (config.channels i)))) i j
          (omega arith) lt (omega arith);
  }),
  (λ one. ground (
    arith,
    for_range-count output_count 0 0 (λ i. role (config.channels i)),
    count_from-le_one output_count 0 (λ i. role (config.channels i))
        (λ i j le lt lt'. one.none_beyond i j lt (omega arith)),
  )),
)

is_index_iff : (a : ℤ) (i : ℕ) → (is_index a i ≡ true) ↔ (a ≡ pos i)
is_index_iff (pos p) i = ground arith
is_index_iff (negsuc n) i = ground arith

module _ (config : Config) where
  -- A configuration that validates without a flag is well-formed.
  validate_sound : config_validate config ≡ no_flags → IsWellFormed config
  unfolding config_validate
  validate_sound clean = record {
    one_ignition =
        (AtMostOne-count_role _ config).0 (ap (λ (f : Flags). f.multiple_ignition) clean);
    one_starter = (AtMostOne-count_role _ config).0 (ap (λ (f : Flags). f.multiple_starter) clean);
    duty_in_range = λ i lt.
        let fine =
          any_from-false output_count 0
            (λ i.
              ltb (config.channels i).pwm_duty_pct 1 || ltb 100 (config.channels i).pwm_duty_pct)
            (ap (λ (f : Flags). f.bad_pwm_duty) clean) i (omega arith) (omega arith) in
        ground arith;
    flashes = ground (arith, ap (λ (f : Flags). f.bad_turn_period) clean);
    reciprocal = λ i p lt link.
        let fine =
          any_from-false output_count 0 (pair_is_bad config)
            (ap (λ (f : Flags). f.bad_alternate) clean) i (omega arith) (omega arith) in
        ground (arith, is_index_iff (config.channels p).alternate_channel i);
    unambiguous = λ i p lt link companion.
        let fine =
          any_from-false output_count 0 (pair_is_bad config)
            (ap (λ (f : Flags). f.bad_alternate) clean) i (omega arith) (omega arith) in
        let clear =
          any_from-false output_count 0 (pair_is_ambiguous config)
            (ap (λ (f : Flags). f.alternate_both_ignition) clean) i (omega arith) (omega arith) in
        ground arith;
  }

  -- A well-formed configuration validates without a flag.
  validate_complete : IsWellFormed config → config_validate config ≡ no_flags
  unfolding config_validate
  validate_complete well = ground (
    arith,
    (AtMostOne-count_role (λ c. c.is_ignition) config).1 well.one_ignition,
    (AtMostOne-count_role (λ c. c.is_starter) config).1 well.one_starter,
    any_from-false_of output_count 0
        (λ i. ltb (config.channels i).pwm_duty_pct 1 || ltb 100 (config.channels i).pwm_duty_pct)
        (λ i le lt. ground (arith, well.duty_in_range i (omega arith))),
    well.flashes,
    any_from-false_of output_count 0 (pair_is_bad config) (λ i le lt. pair_is_fine i (omega arith)),
    any_from-false_of output_count 0 (pair_is_ambiguous config)
        (λ i le lt. pair_is_clear i (omega arith)),
  )
    where
      pair_is_fine : (i : ℕ) → i < output_count → pair_is_bad config i ≡ false
      pair_is_fine i lt = go (config.channels i).alternate_channel refl
        where
          go : (a : ℤ) → (config.channels i).alternate_channel ≡ a → pair_is_bad config i ≡ false
          go (negsuc n) e = ground arith
          go (pos p) e = ground (
            arith,
            well.reciprocal i p lt e,
            is_index_iff (config.channels p).alternate_channel i,
          )

      pair_is_clear : (i : ℕ) → i < output_count → pair_is_ambiguous config i ≡ false
      pair_is_clear i lt = go (config.channels i).alternate_channel refl
        where
          go :
              (a : ℤ)
              → (config.channels i).alternate_channel ≡ a
              → pair_is_ambiguous config i ≡ false
          go (negsuc n) e = ground arith
          go (pos p) e = ground (arith, well.unambiguous i p lt e)

-- `mc_output_config_validate` raises no flag exactly for the well-formed configurations: at most one
-- ignition and one starter, every duty in 1-100, a flash period that is not 0, every pair in range,
-- with two members and reciprocal, and no pair with both members coming on with the ignition.
pub validate_iff : (config : Config) → (config_validate config ≡ no_flags) ↔ IsWellFormed config
validate_iff config = (validate_sound config, validate_complete config)

-- The default configuration is well-formed.
pub config_default-IsWellFormed : IsWellFormed config_default
unfolding config_validate config_default for_range any_from
config_default-IsWellFormed = (validate_iff config_default).0 refl
