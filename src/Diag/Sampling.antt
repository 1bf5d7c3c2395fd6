-- ===== src/Diag/Sampling.antt =====
-- The round robin of `mc_diag_tick` (firmware/components/core/mc_diag.c).
use moto_ctrl.Base.{
  ℕ, zero, suc, ◌+◌, ◌-◌, ◌%◌, ◌≤◌, ◌<◌, ◌≡◌, ◌≢◌, refl, ap, true, ◌⊎◌, inl, inr, List, [], ◌∷◌,
  ◌++◌, arith, Bool-cases, length,
}
use native.Mathlib.Decide.{ℕ_discrete}
use moto_ctrl.Output.Types.{Engine, output_count}
use moto_ctrl.Output.Drive.{get_actual_state}
use moto_ctrl.Diag.Types.{DiagConfig, Floats, Calib, Readings, Diag, calc_current_ma}
use moto_ctrl.Diag.Settings.{read_channel}
use moto_ctrl.Diag.Tick.{classify, skip_channel, sample_channel, sample, read_battery, tick}

-- What is around at one call of `mc_diag_tick`: the readings, the outputs and the time.
abbrev pub Moment : Type 0
Moment = Readings × Engine × ℕ

-- The rounds until the cursor is at the channel `e`.
abbrev gap : ℕ → ℕ → ℕ
gap e cursor = (e + output_count - cursor) % output_count

-- The channel is energized at each of the calls.
abbrev pub StaysOn : ℕ → List Moment → Type 0
StaysOn e [] = Unit {0}
StaysOn e ((r, output, now) ∷ ms) = (get_actual_state output e now ≡ true) × StaysOn e ms

module _ {F : Type 0} (fl : Floats F) where
  unfoldable pub run : List Moment → Diag F → Diag F
  run [] d = d
  run ((r, output, now) ∷ ms) d = run ms (tick fl r output now d).0

  -- The channel holds what was just measured, classified by its thresholds.
  pub record IsMeasured (r : Readings) (config : DiagConfig) (calib : Calib F) (e : ℕ) (d : Diag F)
      : Type 0 where
    pub current : d.current_ma e ≡ calc_current_ma fl calib (read_channel r e)
    pub classified :
        d.fault e ≡ classify (config.channels e) (calc_current_ma fl calib (read_channel r e))

  module _ (r : Readings) (output : Engine) (now : ℕ) (e : ℕ) (lt : e < output_count)
      (on : get_actual_state output e now ≡ true) where
    -- Sampling reaches the channel, or its cursor comes nearer to it.
    abbrev Nearer : ℕ → Diag F → Diag F → Type 0
    Nearer room d d' = IsMeasured r d.config d.calib e d' ⊎ (gap e d'.next_sample_channel < room)

    measured :
        (d : Diag F)
        → d.next_sample_channel ≡ e
        → IsMeasured r d.config d.calib e (sample_channel fl r output now d)
    unfolding sample_channel
    measured d at = record { current = ground arith; classified = unfold classify in ground arith }

    skipped_within :
        (d : Diag F) → (skip_channel fl r output now d).next_sample_channel < output_count
    unfolding skip_channel
    skipped_within d = omega arith

    skipped_near :
        (n : ℕ) (d : Diag F)
        → d.next_sample_channel < output_count
        → d.next_sample_channel ≢ e
        → gap e d.next_sample_channel < suc n
        → gap e (skip_channel fl r output now d).next_sample_channel < n
    unfolding skip_channel
    skipped_near n d within ne near = omega arith

    skipped-IsMeasured :
        (d : Diag F) {d' : Diag F}
        → IsMeasured r
            (skip_channel fl r output now d).config
            (skip_channel fl r output now d).calib
            e
            d'
        → IsMeasured r d.config d.calib e d'
    unfolding skip_channel
    skipped-IsMeasured d h = h

    skipped_less :
        (d : Diag F) (m : ℕ)
        → d.next_sample_channel < output_count
        → d.next_sample_channel ≢ e
        → m < gap e (skip_channel fl r output now d).next_sample_channel
        → m < gap e d.next_sample_channel
    unfolding skip_channel
    skipped_less d m within ne h = omega arith

    pub sample-Nearer :
        (n : ℕ) (d : Diag F)
        → d.next_sample_channel < output_count
        → gap e d.next_sample_channel < n
        → (sample fl r output now n d).next_sample_channel < output_count
          × Nearer (gap e d.next_sample_channel) d (sample fl r output now n d)
    unfolding sample
    sample-Nearer zero d within near = absurd (omega arith)
    sample-Nearer (suc n) d within near =
        elim (Bool-cases (get_actual_state output d.next_sample_channel now)) [
          | inl hot ↦ elim (ℕ_discrete d.next_sample_channel e) [
            | yes at ↦ rw hot (unfold sample_channel in omega arith, inl (measured d at))
            | no ne ↦
                rw hot
                  (unfold sample_channel in omega arith, inr (unfold sample_channel in omega arith))
          ]
          | inr cold ↦
              let ne : d.next_sample_channel ≢ e =
                λ at. ground (arith, ap (λ (c : ℕ). get_actual_state output c now) at, on, cold) in
              let ih =
                sample-Nearer n (skip_channel fl r output now d) (skipped_within d)
                  (skipped_near n d within ne near) in
              rw cold (
                ih.0,
                elim ih.1 [
                  | inl h ↦ inl (skipped-IsMeasured d h)
                  | inr h ↦ inr (skipped_less d _ within ne h)
                ],
              )
        ]

    -- One tick: the channel is measured, or the cursor is nearer to it.
    tick-Nearer :
        (d : Diag F)
        → d.next_sample_channel < output_count
        → (tick fl r output now d).0.next_sample_channel < output_count
          × Nearer (gap e d.next_sample_channel) d (tick fl r output now d).0
    unfolding tick read_battery
    tick-Nearer d within =
        let s = sample-Nearer output_count d within (omega arith) in
        (
          s.0,
          elim s.1 [
            | inl h ↦ inl (record { current = h.current; classified = h.classified })
            | inr h ↦ inr h
          ],
        )

  -- One of the calls measures the channel.
  abbrev pub Measures : ℕ → Diag F → List Moment → Type 0
  Measures e d ms =
      (earlier : List Moment) × (m : Moment) × (later : List Moment) × (ms ≡ earlier ++ (m ∷ later))
      × IsMeasured m.0 (run earlier d).config (run earlier d).calib e
          (tick fl m.0 m.1 m.2 (run earlier d)).0

  Measures-near :
      (e : ℕ)
      → e < output_count
      → (ms : List Moment) (d : Diag F) → d.next_sample_channel < output_count
      → StaysOn e ms
      → gap e d.next_sample_channel < length ms
      → Measures e d ms
  unfolding run
  Measures-near e lt [] d within on near = absurd (omega arith)
  Measures-near e lt ((r, output, now) ∷ ms) d within (on, ons) near =
      let t = tick-Nearer r output now e lt on d within in
      elim t.1 [
        | inl h ↦ ([], (r, output, now), ms, refl, h)
        | inr closer ↦
            let (earlier, m, later, e1, h) =
              Measures-near e lt ms (tick fl r output now d).0 t.0 ons (omega arith) in
            ((r, output, now) ∷ earlier, m, later, ap (◌∷◌ (r, output, now)) e1, h)
      ]

  -- A channel that is energized at each of twelve calls in a row is measured and classified by one of
  -- them, wherever the round robin stands and whatever the other channels do.
  pub run-Measures :
      (e : ℕ) (ms : List Moment) (d : Diag F)
      → e < output_count
      → d.next_sample_channel < output_count
      → StaysOn e ms
      → output_count ≤ length ms
      → Measures e d ms
  run-Measures e ms d lt within on long = Measures-near e lt ms d within on (omega arith)
