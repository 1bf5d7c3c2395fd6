-- ===== src/Output/Wiring.antt =====
-- What the HAL is told: the driven state of every channel.
use moto_ctrl.Base.{ℕ, ◌<◌, ◌≡◌, ap, true, false, ◌&&◌, some, for_range, arith}
use moto_ctrl.Output.Types.{level, Engine, channel, output_count}
use moto_ctrl.Output.Drive.{
  apply_hal_state, hal_call, get_actual_state, compute_driven_on, is_essential, restore_from_config,
}
use moto_ctrl.Output.Clock.{expire, tick, set_lv_cutoff}
use moto_ctrl.Output.Rounds.{last_call, silent-apply_all, last_call-apply_all, still-expire_all}

hal_call-apply_all :
    (now : ℕ) (s : Engine) (j : ℕ)
    → hal_call (for_range output_count 0 (apply_hal_state now) s) j now ≡ hal_call s j now
unfolding hal_call get_actual_state compute_driven_on
hal_call-apply_all now s j = ap (λ (t : Engine). hal_call t j now) (silent-apply_all now s)

-- After a tick at `now`, whatever the engine was in before, the newest HAL call for every channel is
-- the one that its state demands at `now`: its driven level, or its duty where it is driven dimmed.
pub tick-drives :
    (now : ℕ) (s : Engine) (j : ℕ)
    → s.hal.has_set ≡ true
    → j < output_count
    → last_call j (tick now s).calls ≡ some (hal_call (tick now s) j now)
unfolding tick
tick-drives now s j wired lt =
    let t = for_range output_count 0 (expire now) (record s { last_tick_ms = now }) in
    ground (
      arith,
      still-expire_all now (record s { last_tick_ms = now }),
      last_call-apply_all now t j,
      hal_call-apply_all now t j,
    )

-- Restoring at boot drives every channel to the state that its configuration holds.
pub restore-drives :
    (s : Engine) (j : ℕ)
    → s.hal.has_set ≡ true
    → j < output_count
    → last_call j (restore_from_config s).calls
      ≡ some (hal_call (restore_from_config s) j s.last_tick_ms)
unfolding restore_from_config
restore-drives s j wired lt =
    ground (
      arith,
      last_call-apply_all s.last_tick_ms s j wired lt,
      hal_call-apply_all s.last_tick_ms s j,
    )

-- A channel that the rider must not lose is driven just as without the cutoff; while the cutoff is
-- active any other channel is dark.
pub cutoff-drives :
    (s : Engine) (j now : ℕ)
    → j < output_count
    → s.lv_cutoff ≡ true
    → get_actual_state s j now
      ≡ is_essential (channel s j) && get_actual_state (record s { lv_cutoff = false }) j now
unfolding get_actual_state compute_driven_on
cutoff-drives s j now lt active = ground arith

-- When the low-voltage cutoff engages, the HAL is told at once to put every channel out that is not
-- essential, and no channel's commanded state changes.
pub set_lv_cutoff-sheds :
    (s : Engine) (j : ℕ)
    → s.hal.has_set ≡ true
    → s.lv_cutoff ≡ false
    → j < output_count
    → is_essential (channel s j) ≡ false
    → let t = set_lv_cutoff true s in
      (last_call j t.calls ≡ some (level j false)) × (channel t j ≡ channel s j)
unfolding set_lv_cutoff hal_call get_actual_state
set_lv_cutoff-sheds s j wired off lt shed =
    let on = record s { lv_cutoff = true } in
    ground (
      arith,
      last_call-apply_all s.last_tick_ms on j wired lt,
      ap (λ (t : Engine). channel t j) (silent-apply_all s.last_tick_ms on),
    )
