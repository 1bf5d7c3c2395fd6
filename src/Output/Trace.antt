-- ===== src/Output/Trace.antt =====
-- The calls of mc_output.h that change the output engine, as a step function over requests. What a
-- session does to the configuration of the engine directly, when it commits one (mc_session.c), is
-- not among them.
use moto_ctrl.Base.{
  ℕ, ◌<◌, ◌≡◌, refl, ap, ◌∙◌, Bool, true, not, ◌&&◌, List, [], ◌∷◌, inl, inr, if◌then◌else◌,
  for_range, arith,
}
use moto_ctrl.Output.Types.{Source, Engine, output_count}
use moto_ctrl.Output.Drive.{apply_hal_state, restore_from_config}
use moto_ctrl.Output.Command.{set, alternate_press}
use moto_ctrl.Output.Hazards.{hazard_press}
use moto_ctrl.Output.Clock.{
  expire, tick, set_engine_running, set_interlock_engaged, set_immobilized, set_lv_cutoff,
}
use moto_ctrl.Output.Frames.{still, cell, expired, starter_cut}
use moto_ctrl.Output.Rounds.{
  silent-apply_all, still-expire_all, cell-expire_all, still-cut_starters, cell-cut_starters,
}
use moto_ctrl.Output.Switch.{SameRoles, roles-switch}
use moto_ctrl.Output.Guards.{set-cases, alternate_press-cases}
use moto_ctrl.Output.Borrow.{roles-hazard_press}

-- A call of mc_output.h that may change the engine.
pub data Op : Type 0 where
  command : ℕ → Bool → Source → Op
  alternate : ℕ → Source → Op
  press_hazards : ℕ → Op
  pass_time : ℕ → Op
  engine : Bool → Op
  interlock : Bool → Op
  immobilize : Bool → Op
  cutoff : Bool → Op
  restore : Op

unfoldable pub step : Op → Engine → Engine
step (command ch on src) s = (set s ch on src).1
step (alternate ch src) s = (alternate_press s ch src).1
step (press_hazards now) s = hazard_press now s
step (pass_time now) s = tick now s
step (engine running) s = set_engine_running running s
step (interlock engaged) s = set_interlock_engaged engaged s
step (immobilize on) s = set_immobilized on s
step (cutoff on) s = set_lv_cutoff on s
step restore s = restore_from_config s

unfoldable pub run : List Op → Engine → Engine
run [] s = s
run (op ∷ ops) s = run ops (step op s)

module _ (now : ℕ) (s : Engine) (j : ℕ) (lt : j < output_count) where
  cell-apply_all :
      (t : Engine) → cell j (for_range output_count 0 (apply_hal_state now) t) ≡ cell j t
  cell-apply_all t = ap (cell j) (silent-apply_all now t)

  -- The tick changes a channel only by expiring its auto-cancel deadline.
  pub cell-tick : cell j (tick now s) ≡ expired now (cell j s)
  unfolding tick
  cell-tick =
      cell-apply_all (for_range output_count 0 (expire now) (record s { last_tick_ms = now }))
      ∙ cell-expire_all now (record s { last_tick_ms = now }) j lt

  pub cell-restore_from_config : cell j (restore_from_config s) ≡ cell j s
  unfolding restore_from_config
  cell-restore_from_config = ap (cell j) (silent-apply_all s.last_tick_ms s)

  pub cell-set_lv_cutoff : (on : Bool) → cell j (set_lv_cutoff on s) ≡ cell j s
  unfolding set_lv_cutoff
  cell-set_lv_cutoff on =
      ground (arith, ap (cell j) (silent-apply_all s.last_tick_ms (record s { lv_cutoff = on })))

  -- Only an engine that starts to run changes a channel: a starter that is on goes off.
  pub cell-set_engine_running :
      (running : Bool)
      → cell j (set_engine_running running s)
        ≡ (if running && not s.engine_running then starter_cut (cell j s) else cell j s)
  unfolding set_engine_running
  cell-set_engine_running running =
      ground (arith, cell-cut_starters s.last_tick_ms (record s { engine_running = running }) j lt)

pub engine_running-set_engine_running :
    (running : Bool) (s : Engine) → (set_engine_running running s).engine_running ≡ running
unfolding set_engine_running
engine_running-set_engine_running running s =
    ground (arith, still-cut_starters s.last_tick_ms (record s { engine_running = running }))

pub immobilized-set_engine_running :
    (running : Bool) (s : Engine) → (set_engine_running running s).immobilized ≡ s.immobilized
unfolding set_engine_running
immobilized-set_engine_running running s =
    ground (arith, still-cut_starters s.last_tick_ms (record s { engine_running = running }))

pub still-restore_from_config : (s : Engine) → still (restore_from_config s) ≡ still s
unfolding restore_from_config
still-restore_from_config s = ap still (silent-apply_all s.last_tick_ms s)

pub still-tick :
    (now : ℕ) (s : Engine) → still (tick now s) ≡ still (record s { last_tick_ms = now })
unfolding tick
still-tick now s =
    ap still (
      silent-apply_all now
        (for_range output_count 0 (expire now) (record s { last_tick_ms = now })))
    ∙ still-expire_all now (record s { last_tick_ms = now })

pub still-set_lv_cutoff :
    (on : Bool) (s : Engine) → still (set_lv_cutoff on s) ≡ still (record s { lv_cutoff = on })
unfolding set_lv_cutoff
still-set_lv_cutoff on s =
    ground (arith, ap still (silent-apply_all s.last_tick_ms (record s { lv_cutoff = on })))

pub roles-set : (s : Engine) (ch : ℕ) (on : Bool) (src : Source) → SameRoles s (set s ch on src).1
roles-set s ch on src = elim (set-cases s ch on src) [
  | inl (_, e) ↦ rw e (record { at = λ j lt. refl })
  | inr (_, e, _) ↦ rw e (roles-switch ch on s)
]

pub roles-alternate_press :
    (s : Engine) (ch : ℕ) (src : Source) → SameRoles s (alternate_press s ch src).1
roles-alternate_press s ch src = elim (alternate_press-cases s ch src) [
  | inl (_, e) ↦ rw e (record { at = λ j lt. refl })
  | inr (p, _, _, _, _, e) ↦ rw e (roles-set s _ true src)
]

-- No request changes anything of a channel but whether it is commanded on: its name, behaviour, duty,
-- roles and pair stay as the rider configured them.
pub roles-step : (op : Op) (s : Engine) → SameRoles s (step op s)
unfolding step set_interlock_engaged set_immobilized
roles-step (command ch on src) s = roles-set s ch on src
roles-step (alternate ch src) s = roles-alternate_press s ch src
roles-step (press_hazards now) s = roles-hazard_press now s
roles-step (pass_time now) s = record { at = λ j lt. ground (arith, cell-tick now s j lt) }
roles-step (engine running) s = record {
  at = λ j lt. ground (arith, cell-set_engine_running 0 s j lt running);
}
roles-step (cutoff on) s = record { at = λ j lt. ground (arith, cell-set_lv_cutoff 0 s j lt on) }
roles-step restore s = record { at = λ j lt. ground (arith, cell-restore_from_config 0 s j lt) }
roles-step (interlock engaged) s = record { at = λ j lt. refl }
roles-step (immobilize on) s = record { at = λ j lt. refl }
