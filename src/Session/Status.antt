-- ===== src/Session/Status.antt =====
-- `handle_status` of firmware/components/core/mc_session.c.
use moto_ctrl.Base.{ℕ, ◌+◌, ◌^◌, none, some, List, [], ◌∷◌, ◌==◌, if◌then◌else◌, for_range}
use moto_ctrl.Output.Types.{Engine, output_count}
use moto_ctrl.Output.Drive.{get_state}
use moto_ctrl.Lock.Types.{LockState, disabled, unlocked, parked, locked}
use moto_ctrl.Status.Frame.{Status, wire}
use moto_ctrl.Status.Frame
use moto_ctrl.Session.Types.{App, Session, Reply, status_line, send_frame, answer}

-- `mc_lock_wire_state`, as MC_LOCK_* of mc_status.h
unfoldable pub wire_state : LockState → ℕ
wire_state parked = 1
wire_state locked = 2
wire_state disabled = 3
wire_state unlocked = 3

-- `mask |= 1 << ch` for each channel that is on; the bits are distinct, so this adds them.
unfoldable pub state_mask : Engine → ℕ
state_mask output =
    for_range output_count 0 (λ ch mask. if get_state output ch then mask + 2 ^ ch else mask) 0

module _ {S F : Type 0} where
  -- The lock's part of `build_status`, and that of the diagnostics.
  abbrev with_lock : App S F → Status → Status
  with_lock app st = elim app.lock [
    | none ↦ st
    | some lock ↦ record st {
      lock_state = wire_state lock.state;
      cheatcode_backoff = lock.backoff_active;
    }
  ]

  abbrev with_diag : App S F → Status → Status
  with_diag app st = elim app.diag [
    | none ↦ st
    | some diag ↦ record st { battery_mv = diag.battery_mv; output_fault_mask = diag.fault_mask }
  ]

  -- `build_status`
  unfoldable pub build_status : App S F → Status
  unfolding state_mask wire_state
  build_status app =
      let filled : Status = elim app.hooks.fill_status [
        | none ↦ Frame.init
        | some fill ↦ fill Frame.init
      ] in
      with_diag app (
        with_lock app (record filled {
          output_state_mask = state_mask app.output;
          lv_cutoff_active = app.output.lv_cutoff;
          hazard_active = app.output.hazard_active;
        }))

  -- `handle_status`
  unfoldable pub handle_status : Session → App S F → List ℕ → Reply S F
  unfolding build_status
  handle_status s app [] = answer s app []
  handle_status s app (op ∷ body) =
      if op == 0x01
      then answer s app (send_frame status_line 0x81 (wire (build_status app)))
      else answer s app []
