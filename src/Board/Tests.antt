-- ===== src/Board/Tests.antt =====
-- Turns of the task on the motorcycle of Output/Bike.
use moto_ctrl.Base.{ℕ, ◌≡◌, refl, false, some, List, [], ◌∷◌, ◌==◌, arith}
use moto_ctrl.Output.Bike.{bike, bike_config}
use moto_ctrl.Lock.Settings as Lock
use moto_ctrl.Lock.Invariant.{Sound}
use moto_ctrl.Input.Queue as Input
use moto_ctrl.Diag.Tests.{whole}
use moto_ctrl.Diag.Settings as Diag
use moto_ctrl.Power.Policy as Power
use moto_ctrl.Crypto.Tests.{counting}
use moto_ctrl.Input.Types.{press, short_press}
use moto_ctrl.Board.Turn.{Board, Moment, drain}
use moto_ctrl.Board.Queue.{drain-empties}
use moto_ctrl.Board.Refine.{turns, turns-Sound}

-- A board that has just booted with the default settings.
booted : Board ℕ
booted = record {
  output = (Lock.init Lock.config_default false bike).1;
  lock = (Lock.init Lock.config_default false bike).0;
  diag = Diag.init Diag.config_default (Diag.calib_default whole);
  input = Input.init Input.config_default;
  power = Power.init Power.config_default 1000;
  logged = [];
}

-- The brake lever is pulled.
abbrev braking : Moment
braking = record {
  now = 1010;
  raw = λ b. b == 1;
  readings = record { channel_mv = some (λ ch. 100); vbat_mv = some 12800 };
  outputs = bike_config;
  inputs = Input.config_default;
  suppressed = false;
  connected = false;
  ota_active = false;
  reset_armed = false;
}

abbrev a_while : List Moment
a_while = braking ∷ record braking { now = 1020 } ∷ record braking { now = 1030 } ∷ []

turns-Sound_example :
    Sound (turns counting whole a_while booted).lock (turns counting whole a_while booted).output
turns-Sound_example =
    turns-Sound counting whole a_while Lock.config_default false bike booted (unfold booted in refl)

-- Two presses wait.
queued : Board ℕ
queued = record booted {
  input = record (Input.init Input.config_default) {
    event_queue = λ slot. press slot short_press false;
    event_count = 2;
  };
}

drain-empties_example : (drain 16 counting braking queued).input.event_count ≡ 0
drain-empties_example = drain-empties counting braking 16 queued (unfold queued in omega arith)
