-- ===== src/Session/Ownership.antt =====
-- What a transfer of ownership and a revoked key leave (firmware/components/core/mc_session.c).
use moto_ctrl.Base.{
  ℕ, ◌≡◌, refl, sym, ap, ◌∙◌, Bool, true, false, not, ◌&&◌, Option, none, some, List, [], ◌∷◌,
  subst, if◌then◌else◌, arith, for_range,
}
use moto_ctrl.Output.Types.{Engine}
use moto_ctrl.Output.Clock.{set_immobilized}
use moto_ctrl.Keystore.Slots.{Keystore, remove, wipe, count, find_verifying}
use moto_ctrl.Keystore.Slots as Slots
use moto_ctrl.EventLog.Ring.{Event, Log, append, clear, IsKeeping}
use moto_ctrl.EventLog.History.{new_event, Holds, Holds-append, Holds-clear}
use moto_ctrl.Lock.Types.{Lock}
use moto_ctrl.Lock.Moves.{is_locked, enter_disabled}
use moto_ctrl.Lock.Settings.{config_default, transfer_ownership}
use moto_ctrl.Config.{DeviceConfig}
use moto_ctrl.Session.Types.{Hooks, Session, App}
use moto_ctrl.Session.Commands.{transfer, settle, wipe_keys, reset_name, reset_lock}

-- The parts of a device that a transfer is about.
abbrev Parts : Type 0 → Type 0
Parts S = Keystore × DeviceConfig × Option Lock × Engine × Hooks × Option (Log S)

abbrev was_locked : Option Lock → Bool
was_locked none = false
was_locked (some lock) = is_locked lock.state

abbrev unowned_lock : Option Lock → Engine → Option Lock × Engine
unowned_lock none output = (none, output)
unowned_lock (some lock) output =
    let (lock', output') = transfer_ownership lock output in (some lock', output')

count-init : count Slots.init ≡ 0
unfolding count Slots.init for_range
count-init = refl

transfer_ownership-unlocks :
    (lock : Lock) (output : Engine)
    → ((transfer_ownership lock output).0.locked_flag ≡ false)
      × (is_locked (transfer_ownership lock output).0.state ≡ false)
      × ((transfer_ownership lock output).1.immobilized
          ≡ output.immobilized && not (is_locked lock.state))
unfolding transfer_ownership enter_disabled set_immobilized
transfer_ownership-unlocks lock output = ground arith

transfer_ownership-config :
    (lock : Lock) (output : Engine) → (transfer_ownership lock output).0.config ≡ config_default
unfolding transfer_ownership
transfer_ownership-config lock output = refl

unowned_lock-reset :
    (before : Option Lock) (output : Engine) (lock : Lock)
    → (unowned_lock before output).0 ≡ some lock
    → (output' : Engine) → output' ≡ (unowned_lock before output).1
    → (lock.config ≡ config_default)
      × (lock.locked_flag ≡ false)
      × (is_locked lock.state ≡ false)
      × (output'.immobilized ≡ output.immobilized && not (was_locked before))
unowned_lock-reset none output lock q output' p = ground arith
unowned_lock-reset (some before) output lock q output' p =
    let reset = transfer_ownership-unlocks before output in
    let e : (transfer_ownership before output).0 ≡ lock =
      ap (λ o. elim o [ none ↦ lock | some l ↦ l ]) q in
    (
      sym (ap (λ l. l.config) e) ∙ transfer_ownership-config before output,
      sym (ap (λ l. l.locked_flag) e) ∙ reset.0,
      sym (ap (λ l. is_locked l.state) e) ∙ reset.1,
      ap (λ o. o.immobilized) p ∙ reset.2,
    )

-- The history of an event log after a transfer: the record of the transfer, if events are logged.
abbrev pub transfer_history : Hooks → List Event
transfer_history hooks = if hooks.has_log_event then new_event 1 5 0 0 hooks.uptime_ms ∷ [] else []

module _ {S : Type 0} where
  cleared : Hooks → Option (Log S) → Option (Log S)
  cleared hooks none = none
  cleared hooks (some log) =
      some (if hooks.has_log_event then append (clear log) 5 0 0 hooks.uptime_ms else clear log)

  Holds-wiped :
      (has : Bool) (now : ℕ) (log : Log S)
      → IsKeeping log.hal
      → Holds
          (if has then new_event 1 5 0 0 now ∷ [] else [])
          (if has then append (clear log) 5 0 0 now else clear log)
  Holds-wiped true now log keeps =
      Holds-append [] (clear log) 5 0 0 now (unfold clear in keeps) (omega arith) (Holds-clear log)
  Holds-wiped false now log keeps = Holds-clear log

  cleared-Holds :
      (hooks : Hooks) (before : Option (Log S)) (log : Log S)
      → ((l : Log S) → before ≡ some l → IsKeeping l.hal)
      → cleared hooks before ≡ some log
      → Holds (transfer_history hooks) log
  unfolding cleared
  cleared-Holds hooks none log keeps q = absurd (ground arith)
  cleared-Holds hooks (some before) log keeps q =
      subst (Holds (transfer_history hooks)) (ap (λ o. elim o [ none ↦ log | some l ↦ l ]) q)
        (Holds-wiped hooks.has_log_event hooks.uptime_ms before (keeps before refl))

module _ {S : Type 0} where
  without_name : Parts S → Parts S
  without_name (keys, config, lock, output, hooks, log) =
      (keys, record config { device_name = [] }, lock, output, hooks, log)

  without_owner : Parts S → Parts S
  without_owner (keys, config, lock, output, hooks, log) =
      (Slots.init, config, (unowned_lock lock output).0, (unowned_lock lock output).1, hooks, log)

  without_log : Parts S → Parts S
  without_log (keys, config, lock, output, hooks, log) =
      (keys, config, lock, output, hooks, cleared hooks log)

module _ {S F : Type 0} where
  -- Nothing of the old owner is left.
  pub record IsUnowned (app app' : App S F) : Type 0 where
    pub keys : count app'.keystore ≡ 0
    pub config : app'.config ≡ record app.config { device_name = [] }
    pub lock :
        (lock : Lock)
        → app'.lock ≡ some lock
        → (lock.config ≡ config_default)
          × (lock.locked_flag ≡ false)
          × (is_locked lock.state ≡ false)
          × (app'.output.immobilized ≡ app.output.immobilized && not (was_locked app.lock))
    pub log : (log : Log S) → app'.event_log ≡ some log → Holds (transfer_history app.hooks) log

  abbrev parts : App S F → Parts S
  parts app = (app.keystore, app.config, app.lock, app.output, app.hooks, app.event_log)

  parts-reset_name :
      (app : App S F)
      → parts (reset_name app) ≡ (
        app.keystore,
        record app.config { device_name = [] },
        app.lock,
        app.output,
        app.hooks,
        app.event_log,
      )
  unfolding reset_name
  parts-reset_name app = ground arith

  parts-reset_lock :
      (app : App S F)
      → parts (reset_lock app) ≡ (
        app.keystore,
        app.config,
        (unowned_lock app.lock app.output).0,
        (unowned_lock app.lock app.output).1,
        app.hooks,
        app.event_log,
      )
  unfolding reset_lock
  parts-reset_lock app = ground arith

  parts-settle : (app : App S F) → parts (settle app) ≡ without_log (parts app)
  unfolding settle without_log cleared
  parts-settle app = ground arith

  parts-reset : (app : App S F) → parts (reset_lock (wipe_keys app)) ≡ without_owner (parts app)
  unfolding without_owner wipe_keys
  parts-reset app = parts-reset_lock (wipe_keys app)

  parts-name : (app : App S F) → parts (reset_name app) ≡ without_name (parts app)
  unfolding without_name
  parts-name app = parts-reset_name app

  parts-transfer :
      (s : Session) (app : App S F)
      → parts (transfer s app).app ≡ without_log (without_owner (without_name (parts app)))
  unfolding transfer
  parts-transfer s app =
      parts-settle (reset_lock (wipe_keys (reset_name app)))
      ∙ ap without_log (parts-reset (reset_name app) ∙ ap without_owner (parts-name app))

  IsUnowned-parts :
      (app app' : App S F)
      → ((log : Log S) → app.event_log ≡ some log → IsKeeping log.hal)
      → parts app' ≡ without_log (without_owner (without_name (parts app)))
      → IsUnowned app app'
  unfolding without_log without_owner without_name
  IsUnowned-parts app app' keeps e = record {
    keys = ap (λ p. count p.0) e ∙ count-init;
    config = ap (λ p. p.1) e;
    lock = λ lock q.
        unowned_lock-reset app.lock app.output lock (sym (ap (λ p. p.2) e) ∙ q) app'.output
          (ap (λ p. p.3) e);
    log = λ log q. cleared-Holds app.hooks app.event_log log keeps (sym (ap (λ p. p.5) e) ∙ q);
  }

  -- On a device whose event log, if it has one, has a storage that keeps what it is given, a transfer
  -- of ownership leaves no key, no device name, and a lock, if there is one, that has its default
  -- configuration and does not lock the bike; a bike that was locked is no longer immobilized, and
  -- the rest of the configuration stays. The event log holds the record of the transfer alone, as
  -- number 1, where the platform logs events, and nothing where it does not.
  pub transfer-IsUnowned :
      (s : Session) (app : App S F)
      → ((log : Log S) → app.event_log ≡ some log → IsKeeping log.hal)
      → IsUnowned app (transfer s app).app
  transfer-IsUnowned s app keeps =
      IsUnowned-parts app (transfer s app).app keeps (parts-transfer s app)
