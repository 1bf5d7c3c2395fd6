-- ===== src/Session/Commit.antt =====
-- What an accepted configuration changes (firmware/components/core/mc_session.c).
use moto_ctrl.Base.{
  ℕ, ◌≡◌, refl, sym, inl, inr, false, none, some, List, arith, update, for_range_frame, Bool-cases,
  Option-cases, subst,
}
use moto_ctrl.Output.Drive.{get_state}
use moto_ctrl.Output.Settings.{config_validate}
use moto_ctrl.Input.Types.{InputEngine, InputConfig, button_count, combo_zero}
use moto_ctrl.Input.Queue.{set_config}
use moto_ctrl.Input.Poll.{button_level}
use moto_ctrl.Diag.Types.{Diag}
use moto_ctrl.Config.{DeviceConfig, loaded}
use moto_ctrl.Session.Types.{HookCall, Session, App}
use moto_ctrl.Session.Result
use moto_ctrl.Session.Config.{with_live, apply_incoming, commit, any_flag, write_result}

-- New settings leave every debounced level, and the configuration is the new one.
level-set_config :
    (eng : InputEngine) (config : InputConfig) (b : ℕ)
    → button_level (set_config eng config) b ≡ button_level eng b
unfolding button_level set_config
level-set_config eng config b =
    let same =
      for_range_frame (λ (e : InputEngine). (e.buttons b).stable_state)
        (λ k e. record e {
          buttons = update e.buttons k (record (e.buttons k) { chord_consumed = false });
        })
        (λ k e. ground arith) button_count 0
        (record eng { config = config; combo_state = λ _. combo_zero }) in
    ground (arith, same)

config-set_config :
    (eng : InputEngine) (config : InputConfig) → (set_config eng config).config ≡ config
unfolding set_config
config-set_config eng config =
    for_range_frame (λ (e : InputEngine). e.config)
      (λ k e. record e {
        buttons = update e.buttons k (record (e.buttons k) { chord_consumed = false });
      })
      (λ k e. refl) button_count 0 (record eng { config = config; combo_state = λ _. combo_zero })

module _ {S F : Type 0} where
  -- What an accepted configuration leaves.
  pub record IsApplied (app app' : App S F) : Type 0 where
    pub states : (ch : ℕ) → get_state app'.output ch ≡ get_state app.output ch
    pub outputs : app'.output.config ≡ app'.config.outputs
    pub diagnostics :
        (diag : Diag F) → app'.diag ≡ some diag → diag.config ≡ app'.config.diagnostics
    pub inputs : (eng : InputEngine) → app'.input ≡ some eng → eng.config ≡ app'.config.inputs
    pub levels :
        (eng eng' : InputEngine)
        → app.input ≡ some eng
        → app'.input ≡ some eng'
        → (b : ℕ) → button_level eng' b ≡ button_level eng b

  applied : (app : App S F) (incoming : DeviceConfig) → App S F
  applied app incoming =
      let outputs = with_live app.output incoming.outputs in
      record app {
        config = record incoming { outputs = outputs };
        output = record app.output { config = outputs };
        diag = elim app.diag [
          | none ↦ none
          | some diag ↦ some (record diag { config = incoming.diagnostics })
        ];
        input = elim app.input [
          | none ↦ none
          | some input ↦ some (set_config input incoming.inputs)
        ];
      }

  -- But for the calls of the hooks.
  apply_incoming-applied :
      (app : App S F) (incoming : DeviceConfig)
      → apply_incoming app incoming
        ≡ record (applied app incoming) { calls = (apply_incoming app incoming).calls }
  unfolding apply_incoming applied
  apply_incoming-applied app incoming = ground arith

  applied-IsApplied :
      (app : App S F) (incoming : DeviceConfig) (calls : List HookCall)
      → IsApplied app (record (applied app incoming) { calls = calls })
  unfolding applied with_live
  applied-IsApplied app incoming calls = record {
    states = λ ch. unfold get_state in ground arith;
    outputs = refl;
    diagnostics = λ diag e. ground (arith, e);
    inputs = λ eng e. elim (Option-cases app.input) [
      | inl e' ↦ absurd (ground (arith, e, e'))
      | inr (old, e') ↦ ground (arith, e, e', config-set_config old incoming.inputs)
    ];
    levels = λ eng eng' e e' b. ground (arith, e, e', level-set_config eng incoming.inputs b);
  }

  -- A configuration that is accepted leaves every output on or off as it was and every debounced
  -- button too, and the engines that are attached run on what is stored.
  pub commit-IsApplied :
      (s : Session) (app : App S F) (incoming : DeviceConfig)
      → (commit s app (loaded incoming)).frames ≡ write_result Result.ok
      → IsApplied app (commit s app (loaded incoming)).app
  unfolding commit
  commit-IsApplied s app incoming accepted =
      elim (Bool-cases (any_flag (config_validate incoming.outputs))) [
        | inl bad ↦ absurd (ground (arith, bad, accepted))
        | inr good ↦ rw good (
            subst (IsApplied app) (sym (apply_incoming-applied app incoming))
              (applied-IsApplied app incoming _))
      ]
