-- ===== src/Session/Gate.antt =====
-- Who may do what: the gates of firmware/components/core/mc_session.c.
use moto_ctrl.Base.{
  ℕ, ◌-◌, ◌≡◌, ◌≢◌, ◌⊎◌, inl, inr, refl, true, false, some, List, [], ◌∷◌, arith, if_cases,
  Bool-cases, Option-cases, ltb, ◌==◌, length, take, drop,
}
use moto_ctrl.Keystore.Slots.{count, add, label_max}
use moto_ctrl.Keystore.Enrolment.{in_use-add}
use moto_ctrl.Session.Types.{
  Line, status_line, auth_line, command_line, config_line, ota_line, other_line, is_authed, Session,
  App, Reply, World, Frame, answer, log_event, log_event_cb,
}
use moto_ctrl.Session.Status.{handle_status}
use moto_ctrl.Session.Auth.{
  c_string, auth_begin, auth_response, enroll, key_list, key_revoke, handle_auth,
}
use moto_ctrl.Session.Config.{handle_config}
use moto_ctrl.Session.Update.{handle_ota}
use moto_ctrl.Session.Dispatch.{handle_command, handle}

module _ {S F : Type 0} where
  -- The keystore was empty, and the key that it holds now was logged under its slot.
  pub record FirstKeyLogged (app app' : App S F) : Type 0 where
    pub empty : count app.keystore ≡ 0
    pub slot : ℕ
    pub in_use : (app'.keystore.slots slot).in_use ≡ true
    pub log : app'.event_log ≡ log_event_cb (log_event 3 slot 0) app.hooks.uptime_ms app.event_log

  -- What an unauthenticated session may change: its own authentication, the first key with the record
  -- of its enrolment in the event log, and the calls of the hooks.
  pub record IsGated (s : Session) (app : App S F) (r : Reply S F) : Type 0 where
    pub app_kept :
        r.app
        ≡ record app { keystore = r.app.keystore; calls = r.app.calls; event_log = r.app.event_log }
    pub keys_kept : count app.keystore ≢ 0 → r.app.keystore ≡ app.keystore
    pub log_kept : (r.app.event_log ≡ app.event_log) ⊎ FirstKeyLogged app r.app
    pub session_kept : r.session ≡ record s {
      state = r.session.state;
      nonce = r.session.nonce;
      authed_slot = r.session.authed_slot;
    }

  module _ (w : World F) (s : Session) (app : App S F) (out : is_authed s.state ≡ false) where
    same-IsGated : (frames : List Frame) → IsGated s app (answer s app frames)
    same-IsGated frames = record {
      app_kept = refl;
      keys_kept = λ ne. refl;
      log_kept = inl refl;
      session_kept = refl;
    }

    auth_begin-IsGated : IsGated s app (auth_begin w s app)
    unfolding auth_begin
    auth_begin-IsGated = record {
      app_kept = ground arith;
      keys_kept = λ ne. ground (arith, ne);
      log_kept = inl (ground arith);
      session_kept = ground arith;
    }

    auth_response-IsGated : (sig : List ℕ) → IsGated s app (auth_response w s app sig)
    unfolding auth_response
    auth_response-IsGated sig = record {
      app_kept = ground arith;
      keys_kept = λ ne. ground (arith, ne);
      log_kept = inl (ground arith);
      session_kept = ground arith;
    }

    enroll-logs :
        (body : List ℕ)
        → let app' = (enroll s app body).app in
          (app'.event_log ≡ app.event_log) ⊎ FirstKeyLogged app app'
    unfolding enroll
    enroll-logs body =
        let label = c_string (take (label_max - 1) (drop 32 body)) in
        elim (Bool-cases (ltb (length body) 32)) [
          | inl short ↦ inl (ground (arith, short))
          | inr long ↦ elim (Bool-cases (count app.keystore == 0)) [
            | inr some_in ↦ inl (ground (arith, long, some_in, out))
            | inl empty ↦ elim (Option-cases (add app.keystore (take 32 body) (some label)).0) [
              | inl full ↦ inl (ground (arith, long, empty, full))
              | inr (slot, e) ↦ elim (Bool-cases app.hooks.has_log_event) [
                | inr unheard ↦ inl (ground (arith, long, empty, e, unheard))
                | inl heard ↦ inr (record {
                  empty = ground (arith, empty);
                  slot = slot;
                  in_use =
                      let held = in_use-add app.keystore (take 32 body) (some label) slot e in
                      ground (arith, long, empty, e, heard, held);
                  log = ground (arith, long, empty, e, heard);
                })
              ]
            ]
          ]
        ]

    enroll-IsGated : (body : List ℕ) → IsGated s app (enroll s app body)
    unfolding enroll
    enroll-IsGated body = record {
      app_kept = ground arith;
      keys_kept = λ ne. ground (arith, ne);
      log_kept = enroll-logs body;
      session_kept = ground arith;
    }

    key_list-IsGated : IsGated s app (key_list s app)
    unfolding key_list
    key_list-IsGated = if_cases (IsGated s app) _ (same-IsGated _) (same-IsGated _)

    key_revoke-IsGated : (body : List ℕ) → IsGated s app (key_revoke s app body)
    unfolding key_revoke
    key_revoke-IsGated [] = same-IsGated _
    key_revoke-IsGated (slot ∷ body) = rw out (same-IsGated _)

    handle_auth-IsGated : (payload : List ℕ) → IsGated s app (handle_auth w s app payload)
    unfolding handle_auth
    handle_auth-IsGated [] = same-IsGated []
    handle_auth-IsGated (op ∷ body) = if_cases (IsGated s app) _ auth_begin-IsGated (
        if_cases (IsGated s app) _ (auth_response-IsGated body) (
          if_cases (IsGated s app) _ (enroll-IsGated body) (
            if_cases (IsGated s app) _ key_list-IsGated
              (if_cases (IsGated s app) _ (key_revoke-IsGated body) (same-IsGated [])))))

    handle_status-IsGated : (payload : List ℕ) → IsGated s app (handle_status s app payload)
    unfolding handle_status
    handle_status-IsGated [] = same-IsGated []
    handle_status-IsGated (op ∷ body) =
        if_cases (IsGated s app) _ (same-IsGated _) (same-IsGated [])

    handle_command-IsGated : (payload : List ℕ) → IsGated s app (handle_command w s app payload)
    unfolding handle_command
    handle_command-IsGated [] = same-IsGated []
    handle_command-IsGated (op ∷ body) = rw out (same-IsGated _)

    handle_config-IsGated : (payload : List ℕ) → IsGated s app (handle_config w s app payload)
    unfolding handle_config
    handle_config-IsGated [] = same-IsGated []
    handle_config-IsGated (op ∷ body) = rw out (same-IsGated _)

    handle_ota-IsGated : (payload : List ℕ) → IsGated s app (handle_ota w s app payload)
    unfolding handle_ota
    handle_ota-IsGated [] = same-IsGated []
    handle_ota-IsGated (op ∷ body) = rw out (same-IsGated _)

    -- A session that is not authenticated changes nothing of the device, whatever it sends on whatever
    -- channel, but for a key that it enrols into an empty keystore, the record of that enrolment in the
    -- event log, and the calls of the hooks; nor does it stage a configuration or switch the learn mode.
    pub handle-IsGated :
        (line : Line) (payload : List ℕ) → IsGated s app (handle w s app line payload)
    unfolding handle
    handle-IsGated status_line payload = handle_status-IsGated payload
    handle-IsGated auth_line payload = handle_auth-IsGated payload
    handle-IsGated command_line payload = handle_command-IsGated payload
    handle-IsGated config_line payload = handle_config-IsGated payload
    handle-IsGated ota_line payload = handle_ota-IsGated payload
    handle-IsGated other_line payload = same-IsGated []
