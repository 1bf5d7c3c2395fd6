-- ===== src/Session/Auth.antt =====
-- `handle_auth` of firmware/components/core/mc_session.c: the challenge and the keys.
use moto_ctrl.Base.{
  ℕ, ◌+◌, ◌-◌, pos, minus_one, not, ◌||◌, none, some, List, [], ◌∷◌, ◌++◌, ltb, ◌==◌, if◌then◌else◌,
  length, take, drop, replicate, for_range,
}
use moto_ctrl.Keystore.Slots.{
  Keystore, max_keys, label_max, count, add, remove, find_verifying, get,
}
use moto_ctrl.Session.Types.{
  unauth, challenged, authed, is_authed, is_challenged, Session, App, Reply, World, auth_line,
  persist_keystore, session_authed, log_event, send_frame, send_result1, send_result2, hook, answer,
}
use moto_ctrl.Session.Result

-- MC_AUTH_CONTEXT
abbrev auth_context : List ℕ
auth_context =
    b'm' ∷ b'o' ∷ b't' ∷ b'o' ∷ b'-' ∷ b'c' ∷ b't' ∷ b'r' ∷ b'l' ∷ b'-' ∷ b'a' ∷ b'u' ∷ b't' ∷ b'h'
    ∷ b'-' ∷ b'v' ∷ b'1' ∷ []

-- `mc_session_build_auth_message`
unfoldable pub build_auth_message : List ℕ → List ℕ
build_auth_message nonce = auth_context ++ nonce

-- The C string in an array: its bytes before the first NUL.
unfoldable pub c_string : List ℕ → List ℕ
c_string [] = []
c_string (b ∷ bytes) = let rest = c_string bytes in if b == 0 then [] else b ∷ rest

-- The entry of one slot in the answer to MC_OP_KEY_LIST.
abbrev list_slot : Keystore → ℕ → ℕ × List ℕ → ℕ × List ℕ
list_slot keystore i (n, bytes) = elim (get keystore (pos i) label_max) [
  | none ↦ (n, bytes)
  | some (pubkey, label) ↦ (n + 1, bytes ++ i ∷ length label ∷ label)
]

module _ {S F : Type 0} (w : World F) where
  -- MC_OP_AUTH_BEGIN. A CSPRNG that fails leaves the nonce as it was; that of a build for a host may
  -- have overwritten some of it.
  unfoldable pub auth_begin : Session → App S F → Reply S F
  auth_begin s app = elim (w.random 32) [
    | none ↦ answer s app (send_result2 auth_line 0x82 Result.internal 0xff)
    | some nonce ↦
        answer (record s { state = challenged; nonce = nonce }) app
          (send_frame auth_line 0x81 nonce)
  ]

  -- MC_OP_AUTH_RESPONSE
  unfoldable pub auth_response : Session → App S F → List ℕ → Reply S F
  unfolding build_auth_message
  auth_response s app sig =
      let spent = record s { nonce = replicate 32 0 } in
      if not (is_challenged s.state) || not (length sig == 64)
      then answer s app (send_result2 auth_line 0x82 Result.bad_request 0xff)
      else elim (find_verifying w.nacl app.keystore (build_auth_message s.nonce) sig) [
        | some slot ↦
            answer (record spent { state = authed; authed_slot = pos slot })
              (hook app.hooks.has_on_session_authed session_authed app)
              (send_result2 auth_line 0x82 Result.ok slot)
        | none ↦
            answer (record spent { state = unauth; authed_slot = minus_one }) app
              (send_result2 auth_line 0x82 Result.rejected 0xff)
      ]

module _ {S F : Type 0} where
  -- MC_OP_ENROLL
  unfoldable pub enroll : Session → App S F → List ℕ → Reply S F
  unfolding c_string
  enroll s app body =
      let refuse = λ (result : ℕ). answer s app (send_result2 auth_line 0x90 result 0xff) in
      if ltb (length body) 32
      then refuse Result.bad_request
      else if not (count app.keystore == 0 || is_authed s.state)
      then refuse Result.enroll_denied
      else (let label = c_string (take (label_max - 1) (drop 32 body)) in
          let (added, keystore') = add app.keystore (take 32 body) (some label) in
          elim added [
            | none ↦ refuse Result.keystore_full
            | some slot ↦
                answer s
                  (hook app.hooks.has_log_event (log_event 3 slot 0) (
                    hook app.hooks.has_persist_keystore persist_keystore
                      (record app { keystore = keystore' })))
                  (send_result2 auth_line 0x90 Result.ok slot)
          ])

  -- MC_OP_KEY_LIST
  unfoldable pub key_list : Session → App S F → Reply S F
  key_list s app =
      let (n, bytes) = for_range max_keys 0 (list_slot app.keystore) (0, []) in
      if not (is_authed s.state)
      then answer s app (send_result1 auth_line 0x91 0)
      else answer s app (send_frame auth_line 0x91 (n ∷ bytes))

  -- MC_OP_KEY_REVOKE
  unfoldable pub key_revoke : Session → App S F → List ℕ → Reply S F
  key_revoke s app [] = answer s app (
      send_result2 auth_line 0x92
        (if is_authed s.state then Result.bad_request else Result.unauthenticated) 0xff)
  key_revoke s app (slot ∷ body) =
      if not (is_authed s.state)
      then answer s app (send_result2 auth_line 0x92 Result.unauthenticated 0xff)
      else (let (removed, keystore') = remove app.keystore (pos slot) in
          if removed
          then answer s
              (hook app.hooks.has_log_event (log_event 4 slot 0) (
                hook app.hooks.has_persist_keystore persist_keystore
                  (record app { keystore = keystore' })))
              (send_result2 auth_line 0x92 Result.ok slot)
          else answer s app (send_result2 auth_line 0x92 Result.not_found slot))

  -- `handle_auth`
  unfoldable pub handle_auth : World F → Session → App S F → List ℕ → Reply S F
  handle_auth w s app [] = answer s app []
  handle_auth w s app (op ∷ body) =
      if op == 0x01
      then auth_begin w s app
      else if op == 0x02
      then auth_response w s app body
      else if op == 0x10
      then enroll s app body
      else if op == 0x11
      then key_list s app
      else if op == 0x12
      then key_revoke s app body
      else answer s app []
