-- ===== src/Session/Challenge.antt =====
-- The challenge-response of firmware/components/core/mc_session.c: how a session comes to be
-- authenticated, and that a signature serves once.
use moto_ctrl.Base.{
  ℕ, ◌≡◌, refl, sym, ap, ◌∙◌, pos, ◌⊎◌, inl, inr, true, false, some, List, [], ◌∷◌, arith, ◌==◌,
  ==-eq, length, Bool-cases, Option-cases, subst, if_cases,
}
use moto_ctrl.Keystore.Slots.{find_verifying}
use moto_ctrl.Session.Types.{
  Line, auth_line, is_authed, is_challenged, Session, App, Reply, World, send_result2, answer,
}
use moto_ctrl.Session.Result
use moto_ctrl.Session.Auth.{
  build_auth_message, auth_begin, auth_response, enroll, key_list, key_revoke, handle_auth,
}
use moto_ctrl.Session.Dispatch.{handle}
use moto_ctrl.Session.Quiet.{Standing, handle-Quiet}

module _ {F : Type 0} where
  -- Whether the nonce of a challenge is new or as it was.
  abbrev pub Fresh : World F → Session → Session → Type 0
  Fresh w s s' =
      (w.random 32 ≡ some s'.nonce) ⊎ ((is_challenged s.state ≡ true) × (s'.nonce ≡ s.nonce))

module _ {S F : Type 0} where
  -- The frame answers the challenge: it carries a signature of the nonce that was issued by a key that
  -- is enrolled, and the session is that key's.
  pub record Answers (w : World F) (s : Session) (app : App S F) (line : Line) (payload : List ℕ)
      (r : Reply S F) : Type 0 where
    pub signature : List ℕ
    pub slot : ℕ
    pub on_auth : line ≡ auth_line
    pub response : payload ≡ 0x02 ∷ signature
    pub challenged : is_challenged s.state ≡ true
    pub full : length signature ≡ 64
    pub verified :
        find_verifying w.nacl app.keystore (build_auth_message s.nonce) signature ≡ some slot
    pub held : r.session.authed_slot ≡ pos slot

  module _ (w : World F) (s : Session) (app : App S F) (out : is_authed s.state ≡ false) where
    auth_response-Answers :
        (sig : List ℕ)
        → is_authed (auth_response w s app sig).session.state ≡ true
        → Answers w s app auth_line (0x02 ∷ sig) (auth_response w s app sig)
    unfolding auth_response
    auth_response-Answers sig now =
        elim (Option-cases (find_verifying w.nacl app.keystore (build_auth_message s.nonce) sig)) [
          | inl e ↦ absurd (ground (arith, e, now, out))
          | inr (slot, e) ↦ record {
            signature = sig;
            slot = slot;
            on_auth = refl;
            response = refl;
            challenged = ground (arith, e, now, out);
            full = ground (arith, e, now, out);
            verified = e;
            held = ground (arith, e, now, out);
          }
        ]

    key_revoke_out : (body : List ℕ) → is_authed (key_revoke s app body).session.state ≡ false
    unfolding key_revoke
    key_revoke_out [] = out
    key_revoke_out (slot ∷ body) = rw out out

    others :
        (op : ℕ) (body : List ℕ)
        → (op == 2) ≡ false
        → is_authed (handle_auth w s app (op ∷ body)).session.state ≡ false
    unfolding handle_auth auth_begin enroll key_list
    others op body ne =
        let Out = λ (r : Reply S F). is_authed r.session.state ≡ false in
        if_cases Out (op == 1) (ground arith) (
          rw ne (
            if_cases Out (op == 16) (ground arith) (
              if_cases Out (op == 17) (ground arith)
                (if_cases Out (op == 18) (key_revoke_out body) out))))

    handle_auth-Answers :
        (payload : List ℕ)
        → is_authed (handle_auth w s app payload).session.state ≡ true
        → Answers w s app auth_line payload (handle_auth w s app payload)
    handle_auth-Answers [] now = absurd (unfold handle_auth in ground (arith, now, out))
    handle_auth-Answers (op ∷ body) now = elim (Bool-cases (op == 2)) [
      | inr ne ↦ absurd (ground (arith, others op body ne, now))
      | inl e ↦
          subst
            (λ (k : ℕ).
              is_authed (handle_auth w s app (k ∷ body)).session.state ≡ true
              → Answers w s app auth_line (k ∷ body) (handle_auth w s app (k ∷ body)))
            (sym (==-eq op 2 e)) (λ now'. unfold handle_auth in auth_response-Answers body now') now
    ]

    -- A frame that authenticates a session answers its challenge.
    pub handle-Answers :
        (line : Line) (payload : List ℕ)
        → is_authed (handle w s app line payload).session.state ≡ true
        → Answers w s app line payload (handle w s app line payload)
    handle-Answers line payload now = elim (handle-Quiet w s app line payload) [
      | inr same ↦ absurd (ground (arith, ap (λ (x : Standing). is_authed x.0) same, now, out))
      | inl e ↦
          subst
            (λ (l : Line).
              is_authed (handle w s app l payload).session.state ≡ true
              → Answers w s app l payload (handle w s app l payload))
            (sym e) (λ now'. unfold handle in handle_auth-Answers payload now') now
    ]

  module _ (w : World F) (s : Session) (app : App S F) where
    abbrev pub WhenChallenged : Reply S F → Type 0
    WhenChallenged r = is_challenged r.session.state ≡ true → Fresh w s r.session

    auth_begin-fresh : WhenChallenged (auth_begin w s app)
    unfolding auth_begin
    auth_begin-fresh on = ground (arith, on)

    auth_response-fresh : (sig : List ℕ) → WhenChallenged (auth_response w s app sig)
    unfolding auth_response
    auth_response-fresh sig on = ground (arith, on)

    enroll-fresh : (body : List ℕ) → WhenChallenged (enroll s app body)
    unfolding enroll
    enroll-fresh body on = ground (arith, on)

    key_list-fresh : WhenChallenged (key_list s app)
    unfolding key_list
    key_list-fresh on = ground (arith, on)

    key_revoke-fresh : (body : List ℕ) → WhenChallenged (key_revoke s app body)
    unfolding key_revoke
    key_revoke-fresh [] on = inr (on, refl)
    key_revoke-fresh (slot ∷ body) on = ground (arith, on)

    handle_auth-fresh : (payload : List ℕ) → WhenChallenged (handle_auth w s app payload)
    unfolding handle_auth
    handle_auth-fresh [] on = inr (on, refl)
    handle_auth-fresh (op ∷ body) on =
        if_cases WhenChallenged (op == 1) auth_begin-fresh
          (if_cases WhenChallenged (op == 2) (auth_response-fresh body) (
            if_cases WhenChallenged (op == 16) (enroll-fresh body) (
              if_cases WhenChallenged (op == 17) key_list-fresh
                (if_cases WhenChallenged (op == 18) (key_revoke-fresh body) (λ x. inr (x, refl))))))
          on

    pub handle-fresh :
        (line : Line) (payload : List ℕ) → WhenChallenged (handle w s app line payload)
    handle-fresh line payload on = elim (handle-Quiet w s app line payload) [
      | inr same ↦ inr (
        ap (λ (x : Standing). is_challenged x.0) (sym same) ∙ on,
        ap (λ (x : Standing). x.1) same,
      )
      | inl e ↦
          subst (λ (l : Line). WhenChallenged (handle w s app l payload)) (sym e)
            (λ on'. unfold handle in handle_auth-fresh payload on') on
    ]

    -- A response that is sent again is refused, and changes nothing, whether or not the first one was
    -- accepted.
    pub response-once :
        (sig : List ℕ)
        → let first = auth_response w s app sig in
          auth_response w first.session first.app sig
          ≡ answer first.session first.app (send_result2 auth_line 0x82 Result.bad_request 0xff)
    unfolding auth_response
    response-once sig = ground arith
