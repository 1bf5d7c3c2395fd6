-- ===== src/Session/History.antt =====
-- A connection from its start: the frames that `mc_session_handle`
-- (firmware/components/core/mc_session.c) got, and why the session is authenticated.
use moto_ctrl.Base.{
  ℕ, ◌≡◌, refl, sym, ap, ◌∙◌, ◌⊎◌, inl, inr, true, false, some, List, [], ◌∷◌, ◌++◌, arith,
  Bool-cases,
}
use moto_ctrl.Session.Types.{Line, is_authed, is_challenged, Session, App, World, init}
use moto_ctrl.Session.Dispatch.{handle}
use moto_ctrl.Session.Challenge.{Answers, handle-Answers, handle-fresh}

-- A frame, with what its handler gets from outside.
pub record Message (F : Type 0) : Type 0 where
  pub world : World F
  pub line : Line
  pub payload : List ℕ

module _ {S F : Type 0} where
  unfoldable pub run : List (Message F) → Session → App S F → Session × App S F
  run [] s app = (s, app)
  run (m ∷ ms) s app = let r = handle m.world s app m.line m.payload in run ms r.session r.app

  -- What the frame `m` found and left after `earlier` ones.
  abbrev pub Authenticates : List (Message F) → Message F → Session → App S F → Type 0
  Authenticates earlier m s app =
      let at = run earlier s app in
      Answers m.world at.0 at.1 m.line m.payload (handle m.world at.0 at.1 m.line m.payload)

  -- The challenge that is open after the frames was issued by one of them, with what the CSPRNG gave.
  abbrev pub Issued : List (Message F) → Session → App S F → Type 0
  Issued ms s app =
      (before : List (Message F)) × (m : Message F) × (after : List (Message F)) × (ms
        ≡ before ++ (m ∷ after))
      × (m.world.random 32 ≡ some (run ms s app).0.nonce)

  challenged_by :
      (ms : List (Message F)) (s : Session) (app : App S F)
      → is_challenged (run ms s app).0.state ≡ true
      → Issued ms s app ⊎ ((is_challenged s.state ≡ true) × ((run ms s app).0.nonce ≡ s.nonce))
  unfolding run
  challenged_by [] s app on = inr (on, refl)
  challenged_by (m ∷ ms) s app on =
      let r = handle m.world s app m.line m.payload in
      elim (challenged_by ms r.session r.app on) [
        | inl (before, m', after, e, random) ↦ inl (m ∷ before, m', after, ap (◌∷◌ m) e, random)
        | inr (open_then, same) ↦ elim (handle-fresh m.world s app m.line m.payload open_then) [
          | inl random ↦ inl ([], m, ms, refl, random ∙ ap some (sym same))
          | inr (open_before, old) ↦ inr (open_before, same ∙ old)
        ]
      ]

  cause :
      (ms : List (Message F)) (s : Session) (app : App S F)
      → is_authed s.state ≡ false
      → is_authed (run ms s app).0.state ≡ true
      → (earlier : List (Message F)) × (m : Message F) × (later : List (Message F)) × (ms
          ≡ earlier ++ (m ∷ later))
        × Authenticates earlier m s app
  unfolding run
  cause [] s app out now = absurd (ground (arith, out, now))
  cause (m ∷ ms) s app out now =
      let r = handle m.world s app m.line m.payload in
      elim (Bool-cases (is_authed r.session.state)) [
        | inl yet ↦ ([], m, ms, refl, handle-Answers m.world s app out m.line m.payload yet)
        | inr still ↦
            let (earlier, m', later, e, answers) = cause ms r.session r.app still now in
            (m ∷ earlier, m', later, ap (◌∷◌ m) e, answers)
      ]

  -- A connection that is authenticated at the end sent, in one of its frames, a signature by an
  -- enrolled key of the nonce of the challenge then open, and that nonce is what the CSPRNG gave for
  -- an earlier frame of the same connection.
  pub run-authenticated :
      (ms : List (Message F)) (app : App S F)
      → is_authed (run ms init app).0.state ≡ true
      → (earlier : List (Message F)) × (m : Message F) × (later : List (Message F)) × (ms
          ≡ earlier ++ (m ∷ later))
        × Authenticates earlier m init app
        × Issued earlier init app
  run-authenticated ms app now =
      let (earlier, m, later, e, answers) = cause ms init app (unfold init in refl) now in
      (
        earlier,
        m,
        later,
        e,
        answers,
        elim (challenged_by earlier init app answers.challenged) [
          | inl issued ↦ issued
          | inr (open_before, _) ↦ absurd (unfold init in ground (arith, open_before))
        ],
      )
