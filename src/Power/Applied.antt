-- ===== src/Power/Applied.antt =====
-- What the power policy decides, and that the platform follows it.
use moto_ctrl.Base.{
  sym, ap, ◌∙◌, ℕ, ◌≡◌, refl, true, false, not, ◌&&◌, ◌||◌, List, [], ◌∷◌, arith, if◌then◌else◌,
  ◌==◌, Bool-cases, inl, inr, elapsed_at_least,
}
use moto_ctrl.Power.Policy.{
  PowerState, active, idle, parked, Profile, PowerInputs, PowerConfig, Power, profile_of,
  same_profile, set_profile, init, hold_awake, tick, take_profile_change,
}

-- A call of mc_power.h.
pub data PowerOp : Type 0 where
  tick_at : PowerInputs → ℕ → PowerOp
  take_change : PowerOp

-- The policy beside the profile that the platform runs on: it takes over the policy's whenever
-- `mc_power_take_profile_change` answers that it changed.
unfoldable pub step : PowerOp → Power × Profile → Power × Profile
step (tick_at inputs now) (p, applied) = (tick p inputs now, applied)
step take_change (p, applied) =
    let (changed, p') = take_profile_change p in (p', if changed then p'.profile else applied)

unfoldable pub run : List PowerOp → Power × Profile → Power × Profile
run [] s = s
run (op ∷ ops) s = run ops (step op s)

-- The profile is that of the state, and the platform runs on it unless a change is pending.
pub record Follows (p : Power) (applied : Profile) : Type 0 where
  pub matches : p.profile ≡ profile_of p.state
  pub followed : p.profile_changed ≡ false → applied ≡ p.profile

same_profile-eq :
    (a b : PowerState)
    → same_profile (profile_of a) (profile_of b) ≡ true
    → profile_of b ≡ profile_of a
same_profile-eq active active e = refl
same_profile-eq idle idle e = refl
same_profile-eq parked parked e = refl
same_profile-eq active idle e = absurd (ground arith)
same_profile-eq active parked e = absurd (ground arith)
same_profile-eq idle active e = absurd (ground arith)
same_profile-eq idle parked e = absurd (ground arith)
same_profile-eq parked active e = absurd (ground arith)
same_profile-eq parked idle e = absurd (ground arith)

Follows-set_profile :
    (p : Power) (applied : Profile) (st : PowerState)
    → Follows p applied
    → Follows (set_profile p st) applied
unfolding set_profile
Follows-set_profile p applied st h = record {
  matches = refl;
  followed = λ quiet. elim (Bool-cases (same_profile (profile_of st) p.profile)) [
    | inr differs ↦ absurd (ground arith)
    | inl same ↦
        h.followed (ground arith)
        ∙ h.matches
        ∙ same_profile-eq st p.state (ap (same_profile (profile_of st)) (sym h.matches) ∙ same)
  ];
}

Follows-tick :
    (p : Power) (applied : Profile) (inputs : PowerInputs) (now : ℕ)
    → Follows p applied
    → Follows (tick p inputs now) applied
unfolding tick
Follows-tick p applied inputs now h = elim (Bool-cases (hold_awake inputs)) [
  | inl a ↦ rw a (
      Follows-set_profile (record p { last_active_ms = now }) applied active
        (record { matches = h.matches; followed = h.followed }))
  | inr a ↦ elim (Bool-cases inputs.session_connected) [
    | inl b ↦ rw a (rw b (Follows-set_profile p applied idle h))
    | inr b ↦ elim (Bool-cases (elapsed_at_least now p.last_active_ms p.config.parked_after_ms)) [
      | inl c ↦ rw a (rw b (rw c (Follows-set_profile p applied parked h)))
      | inr c ↦ elim (Bool-cases (elapsed_at_least now p.last_active_ms p.config.idle_after_ms)) [
        | inl d ↦ rw a (rw b (rw c (rw d (Follows-set_profile p applied idle h))))
        | inr d ↦ rw a (rw b (rw c (rw d (Follows-set_profile p applied active h))))
      ]
    ]
  ]
]

Follows-run :
    (ops : List PowerOp) (p : Power) (applied : Profile)
    → Follows p applied
    → Follows (run ops (p, applied)).0 (run ops (p, applied)).1
unfolding run step take_profile_change
Follows-run [] p applied h = h
Follows-run (tick_at inputs now ∷ ops) p applied h =
    Follows-run ops (tick p inputs now) applied (Follows-tick p applied inputs now h)
Follows-run (take_change ∷ ops) p applied h =
    Follows-run ops (record p { profile_changed = false })
      (if p.profile_changed then p.profile else applied)
      (record {
        matches = h.matches;
        followed = λ _. elim (Bool-cases p.profile_changed) [
          | inl e ↦ rw e refl
          | inr e ↦ rw e (h.followed e)
        ];
      })

-- After any ticks and answers to the platform from its start on, the profile is that of the state, and
-- the platform, which takes the profile over when told of a change, runs on it unless a change is
-- still to be taken.
pub run-Follows :
    (config : PowerConfig) (start : ℕ) (ops : List PowerOp)
    → let (p, applied) = run ops (init config start, profile_of active) in Follows p applied
unfolding init
run-Follows config start ops =
    Follows-run ops (init config start) (profile_of active)
      (record { matches = refl; followed = λ _. refl })

-- After a tick the device may sleep exactly if nothing held it awake then, and either a client is
-- connected or the bike has been quiet for one of the two configured times; it ticks at the slowest
-- rate exactly if nothing held it awake, no
-- client is connected and it has been quiet for the time set for parking.
pub tick-sleeps :
    (p : Power) (inputs : PowerInputs) (now : ℕ)
    → let quiet_for = elapsed_at_least now p.last_active_ms in
      let p' = tick p inputs now in
      (p'.profile.light_sleep_allowed
        ≡ not (hold_awake inputs)
          && (inputs.session_connected
              || (quiet_for p.config.parked_after_ms || quiet_for p.config.idle_after_ms)))
      × (p'.profile.tick_interval_ms == 250
          ≡ not (hold_awake inputs)
            && not inputs.session_connected
            && quiet_for p.config.parked_after_ms)
unfolding tick set_profile
tick-sleeps p inputs now = (ground arith, ground arith)
