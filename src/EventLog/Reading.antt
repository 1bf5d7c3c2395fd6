-- ===== src/EventLog/Reading.antt =====
-- What a reader of the event log gets.
use moto_ctrl.Base.{
  ℕ, zero, suc, ◌+◌, ◌-◌, ◌%◌, ◌<◌, ◌≤◌, ◌≡◌, ◌≢◌, Option-cases, refl, sym, ap, ◌∙◌, true, some,
  List, [], ◌∷◌, inl, inr, arith, Bool-cases, ltb, leb, ◌==◌, ==-eq, take_all, add32, sub32,
  u32_mod, length, take, drop, length-drop, drop_all,
}
use moto_ctrl.EventLog.Ring.{
  Event, slot_count, Log, effective_start, count_since, get_slot, read_from, read,
}
use moto_ctrl.EventLog.History.{available, Holds}

drop-some :
    (k : ℕ) (xs : List Event)
    → k < length xs
    → (r : Event) × ((rest : List Event) × (drop k xs ≡ r ∷ rest))
drop-some zero [] lt = absurd (omega arith)
drop-some zero (x ∷ xs) lt = (x, (xs, refl))
drop-some (suc k) [] lt = absurd (omega arith)
drop-some (suc k) (x ∷ xs) lt = drop-some k xs (omega arith)

drop-suc :
    (k : ℕ) (xs : List Event) (r : Event) (rest : List Event)
    → drop k xs ≡ r ∷ rest
    → drop (suc k) xs ≡ rest
drop-suc zero [] r rest e = absurd (ground arith)
drop-suc zero (x ∷ xs) r rest e = ground arith
drop-suc (suc k) [] r rest e = absurd (ground arith)
drop-suc (suc k) (x ∷ xs) r rest e = drop-suc k xs r rest e

pub drop-next :
    (k : ℕ) (xs : List Event) (r : Event) (rest : List Event)
    → drop k xs ≡ r ∷ rest
    → drop (k + 1) xs ≡ rest
drop-next k xs r rest e =
    let next : k + 1 ≡ suc k = omega arith in ap (λ i. drop i xs) next ∙ drop-suc k xs r rest e

some_inj : {a b : Event} → some a ≡ some b → a ≡ b
some_inj e = ground (arith, e)

-- A round of the loop that finds the record of its number.
read_from-found :
    {S : Type 0} (fuel : ℕ) (log : Log S) (seq room : ℕ) (rec : Event) (rest : List Event)
    → leb seq log.last_seq ≡ true
    → get_slot log.hal (sub32 seq 1 % slot_count) log.store ≡ some rec
    → rec.seq ≡ seq
    → read_from fuel log (add32 seq 1) room ≡ some rest
    → read_from (suc fuel) log seq (suc room) ≡ some (rec ∷ rest)
unfolding read_from
read_from-found fuel log seq room rec rest on stored numbered ih = ground (arith, ih)

-- A round that finds none of its number.
pub read_from-skip :
    {S : Type 0} (fuel : ℕ) (log : Log S) (seq room : ℕ)
    → leb seq log.last_seq ≡ true
    → ((rec : Event)
        → get_slot log.hal (sub32 seq 1 % slot_count) log.store ≡ some rec
        → rec.seq ≢ seq)
    → read_from (suc fuel) log seq (suc room) ≡ read_from fuel log (add32 seq 1) (suc room)
unfolding read_from
read_from-skip fuel log seq room on other =
    elim (Option-cases (get_slot log.hal (sub32 seq 1 % slot_count) log.store)) [
      | inl gap ↦ ground (arith, on, gap)
      | inr (rec, e) ↦ ground (arith, on, e, other rec e)
    ]

module _ {S : Type 0} (history : List Event) (log : Log S) (h : Holds history log) where
  read_from-drop :
      (fuel k room : ℕ)
      → k ≤ length history
      → length history ≤ k + slot_count
      → length history < k + fuel
      → length history + 1 < u32_mod
      → read_from fuel log (k + 1) room ≡ some (take room (drop k history))
  unfolding read_from
  read_from-drop zero k room lt recent enough fits = absurd (omega arith)
  read_from-drop (suc fuel) k zero lt recent enough fits = ground arith
  read_from-drop (suc fuel) k (suc room) lt recent enough fits =
      elim (Bool-cases (ltb k (length history))) [
        | inr last ↦ ground (arith, drop_all k history (ground arith), h.count)
        | inl more ↦
            let below : k < length history = ground arith in
            let (r, (rest, e)) = drop-some k history below in
            let (stored, numbered) = h.at k r rest e recent in
            let ih =
              read_from-drop fuel (k + 1) room (omega arith) (omega arith) (omega arith) fits in
            let next : add32 (k + 1) 1 ≡ k + 1 + 1 = omega arith in
            let here : sub32 (k + 1) 1 ≡ k = omega arith in
            read_from-found fuel log (k + 1) room r (take room rest) (ground (arith, h.count))
              (ap (λ i. get_slot log.hal (i % slot_count) log.store) here ∙ stored) numbered
              (ap (λ i. read_from fuel log i room) next
                ∙ ih
                ∙ ap (λ xs. some (take room xs)) (drop-next k history r rest e))
            ∙ sym (ap (λ xs. some (take (suc room) xs)) e)
      ]

  read_from-past :
      (fuel k room : ℕ)
      → length history ≤ k
      → 0 < fuel
      → read_from fuel log (k + 1) room ≡ some (take room (drop k history))
  unfolding read_from
  read_from-past zero k room over some_fuel = absurd (omega arith)
  read_from-past (suc fuel) k zero over some_fuel = ground arith
  read_from-past (suc fuel) k (suc room) over some_fuel =
      ground (arith, drop_all k history over, h.count)

  pub read_from_start :
      (fuel k room : ℕ)
      → length history ≤ k + slot_count
      → length history < fuel
      → length history + 1 < u32_mod
      → read_from fuel log (k + 1) room ≡ some (take room (drop k history))
  read_from_start fuel k room recent enough fits = elim (Bool-cases (leb k (length history))) [
    | inl inside ↦ read_from-drop fuel k room (ground arith) recent (omega arith) fits
    | inr past ↦ read_from-past fuel k room (ground arith) (omega arith)
  ]

  -- A record that the ring has lapped: its slot has one of the last 1,024, with another number.
  lapped :
      (k : ℕ)
      → k + slot_count < length history
      → (rec : Event) → get_slot log.hal (k % slot_count) log.store ≡ some rec
      → rec.seq ≢ k + 1
  lapped k old rec stored numbered =
      let base = length history - slot_count in
      let at = base + (k % slot_count + slot_count - base % slot_count) % slot_count in
      let same : at % slot_count ≡ k % slot_count = omega arith in
      let (r, (rest, e)) = drop-some at history (omega arith) in
      let (there, is) = h.at at r rest e (omega arith) in
      let found : rec ≡ r =
        some_inj (sym stored ∙ sym (ap (λ i. get_slot log.hal i log.store) same) ∙ there) in
      absurd (omega (arith, is, numbered, ap (λ (x : Event). x.seq) found))

  -- The loop that begins before the records that the ring still has.
  pub read_from-lapped :
      (fuel k room : ℕ)
      → k + slot_count ≤ length history
      → length history < k + fuel
      → length history + 1 < u32_mod
      → read_from fuel log (k + 1) room
        ≡ some (take room (drop (length history - slot_count) history))
  read_from-lapped zero k room old enough fits = absurd (omega arith)
  read_from-lapped (suc fuel) k zero old enough fits = unfold read_from in ground arith
  read_from-lapped (suc fuel) k (suc room) old enough fits =
      elim (Bool-cases (ltb (k + slot_count) (length history))) [
        | inr last ↦
            let here : k ≡ length history - slot_count = ground (arith, last) in
            read_from-drop (suc fuel) k (suc room) (omega arith) (omega arith) enough fits
            ∙ ap (λ i. some (take (suc room) (drop i history))) here
        | inl more ↦
            let next : add32 (k + 1) 1 ≡ k + 1 + 1 = omega arith in
            let here : sub32 (k + 1) 1 ≡ k = omega arith in
            let lt : k + slot_count < length history = ground (arith, more) in
            read_from-skip fuel log (k + 1) room (ground (arith, h.count)) (λ rec stored.
              lapped k lt rec
                (sym (ap (λ i. get_slot log.hal (i % slot_count) log.store) here) ∙ stored))
            ∙ ap (λ i. read_from fuel log i (suc room)) next
            ∙ read_from-lapped fuel (k + 1) (suc room) (omega arith) (omega arith) fits
      ]

  effective_start-available :
      (since : ℕ) → drop (effective_start log since) history ≡ available history since
  unfolding effective_start
  effective_start-available since = rw h.count refl

  -- The reader gets the oldest records that it asked for and the ring still has, in their order; the
  -- fuel of its loop may be any number above the length of the history.
  pub read-Holds :
      (fuel since max_count : ℕ)
      → length history < fuel
      → length history + 1 < u32_mod
      → since + 1 < u32_mod
      → read fuel log since max_count ≡ some (take max_count (available history since))
  unfolding read effective_start
  read-Holds fuel since max_count enough fits fits' = elim (Bool-cases (log.last_seq == 0)) [
    | inl none_yet ↦
        let start = effective_start log since in
        rw none_yet (
          sym (
            ap (λ xs. some (take max_count xs))
              (sym (effective_start-available since)
                ∙ drop_all start history (ground (arith, h.count, ==-eq log.last_seq 0 none_yet)))
            ∙ ap some (take_all {A = Event} max_count [] (omega arith))))
    | inr some_yet ↦
        let start = effective_start log since in
        let small : add32 start 1 ≡ start + 1 = ground (arith, h.count) in
        rw some_yet (
          rw small (
            read_from_start fuel start max_count (ground (arith, h.count)) enough fits
            ∙ ap (λ xs. some (take max_count xs)) (effective_start-available since)))
  ]

  -- The count that is announced is that of the records that the ring still has.
  pub count_since-Holds : (since : ℕ) → count_since log since ≡ length (available history since)
  unfolding count_since effective_start
  count_since-Holds since =
      let start = effective_start log since in
      let left : count_since log since ≡ length history - start = ground (arith, h.count) in
      left ∙ sym (length-drop start history) ∙ ap length (effective_start-available since)
