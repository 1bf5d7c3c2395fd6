-- ===== src/EventLog/History.antt =====
-- The ring of the events against the history of all that was appended since it was last cleared.
use moto_ctrl.Base.{
  ℕ, zero, suc, ◌+◌, ◌-◌, ◌%◌, ◌<◌, ◌≤◌, ◌≡◌, refl, sym, ap, ◌∙◌, some, List, [], ◌∷◌, ◌++◌, inl,
  inr, ◌⊎◌, subst, if◌then◌else◌, arith, ltb, add32, sub32, u32_mod, length, drop, length-append,
  drop_all,
}
use moto_ctrl.EventLog.Ring.{
  Event, slot_count, Log, put_last_seq, put_slot, append, get_slot, clear, IsKeeping,
}

-- The records that the log should still know of a history: those of the last 1,024 after `since`.
abbrev pub available : List Event → ℕ → List Event
available history since =
    let oldest : ℕ = if ltb slot_count (length history) then length history - slot_count else 0 in
    drop (if ltb oldest since then since else oldest) history

-- The ring holds the history: the number of the last record is the count of them all, and each of the
-- last 1,024 stands in its slot, with its number.
pub record Holds {S : Type 0} (history : List Event) (log : Log S) : Type 0 where
  pub count : log.last_seq ≡ length history
  pub fits : length history < u32_mod
  pub at :
      (k : ℕ) (rec : Event) (rest : List Event)
      → drop k history ≡ rec ∷ rest
      → length history ≤ k + slot_count
      → (get_slot log.hal (k % slot_count) log.store ≡ some rec) × (rec.seq ≡ k + 1)

-- The record that an append makes.
abbrev pub new_event : ℕ → ℕ → ℕ → ℕ → ℕ → Event
new_event seq type arg0 arg1 now_ms = record {
  seq = seq;
  uptime_ms = now_ms;
  type = type % 256;
  arg0 = arg0;
  arg1 = arg1;
  reserved = 0;
}

-- A record of a history with one more record is one that it had, or that one.
drop-snoc :
    (k : ℕ) (xs : List Event) (y r : Event) (rest : List Event)
    → drop k (xs ++ y ∷ []) ≡ r ∷ rest
    → ((k < length xs) × ((rest' : List Event) × (drop k xs ≡ r ∷ rest')))
      ⊎ ((k ≡ length xs) × (y ≡ r))
drop-snoc zero [] y r rest e = inr (refl, ground arith)
drop-snoc zero (x ∷ xs) y r rest e = inl (omega arith, (xs, ground arith))
drop-snoc (suc k) [] y r rest e = absurd (ground (arith, drop_all {A = Event} k [] (omega arith)))
drop-snoc (suc k) (x ∷ xs) y r rest e = elim (drop-snoc k xs y r rest e) [
  | inl (lt, (rest', e')) ↦ inl (omega arith, (rest', e'))
  | inr (at_end, e') ↦ inr (ap suc at_end, e')
]

module _ {S : Type 0} where
  -- An append below the wrap of the numbers, at the length of the history.
  append_lem :
      (log : Log S) (n type arg0 arg1 now_ms : ℕ)
      → log.last_seq ≡ n
      → n + 1 < u32_mod
      → append log type arg0 arg1 now_ms ≡ record log {
        store =
            put_last_seq log.hal (n + 1) (
              put_slot log.hal
                (n % slot_count)
                (new_event (n + 1) type arg0 arg1 now_ms)
                log.store);
        last_seq = n + 1;
      }
  unfolding append
  append_lem log n type arg0 arg1 now_ms count fits =
      let next : add32 log.last_seq 1 ≡ n + 1 = omega arith in
      let here : sub32 (n + 1) 1 ≡ n = omega arith in rw next (rw here refl)

  pub Holds-append :
      (history : List Event) (log : Log S) (type arg0 arg1 now_ms : ℕ)
      → IsKeeping log.hal
      → length history + 1 < u32_mod
      → Holds history log
      → Holds
          (history ++ new_event (length history + 1) type arg0 arg1 now_ms ∷ [])
          (append log type arg0 arg1 now_ms)
  Holds-append history log type arg0 arg1 now_ms keeps fits h =
      let n = length history in
      let rec = new_event (n + 1) type arg0 arg1 now_ms in
      let more = length-append history (rec ∷ []) in
      let kept = put_slot log.hal (n % slot_count) rec log.store in
      subst (Holds (history ++ rec ∷ []))
        (sym (append_lem log n type arg0 arg1 now_ms h.count fits))
        (record {
          count = omega (arith, more);
          fits = omega (arith, more);
          at = λ k r rest e recent. elim (drop-snoc k history rec r rest e) [
            | inl (old, (rest', e')) ↦
                let (stored, numbered) = h.at k r rest' e' (omega (arith, more)) in
                (
                  keeps.read_past (k % slot_count) (n + 1) kept
                      ∙ keeps.read_other (n % slot_count) (k % slot_count) rec log.store
                          (λ same. absurd (omega (arith, more)))
                      ∙ stored,
                  numbered,
                )
            | inr (last, is) ↦ (
              keeps.read_past (k % slot_count) (n + 1) kept
                  ∙ ap (λ i. get_slot log.hal (i % slot_count) kept) last
                  ∙ keeps.read_back (n % slot_count) rec log.store
                  ∙ ap some is,
              ground arith,
            )
          ];
        })

  pub Holds-clear : (log : Log S) → Holds [] (clear log)
  unfolding clear
  Holds-clear log = record {
    count = refl;
    fits = omega arith;
    at = λ k r rest e recent. absurd (ground (arith, drop_all {A = Event} k [] (omega arith)));
  }
