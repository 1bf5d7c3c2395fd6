-- ===== src/EventLog/Refine.antt =====
-- The event log refines the history of what was appended since it was last cleared.
use moto_ctrl.Base.{
  ℕ, zero, suc, ◌+◌, ◌<◌, ◌≤◌, ◌≡◌, ◌≢◌, some, Bool-cases, ltb, inl, inr, ◌∙◌, refl, sym, List, [],
  ◌∷◌, ◌++◌, arith, u32_mod, length, take, length-append, drop_all, take_all, subst,
}
use moto_ctrl.EventLog.Ring.{
  Event, slot_count, Log, append, effective_start, count_since, get_slot, read_from, read, clear,
  IsKeeping,
}
use moto_ctrl.EventLog.History.{available, Holds, new_event, Holds-append, Holds-clear}
use moto_ctrl.EventLog.Reading.{
  read_from-skip, read_from-lapped, read_from_start, read-Holds, count_since-Holds,
}

-- A call of mc_event_log.h that changes the log.
pub data LogOp : Type 0 where
  append_event : ℕ → ℕ → ℕ → ℕ → LogOp
  clear_log : LogOp

-- What the call does to the history.
unfoldable pub record_op : LogOp → List Event → List Event
record_op (append_event type arg0 arg1 now_ms) history =
    history ++ new_event (length history + 1) type arg0 arg1 now_ms ∷ []
record_op clear_log history = []

unfoldable pub record_all : List LogOp → List Event → List Event
record_all [] history = history
record_all (op ∷ ops) history = record_all ops (record_op op history)

length-record_op :
    (op : LogOp) (history : List Event) → length (record_op op history) ≤ length history + 1
unfolding record_op
length-record_op (append_event type arg0 arg1 now_ms) history =
    omega (arith, length-append history (new_event (length history + 1) type arg0 arg1 now_ms ∷ []))
length-record_op clear_log history = omega arith

length-record_all :
    (ops : List LogOp) (history : List Event)
    → length (record_all ops history) ≤ length history + length ops
unfolding record_all
length-record_all [] history = omega arith
length-record_all (op ∷ ops) history =
    omega (arith, length-record_all ops (record_op op history), length-record_op op history)

module _ {S : Type 0} where
  unfoldable pub step : LogOp → Log S → Log S
  step (append_event type arg0 arg1 now_ms) log = append log type arg0 arg1 now_ms
  step clear_log log = clear log

  unfoldable pub run : List LogOp → Log S → Log S
  run [] log = log
  run (op ∷ ops) log = run ops (step op log)

  hal-step : (op : LogOp) (log : Log S) → (step op log).hal ≡ log.hal
  unfolding step append clear
  hal-step (append_event type arg0 arg1 now_ms) log = refl
  hal-step clear_log log = refl

  Holds-step :
      (op : LogOp) (history : List Event) (log : Log S)
      → IsKeeping log.hal
      → length history + 1 < u32_mod
      → Holds history log
      → Holds (record_op op history) (step op log)
  unfolding step record_op
  Holds-step (append_event type arg0 arg1 now_ms) history log keeps fits h =
      Holds-append history log type arg0 arg1 now_ms keeps fits h
  Holds-step clear_log history log keeps fits h = Holds-clear log

  Holds-run :
      (ops : List LogOp) (history : List Event) (log : Log S)
      → IsKeeping log.hal
      → length history + length ops < u32_mod
      → Holds history log
      → Holds (record_all ops history) (run ops log)
  unfolding run record_all
  Holds-run [] history log keeps fits h = h
  Holds-run (op ∷ ops) history log keeps fits h =
      Holds-run ops (record_op op history) (step op log)
        (subst IsKeeping (sym (hal-step op log)) keeps) (omega (arith, length-record_op op history))
        (Holds-step op history log keeps (omega arith) h)

  Holds-start : (log : Log S) → log.last_seq ≡ 0 → Holds [] log
  Holds-start log empty = record {
    count = empty;
    fits = omega arith;
    at = λ k r rest e recent. absurd (ground (arith, drop_all {A = Event} k [] (omega arith)));
  }

-- Over a storage that keeps what it is given, after any appends and clears of an empty log, fewer than
-- 2 ^ 32 - 1 of them, a reader that asks for what comes after `since`, below 2 ^ 32 - 1, gets the
-- oldest `max_count` of the records with a number above `since` that are among the last 1,024 of the
-- history, in their order; the loop ends within as many tests of its condition as there were calls
-- and one more, and the count announced beforehand is that of the records the ring still has.
pub read-run :
    {S : Type 0} (ops : List LogOp) (log : Log S) (fuel since max_count : ℕ)
    → IsKeeping log.hal
    → log.last_seq ≡ 0
    → length ops + 1 < u32_mod
    → length ops < fuel
    → since + 1 < u32_mod
    → let history = record_all ops [] in
      (read fuel (run ops log) since max_count ≡ some (take max_count (available history since)))
      × (count_since (run ops log) since ≡ length (available history since))
read-run ops log fuel since max_count keeps empty fits enough small =
    let h = Holds-run ops [] log keeps (omega arith) (Holds-start log empty) in
    let n = length-record_all ops [] in
    (
      read-Holds (record_all ops []) (run ops log) h fuel since max_count (omega (arith, n))
          (omega (arith, n)) small,
      count_since-Holds (record_all ops []) (run ops log) h since,
    )

module _ {S : Type 0} (history : List Event) (log : Log S) (h : Holds history log)
    (fits : length history + 1 < u32_mod) where
  -- The loop that begins at the number 0.
  read_from_zero :
      (fuel max_count : ℕ)
      → ((rec : Event) → get_slot log.hal 1023 log.store ≡ some rec → rec.seq ≢ 0)
      → length history + 1 < fuel
      → read_from fuel log 0 max_count ≡ some (take max_count (available history 0))
  read_from_zero zero max_count named enough = absurd (omega arith)
  read_from_zero (suc fuel) zero named enough = unfold read_from in ground arith
  read_from_zero (suc fuel) (suc room) named enough =
      read_from-skip fuel log 0 room (ground arith) named
      ∙ elim (Bool-cases (ltb slot_count (length history))) [
        | inl lapped ↦
            read_from-lapped history log h fuel 0 (suc room) (ground (arith, lapped)) (omega arith)
              fits
            ∙ ground (arith, lapped)
        | inr few ↦
            read_from_start history log h fuel 0 (suc room) (ground (arith, few)) (omega arith) fits
            ∙ ground (arith, few)
      ]

-- The number 2 ^ 32 - 1 wraps to 0 when the reader steps past it: to a reader that names it as the
-- last record it has seen, a log of fewer than 2 ^ 32 - 1 records gives the oldest `max_count` of those
-- that it still has, in their order, though the count announces nothing; the loop ends within as many
-- tests of its condition as there are records and two more. The last slot must not have a record of
-- the number 0, which stands for an empty slot.
pub read-wraps :
    {S : Type 0} (history : List Event) (log : Log S) (fuel max_count : ℕ)
    → Holds history log
    → length history + 1 < u32_mod
    → ((rec : Event) → get_slot log.hal 1023 log.store ≡ some rec → rec.seq ≢ 0)
    → length history + 1 < fuel
    → let seen_all : ℕ = 4294967295 in
      (read fuel log seen_all max_count ≡ some (take max_count (available history 0)))
      × (count_since log seen_all ≡ 0)
unfolding read count_since effective_start
read-wraps [] log fuel max_count h fits named enough = (
  ground (arith, h.count, take_all {A = Event} max_count [] (omega arith)),
  ground (arith, h.count),
)
read-wraps (e ∷ es) log fuel max_count h fits named enough = (
  ground (arith, h.count, read_from_zero (e ∷ es) log h fits fuel max_count named enough),
  ground (arith, h.count),
)
