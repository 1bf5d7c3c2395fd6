-- ===== src/EventLog/Tests.antt =====
-- The event log over a storage in memory.
use moto_ctrl.Base.{
  ℕ, ◌≡◌, ◌≢◌, refl, Option, none, some, List, [], ◌∷◌, ◌==◌, if◌then◌else◌, arith, length, take,
  drop, drop_all, zero, suc, ◌+◌, ◌%◌, ◌≤◌,
}
use moto_ctrl.EventLog.Ring.{
  Event, slot_count, LogHal, Log, put_last_seq, put_slot, get_slot, count_since, read, IsKeeping,
}
use moto_ctrl.EventLog.History.{available, Holds}
use moto_ctrl.EventLog.Refine.{append_event, clear_log, record_all, run, read-run, read-wraps}

-- The slots, and the number of the last record.
abbrev pub Flash : Type 0
Flash = (ℕ → Option Event) × ℕ

abbrev pub flash_hal : LogHal Flash
flash_hal = record {
  read_slot = some (λ slot s. s.0 slot);
  write_slot = some (λ slot rec s. (λ other. if other == slot then some rec else s.0 other, s.1));
  get_last_seq = some (λ s. s.1);
  set_last_seq = some (λ seq s. (s.0, seq));
}

abbrev fresh : Log Flash
fresh = record { hal = flash_hal; store = (λ _. none, 0); last_seq = 0 }

pub flash_hal-IsKeeping : IsKeeping flash_hal
unfolding get_slot put_slot put_last_seq
flash_hal-IsKeeping = record {
  read_back = λ slot rec s. ground arith;
  read_other = λ slot other rec s ne. ground arith;
  read_past = λ slot seq s. refl;
}

read-run_example :
    let ops =
      append_event 1 0 0 100 ∷ clear_log ∷ append_event 8 0 0 200 ∷ append_event 9 0 0 300 ∷ [] in
    let history = record_all ops [] in
    (read 5 (run ops fresh) 1 1024 ≡ some (take 1024 (available history 1)))
    × (count_since (run ops fresh) 1 ≡ length (available history 1))
read-run_example =
    read-run
      (append_event 1 0 0 100 ∷ clear_log ∷ append_event 8 0 0 200 ∷ append_event 9 0 0 300 ∷ [])
      fresh 5 1 1024 flash_hal-IsKeeping refl (omega arith) (omega arith) (omega arith)

-- The log of one event.
abbrev pub first : Event
first = record { seq = 1; uptime_ms = 100; type = 1; arg0 = 0; arg1 = 0; reserved = 0 }

abbrev pub short_log : Log Flash
short_log = record {
  hal = flash_hal;
  store = (λ slot. if slot == 0 then some first else none, 1);
  last_seq = 1;
}

pub short_log-Holds : Holds (first ∷ []) short_log
unfolding get_slot
short_log-Holds = record { count = refl; fits = omega arith; at = at }
  where
    at :
        (k : ℕ) (rec : Event) (rest : List Event)
        → drop k (first ∷ []) ≡ rec ∷ rest
        → 1 ≤ k + slot_count
        → (get_slot flash_hal (k % slot_count) short_log.store ≡ some rec) × (rec.seq ≡ k + 1)
    at zero rec rest e recent = ground arith
    at (suc k) rec rest e recent = absurd (ground (arith, drop_all {A = Event} k [] (omega arith)))

empty_slot : (rec : Event) → get_slot flash_hal 1023 short_log.store ≡ some rec → rec.seq ≢ 0
unfolding get_slot
empty_slot rec stored = absurd (ground (arith, stored))

read-wraps_example :
    (read 3 short_log 4294967295 8 ≡ some (take 8 (available (first ∷ []) 0)))
    × (count_since short_log 4294967295 ≡ 0)
read-wraps_example =
    read-wraps (first ∷ []) short_log 3 8 short_log-Holds (omega arith) empty_slot (omega arith)
