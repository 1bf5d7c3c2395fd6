-- ===== src/EventLog/Ring.antt =====
-- firmware/components/core/mc_event_log.c. The storage is the injected `mc_event_log_hal_t`: its
-- functions are a parameter, over a state of their own.
use moto_ctrl.Base.{
  ℕ, zero, suc, ◌-◌, ◌%◌, ◌≡◌, ◌≢◌, ◌&&◌, true, false, Option, none, some, List, [], ◌∷◌, ltb, leb,
  ◌==◌, if◌then◌else◌, add32, sub32,
}

-- `mc_event_record_t`; the type is its number.
pub record Event : Type 0 where
  pub seq : ℕ
  pub uptime_ms : ℕ
  pub type : ℕ
  pub arg0 : ℕ
  pub arg1 : ℕ
  pub reserved : ℕ

-- MC_EVENT_LOG_SLOT_COUNT
abbrev pub slot_count : ℕ
slot_count = 1024

-- `mc_event_log_hal_t`; a function that is NULL is `none`. What a write returns is not looked at.
pub record LogHal (S : Type 0) : Type 0 where
  pub read_slot : Option (ℕ → S → Option Event)
  pub write_slot : Option (ℕ → Event → S → S)
  pub get_last_seq : Option (S → ℕ)
  pub set_last_seq : Option (ℕ → S → S)

-- `mc_event_log_t`, with the storage behind its HAL.
pub record Log (S : Type 0) : Type 0 where
  pub hal : LogHal S
  pub store : S
  pub last_seq : ℕ

-- A record in front of what the rest of the loop copies, if the rest ends.
abbrev pub with_record : Event → Option (List Event) → Option (List Event)
with_record rec none = none
with_record rec (some batch) = some (rec ∷ batch)

module _ {S : Type 0} where
  -- `mc_event_log_init`
  unfoldable pub init : LogHal S → S → Log S
  init hal store = record {
    hal = hal;
    store = store;
    last_seq = elim hal.get_last_seq [ none ↦ 0 | some get ↦ get store ];
  }

  -- `hal.set_last_seq(seq)`, where there is one.
  unfoldable pub put_last_seq : LogHal S → ℕ → S → S
  put_last_seq hal seq store = elim hal.set_last_seq [ none ↦ store | some put ↦ put seq store ]

  -- `hal.write_slot(slot, rec)`, where there is one.
  unfoldable pub put_slot : LogHal S → ℕ → Event → S → S
  put_slot hal slot rec store = elim hal.write_slot [
    | none ↦ store
    | some write ↦ write slot rec store
  ]

  -- `mc_event_log_append`
  unfoldable pub append : Log S → ℕ → ℕ → ℕ → ℕ → Log S
  unfolding put_last_seq put_slot
  append log type arg0 arg1 now_ms =
      let next = add32 log.last_seq 1 in
      let rec : Event = record {
        seq = next;
        uptime_ms = now_ms;
        type = type % 256;
        arg0 = arg0;
        arg1 = arg1;
        reserved = 0;
      } in
      record log {
        store =
            put_last_seq log.hal next (put_slot log.hal (sub32 next 1 % slot_count) rec log.store);
        last_seq = next;
      }

  -- `effective_start`
  unfoldable pub effective_start : Log S → ℕ → ℕ
  effective_start log since =
      let oldest : ℕ = if ltb slot_count log.last_seq then log.last_seq - slot_count else 0 in
      if ltb oldest since then since else oldest

  -- `mc_event_log_count_since`
  unfoldable pub count_since : Log S → ℕ → ℕ
  unfolding effective_start
  count_since log since =
      if log.last_seq == 0
      then 0
      else if ltb (effective_start log since) log.last_seq
      then log.last_seq - effective_start log since
      else 0

  -- `hal.read_slot(slot)`: `none` where it returns false or is NULL.
  unfoldable pub get_slot : LogHal S → ℕ → S → Option Event
  get_slot hal slot store = elim hal.read_slot [ none ↦ none | some read ↦ read slot store ]

  -- The loop of `mc_event_log_read`, on fuel; `room` is `max_count - count`. `none` is a loop that did
  -- not end in as many tests of its condition as there is fuel.
  unfoldable pub read_from : ℕ → Log S → ℕ → ℕ → Option (List Event)
  unfolding get_slot
  read_from zero log seq room = none
  read_from (suc fuel) log seq room = elim (leb seq log.last_seq && ltb 0 room) [
    | false ↦ some []
    | true ↦ elim (get_slot log.hal (sub32 seq 1 % slot_count) log.store) [
      | none ↦ read_from fuel log (add32 seq 1) room
      | some rec ↦ elim (rec.seq == seq) [
        | false ↦ read_from fuel log (add32 seq 1) room
        | true ↦ with_record rec (read_from fuel log (add32 seq 1) (room - 1))
      ]
    ]
  ]

  -- `mc_event_log_read`
  unfoldable pub read : ℕ → Log S → ℕ → ℕ → Option (List Event)
  unfolding effective_start read_from
  read fuel log since max_count =
      if log.last_seq == 0
      then some []
      else read_from fuel log (add32 (effective_start log since) 1) max_count

  -- `mc_event_log_clear`
  unfoldable pub clear : Log S → Log S
  unfolding put_last_seq
  clear log = record log { store = put_last_seq log.hal 0 log.store; last_seq = 0 }

-- A storage that keeps what it is given.
pub record IsKeeping {S : Type 0} (hal : LogHal S) : Type 0 where
  pub read_back :
      (slot : ℕ) (rec : Event) (s : S) → get_slot hal slot (put_slot hal slot rec s) ≡ some rec
  pub read_other :
      (slot other : ℕ) (rec : Event) (s : S)
      → other ≢ slot
      → get_slot hal other (put_slot hal slot rec s) ≡ get_slot hal other s
  pub read_past :
      (slot seq : ℕ) (s : S) → get_slot hal slot (put_last_seq hal seq s) ≡ get_slot hal slot s
