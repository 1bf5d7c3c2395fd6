-- ===== src/Persist.antt =====
-- firmware/components/core/mc_persist.c: the debounce of the writes to flash.
use moto_ctrl.Base.{ℕ, ◌≡◌, refl, Bool, true, false, List, [], ◌∷◌, if◌then◌else◌, elapsed_at_least}

-- `mc_persist_scheduler_t`
pub record Scheduler : Type 0 where
  pub debounce_ms : ℕ
  pub dirty : Bool
  pub dirty_since_ms : ℕ

-- `mc_persist_init`
unfoldable pub init : ℕ → Scheduler
init debounce_ms = record { debounce_ms = debounce_ms; dirty = false; dirty_since_ms = 0 }

-- `mc_persist_mark_dirty`
unfoldable pub mark_dirty : Scheduler → ℕ → Scheduler
mark_dirty sched now_ms = record sched { dirty = true; dirty_since_ms = now_ms }

-- `mc_persist_should_flush`
unfoldable pub should_flush : Scheduler → ℕ → Bool
should_flush sched now_ms =
    if sched.dirty then elapsed_at_least now_ms sched.dirty_since_ms sched.debounce_ms else false

-- `mc_persist_mark_flushed`
unfoldable pub mark_flushed : Scheduler → Scheduler
mark_flushed sched = record sched { dirty = false }

-- The changes of the store that came at the given times, in their order.
unfoldable pub mark_all : List ℕ → Scheduler → Scheduler
mark_all [] sched = sched
mark_all (now ∷ times) sched = mark_all times (mark_dirty sched now)

-- The last of the times, the first being `now`.
unfoldable pub last_of : ℕ → List ℕ → ℕ
last_of now [] = now
last_of now (t ∷ times) = last_of t times

-- After a flush and then any changes, a flush is due exactly when the configured time has passed since
-- the last of them; with none, never.
pub should_flush-mark_all :
    (sched : Scheduler) (first : ℕ) (times : List ℕ) (now : ℕ)
    → (should_flush (mark_all (first ∷ times) (mark_flushed sched)) now
        ≡ elapsed_at_least now (last_of first times) sched.debounce_ms)
      × (should_flush (mark_flushed sched) now ≡ false)
unfolding should_flush mark_all mark_flushed last_of mark_dirty
should_flush-mark_all sched first [] now = (refl, refl)
should_flush-mark_all sched first (t ∷ times) now =
    ((should_flush-mark_all (mark_dirty sched first) t times now).0, refl)
