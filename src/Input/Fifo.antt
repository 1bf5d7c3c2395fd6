-- ===== src/Input/Fifo.antt =====
-- The event queue of firmware/components/core/mc_input.c as a bounded queue.
use moto_ctrl.Base.{
  ℕ, zero, suc, ◌+◌, ◌-◌, ◌%◌, ◌<◌, ◌≤◌, ◌≡◌, ◌≢◌, refl, sym, ap, ◌∙◌, Option, none, some, List, [],
  ◌∷◌, ◌++◌, arith, ltb, ◌==◌, if◌then◌else◌, update, update_self, length,
}
use mathlib.Core.Path.{ap₂}
use moto_ctrl.Input.Types.{InputEvent, InputEngine, queue_len}
use moto_ctrl.Input.Queue.{enqueue, pop_event}

-- What is done to the queue.
pub data QueueOp : Type 0 where
  push : InputEvent → QueueOp
  pop : QueueOp

-- The operations on an engine: what the pops handed out, the first one first, and the engine.
unfoldable pub run : List QueueOp → InputEngine → List (Option InputEvent) × InputEngine
run [] eng = ([], eng)
run (push evt ∷ ops) eng = run ops (enqueue eng evt)
run (pop ∷ ops) eng =
    let (out, after) = run ops (pop_event eng).0 in ((pop_event eng).1 ∷ out, after)

-- A list that takes no more than sixteen.
unfoldable pub bounded_push : List InputEvent → InputEvent → List InputEvent
bounded_push xs evt = if ltb (length xs) queue_len then xs ++ evt ∷ [] else xs

abbrev pub front : List InputEvent → List InputEvent × Option InputEvent
front [] = ([], none)
front (x ∷ xs) = (xs, some x)

-- The same operations on the list.
unfoldable pub run_list :
    List QueueOp → List InputEvent → List (Option InputEvent) × List InputEvent
run_list [] xs = ([], xs)
run_list (push evt ∷ ops) xs = run_list ops (bounded_push xs evt)
run_list (pop ∷ ops) xs =
    let (out, after) = run_list ops (front xs).0 in ((front xs).1 ∷ out, after)

-- The `n` events from the slot `i` on, round the ring.
unfoldable pub window : ℕ → ℕ → (ℕ → InputEvent) → List InputEvent
window zero i q = []
window (suc n) i q = q (i % 16) ∷ window n (suc i) q

-- The events that wait, the next one first.
abbrev pub pending : InputEngine → List InputEvent
pending eng = window eng.event_count eng.event_head eng.event_queue

pub record IsRing (eng : InputEngine) : Type 0 where
  pub few : eng.event_count ≤ queue_len
  pub head : eng.event_head < queue_len

length-window : (n i : ℕ) (q : ℕ → InputEvent) → length (window n i q) ≡ n
unfolding window
length-window zero i q = refl
length-window (suc n) i q = ap suc (length-window n (suc i) q)

-- A slot that is not in the window.
window-update :
    (n i k : ℕ) (q : ℕ → InputEvent) (evt : InputEvent)
    → i + n ≤ k
    → k < i + 16
    → window n i (update q (k % 16) evt) ≡ window n i q
unfolding window
window-update zero i k q evt le lt = refl
window-update (suc n) i k q evt le lt =
    let other : i % 16 ≢ k % 16 = omega arith in
    ap₂ ◌∷◌ (ground (arith, other)) (window-update n (suc i) k q evt (omega arith) (omega arith))

window_snoc :
    (n i : ℕ) (q : ℕ → InputEvent) → window (suc n) i q ≡ window n i q ++ q ((i + n) % 16) ∷ []
unfolding window
window_snoc zero i q = let at : i % 16 ≡ (i + 0) % 16 = omega arith in ap (λ k. q k ∷ []) at
window_snoc (suc n) i q =
    let at : (suc i + n) % 16 ≡ (i + suc n) % 16 = omega arith in
    ap (◌∷◌ (q (i % 16))) (window_snoc n (suc i) q ∙ ap (λ k. window n (suc i) q ++ q k ∷ []) at)

window_wrap : (n i : ℕ) (q : ℕ → InputEvent) → window n (i % 16) q ≡ window n i q
unfolding window
window_wrap zero i q = refl
window_wrap (suc n) i q =
    let here : i % 16 % 16 ≡ i % 16 = omega arith in
    let next : suc (i % 16) % 16 ≡ suc i % 16 = omega arith in
    ap₂ ◌∷◌ (ap q here)
      (sym (window_wrap n (suc (i % 16)) q) ∙ ap (λ k. window n k q) next ∙ window_wrap n (suc i) q)

window_push :
    (n i : ℕ) (q : ℕ → InputEvent) (evt : InputEvent)
    → n < 16
    → window (n + 1) i (update q ((i + n) % 16) evt) ≡ window n i q ++ evt ∷ []
window_push n i q evt room =
    let one : n + 1 ≡ suc n = omega arith in
    ap (λ k. window k i (update q ((i + n) % 16) evt)) one
    ∙ window_snoc n i (update q ((i + n) % 16) evt)
    ∙ ap₂ (λ xs x. xs ++ x ∷ []) (window-update n i (i + n) q evt (omega arith) (omega arith))
        (update_self q ((i + n) % 16) evt)

front-window :
    (n i : ℕ) (q : ℕ → InputEvent)
    → i < 16
    → front (window n i q)
      ≡ (if n == 0 then ([], none) else (window (n - 1) ((i + 1) % 16) q, some (q i)))
unfolding window
front-window zero i q lt = refl
front-window (suc n) i q lt =
    let here : i % 16 ≡ i = omega arith in
    let next : i + 1 ≡ suc i = omega arith in
    let rest : window n (suc i) q ≡ window n ((i + 1) % 16) q =
      sym (window_wrap n (i + 1) q ∙ ap (λ k. window n k q) next) in
    ground (arith, ap q here, rest)

module _ (eng : InputEngine) (h : IsRing eng) where
  pub enqueue-IsRing : (evt : InputEvent) → IsRing (enqueue eng evt)
  unfolding enqueue
  enqueue-IsRing evt = record { few = ground (arith, h.few); head = ground (arith, h.head) }

  pending-enqueue : (evt : InputEvent) → pending (enqueue eng evt) ≡ bounded_push (pending eng) evt
  unfolding enqueue bounded_push
  pending-enqueue evt =
      let long = length-window eng.event_count eng.event_head eng.event_queue in
      let pushed = window_push eng.event_count eng.event_head eng.event_queue evt in
      ground (arith, long, pushed)

  pub pop_event-IsRing : IsRing (pop_event eng).0
  unfolding pop_event
  pop_event-IsRing = record { few = ground (arith, h.few); head = ground (arith, h.head) }

  pending-pop_event : (pending (pop_event eng).0, (pop_event eng).1) ≡ front (pending eng)
  unfolding pop_event
  pending-pop_event =
      ground (arith, front-window eng.event_count eng.event_head eng.event_queue h.head)

-- The queue of the engine is a queue that takes sixteen events, drops what comes to a full one and
-- hands out the oldest: whatever is pushed and popped, the pops hand out what those of the list do,
-- and what waits at the end is the list.
pub run-refines :
    (ops : List QueueOp) (eng : InputEngine)
    → IsRing eng
    → ((run ops eng).0, pending (run ops eng).1) ≡ run_list ops (pending eng)
unfolding run run_list
run-refines [] eng h = refl
run-refines (push evt ∷ ops) eng h =
    run-refines ops (enqueue eng evt) (enqueue-IsRing eng h evt)
    ∙ ap (run_list ops) (pending-enqueue eng h evt)
run-refines (pop ∷ ops) eng h =
    let rest = run-refines ops (pop_event eng).0 (pop_event-IsRing eng h) in
    let popped = pending-pop_event eng h in
    ap (λ (r : List (Option InputEvent) × List InputEvent). ((pop_event eng).1 ∷ r.0, r.1)) rest
    ∙ ap
        (λ (p : List InputEvent × Option InputEvent).
          (p.1 ∷ (run_list ops p.0).0, (run_list ops p.0).1))
        popped
