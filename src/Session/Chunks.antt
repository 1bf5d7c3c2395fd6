-- ===== src/Session/Chunks.antt =====
-- What a client of MC_OP_EVENT_LOG_GET (firmware/components/core/mc_session.c) gets.
use moto_ctrl.Base.{
  ℕ, zero, suc, ◌+◌, ◌-◌, ◌/◌, ◌%◌, ◌*◌, ◌<◌, ◌≤◌, ◌≡◌, refl, sym, ap, ◌∙◌, ◌⊎◌, inl, inr, some,
  List, [], ◌∷◌, ◌++◌, arith, ltb, if◌then◌else◌, u32_mod, length, take, drop, length-take,
  length-drop, take_all, drop_all, take-append-drop, Bool-cases,
}
use mathlib.Core.List.{append-nil}
use moto_ctrl.EventLog.Ring.{Event, slot_count, Log}
use moto_ctrl.EventLog.History.{available, Holds}
use moto_ctrl.EventLog.Reading.{drop-next, read-Holds, count_since-Holds}
use moto_ctrl.Session.Events.{chunk_records, last_seq, batch_of, send_chunks, total16}

-- The records of the chunks in a row.
abbrev pub joined : List (ℕ × List Event) → List Event
joined [] = []
joined ((sent, batch) ∷ chunks) = batch ++ joined chunks

-- Each chunk has at most ten records, and its index is the number of those before it.
abbrev pub Indexed : ℕ → List (ℕ × List Event) → Type 0
Indexed n [] = Unit {0}
Indexed n ((sent, batch) ∷ chunks) =
    (sent ≡ n) × (length batch ≤ chunk_records) × Indexed (n + length batch) chunks

drop-drop : (k n : ℕ) (xs : List Event) → drop n (drop k xs) ≡ drop (k + n) xs
drop-drop zero n xs = let same : n ≡ 0 + n = omega arith in ap (λ (i : ℕ). drop i xs) same
drop-drop (suc k) n [] =
    drop_all {A = Event} n [] (omega arith)
    ∙ sym (drop_all {A = Event} (suc k + n) [] (omega arith))
drop-drop (suc k) n (x ∷ xs) =
    let same : suc (k + n) ≡ suc k + n = omega arith in
    drop-drop k n xs ∙ ap (λ (i : ℕ). drop i (x ∷ xs)) same

module _ {S : Type 0} (log : Log S) (fuel total since sent : ℕ) (batch : List Event)
    (e : batch_of log since ≡ some batch) (small : sent + length batch < 65536) where
  chunks_end :
      (length batch < 10) ⊎ (total ≤ sent + length batch)
      → send_chunks log (suc fuel) total since sent ≡ some ((sent, batch) ∷ [])
  unfolding send_chunks
  chunks_end over = ground (arith, e)

  chunks_more :
      (chunks : List (ℕ × List Event))
      → 10 ≤ length batch
      → sent + length batch < total
      → send_chunks log fuel total (last_seq since batch) (sent + length batch) ≡ some chunks
      → send_chunks log (suc fuel) total since sent ≡ some ((sent, batch) ∷ chunks)
  unfolding send_chunks
  chunks_more chunks full left rest =
      let same : (sent + length batch) % 65536 ≡ sent + length batch = omega arith in
      ground (
        arith,
        e,
        same,
        rest,
        ap (λ (n : ℕ). send_chunks log fuel total (last_seq since batch) n) same,
      )

module _ {S : Type 0} (history : List Event) (log : Log S) (h : Holds history log) where
  -- The cursor after `m` records from the `k`-th on.
  cursor :
      (m k since : ℕ) (rs : List Event)
      → drop k history ≡ rs
      → length history ≤ k + slot_count
      → m < length rs
      → last_seq since (take (suc m) rs) ≡ k + suc m
  cursor m k since [] e recent lt = absurd (omega arith)
  cursor zero k since (r ∷ rs) e recent lt = omega (arith, (h.at k r rs e recent).1)
  cursor (suc m) k since (r ∷ rs) e recent lt =
      cursor m (k + 1) r.seq rs (drop-next k history r rs e) (omega arith) (omega arith)
      ∙ omega arith

  -- Where the records after `since` begin.
  start : ℕ → ℕ
  start since =
      let oldest : ℕ = if ltb slot_count (length history) then length history - slot_count else 0 in
      if ltb oldest since then since else oldest

  batch-start :
      (since : ℕ)
      → length history + 1 < u32_mod
      → since + 1 < u32_mod
      → batch_of log since ≡ some (take 10 (drop (start since) history))
  unfolding batch_of start
  batch-start since fits fits' =
      read-Holds history log h (log.last_seq + 2) since 10 (omega (arith, h.count)) fits fits'

  recent : (since : ℕ) → length history ≤ start since + slot_count
  unfolding start
  recent since = ground arith

  start_next : (since since' : ℕ) → since' ≡ start since + 10 → start since' ≡ start since + 10
  unfolding start
  start_next since since' e = ground (arith, e)

  abbrev Sent : ℕ → ℕ → ℕ → ℕ → List Event → Type 0
  Sent fuel total since sent rest =
      (chunks : List (ℕ × List Event)) × (send_chunks log fuel total since sent ≡ some chunks)
      × (joined chunks ≡ rest)
      × Indexed sent chunks

  sends_last :
      (fuel total since sent : ℕ) (rest : List Event)
      → batch_of log since ≡ some (take 10 rest)
      → total ≤ slot_count
      → sent + length rest ≡ total
      → length rest ≤ 10
      → Sent (suc fuel) total since sent rest
  sends_last fuel total since sent rest batch small all last =
      let long = length-take 10 rest in
      (
        (sent, take 10 rest) ∷ [],
        chunks_end log fuel total since sent (take 10 rest) batch (omega (arith, long))
            (inr (omega (arith, long))),
        append-nil (take 10 rest) ∙ take_all 10 rest last,
        (refl, omega (arith, long), tt),
      )

  sends_more :
      (fuel total since sent : ℕ) (rest : List Event)
      → batch_of log since ≡ some (take 10 rest)
      → total ≤ slot_count
      → sent + length rest ≡ total
      → 10 < length rest
      → Sent fuel total
          (last_seq since (take 10 rest))
          (sent + length (take 10 rest))
          (drop 10 rest)
      → Sent (suc fuel) total since sent rest
  sends_more fuel total since sent rest batch small all more (chunks, e, whole, indexed) =
      let long = length-take 10 rest in
      (
        (sent, take 10 rest) ∷ chunks,
        chunks_more log fuel total since sent (take 10 rest) batch (omega (arith, long)) chunks
            (omega (arith, long)) (omega (arith, long)) e,
        ap (◌++◌ (take 10 rest)) whole ∙ take-append-drop 10 rest,
        (refl, omega (arith, long), indexed),
      )

  sends :
      (fuel total since sent : ℕ) (rest : List Event)
      → drop (start since) history ≡ rest
      → length history + 1 < u32_mod
      → since + 1 < u32_mod
      → total ≤ slot_count
      → sent + length rest ≡ total
      → length rest < 10 * fuel
      → Sent fuel total since sent rest
  sends zero total since sent rest from fits fits' small all enough = absurd (omega arith)
  sends (suc fuel) total since sent rest from fits fits' small all enough =
      let batch = batch-start since fits fits' ∙ ap (λ (xs : List Event). some (take 10 xs)) from in
      elim (Bool-cases (ltb 10 (length rest))) [
        | inr last ↦ sends_last fuel total since sent rest batch small all (ground (arith, last))
        | inl more ↦
            let at : last_seq since (take 10 rest) ≡ start since + 10 =
              cursor 9 (start since) since rest from (recent since) (ground (arith, more)) in
            let long = length-take 10 rest in
            let left = length-drop 10 rest in
            let whole = length-drop (start since) history in
            sends_more fuel total since sent rest batch small all (ground (arith, more)) (
              sends fuel total (last_seq since (take 10 rest)) (sent + length (take 10 rest))
                (drop 10 rest)
                (ap (λ (i : ℕ). drop i history) (start_next since _ at)
                  ∙ sym (drop-drop (start since) 10 history)
                  ∙ ap (drop 10) from)
                fits (ground (arith, at, whole, ap length from, more)) small
                (ground (arith, long, left, more)) (ground (arith, left, more)))
      ]

  -- MC_OP_EVENT_LOG_GET ends for a client that names a `since` below 2 ^ 32 - 1, over a log of fewer
  -- than 2 ^ 32 - 1 records: the loop needs no more rounds than one for each ten records and one more,
  -- and the loop of each batch ends. Its chunks have the records that the log still knows of the
  -- history after `since`, all of them and in order, at most ten in a chunk, and each chunk has the
  -- index of its first record.
  pub send_chunks-available :
      (since : ℕ)
      → length history + 1 < u32_mod
      → since + 1 < u32_mod
      → (chunks : List (ℕ × List Event)) × (send_chunks log
            (suc (total16 log since / chunk_records))
            (total16 log since)
            since
            0
          ≡ some chunks)
        × (joined chunks ≡ available history since)
        × Indexed 0 chunks
  unfolding start
  send_chunks-available since fits fits' =
      let count = count_since-Holds history log h since in
      let whole = length-drop (start since) history in
      let small = recent since in
      sends (suc (total16 log since / chunk_records)) (total16 log since) since 0
        (available history since) refl fits fits' (omega (arith, count, whole, small))
        (omega (arith, count, whole, small)) (omega (arith, count, whole, small))
