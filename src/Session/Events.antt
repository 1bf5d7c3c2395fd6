-- ===== src/Session/Events.antt =====
-- MC_OP_EVENT_LOG_GET of `handle_command` (firmware/components/core/mc_session.c), for an
-- authenticated session.
use moto_ctrl.Base.{
  ℕ, zero, suc, ◌+◌, ◌%◌, not, Option, none, some, List, [], ◌∷◌, ◌++◌, ltb, ◌||◌, ◌/◌,
  if◌then◌else◌, length, min,
}
use moto_ctrl.Status.Frame.{put_u16le, put_u32le, get_u32le}
use moto_ctrl.EventLog.Ring.{Event, Log, count_since, read}
use moto_ctrl.Session.Types.{Session, App, Reply, Frame, command_line, send_frame, answer}
use moto_ctrl.Session.Commands.{command_result}
use moto_ctrl.Session.Result

-- MC_PROTOCOL_EVENT_LOG_CHUNK_RECORDS
abbrev pub chunk_records : ℕ
chunk_records = 10

-- The twelve bytes of each record.
unfoldable pub record_bytes : List Event → List ℕ
record_bytes [] = []
record_bytes (e ∷ batch) =
    put_u32le e.seq
      (put_u32le e.uptime_ms (e.type ∷ e.arg0 ∷ e.arg1 ∷ e.reserved ∷ record_bytes batch))

-- The sequence number of the last record of the batch, from which the next one goes on.
abbrev pub last_seq : ℕ → List Event → ℕ
last_seq since [] = since
last_seq since (e ∷ batch) = last_seq e.seq batch

module _ {S : Type 0} (log : Log S) where
  -- One batch. The loop of `mc_event_log_read` tests its condition at most once for each number from
  -- 0, where the cursor may wrap to, up to `last_seq`, and once more.
  unfoldable pub batch_of : ℕ → Option (List Event)
  batch_of since = read (log.last_seq + 2) log since chunk_records

  -- The frame of a batch, the first record of which has the index `sent`.
  unfoldable pub chunk_frame : ℕ → ℕ → List Event → List Frame
  unfolding record_bytes
  chunk_frame total sent batch =
      send_frame command_line 0x91
        (put_u16le sent (put_u16le total (length batch % 256 ∷ record_bytes batch)))

  -- The loop, on fuel: `none` is a loop that ran out of it, or a batch whose loop does not end.
  unfoldable pub send_chunks : ℕ → ℕ → ℕ → ℕ → Option (List (ℕ × List Event))
  send_chunks zero total since sent = none
  send_chunks (suc fuel) total since sent = elim (batch_of since) [
    | none ↦ none
    | some batch ↦
        let sent' = (sent + length batch) % 65536 in
        let more = send_chunks fuel total (last_seq since batch) sent' in
        if ltb (length batch) chunk_records || not (ltb sent' total)
        then some ((sent, batch) ∷ [])
        else elim more [ none ↦ none | some chunks ↦ some ((sent, batch) ∷ chunks) ]
  ]

  unfoldable pub chunk_frames : ℕ → List (ℕ × List Event) → List Frame
  unfolding chunk_frame
  chunk_frames total [] = []
  chunk_frames total ((sent, batch) ∷ chunks) =
      chunk_frame total sent batch ++ chunk_frames total chunks

  -- `total16`
  abbrev pub total16 : ℕ → ℕ
  total16 since = min (count_since log since) 0xffff

module _ {S F : Type 0} where
  -- The chunks and their frames, for a log that is attached.
  unfoldable pub send_log : Session → App S F → Log S → ℕ → Reply S F
  unfolding send_chunks chunk_frames
  send_log s app log since =
      let total = total16 log since in
      answer s app (elim (send_chunks log (suc (total / chunk_records)) total since 0) [
        | none ↦ []
        | some chunks ↦ chunk_frames log total chunks
      ])

  -- MC_OP_EVENT_LOG_GET
  unfoldable pub event_log_get : Session → App S F → List ℕ → Reply S F
  unfolding send_log
  event_log_get s app body = elim app.event_log [
    | none ↦ answer s app (send_frame command_line 0x91 (0 ∷ 0 ∷ 0 ∷ 0 ∷ 0 ∷ []))
    | some log ↦ elim body [
      | b0 ∷ b1 ∷ b2 ∷ b3 ∷ rest ↦ send_log s app log (get_u32le b0 b1 b2 b3)
      | _ ↦ answer s app (command_result 0x11 Result.bad_request)
    ]
  ]
