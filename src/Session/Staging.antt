-- ===== src/Session/Staging.antt =====
-- The staged write of a configuration (firmware/components/core/mc_session.c).
use moto_ctrl.Base.{
  ℕ, zero, suc, ◌+◌, ◌-◌, ◌/◌, ◌%◌, ◌<◌, ◌≤◌, ◌≡◌, refl, sym, subst, ap, ◌∙◌, true, false, List, [],
  ◌∷◌, ◌++◌, arith, ltb, if◌then◌else◌, length, length-append,
}
use mathlib.Core.List.{append-nil, append_assoc}
use mathlib.Core.Path.{ap₂}
use moto_ctrl.Status.Roundtrip.{get-put_u16le}
use moto_ctrl.Config.{json_max}
use moto_ctrl.Session.Types.{Session, App, Reply, World, answer}
use moto_ctrl.Session.Diag.{byte_at}
use moto_ctrl.Session.Config.{
  bytes_from, write_bytes, write_begin, write_chunk, write_commit, commit,
}

bytes_from-add :
    (n m i : ℕ) (buf : ℕ → ℕ)
    → bytes_from (n + m) i buf ≡ bytes_from n i buf ++ bytes_from m (i + n) buf
unfolding bytes_from
bytes_from-add zero m i buf =
    ap₂ (λ (a : ℕ) (b : ℕ). bytes_from a b buf) (omega arith) (omega arith)
bytes_from-add (suc n) m i buf =
    let rest = bytes_from-add n m (suc i) buf in
    let turn : suc n + m ≡ suc (n + m) = omega arith in
    let at : suc i + n ≡ i + suc n = omega arith in
    ap (λ (k : ℕ). bytes_from k i buf) turn
    ∙ ap (◌∷◌ (buf i)) (rest ∙ ap (λ (k : ℕ). bytes_from n (suc i) buf ++ bytes_from m k buf) at)

-- What stands before the write.
bytes_from-before :
    (n i off : ℕ) (p : List ℕ) (buf : ℕ → ℕ)
    → i + n ≤ off
    → bytes_from n i (write_bytes buf off p) ≡ bytes_from n i buf
unfolding bytes_from
bytes_from-before zero i off p buf le = refl
bytes_from-before (suc n) i off p buf le =
    ap₂ ◌∷◌ (unfold write_bytes in ground arith)
      (bytes_from-before n (suc i) off p buf (omega arith))

bytes_from-byte_at :
    (p : List ℕ) (i : ℕ) (f : ℕ → ℕ)
    → ((j : ℕ) → j < length p → f (i + j) ≡ byte_at p j)
    → bytes_from (length p) i f ≡ p
unfolding bytes_from
bytes_from-byte_at [] i f same = refl
bytes_from-byte_at (b ∷ p) i f same =
    let here : i ≡ i + 0 = omega arith in
    ap₂ ◌∷◌ (ap f here ∙ same 0 (omega arith)) (
      bytes_from-byte_at p (suc i) f (λ j lt.
        let next : suc i + j ≡ i + suc j = omega arith in ap f next ∙ same (suc j) (omega arith)))

-- What was written.
bytes_from-written :
    (off : ℕ) (p : List ℕ) (buf : ℕ → ℕ) → bytes_from (length p) off (write_bytes buf off p) ≡ p
unfolding write_bytes
bytes_from-written off p buf =
    bytes_from-byte_at p off (write_bytes buf off p)
      (λ j lt. let at : off + j - off ≡ j = omega arith in ground (arith, lt, ap (byte_at p) at))

bytes_from-write :
    (off : ℕ) (p : List ℕ) (buf : ℕ → ℕ)
    → bytes_from (off + length p) 0 (write_bytes buf off p) ≡ bytes_from off 0 buf ++ p
bytes_from-write off p buf =
    let at : 0 + off ≡ off = omega arith in
    bytes_from-add off (length p) 0 (write_bytes buf off p)
    ∙ ap
        (λ (k : ℕ).
          bytes_from off 0 (write_bytes buf off p)
          ++ bytes_from (length p) k (write_bytes buf off p))
        at
    ∙ ap₂ ◌++◌ (bytes_from-before off 0 off p buf (omega arith)) (bytes_from-written off p buf)

-- The body of MC_OP_CONFIG_WRITE_CHUNK.
abbrev pub chunk_body : ℕ → List ℕ → List ℕ
chunk_body off p = off % 256 ∷ (off / 256) % 256 ∷ p

abbrev pub concat : List (List ℕ) → List ℕ
concat [] = []
concat (p ∷ ps) = p ++ concat ps

-- The first `off` of `total` bytes are staged.
pub record IsStagedTo (total off : ℕ) (done : List ℕ) (s : Session) : Type 0 where
  pub active : s.cfg_write_active ≡ true
  pub total_is : s.cfg_write_total ≡ total
  pub got_is : s.cfg_write_got ≡ off
  pub staged : bytes_from off 0 s.cfg_write_buf ≡ done

-- The session after a chunk that fits.
abbrev with_chunk : ℕ → List ℕ → Session → Session
with_chunk off p s = record s {
  cfg_write_buf = write_bytes s.cfg_write_buf off p;
  cfg_write_got = if ltb s.cfg_write_got (off + length p) then off + length p else s.cfg_write_got;
}

module _ {S F : Type 0} where
  -- A client that sends one piece after the other.
  unfoldable pub upload : ℕ → List (List ℕ) → Session → App S F → Session
  upload off [] s app = s
  upload off (p ∷ ps) s app =
      upload (off + length p) ps (write_chunk s app (chunk_body off p)).session app

  chunk_fits :
      (off : ℕ) (p : List ℕ) (s : Session) (app : App S F)
      → s.cfg_write_active ≡ true
      → s.cfg_write_total ≤ json_max
      → off + length p ≤ s.cfg_write_total
      → write_chunk s app (chunk_body off p) ≡ answer (with_chunk off p s) app []
  unfolding write_chunk
  chunk_fits off p s app on small fits =
      let at = get-put_u16le off (omega arith) in
      let whole : (off + length p) % 65536 ≡ off + length p = omega arith in
      rw at (rw (on, whole) (ground (arith, fits)))

  chunk-IsStagedTo :
      (total off : ℕ) (done p : List ℕ) (s : Session) (app : App S F)
      → total ≤ json_max
      → off + length p ≤ total
      → IsStagedTo total off done s
      → IsStagedTo total (off + length p) (done ++ p) (write_chunk s app (chunk_body off p)).session
  chunk-IsStagedTo total off done p s app small fits h =
      let t = h.total_is in
      subst (IsStagedTo total (off + length p) (done ++ p))
        (ap (λ (r : Reply S F). r.session)
          (sym (chunk_fits off p s app h.active (omega arith) (omega arith))))
        (record {
          active = h.active;
          total_is = h.total_is;
          got_is = ground (arith, h.got_is);
          staged = bytes_from-write off p s.cfg_write_buf ∙ ap (λ (d : List ℕ). d ++ p) h.staged;
        })

  upload-IsStagedTo :
      (ps : List (List ℕ)) (total off : ℕ) (done : List ℕ) (s : Session) (app : App S F)
      → total ≤ json_max
      → off + length (concat ps) ≡ total
      → IsStagedTo total off done s
      → IsStagedTo total total (done ++ concat ps) (upload off ps s app)
  unfolding upload
  upload-IsStagedTo [] total off done s app small all h =
      let at : off ≡ total = omega arith in
      subst (λ (x : ℕ × List ℕ). IsStagedTo total x.0 x.1 s) (λ i. (at i, sym (append-nil done) i))
        h
  upload-IsStagedTo (p ∷ ps) total off done s app small all h =
      let long = length-append p (concat ps) in
      let next = chunk-IsStagedTo total off done p s app small (omega (arith, long)) h in
      subst
        (λ (d : List ℕ).
          IsStagedTo total total d
            (upload (off + length p) ps (write_chunk s app (chunk_body off p)).session app))
        (append_assoc done p (concat ps))
        (upload-IsStagedTo ps total (off + length p) (done ++ p) _ app small (omega (arith, long))
          next)

  -- The body of MC_OP_CONFIG_WRITE_BEGIN.
  abbrev pub begin : ℕ → Session → App S F → Session
  begin total s app = (write_begin s app (total % 256 ∷ (total / 256) % 256 ∷ [])).session

  begin_accepted :
      (total : ℕ) (s : Session) (app : App S F)
      → 0 < total
      → total ≤ json_max
      → begin total s app
        ≡ record s { cfg_write_total = total; cfg_write_got = 0; cfg_write_active = true }
  unfolding write_begin
  begin_accepted total s app some_bytes small =
      let at = get-put_u16le total (omega arith) in ground (arith, at, some_bytes, small)

  commit_staged :
      (w : World F) (total : ℕ) (bytes : List ℕ) (s : Session) (app : App S F)
      → IsStagedTo total total bytes s
      → write_commit w s app
        ≡ commit (record s { cfg_write_active = false }) app (w.json.parse bytes)
  unfolding write_commit
  commit_staged w total bytes s app h = ground (
    arith,
    h.active,
    h.total_is,
    h.got_is,
    h.staged,
    ap (λ (n : ℕ). bytes_from n 0 s.cfg_write_buf) h.total_is,
  )

  -- A configuration that is sent in pieces, one after the other from the start, is parsed whole: the
  -- commit hands the codec exactly the bytes that were sent, however they were cut, where they fit the
  -- buffer.
  pub upload-parses :
      (w : World F) (ps : List (List ℕ)) (s : Session) (app : App S F)
      → 0 < length (concat ps)
      → length (concat ps) ≤ json_max
      → let staged = upload 0 ps (begin (length (concat ps)) s app) app in
        write_commit w staged app
        ≡ commit (record staged { cfg_write_active = false }) app (w.json.parse (concat ps))
  upload-parses w ps s app some_bytes small =
      let total = length (concat ps) in
      commit_staged w total (concat ps) _ app (
        upload-IsStagedTo ps total 0 [] _ app small (omega arith) (
          subst (IsStagedTo total 0 []) (sym (begin_accepted total s app some_bytes small))
            (record {
              active = refl;
              total_is = refl;
              got_is = refl;
              staged = unfold bytes_from in refl;
            })))

  gap-IsStagedTo :
      (last b : ℕ) (s : Session) (app : App S F)
      → last + 1 ≤ json_max
      → IsStagedTo
          (last + 1)
          (last + 1)
          (bytes_from last 0 s.cfg_write_buf ++ b ∷ [])
          (write_chunk (begin (last + 1) s app) app (chunk_body last (b ∷ []))).session
  gap-IsStagedTo last b s app small =
      let begun = record s {
        cfg_write_total = last + 1;
        cfg_write_got = 0;
        cfg_write_active = true;
      } in
      let one : last + 1 ≤ last + length (b ∷ []) = omega arith in
      subst
        (λ (t : Session).
          IsStagedTo (last + 1) (last + 1) (bytes_from last 0 s.cfg_write_buf ++ b ∷ [])
            (write_chunk t app (chunk_body last (b ∷ []))).session)
        (sym (begin_accepted (last + 1) s app (omega arith) small))
        (subst
          (λ (r : Reply S F).
            IsStagedTo (last + 1) (last + 1) (bytes_from last 0 s.cfg_write_buf ++ b ∷ [])
              r.session)
          (sym (chunk_fits last (b ∷ []) begun app refl small (omega arith)))
          (record {
            active = refl;
            total_is = refl;
            got_is = ground arith;
            staged = bytes_from-write last (b ∷ []) s.cfg_write_buf;
          }))

  -- A write of which only the last byte was sent counts as complete: the commit hands the codec that
  -- byte behind whatever an earlier write left in the buffer.
  pub commit-with_gap :
      (w : World F) (last b : ℕ) (s : Session) (app : App S F)
      → last + 1 ≤ json_max
      → let staged =
          (write_chunk (begin (last + 1) s app) app (chunk_body last (b ∷ []))).session in
        write_commit w staged app
        ≡ commit
            (record staged { cfg_write_active = false })
            app
            (w.json.parse (bytes_from last 0 s.cfg_write_buf ++ b ∷ []))
  commit-with_gap w last b s app small =
      commit_staged w (last + 1) (bytes_from last 0 s.cfg_write_buf ++ b ∷ []) _ app
        (gap-IsStagedTo last b s app small)
