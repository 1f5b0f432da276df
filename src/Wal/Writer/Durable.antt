-- ===== src/Wal/Writer/Durable.antt =====
-- About a writer that is opened after a crash.
use calod.Prelude.{
  ℕ, suc, ◌^◌, ◌<◌, ◌≡◌, ap, sym, ◌∙◌, List, [], ◌∷◌, ◌++◌, take, length, ltb, Bool-cases, inl, inr,
}
use calod.Wal.Format.{Crc32c, IsU32, header_len}
use calod.Wal.Scan.Written.{Entry, encode_all, Fits, whole}
use calod.Wal.Directory.Listing.{IsAscending}
use calod.Wal.Recover.{ok, WalRecord, replay_all}
use calod.Wal.Recover.Segments.{Segment, written, AllFit, kept}
use calod.Wal.Recover.Crash.{records_of, crashed}
use calod.Wal.Writer.{WriterState, WalConfig, open_writer}
use calod.Wal.Writer.Appends.{segments}
use calod.Wal.Writer.Replays.{
  IsContinued, Acknowledged, Acknowledged-IsContinued, replay_all-IsWriting,
  records_of-next_segment,
}
use calod.Wal.Writer.Opening.{open_writer-IsWriting, resumed}

ok-injective {ℓ} : {A : Type ℓ} (a b : A) → ok a ≡ ok b → a ≡ b
ok-injective a b h = cc

module _ (c : Crc32c) (small : IsU32 c) (config : WalConfig) (sealed : List Segment) (id : ℕ)
    (es : List Entry) (k : ℕ) (large : header_len < config.max_segment_size) (fits : AllFit sealed)
    (fit : Fits es)
    (ascending : IsAscending 0 (written c sealed ++ (id, take k (encode_all c es)) ∷ []))
    (room : suc id < 2 ^ 64) where
  abbrev survivors : List Segment
  survivors = sealed ++ (id, whole k es) ∷ []

  resumed_records :
      records_of (segments (resumed c small config sealed id es k large fits fit ascending room))
      ≡ records_of survivors
  resumed_records = elim (Bool-cases (ltb (length (kept c k es)) config.max_segment_size)) [
    | inl has_room ↦ rw has_room
    | inr full ↦
        rw full
          (records_of-next_segment (record { sealed = sealed; id = id; entries = whole k es }))
  ]

  -- A writer is opened on a directory that a crash left, with any number of the bytes of its last
  -- segment, and every append after that is acknowledged. Then replay answers with the records that
  -- survived the crash, followed by the acknowledged ones at the positions that were answered, and
  -- changes no file.
  pub acknowledged_replay :
      (s t : WriterState) (acks : List WalRecord)
      → (open_writer c config (crashed c sealed id es k)).1 ≡ ok s
      → Acknowledged c s acks t
      → replay_all c t.dir ≡ (t.dir, ok (records_of survivors ++ acks))
  acknowledged_replay s t acks opened run =
      let (first, answer, writing) =
        open_writer-IsWriting c small config sealed id es k large fits fit ascending room in
      let same : first ≡ s = ok-injective first s (sym answer ∙ opened) in
      let before = resumed c small config sealed id es k large fits fit ascending room in
      let after : IsContinued c before acks t =
        Acknowledged-IsContinued before (rw same at writing) run in
      replay_all-IsWriting c small t after.after after.writes
      ∙ ap (λ r. (t.dir, ok r)) (after.records ∙ ap (λ r. r ++ acks) resumed_records)
