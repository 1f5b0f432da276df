-- ===== src/Wal/Writer/Replays.antt =====
-- About what is replayed after appends that were acknowledged.
use mathlib.Core.Path.{subst}
use mathlib.Core.List.{append_assoc, append-nil, map-append}
use native.Mathlib.Nat.{zero-add}
use calod.Prelude.{
  ℕ, suc, ◌+◌, ◌-◌, ◌<◌, ◌^◌, ◌≡◌, ◌≢◌, ◌⊎◌, refl, sym, ap, ◌∙◌, Bool, true, false, List, [], ◌∷◌,
  ◌++◌, map, arith, length, take, ltb, ◌&&◌, Bool-cases, inl, inr, if◌then◌else◌, length-append,
}
use calod.Prelude.Cuts.{take_all}
use calod.Wal.Directory.Listing.{laid_out, IsAscending}
use calod.Wal.Format.{Bytes, RecordType, Crc32c, IsU32, header_len, WalPosition}
use calod.Wal.Format.RoundTrip.{length-encode_record}
use calod.Wal.Scan.Written.{Entry, encode_entry, encode_all, located, whole}
use calod.Wal.Recover.{
  Result, WalError, wal_write_failed, replay_all, ok, err, WalRecord, record_of,
}
use calod.Wal.Recover.Segments.{Segment, written, whole_all}
use calod.Wal.Recover.Crash.{written-last, records_of, replay_all-crashed}
use calod.Wal.Writer.{WriterState, Disk, handle_append, append, write_record, roll_segment}
use calod.Wal.Writer.Appends.{
  Log, segments, files, IsWriting, add_entry, next_segment, position_in, write_record-IsWriting,
  roll_segment-IsWriting,
}

-- The segment is not empty, and the record would exceed its limit.
abbrev pub is_full : Crc32c → ℕ → Log → Entry → Bool
is_full c max_segment_size l e =
    let len = length (encode_all c l.entries) in
    ltb 0 len && ltb max_segment_size (len + length (encode_entry c e))

-- The log in which the record is written: the same segment, or a new one.
abbrev pub target : Crc32c → ℕ → Log → Entry → Log
target c max_segment_size l e = if is_full c max_segment_size l e then next_segment l else l

abbrev over_limit : ℕ → ℕ → ℕ → Bool
over_limit max_segment_size size len = ltb 0 len && ltb max_segment_size (len + size)

module _ (c : Crc32c) (disk : Disk) (s : WriterState) (e : Entry) where
  handle_append-stays :
      over_limit s.max_segment_size (length (encode_entry c e)) s.segment_len ≡ false
      → handle_append c disk e.record_type e.payload s ≡ write_record disk (encode_entry c e) s
  unfolding handle_append
  handle_append-stays h = ground arith

  handle_append-rolls :
      over_limit s.max_segment_size (length (encode_entry c e)) s.segment_len ≡ true
      → {u : Unit {0}} → (roll_segment disk s).1 ≡ ok u
      → handle_append c disk e.record_type e.payload s
        ≡ write_record disk (encode_entry c e) (roll_segment disk s).0
  unfolding handle_append
  handle_append-rolls h rolled = ground arith

  handle_append-not_rolled :
      (why : WalError)
      → over_limit s.max_segment_size (length (encode_entry c e)) s.segment_len ≡ true
      → (roll_segment disk s).1 ≡ err why
      → (handle_append c disk e.record_type e.payload s).1 ≡ err why
  unfolding handle_append
  handle_append-not_rolled why h rolled = ground arith

ok-ne-err {ℓ} : {A : Type ℓ} (a : A) (why : WalError) → ok a ≢ err why
ok-ne-err a why h = cc

module _ (c : Crc32c) (disk : Disk) (t : RecordType) (payload : Bytes) (s : WriterState) where
  append-large :
      ltb (2 ^ 32 - 1) (length payload) ≡ true
      → (append c disk t payload s).1 ≡ err wal_write_failed
  unfolding append
  append-large large = ground arith

  append-small :
      ltb (2 ^ 32 - 1) (length payload) ≡ false
      → append c disk t payload s ≡ handle_append c disk t payload s
  unfolding append
  append-small small = ground arith

Result-cases {ℓ} :
    {A : Type ℓ} (r : Result A) → ((a : A) × (r ≡ ok a)) ⊎ ((why : WalError) × (r ≡ err why))
Result-cases (ok a) = inl (a, refl)
Result-cases (err why) = inr (why, refl)

module _ (c : Crc32c) (disk : Disk) (s : WriterState) (l : Log) (writing : IsWriting c s l)
    (e : Entry) (position : WalPosition) where
  handle_append-IsWriting :
      length e.payload < 2 ^ 32
      → suc l.id < 2 ^ 64
      → (handle_append c disk e.record_type e.payload s).1 ≡ ok position
      → (position ≡ position_in c (target c s.max_segment_size l e))
        × IsWriting c
            (handle_append c disk e.record_type e.payload s).0
            (add_entry e (target c s.max_segment_size l e))
  handle_append-IsWriting small room acked =
      let size = length (encode_entry c e) in
      let same : over_limit s.max_segment_size size s.segment_len
          ≡ is_full c s.max_segment_size l e =
        ap (over_limit s.max_segment_size size) writing.len_last in
      elim (Bool-cases (is_full c s.max_segment_size l e)) [
        | inl full ↦ elim (Result-cases (roll_segment disk s).1) [
          | inr (why, failed) ↦ absurd (
              ok-ne-err position why
                (sym acked ∙ handle_append-not_rolled c disk s e why (same ∙ full) failed))
          | inl (u, rolled) ↦
              let done = handle_append-rolls c disk s e (same ∙ full) rolled in
              rw (full, done)
                (write_record-IsWriting c disk _ (next_segment l)
                  (roll_segment-IsWriting c disk s l writing u room rolled) e position small
                  (rw done at acked))
        ]
        | inr fits ↦
            let done = handle_append-stays c disk s e (same ∙ fits) in
            rw (fits, done)
              (write_record-IsWriting c disk s l writing e position small (rw done at acked))
      ]

  -- An append that is acknowledged puts its record at the end of the log, at the position that it
  -- answers with.
  append-IsWriting :
      suc l.id < 2 ^ 64
      → (append c disk e.record_type e.payload s).1 ≡ ok position
      → (position ≡ position_in c (target c s.max_segment_size l e))
        × IsWriting c
            (append c disk e.record_type e.payload s).0
            (add_entry e (target c s.max_segment_size l e))
  append-IsWriting room acked = elim (Bool-cases (ltb (2 ^ 32 - 1) (length e.payload))) [
    | inl large ↦ absurd (
        ok-ne-err position wal_write_failed
          (sym acked ∙ append-large c disk e.record_type e.payload s large))
    | inr small ↦
        let done = append-small c disk e.record_type e.payload s small in
        rw done (handle_append-IsWriting (ground arith) room (rw done at acked))
  ]

located-append :
    (offset : ℕ) (c : Crc32c) (es : List Entry) (e : Entry)
    → located offset (es ++ e ∷ [])
      ≡ located offset es ++ located (offset + length (encode_all c es)) (e ∷ [])
unfolding located encode_all
located-append offset c [] e = ap (λ o. located o (e ∷ [])) (omega arith)
located-append offset c (x ∷ es) e =
    let start = offset + header_len + length x.payload in
    let same : start + length (encode_all c es)
        ≡ offset + length (encode_entry c x ++ encode_all c es) =
      omega (
        arith,
        length-encode_record c x.record_type x.payload,
        length-append (encode_entry c x) (encode_all c es),
      ) in
    rw (← same) (
      ap (◌∷◌ (record { offset = offset; record_type = x.record_type; payload = x.payload }))
        (located-append start c es e))

-- A record of the log as the caller gave it, at the position that was acknowledged.
abbrev pub acknowledged_at : WalPosition → Entry → WalRecord
acknowledged_at position e = record {
  segment_id = position.segment_id;
  offset = position.offset;
  record_type = e.record_type;
  payload = e.payload;
}

records_of-append : (xs ys : List Segment) → records_of (xs ++ ys) ≡ records_of xs ++ records_of ys
unfolding records_of
records_of-append [] ys = refl
records_of-append ((id, es) ∷ xs) ys =
    ap (λ r. map (record_of id) (located 0 es) ++ r) (records_of-append xs ys)
    ∙ sym (append_assoc (map (record_of id) (located 0 es)) (records_of xs) (records_of ys))

records_of-add_entry :
    (c : Crc32c) (l : Log) (e : Entry)
    → records_of (segments (add_entry e l))
      ≡ records_of (segments l) ++ acknowledged_at (position_in c l) e ∷ []
unfolding records_of located
records_of-add_entry c l e =
    let at_end : located 0 (l.entries ++ e ∷ [])
        ≡ located 0 l.entries ++ located (length (encode_all c l.entries)) (e ∷ []) =
      rw zero-add at (located-append 0 c l.entries e) in
    rw
      (
        records_of-append l.sealed ((l.id, l.entries ++ e ∷ []) ∷ []),
        records_of-append l.sealed ((l.id, l.entries) ∷ []),
        at_end,
      )
      (simp (append-nil, append_assoc, map-append))

pub records_of-next_segment :
    (l : Log) → records_of (segments (next_segment l)) ≡ records_of (segments l)
unfolding records_of located
records_of-next_segment l = records_of-append (segments l) ((suc l.id, []) ∷ []) ∙ append-nil _

records_of-target :
    (c : Crc32c) (max_segment_size : ℕ) (l : Log) (e : Entry)
    → records_of (segments (target c max_segment_size l e)) ≡ records_of (segments l)
records_of-target c max_segment_size l e = elim (Bool-cases (is_full c max_segment_size l e)) [
  | inl full ↦ rw full (records_of-next_segment l)
  | inr fits ↦ rw fits
]

-- A run of appends of which each is acknowledged, whatever its file system answers, in fewer than
-- 2^64 segments: the state before, the records with their positions, the state after.
pub data Acknowledged (c : Crc32c) (s : WriterState) : List WalRecord → WriterState → Type 0 where
  start : Acknowledged c s [] s
  step :
      {acks acks' : List WalRecord} {t t' : WriterState}
      → Acknowledged c s acks t
      → (disk : Disk) (e : Entry) (position : WalPosition) → suc t.segment_id < 2 ^ 64
      → append c disk e.record_type e.payload t ≡ (t', ok position)
      → acks' ≡ acks ++ acknowledged_at position e ∷ []
      → Acknowledged c s acks' t'

-- The log after the run.
pub record IsContinued (c : Crc32c) (l : Log) (acks : List WalRecord) (t : WriterState)
    : Type 0 where
  pub after : Log
  pub writes : IsWriting c t after
  pub records : records_of (segments after) ≡ records_of (segments l) ++ acks

pub Acknowledged-IsContinued :
    {c : Crc32c} {s t : WriterState} {acks : List WalRecord} (l : Log)
    → IsWriting c s l
    → Acknowledged c s acks t
    → IsContinued c l acks t
Acknowledged-IsContinued l writing start = record {
  after = l;
  writes = writing;
  records = sym (append-nil (records_of (segments l)));
}
Acknowledged-IsContinued {c} l writing
      (step {acks = acks} {t = t} run disk e position room done more) =
    let before = Acknowledged-IsContinued l writing run in
    let max = t.max_segment_size in
    let added : (position ≡ position_in c (target c max before.after e))
        × IsWriting c (append c disk e.record_type e.payload t).0
            (add_entry e (target c max before.after e)) =
      append-IsWriting c disk t before.after before.writes e position
        (rw (← before.writes.id_last) room) (ap (λ r. r.1) done) in
    let landed = target c max before.after e in
    let last = acknowledged_at (position_in c landed) e ∷ [] in
    let old = records_of (segments l) in
    record {
      after = add_entry e (target c max before.after e);
      writes = rw done at added.1;
      records =
          records_of-add_entry c landed e
          ∙ ap (λ r. r ++ last) (records_of-target c max before.after e ∙ before.records)
          ∙ append_assoc old acks last
          ∙ ap (λ a. old ++ a)
              (ap (λ at. acks ++ acknowledged_at at e ∷ []) (sym added.0) ∙ sym more);
    }

-- What a writer's directory replays to: the log that it has written.
pub replay_all-IsWriting :
    (c : Crc32c)
    → IsU32 c
    → (s : WriterState) (l : Log) → IsWriting c s l
    → replay_all c s.dir ≡ (s.dir, ok (records_of (segments l)))
replay_all-IsWriting c small s l writing =
    let k = length (encode_all c l.entries) in
    let all : take k (encode_all c l.entries) ≡ encode_all c l.entries =
      take_all k (encode_all c l.entries) (omega arith) in
    let every : whole k l.entries ≡ l.entries = whole_all l.entries c k (omega arith) in
    let ascending : IsAscending 0
        (written c l.sealed ++ (l.id, take k (encode_all c l.entries)) ∷ []) =
      subst (λ b. IsAscending 0 (written c l.sealed ++ (l.id, b) ∷ [])) (sym all)
        writing.ascending in
    let replayed : replay_all c (laid_out (files c l))
        ≡ (laid_out (written c (segments l)), ok (records_of (segments l))) =
      rw (all, every) at
        (replay_all-crashed c small l.sealed l.id l.entries k writing.sealed_fit writing.entries_fit
          ascending) in
    ap (replay_all c) writing.dir_files
    ∙ replayed
    ∙ ap (λ dir. (dir, ok (records_of (segments l))))
        (ap laid_out (written-last c l.sealed l.id l.entries) ∙ sym writing.dir_files)
