-- ===== src/Ledger/Chain/Extend.antt =====
-- A chain that verifies, extended by an event that links to its end.
use calod.Prelude.{
  ℕ, ◌+◌, ◌∙◌, ◌≡◌, refl, true, List, [], ◌∷◌, ◌++◌, Str, str_eq_iff, arith, length, map,
}
use calod.Prelude.Int.{pos, eq_ℤ_iff}
use calod.Ledger.Json.{Platform}
use calod.Ledger.Digest.{genesis_hash}
use calod.Ledger.Model.{EventRecord, event_view}
use calod.Ledger.Chain.{compute_event_hash, verify_from, verify_event_chain}
use calod.Ledger.Indexes.{last_hash}

-- The hash at the end of a chain that begins after `h`.
abbrev pub last_or : Str → List EventRecord → Str
last_or h [] = h
last_or h (e ∷ es) = last_or e.hash es

pub last_hash-eq-last_or : (es : List EventRecord) → last_hash es ≡ last_or genesis_hash es
unfolding last_hash
last_hash-eq-last_or [] = refl
last_hash-eq-last_or (e ∷ []) = refl
last_hash-eq-last_or (e ∷ f ∷ es) = last_hash-eq-last_or (f ∷ es)

pub record Extends (p : Platform) (n : ℕ) (previous : Str) (e : EventRecord) : Type 0 where
  pub sequence : e.sequence ≡ pos n
  pub previous_hash : e.previous_hash ≡ previous
  pub hash : e.hash ≡ compute_event_hash p (event_view e)

module _ (p : Platform) where
  verify_from_one :
      (n : ℕ) (h : Str) (e : EventRecord)
      → Extends p (n + 1) h e
      → verify_from p n h (event_view e ∷ []) ≡ true
  unfolding verify_from event_view
  verify_from_one n h e x = ground (
    arith,
    eq_ℤ_iff e.sequence (pos (n + 1)),
    str_eq_iff e.previous_hash h,
    str_eq_iff e.hash (compute_event_hash p (event_view e)),
    x.sequence,
    x.previous_hash,
    x.hash,
  )

  verify_from-append :
      (n : ℕ) (h : Str) (es : List EventRecord) (e : EventRecord)
      → verify_from p n h (map event_view es) ≡ true
      → Extends p (n + length es + 1) (last_or h es) e
      → verify_from p n h (map event_view (es ++ e ∷ [])) ≡ true
  unfolding verify_from event_view
  verify_from-append n h [] e v x = verify_from_one n h e (record {
    sequence = rw x.sequence (ground arith);
    previous_hash = x.previous_hash;
    hash = x.hash;
  })
  verify_from-append n h (f ∷ es) e v x = ground (
    arith,
    verify_from-append (n + 1) f.hash es e (ground arith) (record {
      sequence = rw x.sequence (ground arith);
      previous_hash = x.previous_hash;
      hash = x.hash;
    }),
  )

  -- An event with the next sequence number, the last hash as its previous hash and its own hash
  -- keeps the chain verified.
  pub verify_event_chain-append :
      (es : List EventRecord) (e : EventRecord)
      → verify_event_chain p (map event_view es) ≡ true
      → Extends p (length es + 1) (last_hash es) e
      → verify_event_chain p (map event_view (es ++ e ∷ [])) ≡ true
  unfolding verify_event_chain
  verify_event_chain-append es e v x = verify_from-append 0 genesis_hash es e v (record {
    sequence = rw x.sequence (ground arith);
    previous_hash = x.previous_hash ∙ last_hash-eq-last_or es;
    hash = x.hash;
  })
