-- ===== src/Store/Watch/Tests.antt =====
-- Runs of watched keys on small inputs.
use calod.Prelude.{◌≡◌, refl, Bool, true, false, List, [], ◌∷◌, Str, arith}
use calod.Store.Watch.{watch, aborted}
use calod.Store.Watch.Holds.{WatchEvent, watches, releases, drops, bumps, run, aborted_iff_written}

abbrev the_key : Str
the_key = b'k' ∷ []

-- Another client watches the the_key, it is written, and that client leaves.
abbrev busy : List WatchEvent
busy = watches the_key ∷ bumps (b'j' ∷ []) ∷ bumps the_key ∷ releases the_key ∷ drops the_key ∷ []

aborted_iff_written_example : aborted ((the_key, 0) ∷ []) (run busy (watch the_key []).0) ≡ true
unfolding watch calod.Prelude.Map.get calod.Store.Watch.Holds.writes calod.Prelude.str_eq
    calod.Store.Watch.Holds.others
aborted_iff_written_example = aborted_iff_written the_key busy [] 0 (omega arith) (omega arith) refl

-- A write to another the_key does not matter.
quiet : aborted ((the_key, 0) ∷ []) (run (bumps (b'j' ∷ []) ∷ []) (watch the_key []).0) ≡ false
unfolding watch aborted calod.Prelude.any calod.Store.Watch.current calod.Prelude.Map.get run
    calod.Store.Watch.Holds.happen calod.Store.Watch.bump calod.Prelude.Map.insert
    calod.Prelude.str_eq
quiet = refl
