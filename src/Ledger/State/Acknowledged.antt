-- ===== src/Ledger/State/Acknowledged.antt =====
-- A record that is acknowledged and applied without an error.
use calod.Prelude.{◌≡◌, refl, none, some, [], ◌∷◌, ◌++◌}
use calod.Ledger.Model.{ok}
use calod.Ledger.Indexes.{Applied, RecordKind, apply}
use calod.Ledger.State.{Env, Ledger, WalPosition, acknowledged, persist, settle}

settle-ok :
    (position : WalPosition) (a : Applied) (l : Ledger)
    → a.0 ≡ none
    → ((settle position a l).0 ≡ ok tt) × ((settle position a l).1.indexes ≡ a.1)
unfolding settle
settle-ok position (none, ix) l h = (refl, refl)
settle-ok position (some e, ix) l h = absurd (cc)

pub persist-acknowledged :
    (env : Env) (kind : RecordKind) (l : Ledger) (position : WalPosition)
    → env.append ≡ acknowledged position
    → (apply kind l.indexes).0 ≡ none
    → ((persist env kind l).0 ≡ ok tt) × ((persist env kind l).1.indexes ≡ (apply kind l.indexes).1)
unfolding persist
persist-acknowledged env kind l position e h =
    rw (e, persist)
      (settle-ok position (apply kind l.indexes) (record l { log = l.log ++ kind ∷ [] }) h)
