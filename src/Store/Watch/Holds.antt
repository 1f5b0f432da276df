-- ===== src/Store/Watch/Holds.antt =====
-- About keys that a client goes on watching.
use calod.Prelude.{
  ℕ, zero, suc, ◌+◌, ◌-◌, ◌%◌, ◌<◌, ◌≡◌, refl, ap, ◌∙◌, false, not, Option, none, some, List, [],
  ◌∷◌, Str, str_Eq, str_eq, str_eq_iff, nat_beq, arith, any, if◌then◌else◌, Option-cases,
  Bool-cases, inl, inr,
}
use calod.Prelude.Int.{two64}
use calod.Prelude.Map.{get, get-insert, get-remove}
use calod.Store.Watch.{WatchRegistry, watch, release, drop_unwatched, bump, current, aborted}

-- What clients and writers do with the registry, in the order in which its locks let them.
pub data WatchEvent : Type 0 where
  watches releases drops bumps : Str → WatchEvent

unfoldable pub happen : WatchEvent → WatchRegistry → WatchRegistry
happen (watches key) r = (watch key r).0
happen (releases key) r = release key r
happen (drops key) r = drop_unwatched key r
happen (bumps key) r = bump key r

unfoldable pub run : List WatchEvent → WatchRegistry → WatchRegistry
run [] r = r
run (e ∷ es) r = run es (happen e r)

-- How often the key is written.
unfoldable pub writes : Str → List WatchEvent → ℕ
writes key [] = 0
writes key (bumps k ∷ es) = let rest = writes key es in if str_eq k key then suc rest else rest
writes key (watches k ∷ es) = writes key es
writes key (releases k ∷ es) = writes key es
writes key (drops k ∷ es) = writes key es

-- The number of other watchers of the key after the events, if no client releases a watch that it does
-- not hold.
unfoldable pub others : Str → List WatchEvent → ℕ → Option ℕ
others key [] n = some n
others key (bumps k ∷ es) n = others key es n
others key (watches k ∷ es) n = others key es (if str_eq k key then suc n else n)
others key (drops k ∷ es) n = others key es n
others key (releases k ∷ es) zero = if str_eq k key then none else others key es zero
others key (releases k ∷ es) (suc n) = others key es (if str_eq k key then n else suc n)

abbrev pub count : Str → WatchRegistry → ℕ
count key r = elim (get key r) [ none ↦ 0 | some (version, n) ↦ n ]

module _ (key : Str) where
  get-watch :
      (k : Str) (r : WatchRegistry) (v n : ℕ)
      → get key r ≡ some (v, suc n)
      → get key (watch k r).0 ≡ some (v, if str_eq k key then suc (suc n) else suc n)
  unfolding watch
  get-watch k r v n h = elim (Option-cases (get k r)) [
    | inl absent ↦
        rw (absent, watch) (ground (arith, h, absent, get-insert k key (0, 1) r, str_eq_iff k key))
    | inr ((w, m), here) ↦
        rw (here, watch) (ground (arith, h, here, get-insert k key (w, m + 1) r, str_eq_iff k key))
  ]

  get-release_other :
      (k : Str) (r : WatchRegistry) → str_eq k key ≡ false → get key (release k r) ≡ get key r
  unfolding release
  get-release_other k r other = elim (Option-cases (get k r)) [
    | inl absent ↦ rw (absent, release) refl
    | inr ((w, m), here) ↦ rw (here, release) (get-insert k key (w, m - 1) r ∙ rw other refl)
  ]

  get-release_same :
      (r : WatchRegistry) (v n : ℕ)
      → get key r ≡ some (v, suc (suc n))
      → get key (release key r) ≡ some (v, suc n)
  unfolding release
  get-release_same r v n h =
      let one_less : suc (suc n) - 1 ≡ suc n = omega arith in
      rw (h, one_less, release)
        (get-insert key key (v, suc n) r ∙ rw ((str_eq_iff key key).1 refl) refl)

  -- Only keys without watchers are dropped.
  get-drop_unwatched :
      (k : Str) (r : WatchRegistry) (v n : ℕ)
      → get key r ≡ some (v, suc n)
      → get key (drop_unwatched k r) ≡ some (v, suc n)
  unfolding drop_unwatched
  get-drop_unwatched k r v n h = elim (Option-cases (get k r)) [
    | inl absent ↦ rw (absent, drop_unwatched) h
    | inr ((w, m), here) ↦ elim (Bool-cases (nat_beq m 0)) [
      | inl zero_left ↦
          rw (here, zero_left, drop_unwatched)
            (ground (arith, h, here, zero_left, get-remove k key r, str_eq_iff k key))
      | inr more ↦ rw (here, more, drop_unwatched) h
    ]
  ]

  get-bump :
      (k : Str) (r : WatchRegistry) (v n : ℕ)
      → get key r ≡ some (v, n)
      → get key (bump k r) ≡ some (if str_eq k key then (v + 1) % two64 else v, n)
  unfolding bump
  get-bump k r v n h = elim (Option-cases (get k r)) [
    | inl absent ↦ rw (absent, bump) (ground (arith, h, absent, str_eq_iff k key))
    | inr ((w, m), here) ↦
        rw (here, bump)
          (ground (arith, h, here, get-insert k key ((w + 1) % two64, m) r, str_eq_iff k key))
  ]

  get-run :
      (es : List WatchEvent) (r : WatchRegistry) (v n m : ℕ)
      → v < two64
      → get key r ≡ some (v, suc n)
      → others key es n ≡ some m
      → get key (run es r) ≡ some ((v + writes key es) % two64, suc m)
  unfolding run happen writes others
  get-run [] r v n m small h held =
      h
      ∙ ap (λ x. some (x, suc n)) (omega (arith, small))
      ∙ ap (λ x. some ((v + 0) % two64, suc x)) (ground (arith, held))
  get-run (bumps k ∷ es) r v n m small h held = elim (Bool-cases (str_eq k key)) [
    | inl same ↦ rw same (
        get-run es (bump k r) ((v + 1) % two64) n m (omega arith)
          (get-bump k r v (suc n) h ∙ rw same refl) held
        ∙ ap (λ x. some (x, suc m)) (omega arith))
    | inr other ↦
        rw other (get-run es (bump k r) v n m small (get-bump k r v (suc n) h ∙ rw other refl) held)
  ]
  get-run (watches k ∷ es) r v n m small h held = elim (Bool-cases (str_eq k key)) [
    | inl same ↦
        get-run es (watch k r).0 v (suc n) m small (get-watch k r v n h ∙ rw same refl)
          (rw same at held)
    | inr other ↦
        get-run es (watch k r).0 v n m small (get-watch k r v n h ∙ rw other refl)
          (rw other at held)
  ]
  get-run (drops k ∷ es) r v n m small h held =
      get-run es (drop_unwatched k r) v n m small (get-drop_unwatched k r v n h) held
  get-run (releases k ∷ es) r v zero m small h held = elim (Bool-cases (str_eq k key)) [
    | inl same ↦ ground (arith, held, same)
    | inr other ↦
        get-run es (release k r) v zero m small (get-release_other k r other ∙ h) (rw other at held)
  ]
  get-run (releases k ∷ es) r v (suc n) m small h held = elim (Bool-cases (str_eq k key)) [
    | inl same ↦
        get-run es (release k r) v n m small
          (rw ((str_eq_iff k key).0 same) (get-release_same r v n h)) (rw same at held)
    | inr other ↦
        get-run es (release k r) v (suc n) m small (get-release_other k r other ∙ h)
          (rw other at held)
  ]

  get-watched :
      (r : WatchRegistry) → get key (watch key r).0 ≡ some ((watch key r).1, suc (count key r))
  unfolding watch
  get-watched r = elim (Option-cases (get key r)) [
    | inl absent ↦
        rw (absent, watch, count)
          (get-insert key key (0, 1) r ∙ rw ((str_eq_iff key key).1 refl) refl)
    | inr ((w, m), here) ↦
        let one_more : m + 1 ≡ suc m = omega arith in
        rw (here, one_more, watch, count)
          (get-insert key key (w, suc m) r ∙ rw ((str_eq_iff key key).1 refl) refl)
  ]

current_found :
    (key : Str) (r : WatchRegistry) (v n : ℕ) → get key r ≡ some (v, n) → current key r ≡ v
unfolding current
current_found key r v n h = rw (h, current) refl

aborted_one :
    (key : Str) (version : ℕ) (r : WatchRegistry)
    → aborted ((key, version) ∷ []) r ≡ not (nat_beq (current key r) version)
unfolding aborted any
aborted_one key version r = ground arith

-- A client watches a key. Then any events happen in which no client releases a watch that it does not
-- hold, and fewer than 2^64 writes. The check of EXEC aborts exactly if the key was written since.
pub aborted_iff_written :
    (key : Str) (es : List WatchEvent) (r : WatchRegistry) (m : ℕ)
    → (watch key r).1 < two64
    → writes key es < two64
    → others key es (count key r) ≡ some m
    → aborted ((key, (watch key r).1) ∷ []) (run es (watch key r).0)
      ≡ not (nat_beq (writes key es) 0)
aborted_iff_written key es r m small few held =
    let found =
      get-run key es (watch key r).0 (watch key r).1 (count key r) m small (get-watched key r)
        held in
    aborted_one key (watch key r).1 (run es (watch key r).0)
    ∙ rw (current_found key (run es (watch key r).0) _ (suc m) found) (ground (arith, small, few))
