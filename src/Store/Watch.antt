-- ===== src/Store/Watch.antt =====
-- The versions of watched keys (WATCH, UNWATCH, EXEC): calod/crates/calod-core/src/store/watch.rs, and
-- its calls in calod/crates/calod-resp/src/cld_srv/served_store.rs. Versions are `u64` and wrap around.
pub mod Holds
mod Tests
use calod.Prelude.{
  ℕ, ◌+◌, ◌-◌, ◌%◌, Bool, true, false, not, Option, none, some, List, [], ◌∷◌, Str, str_Eq, nat_beq,
  any, if◌then◌else◌,
}
use calod.Prelude.Int.{two64}
use calod.Prelude.Map.{Map, get, insert, remove}

-- Each watched key with its version and the number of its watchers.
abbrev pub WatchRegistry : Type 0
WatchRegistry = Map Str (ℕ × ℕ)

-- The registry, and the version that the client records.
unfoldable pub watch : Str → WatchRegistry → WatchRegistry × ℕ
watch key r = elim (get key r) [
  | none ↦ (insert key (0, 1) r, 0)
  | some (version, n) ↦ (insert key (version, n + 1) r, version)
]

-- The first half of `unwatch`: one watcher less.
unfoldable pub release : Str → WatchRegistry → WatchRegistry
release key r = elim (get key r) [ none ↦ r | some (version, n) ↦ insert key (version, n - 1) r ]

-- The second half, under another lock: `remove_if` the count is 0.
unfoldable pub drop_unwatched : Str → WatchRegistry → WatchRegistry
drop_unwatched key r = elim (get key r) [
  | none ↦ r
  | some (version, n) ↦ if nat_beq n 0 then remove key r else r
]

unfoldable pub unwatch : Str → WatchRegistry → WatchRegistry
unfolding release drop_unwatched
unwatch key r = drop_unwatched key (release key r)

unfoldable pub bump : Str → WatchRegistry → WatchRegistry
bump key r = elim (get key r) [
  | none ↦ r
  | some (version, n) ↦ insert key ((version + 1) % two64, n) r
]

unfoldable pub current : Str → WatchRegistry → ℕ
current key r = elim (get key r) [ none ↦ 0 | some (version, n) ↦ version ]

-- `handle_watch` outside of MULTI: the keys with their versions, behind those of the client.
unfoldable pub watch_all : List Str → WatchRegistry → WatchRegistry × List (Str × ℕ)
watch_all [] r = (r, [])
watch_all (key ∷ keys) r =
    let (next, version) = watch key r in
    let (after, rest) = watch_all keys next in (after, (key, version) ∷ rest)

-- `handle_unwatch`, `handle_discard` and `handle_exec` release the keys.
unfoldable pub unwatch_all : List (Str × ℕ) → WatchRegistry → WatchRegistry
unwatch_all [] r = r
unwatch_all ((key, version) ∷ watched) r = unwatch_all watched (unwatch key r)

-- The check of `handle_exec`.
unfoldable pub aborted : List (Str × ℕ) → WatchRegistry → Bool
aborted watched r = any (λ w. not (nat_beq (current w.0 r) w.1)) watched
