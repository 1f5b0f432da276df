-- ===== src/Store/SortedSet/Keys.antt =====
-- The order of a sorted set's entries, by score and then by member:
-- calod/crates/calod-core/src/store/sorted_set.rs.
use calod.Prelude.{ℕ, ◌≡◌, refl, Bool, true, false, not, ◌&&◌, ◌||◌, List, [], ◌∷◌, ltb, arith}
use mathlib.Core.Path.{ap₂}
use calod.Store.F64.{F64, total_ltb, total_ltb_irrefl, total_ltb_trans, total_ltb_connected}
use calod.Store.OrderedSet.{Order}

abbrev pub Bytes : Type 0
Bytes = List ℕ

-- `a < b` of byte strings.
unfoldable pub bytes_ltb : Bytes → Bytes → Bool
bytes_ltb [] [] = false
bytes_ltb [] (y ∷ ys) = true
bytes_ltb (x ∷ xs) [] = false
bytes_ltb (x ∷ xs) (y ∷ ys) = ltb x y || (not (ltb y x) && bytes_ltb xs ys)

pub record ScoreKey : Type 0 where
  pub score : F64
  pub member : Bytes

-- `a.cmp(&b) == Less`: the scores, `then_with` the members.
unfoldable pub key_lt : ScoreKey → ScoreKey → Bool
key_lt a b =
    total_ltb a.score b.score || (not (total_ltb b.score a.score) && bytes_ltb a.member b.member)

bytes_ltb_irrefl : (a : Bytes) → bytes_ltb a a ≡ false
unfolding bytes_ltb
bytes_ltb_irrefl [] = refl
bytes_ltb_irrefl (x ∷ xs) = ground (arith, bytes_ltb_irrefl xs)

bytes_ltb_trans :
    (a b c : Bytes) → bytes_ltb a b ≡ true → bytes_ltb b c ≡ true → bytes_ltb a c ≡ true
unfolding bytes_ltb
bytes_ltb_trans [] [] c h k = cc
bytes_ltb_trans [] (y ∷ ys) [] h k = cc
bytes_ltb_trans [] (y ∷ ys) (z ∷ zs) h k = refl
bytes_ltb_trans (x ∷ xs) [] c h k = cc
bytes_ltb_trans (x ∷ xs) (y ∷ ys) [] h k = cc
bytes_ltb_trans (x ∷ xs) (y ∷ ys) (z ∷ zs) h k = ground (arith, bytes_ltb_trans xs ys zs)

bytes_ltb_connected : (a b : Bytes) → bytes_ltb a b ≡ false → bytes_ltb b a ≡ false → a ≡ b
unfolding bytes_ltb
bytes_ltb_connected [] [] h k = refl
bytes_ltb_connected [] (y ∷ ys) h k = cc
bytes_ltb_connected (x ∷ xs) [] h k = cc
bytes_ltb_connected (x ∷ xs) (y ∷ ys) h k =
    ap₂ ◌∷◌ (ground arith) (bytes_ltb_connected xs ys (ground arith) (ground arith))

pub key_lt_irrefl : (a : ScoreKey) → key_lt a a ≡ false
unfolding key_lt
key_lt_irrefl a = ground (arith, total_ltb_irrefl a.score, bytes_ltb_irrefl a.member)

pub key_lt_trans : (a b c : ScoreKey) → key_lt a b ≡ true → key_lt b c ≡ true → key_lt a c ≡ true
unfolding key_lt
key_lt_trans a b c h k = ground (
  arith,
  total_ltb_trans a.score b.score c.score,
  total_ltb_trans c.score a.score b.score,
  total_ltb_trans c.score b.score c.score,
  total_ltb_irrefl c.score,
  total_ltb_connected a.score b.score,
  total_ltb_connected b.score c.score,
  bytes_ltb_trans a.member b.member c.member,
)

pub key_lt_connected : (a b : ScoreKey) → key_lt a b ≡ false → key_lt b a ≡ false → a ≡ b
unfolding key_lt
key_lt_connected a b h k =
    ground (arith, total_ltb_connected a.score b.score, bytes_ltb_connected a.member b.member)

abbrev pub score_order : Order ScoreKey
score_order = record {
  lt = key_lt;
  irrefl = key_lt_irrefl;
  trans = key_lt_trans;
  connected = key_lt_connected;
}
