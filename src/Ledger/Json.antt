-- ===== src/Ledger/Json.antt =====
-- JSON values and their canonical rendering: calod/crates/calod-ledger/src/digest.rs.
use Prim.Native.Nat.{Ordering, compare}
use calod.Prelude.{ℕ, Bool, true, false, List, [], ◌∷◌, ◌++◌, Str, str, if◌then◌else◌}

-- What the code calls of other crates.
pub record Platform : Type 0 where
  pub sha256 : Str → List ℕ  -- `Sha256::digest`
  pub json_string : Str → Str  -- `serde_json::to_string` of a string
  pub uuid_hyphenated : ℕ → Str  -- how a `Uuid` is serialized

-- `serde_json::Value`. A number is known by the text of its `to_string`.
mutual
  pub data Value : Type 0 where
    null : Value
    bool : Bool → Value
    number : Str → Value
    string : Str → Value
    array : Items → Value
    object : Fields → Value

  pub data Items : Type 0 where
    nil : Items
    cons : Value → Items → Items

  pub data Fields : Type 0 where
    done : Fields
    field : Str → Value → Fields → Fields

-- The order of byte strings.
unfoldable pub str_leb : Str → Str → Bool
str_leb [] ys = true
str_leb (x ∷ xs) [] = false
str_leb (x ∷ xs) (y ∷ ys) = elim (compare x y) [
  | Ordering.lt ↦ true
  | Ordering.gt ↦ false
  | Ordering.eq ↦ str_leb xs ys
]

-- A key of an object, with what renders its value at the end of a buffer.
abbrev pub Entry : Type 0
Entry = Str × (Str → Str)

unfoldable pub insert_entry : Entry → List Entry → List Entry
insert_entry e [] = e ∷ []
insert_entry e (f ∷ fs) = if str_leb e.0 f.0 then e ∷ f ∷ fs else f ∷ insert_entry e fs

-- `keys.sort()`
unfoldable pub sort_entries : List Entry → List Entry
unfolding insert_entry str_leb
sort_entries [] = []
sort_entries (e ∷ es) = insert_entry e (sort_entries es)

-- A comma before every element but the first.
unfoldable pub comma : Bool → Str → Str
comma true out = out
comma false out = out ++ str ","

module _ (p : Platform) where
  -- The loop over the sorted keys.
  unfoldable pub render_entries : Bool → List Entry → Str → Str
  unfolding comma
  render_entries first [] out = out
  render_entries first ((k, v) ∷ es) out =
      render_entries false es (v ((comma first out ++ p.json_string k) ++ str ":"))

  unfoldable mutual
    unfolding sort_entries render_entries comma

    pub canonical_json_into : Value → Str → Str
    canonical_json_into null out = out ++ str "null"
    canonical_json_into (bool b) out = out ++ (if b then str "true" else str "false")
    canonical_json_into (number n) out = out ++ n
    canonical_json_into (string s) out = out ++ p.json_string s
    canonical_json_into (array xs) out = canonical_items true xs (out ++ str "[") ++ str "]"
    canonical_json_into (object fs) out =
        render_entries true (sort_entries (canonical_fields fs)) (out ++ str "{") ++ str "}"

    pub canonical_items : Bool → Items → Str → Str
    canonical_items first nil out = out
    canonical_items first (cons x xs) out =
        canonical_items false xs (canonical_json_into x (comma first out))

    pub canonical_fields : Fields → List Entry
    canonical_fields done = []
    canonical_fields (field k v fs) = (k, λ out. canonical_json_into v out) ∷ canonical_fields fs

  unfoldable pub canonical_json : Value → Str
  unfolding canonical_json_into
  canonical_json v = canonical_json_into v []
