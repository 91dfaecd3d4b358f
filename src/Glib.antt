-- ===== src/Glib.antt =====
-- GLib's GHashTable, of which the server uses the calls below. GLib is not part of the
-- repository, so the table is a parameter, with what GLib documents of it as laws. `equal` is the
-- key equality function that `g_hash_table_new` is given (g_str_equal, g_direct_equal).
pub mod Model
use ojalvo_chat.Prelude.{
  ℕ, ◌≡◌, Bool, List, [], ◌∷◌, Option, none, some, Text, str_eq, ◌==◌, if◌then◌else◌,
}

module _ {K V : Type 0} where
  -- The value that the first pair with the key holds.
  abbrev pub find_key : (K → K → Bool) → List (K × V) → K → Option V
  find_key equal [] k = none
  find_key equal ((j, v) ∷ r) k = if equal j k then some v else find_key equal r k

  -- No key stands in two pairs.
  abbrev pub Distinct : (K → K → Bool) → List (K × V) → Type 0
  Distinct equal [] = Unit {0}
  Distinct equal ((j, v) ∷ r) = (find_key equal r j ≡ none) × Distinct equal r

pub record GHashTable (K : Type 0) (equal : K → K → Bool) : Type 1 where
  pub Table : Type 0 → Type 0
  pub new : {V : Type 0} → Table V
  pub lookup : {V : Type 0} → Table V → K → Option V
  pub insert : {V : Type 0} → Table V → K → V → Table V
  pub remove : {V : Type 0} → Table V → K → Table V
  -- The pairs in the order of `g_hash_table_foreach`, which GLib leaves open.
  pub entries : {V : Type 0} → Table V → List (K × V)
  pub lookup-new : {V : Type 0} (k : K) → lookup (new {V = V}) k ≡ none
  pub lookup-insert :
      {V : Type 0} (t : Table V) (k : K) (v : V) (j : K)
      → lookup (insert t k v) j ≡ (if equal k j then some v else lookup t j)
  pub lookup-remove :
      {V : Type 0} (t : Table V) (k j : K)
      → lookup (remove t k) j ≡ (if equal k j then none else lookup t j)
  -- A traversal meets the pairs that lookups find, and each key once.
  pub lookup-entries :
      {V : Type 0} (t : Table V) (k : K) → find_key equal (entries t) k ≡ lookup t k
  pub entries-Distinct : {V : Type 0} (t : Table V) → Distinct equal (entries t)

-- The two kinds of table that the server makes: by text and by number.
pub record Glib : Type 1 where
  pub strings : GHashTable Text str_eq
  pub ints : GHashTable ℕ ◌==◌
