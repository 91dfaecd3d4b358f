-- ===== src/Cjson/Laws.antt =====
-- What cJSON documents of the calls that the server makes, for the values that those calls build:
-- objects and arrays of strings, nested to a depth that cJSON reads.
use ojalvo_chat.Prelude.{
  ℕ, suc, ◌+◌, ◌≤◌, ◌<◌, leb, ◌&&◌, ◌≡◌, Bool, true, false, [], ◌∷◌, ◌++◌, All, Option, none, some,
  Text, str_eq, if◌then◌else◌,
}
use mathlib.Core.List.{map}
use ojalvo_chat.Cjson.{Cjson}

-- The bytes of a C string: none is zero.
abbrev pub IsCString : Text → Type 0
IsCString = All λ b. (0 < b) × (b < 256)

abbrev pub or_else {ℓ} : {A : Type ℓ} → Option A → Option A → Option A
or_else none y = y
or_else (some x) y = some x

-- `tolower` of the C locale.
abbrev pub tolower : ℕ → ℕ
tolower b = if leb 65 b && leb b 90 then b + 32 else b

-- What calls that do not look at case take for one name.
abbrev pub same_ignoring_case : Text → Text → Bool
same_ignoring_case k n = str_eq (map tolower k) (map tolower n)

-- CJSON_NESTING_LIMIT
abbrev pub nesting_limit : ℕ
nesting_limit = 1000

-- An object to which nothing was added but items with a name.
pub data IsBuilt ⦃C : Cjson⦄ : C.Json → Type 1 where
  created : IsBuilt C.create_object
  extended : {j : C.Json} (k : Text) (v : C.Json) → IsBuilt j → IsBuilt (C.add_item_to_object j k v)

pub record CjsonLaws ⦃C : Cjson⦄ : Type 1 where
  -- A value of objects, arrays and strings that is nested at most so deep.
  pub Plain : ℕ → C.Json → Type 0
  pub create_string-Plain : (d : ℕ) (t : Text) → IsCString t → Plain d (C.create_string t)
  pub create_object-Plain : (d : ℕ) → Plain (suc d) C.create_object
  pub create_array-Plain : (d : ℕ) → Plain (suc d) C.create_array
  pub add_item_to_object-Plain :
      (d : ℕ) (j : C.Json) (k : Text) (v : C.Json)
      → IsCString k
      → Plain (suc d) j
      → Plain d v
      → Plain (suc d) (C.add_item_to_object j k v)
  pub add_item_to_array-Plain :
      (d : ℕ) (j v : C.Json) → Plain (suc d) j → Plain d v → Plain (suc d) (C.add_item_to_array j v)
  -- What was printed reads back.
  pub parse-print :
      (d : ℕ) (j : C.Json) (t : Text)
      → d ≤ nesting_limit
      → Plain d j
      → C.print j ≡ some t
      → C.parse t ≡ some j
  pub is_object-built : (j : C.Json) → IsBuilt j → C.is_object j ≡ true
  pub is_array-create_array : C.is_array C.create_array ≡ true
  pub is_array-add : (j v : C.Json) → C.is_array (C.add_item_to_array j v) ≡ C.is_array j
  pub string_value-create_string : (t : Text) → C.string_value (C.create_string t) ≡ some t
  -- In an object the first item of a name is found; a new item goes to the end.
  pub get-create_object : (n : Text) → C.get_object_item C.create_object n ≡ none
  pub get-add :
      (j : C.Json) (k : Text) (v : C.Json) (n : Text)
      → IsBuilt j
      → C.get_object_item (C.add_item_to_object j k v) n
        ≡ or_else (C.get_object_item j n) (if str_eq k n then some v else none)
  pub array_items-create_array : C.array_items C.create_array ≡ []
  pub array_items-add :
      (j v : C.Json) → C.array_items (C.add_item_to_array j v) ≡ C.array_items j ++ v ∷ []
  -- cJSON_DetachItemFromObject does not look at case: it finds what a search by the name finds if no
  -- item has a name that differs in case only, and items of other names stay.
  pub detach-item :
      (j : C.Json) (k : Text)
      → IsBuilt j
      → ((n : Text)
          → same_ignoring_case k n ≡ true
          → str_eq k n ≡ false
          → C.get_object_item j n ≡ none)
      → (C.detach_item j k).0 ≡ C.get_object_item j k
  pub detach-rest :
      (j : C.Json) (k n : Text)
      → IsBuilt j
      → same_ignoring_case k n ≡ false
      → C.get_object_item (C.detach_item j k).1 n ≡ C.get_object_item j n
  pub duplicate_same : (j : C.Json) → C.duplicate j ≡ j
