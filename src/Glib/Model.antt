-- ===== src/Glib/Model.antt =====
-- A hash table that meets GLib's laws, for the concrete instances: a list with the newest first.
use ojalvo_chat.Prelude.{
  ◌≡◌, refl, Bool, true, List, [], ◌∷◌, none, str_eq, str_eq_iff, ◌==◌, ==_iff, if◌then◌else◌,
  arith, ◌↔◌,
}
use ojalvo_chat.Glib.{GHashTable, Glib, find_key, Distinct}

module _ {K : Type 0} (equal : K → K → Bool)
    (equal_iff : (j k : K) → (equal j k ≡ true) ↔ (j ≡ k)) where
  abbrev without : {V : Type 0} → List (K × V) → K → List (K × V)
  without [] k = []
  without ((j, v) ∷ r) k = let rest = without r k in if equal j k then rest else (j, v) ∷ rest

  -- The pairs that no newer pair hides.
  abbrev visible : {V : Type 0} → List (K × V) → List (K × V)
  visible [] = []
  visible ((j, v) ∷ r) = (j, v) ∷ without (visible r) j

  pub find_key-without :
      {V : Type 0} (l : List (K × V)) (k j : K)
      → find_key equal (without l k) j ≡ (if equal k j then none else find_key equal l j)
  find_key-without [] k j = ground arith
  find_key-without ((i, v) ∷ r) k j =
      ground (arith, find_key-without r k j, equal_iff i k, equal_iff i j, equal_iff k j)

  pub find_key-visible :
      {V : Type 0} (l : List (K × V)) (k : K) → find_key equal (visible l) k ≡ find_key equal l k
  find_key-visible [] k = refl
  find_key-visible ((j, v) ∷ r) k =
      ground (arith, find_key-visible r k, find_key-without (visible r) j k)

  without-Distinct :
      {V : Type 0} (l : List (K × V)) (k : K) → Distinct equal l → Distinct equal (without l k)
  without-Distinct [] k h = tt
  without-Distinct ((j, v) ∷ r) k h =
      ground (arith, without-Distinct r k h.1, find_key-without r k j)

  pub visible-Distinct : {V : Type 0} (l : List (K × V)) → Distinct equal (visible l)
  visible-Distinct [] = tt
  visible-Distinct ((j, v) ∷ r) = (
    ground (arith, find_key-without (visible r) j j, equal_iff j j),
    without-Distinct (visible r) j (visible-Distinct r),
  )

  abbrev list_table : GHashTable K equal
  list_table = record {
    Table = λ V. List (K × V);
    new = [];
    lookup = find_key equal;
    insert = λ t k v. (k, v) ∷ t;
    remove = without;
    entries = visible;
    lookup-new = λ k. refl;
    lookup-insert = λ t k v j. refl;
    lookup-remove = find_key-without;
    lookup-entries = find_key-visible;
    entries-Distinct = visible-Distinct;
  }

abbrev pub list_glib : Glib
list_glib = record { strings = list_table str_eq str_eq_iff; ints = list_table ◌==◌ ==_iff }
