-- ===== src/Tests/Json.antt =====
-- A JSON library for the concrete inputs: values as the calls that build them, printed in a prefix
-- code, which reads back.
use ojalvo_chat.Prelude.{
  ℕ, zero, suc, ◌+◌, ◌≤◌, ◌<◌, ◌≡◌, refl, ap, Bool, true, false, List, [], ◌∷◌, ◌++◌, Option, none,
  some, Text, length, str_eq, str_eq_iff, str_eq_refl, Bool-cases, inl, inr, if◌then◌else◌, arith,
}
use mathlib.Core.List.{map}
use ojalvo_chat.Cjson.{Cjson}
use ojalvo_chat.Cjson.Laws.{
  CjsonLaws, IsBuilt, created, extended, same_ignoring_case, tolower, or_else,
}

pub data Json : Type 0 where
  string : Text → Json
  object array : Json
  member : Json → Text → Json → Json
  item : Json → Json → Json

-- A text in front of the rest.
abbrev pub put_text : Text → List ℕ → List ℕ
put_text [] rest = 0 ∷ rest
put_text (b ∷ t) rest = suc b ∷ put_text t rest

abbrev pub put : Json → List ℕ → List ℕ
put (string t) rest = 1 ∷ put_text t rest
put object rest = 2 ∷ rest
put array rest = 3 ∷ rest
put (member j key value) rest = 4 ∷ put j (put_text key (put value rest))
put (item j value) rest = 5 ∷ put j (put value rest)

abbrev pub render : Json → Text
render j = put j []

unfoldable pub get_text : List ℕ → Option (Text × List ℕ)
get_text [] = none
get_text (zero ∷ rest) = some ([], rest)
get_text (suc b ∷ rest) = elim (get_text rest) [
  | none ↦ none
  | some (t, after) ↦ some (b ∷ t, after)
]

abbrev get_member :
    Json → Option (Text × List ℕ) → (List ℕ → Option (Json × List ℕ)) → Option (Json × List ℕ)
get_member j none read = none
get_member j (some (key, rest)) read = elim (read rest) [
  | none ↦ none
  | some (v, after) ↦ some (member j key v, after)
]

abbrev get_item : Json → Option (Json × List ℕ) → Option (Json × List ℕ)
get_item j none = none
get_item j (some (v, after)) = some (item j v, after)

unfoldable pub get : ℕ → List ℕ → Option (Json × List ℕ)
unfolding get_text
get zero bytes = none
get (suc fuel) [] = none
get (suc fuel) (zero ∷ rest) = none
get (suc fuel) (suc zero ∷ rest) = elim (get_text rest) [
  | none ↦ none
  | some (t, after) ↦ some (string t, after)
]
get (suc fuel) (suc (suc zero) ∷ rest) = some (object, rest)
get (suc fuel) (suc (suc (suc zero)) ∷ rest) = some (array, rest)
get (suc fuel) (suc (suc (suc (suc zero))) ∷ rest) = elim (get fuel rest) [
  | none ↦ none
  | some (j, after) ↦ get_member j (get_text after) (get fuel)
]
get (suc fuel) (suc (suc (suc (suc (suc n)))) ∷ rest) = elim (get fuel rest) [
  | none ↦ none
  | some (j, after) ↦ get_item j (get fuel after)
]

abbrev whole : Option (Json × List ℕ) → Option Json
whole (some (j, [])) = some j
whole o = none

unfoldable pub read : Text → Option Json
unfolding get
read t = whole (get (suc (length t)) t)

-- The fuel that a value takes.
abbrev depth : Json → ℕ
depth (string t) = 1
depth object = 1
depth array = 1
depth (member j key value) = suc (depth j + depth value)
depth (item j value) = suc (depth j + depth value)

get_text-put_text : (t : Text) (rest : List ℕ) → get_text (put_text t rest) ≡ some (t, rest)
unfolding get_text
get_text-put_text [] rest = refl
get_text-put_text (b ∷ t) rest = rw (get_text-put_text t rest, get_text) refl

length-put_text : (t : Text) (rest : List ℕ) → length rest < length (put_text t rest)
length-put_text [] rest = omega arith
length-put_text (b ∷ t) rest = omega (arith, length-put_text t rest)

depth_fits : (j : Json) (rest : List ℕ) → depth j + length rest ≤ length (put j rest)
depth_fits (string t) rest = omega (arith, length-put_text t rest)
depth_fits object rest = omega arith
depth_fits array rest = omega arith
depth_fits (member j key value) rest = omega (
  arith,
  depth_fits j (put_text key (put value rest)),
  length-put_text key (put value rest),
  depth_fits value rest,
)
depth_fits (item j value) rest = omega (arith, depth_fits j (put value rest), depth_fits value rest)

get-put :
    (j : Json) (fuel : ℕ) (rest : List ℕ) → depth j ≤ fuel → get fuel (put j rest) ≡ some (j, rest)
unfolding get
get-put (string t) zero rest h = absurd (omega arith)
get-put object zero rest h = absurd (omega arith)
get-put array zero rest h = absurd (omega arith)
get-put (member j key value) zero rest h = absurd (omega arith)
get-put (item j value) zero rest h = absurd (omega arith)
get-put (string t) (suc fuel) rest h = rw (get_text-put_text t rest, get) refl
get-put object (suc fuel) rest h = refl
get-put array (suc fuel) rest h = refl
get-put (member j key value) (suc fuel) rest h =
    rw
      (
        get-put j fuel (put_text key (put value rest)) (omega arith),
        get_text-put_text key (put value rest),
        get-put value fuel rest (omega arith),
        get,
      )
      refl
get-put (item j value) (suc fuel) rest h =
    rw (get-put j fuel (put value rest) (omega arith), get-put value fuel rest (omega arith), get)
      refl

read-render : (j : Json) → read (render j) ≡ some j
unfolding read
read-render j = ap whole (get-put j (suc (length (put j []))) [] (omega (arith, depth_fits j [])))

abbrev value_of : Json → Option Text
value_of (string t) = some t
value_of j = none

abbrev find_member : Json → Text → Option Json
find_member (member j key value) k =
    or_else (find_member j k) (if str_eq key k then some value else none)
find_member j k = none

abbrev drop_member : Json → Text → Json
drop_member (member j key value) k = if str_eq key k then j else member (drop_member j k) key value
drop_member j k = j

abbrev items : Json → List Json
items (item j value) = items j ++ value ∷ []
items j = []

abbrev object_like : Json → Bool
object_like object = true
object_like (member j key value) = object_like j
object_like j = false

abbrev array_like : Json → Bool
array_like array = true
array_like (item j value) = array_like j
array_like j = false

pub find-drop :
    (j : Json) (k n : Text) → str_eq k n ≡ false → find_member (drop_member j k) n ≡ find_member j n
find-drop (member j key value) k n h =
    ground (arith, find-drop j k n h, str_eq_iff key k, str_eq_iff key n, str_eq_iff k n)
find-drop (string t) k n h = refl
find-drop object k n h = refl
find-drop array k n h = refl
find-drop (item j value) k n h = refl

instance abbrev pub cjson_calls : Cjson
cjson_calls = record {
  Json = Json;
  create_object = object;
  create_array = array;
  create_string = string;
  add_item_to_object = member;
  add_item_to_array = item;
  duplicate = λ j. j;
  print = λ j. some (render j);
  parse = read;
  is_object = object_like;
  is_array = array_like;
  string_value = value_of;
  get_object_item = find_member;
  detach_item = λ j k. (find_member j k, drop_member j k);
  array_items = items;
}

pub printed_reads :
    (j : Json) (t : Text) → ◌≡◌ {A = Option Text} (some (render j)) (some t) → read t ≡ some j
printed_reads j t h = let e : render j ≡ t = cc in rw e at (read-render j)

pub built_objects : (j : Json) → IsBuilt j → object_like j ≡ true
built_objects _ created = refl
built_objects _ (extended k v b) = built_objects _ b

pub differs : (k n : Text) → same_ignoring_case k n ≡ false → str_eq k n ≡ false
differs k n h = elim (Bool-cases (str_eq k n)) [
  | inl y ↦
      let same : k ≡ n = (str_eq_iff k n).0 y in
      absurd (ground (arith, h, same, str_eq_refl (map tolower n)))
  | inr y ↦ y
]

instance abbrev pub cjson_laws : CjsonLaws
cjson_laws = record {
  Plain = λ d j. Unit {0};
  create_string-Plain = λ d t h. tt;
  create_object-Plain = λ d. tt;
  create_array-Plain = λ d. tt;
  add_item_to_object-Plain = λ d j k v h p q. tt;
  add_item_to_array-Plain = λ d j v p q. tt;
  parse-print = λ d j t n p h. printed_reads j t h;
  is_object-built = built_objects;
  is_array-create_array = refl;
  is_array-add = λ j v. refl;
  string_value-create_string = λ t. refl;
  get-create_object = λ n. refl;
  get-add = λ j k v n b. refl;
  array_items-create_array = refl;
  array_items-add = λ j v. refl;
  detach-item = λ j k b h. refl;
  detach-rest = λ j k n b h. find-drop j k n (differs k n h);
  duplicate_same = λ j. refl;
}
