-- ===== src/Json.antt =====
-- Decoded JSON, and what internal/gateway uses of Go's encoding/json: a document is the tree that it
-- decodes to, so that marshalling what was unmarshalled gives the same tree.
use trust_proxy.Base.{
  ℕ, String, Bool, List, [], ◌∷◌, map, Option, none, some, ◌≡◌, refl, ◌==◌, eq_iff, arith, Result,
  ok, err, if◌then◌else◌,
}

mutual
  pub data Json : Type 0 where
    null : Json
    bool : Bool → Json
    num : ℕ → Json
    str : String → Json
    arr : Items → Json
    obj : Fields → Json

  pub data Items : Type 0 where
    nil : Items
    cons : Json → Items → Items

  pub data Fields : Type 0 where
    end : Fields
    field : String → Json → Fields → Fields

-- `malformed` is an error of json.Unmarshal; `nil_map` is the panic of a write to a nil map.
pub data Error : Type 0 where
  malformed nil_map : Error

abbrev pub items : Items → List Json
items nil = []
items (cons v vs) = v ∷ items vs

abbrev pub of_items : List Json → Items
of_items [] = nil
of_items (v ∷ vs) = cons v (of_items vs)

-- A JSON array, and an array of texts.
abbrev pub array : List Json → Json
array vs = arr (of_items vs)

abbrev pub texts : List String → Json
texts ss = array (map str ss)

pub items-of_items : (vs : List Json) → items (of_items vs) ≡ vs
items-of_items [] = refl
items-of_items (v ∷ vs) = λ i. v ∷ items-of_items vs i

unfoldable pub find : String → Fields → Option Json
find k end = none
find k (field j v fs) = if j == k then some v else find k fs

unfoldable pub put : String → Json → Fields → Fields
put k v end = field k v end
put k v (field j w fs) = if j == k then field k v fs else field j w (put k v fs)

pub find-put :
    (k j : String) (v : Json) (fs : Fields)
    → find j (put k v fs) ≡ (if k == j then some v else find j fs)
unfolding find put
find-put k j v end = refl
find-put k j v (field i w fs) =
    ground (arith, eq_iff k j, eq_iff i k, eq_iff i j, find-put k j v fs)

-- A Go map[string]json.RawMessage; `none` is the nil map.
abbrev pub Object : Type 0
Object = Option Fields

-- json.Unmarshal into a map.
abbrev pub read_object : Json → Result Error Object
read_object null = ok none
read_object (obj fs) = ok (some fs)
read_object _ = err malformed

abbrev pub write_object : Object → Json
write_object none = null
write_object (some fs) = obj fs

abbrev pub get : String → Object → Option Json
get k none = none
get k (some fs) = find k fs

-- m[k] = v
abbrev pub set : String → Json → Object → Result Error Object
set k v none = err nil_map
set k v (some fs) = ok (some (put k v fs))

-- json.Unmarshal into a slice, if the key is there.
abbrev pub read_list : Option Json → Result Error (List Json)
read_list none = ok []
read_list (some null) = ok []
read_list (some (arr vs)) = ok (items vs)
read_list (some _) = err malformed

-- The text at a key of a decoded object; "" if there is none (a failed decoding is ignored).
abbrev pub as_text : Option Json → String
as_text (some (str s)) = s
as_text _ = ""

abbrev pub fields : Json → Fields
fields (obj fs) = fs
fields _ = end

unfoldable pub text_at : String → Json → String
unfolding find
text_at k v = as_text (find k (fields v))
