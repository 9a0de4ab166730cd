-- ===== src/Base/Json.antt =====
-- JSON values as Python holds them after `json.loads`: `d.get(k)`, truth, `str` and `isinstance`.
--
-- Numbers are integers: `negative n` is -(n + 1). `repr`, what `str` prints of a value that is no
-- text, is an argument where the code reads it.
use text.Mathlib.Text.{starts_with}
use canon_systems.Base.{
  ℕ, suc, String, Bool, true, false, not, ◌||◌, Option, none, some, List, [], ◌∷◌, str_eq, eqb,
  non_empty, if◌then◌else◌,
}

mutual
  pub data Json : Type 0 where
    null : Json
    boolean : Bool → Json
    number negative : ℕ → Json
    string : String → Json
    array : Elements → Json
    object : Members → Json

  pub data Elements : Type 0 where
    no_elements : Elements
    element : Json → Elements → Elements

  pub data Members : Type 0 where
    no_members : Members
    member : String → Json → Members → Members

-- `d.get(k)`: a missing key is `None`, as a null is.
abbrev pub get : Members → String → Json
get no_members k = null
get (member j v ms) k = let rest = get ms k in if str_eq j k then v else rest

-- `k in d`.
abbrev pub has : Members → String → Bool
has no_members k = false
has (member j v ms) k = str_eq j k || has ms k

-- `bool(v)`.
abbrev pub truth : Json → Bool
truth null = false
truth (boolean b) = b
truth (number n) = not (eqb n 0)
truth (negative n) = true
truth (string s) = non_empty s
truth (array no_elements) = false
truth (array (element v vs)) = true
truth (object no_members) = false
truth (object (member k v ms)) = true

abbrev pub is_null : Json → Bool
is_null null = true
is_null _ = false

-- The elements of a list; any other value is taken as none.
abbrev pub elements_of : Json → Elements
elements_of (array vs) = vs
elements_of _ = no_elements

abbrev pub listed : Elements → List Json
listed no_elements = []
listed (element v vs) = v ∷ listed vs

abbrev pub text_of : Json → Option String
text_of (string s) = some s
text_of _ = none

abbrev pub object_of : Json → Option Members
object_of (object ms) = some ms
object_of _ = none

abbrev pub count_elements : Elements → ℕ
count_elements no_elements = 0
count_elements (element v vs) = suc (count_elements vs)

-- `str(v)`, and `str(v or "")`.
abbrev pub str_of : (Json → String) → Json → String
str_of repr (string s) = s
str_of repr v = repr v

abbrev pub str_or_empty : (Json → String) → Json → String
str_or_empty repr v = if truth v then str_of repr v else ""

-- `t in s` of two texts.
unfoldable pub contains_text : String → String → Bool
contains_text String.[] t = starts_with String.[] t
contains_text (String.◌∷◌ c s) t =
    let rest = contains_text s t in starts_with (String.◌∷◌ c s) t || rest
