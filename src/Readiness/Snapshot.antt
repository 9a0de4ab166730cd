-- ===== src/Readiness/Snapshot.antt =====
-- `_snapshot_safe` of src/canon_systems/readiness.py, which strips the packet bodies from a row.
use canon_systems.Base.{
  String, ◌≡◌, refl, ap, inl, inr, Bool, true, false, not, ◌&&◌, ◌||◌, str_eq, if◌then◌else◌,
  Bool-cases,
}
use canon_systems.Base.Json.{
  Json, Elements, Members, null, boolean, number, negative, string, array, object, no_elements,
  element, no_members, member,
}

abbrev pub is_body_key : String → Bool
is_body_key k = str_eq k "body" || str_eq k "body_base64" || str_eq k "content"

-- `_snapshot_safe`: the entries with a body key are left out, at every depth.
unfoldable mutual
  pub snapshot_safe : Json → Json
  snapshot_safe (object ms) = object (snapshot_members ms)
  snapshot_safe (array vs) = array (snapshot_elements vs)
  snapshot_safe null = null
  snapshot_safe (boolean b) = boolean b
  snapshot_safe (number n) = number n
  snapshot_safe (negative n) = negative n
  snapshot_safe (string s) = string s

  pub snapshot_members : Members → Members
  snapshot_members no_members = no_members
  snapshot_members (member k v ms) =
      let rest = snapshot_members ms in
      let kept = snapshot_safe v in if not (is_body_key k) then member k kept rest else rest

  pub snapshot_elements : Elements → Elements
  snapshot_elements no_elements = no_elements
  snapshot_elements (element v vs) = element (snapshot_safe v) (snapshot_elements vs)

unfoldable mutual
  -- No object has a body key, at any depth.
  pub body_free : Json → Bool
  body_free (object ms) = members_free ms
  body_free (array vs) = elements_free vs
  body_free null = true
  body_free (boolean b) = true
  body_free (number n) = true
  body_free (negative n) = true
  body_free (string s) = true

  pub members_free : Members → Bool
  members_free no_members = true
  members_free (member k v ms) = not (is_body_key k) && (body_free v && members_free ms)

  pub elements_free : Elements → Bool
  elements_free no_elements = true
  elements_free (element v vs) = body_free v && elements_free vs

and_both : (a b : Bool) → a && b ≡ true → (a ≡ true) × (b ≡ true)
and_both true b h = (refl, h)
and_both false b h = cc

and_all : (a b c : Bool) → not a && (b && c) ≡ true → (a ≡ false) × (b ≡ true) × (c ≡ true)
and_all true b c h = cc
and_all false b c h = (refl, (and_both b c h).0, (and_both b c h).1)

mutual
  unfolding body_free members_free elements_free snapshot_safe snapshot_members snapshot_elements

  body_free-snapshot_safe : (v : Json) → body_free (snapshot_safe v) ≡ true
  body_free-snapshot_safe (object ms) = members_free-snapshot_members ms
  body_free-snapshot_safe (array vs) = elements_free-snapshot_elements vs
  body_free-snapshot_safe null = refl
  body_free-snapshot_safe (boolean b) = refl
  body_free-snapshot_safe (number n) = refl
  body_free-snapshot_safe (negative n) = refl
  body_free-snapshot_safe (string s) = refl

  members_free-snapshot_members : (ms : Members) → members_free (snapshot_members ms) ≡ true
  members_free-snapshot_members no_members = refl
  members_free-snapshot_members (member k v ms) = elim (Bool-cases (is_body_key k)) [
    | inl body ↦ rw (snapshot_members, body) (members_free-snapshot_members ms)
    | inr kept ↦
        rw (snapshot_members, kept, members_free, kept, body_free-snapshot_safe v)
          (members_free-snapshot_members ms)
  ]

  elements_free-snapshot_elements : (vs : Elements) → elements_free (snapshot_elements vs) ≡ true
  elements_free-snapshot_elements no_elements = refl
  elements_free-snapshot_elements (element v vs) =
      rw (body_free-snapshot_safe v) (elements_free-snapshot_elements vs)

mutual
  unfolding body_free members_free elements_free snapshot_safe snapshot_members snapshot_elements

  snapshot_safe_keeps : (v : Json) → body_free v ≡ true → snapshot_safe v ≡ v
  snapshot_safe_keeps (object ms) h = ap object (snapshot_members_keeps ms h)
  snapshot_safe_keeps (array vs) h = ap array (snapshot_elements_keeps vs h)
  snapshot_safe_keeps null h = refl
  snapshot_safe_keeps (boolean b) h = refl
  snapshot_safe_keeps (number n) h = refl
  snapshot_safe_keeps (negative n) h = refl
  snapshot_safe_keeps (string s) h = refl

  snapshot_members_keeps : (ms : Members) → members_free ms ≡ true → snapshot_members ms ≡ ms
  snapshot_members_keeps no_members h = refl
  snapshot_members_keeps (member k v ms) h =
      let (kept, free, rest) = and_all (is_body_key k) (body_free v) (members_free ms) h in
      rw (snapshot_members, kept, snapshot_safe_keeps v free, snapshot_members_keeps ms rest)

  snapshot_elements_keeps : (vs : Elements) → elements_free vs ≡ true → snapshot_elements vs ≡ vs
  snapshot_elements_keeps no_elements h = refl
  snapshot_elements_keeps (element v vs) h =
      let (free, rest) = and_both (body_free v) (elements_free vs) h in
      rw (snapshot_elements, snapshot_safe_keeps v free, snapshot_elements_keeps vs rest)

-- A snapshot has no body key at any depth, and a value without one is its own snapshot.
pub snapshot_safe_lem :
    (v : Json) → (body_free (snapshot_safe v) ≡ true) × (body_free v ≡ true → snapshot_safe v ≡ v)
snapshot_safe_lem v = (body_free-snapshot_safe v, snapshot_safe_keeps v)
