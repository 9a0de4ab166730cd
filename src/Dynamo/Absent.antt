-- ===== src/Dynamo/Absent.antt =====
-- The condition `attribute_not_exists(pk) AND attribute_not_exists(sk)` of a put: it holds where there
-- is no row.
use canon_systems.Base.{◌≡◌, refl, true, false, Option, none, some}
use canon_systems.Dynamo.Expressions.{pk_not_exists, sk_not_exists, and_also, passes}

pub passes-none :
    {R : Type 0} (o : Option R) → passes (and_also pk_not_exists sk_not_exists) o ≡ true → o ≡ none
passes-none none h = refl
passes-none (some r) h = cc h

pub passes-some :
    {R : Type 0} (o : Option R)
    → passes (and_also pk_not_exists sk_not_exists) o ≡ false
    → (r : R) × (o ≡ some r)
passes-some none h = cc h
passes-some (some r) h = (r, refl)
