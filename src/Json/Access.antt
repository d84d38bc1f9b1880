-- ===== src/Json/Access.antt =====
-- Reading a dict: `d.get(k)`, `k in d` and tests on the set of its keys.
use skivolve.Base.{
  String, Bool, true, false, ◌&&◌, Option, none, some, List, ◌==◌, string_eq, if◌then◌else◌, subset,
}
use skivolve.Json.Document.{Value, null, Fields, end, field, names}

unfoldable pub get : String → Fields → Option Value
get k end = none
get k (field j v fs) = if k == j then some v else get k fs

-- `d.get(k)` where a missing key reads as None
unfoldable pub get_or_null : String → Fields → Value
unfolding get
get_or_null k fs = elim (get k fs) [ none ↦ null | some v ↦ v ]

unfoldable pub has : String → Fields → Bool
unfolding get
has k fs = elim (get k fs) [ none ↦ false | some _ ↦ true ]

-- `set(d) == {...}`
unfoldable pub has_exactly : List String → Fields → Bool
unfolding names subset
has_exactly ks fs = subset ks (names fs) && subset (names fs) ks

-- `d.get(k, default)`
unfoldable pub get_or : String → Value → Fields → Value
unfolding get
get_or k default fs = elim (get k fs) [ none ↦ default | some v ↦ v ]
