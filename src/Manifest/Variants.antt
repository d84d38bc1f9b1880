-- ===== src/Manifest/Variants.antt =====
-- `_parse_variants` of skivolve/manifest.py.
use mathlib.Core.List.{map}
use skivolve.Base.{
  ◌≤◌, length, is_none, not, String, true, none, some, List, [], ◌∷◌, ◌≡◌, refl, ◌==◌, string_eq,
  if◌then◌else◌, contains, distinct, Result, ok, err, ◌>>=◌, ◌>>◌, traverse, All, Ensures,
  ensures_rules, Ensures-pure, Ensures-err, Ensures-bind, traverse-All,
}
use skivolve.Json.{Value, null, bool, int, float, str, arr, obj, get_or_null}
use skivolve.Manifest.Types.{FilePath, PathLibrary, VariantSpec}
use skivolve.Manifest.Values.{
  object, text, any_text, is_identifier, list, unique_ids, text-fits, read_list-long, distinct_ids,
}
use skivolve.Manifest.Paths.{root_path}

abbrev pub variant_ids : List VariantSpec → List String
variant_ids variants = map (λ v. v.id) variants

unfoldable pub without_skill_variant : Value → Result VariantSpec
without_skill_variant item = do
  data' ← object item ("id" ∷ "kind" ∷ []) ("id" ∷ "kind" ∷ [])
  id ← text (get_or_null "id" data') is_identifier
  ok (record { id = id; kind = "without_skill"; git_ref = none; root = none; source_ref = none })

unfoldable pub git_ref_variant : Value → Result VariantSpec
git_ref_variant item = do
  data' ← object item ("id" ∷ "kind" ∷ "git_ref" ∷ []) ("id" ∷ "kind" ∷ "git_ref" ∷ [])
  id ← text (get_or_null "id" data') is_identifier
  git_ref ← text (get_or_null "git_ref" data') any_text
  ok (record { id = id; kind = "git_ref"; git_ref = some git_ref; root = none; source_ref = none })

abbrev worktree_keys : List String
worktree_keys = "id" ∷ "kind" ∷ "root" ∷ "source_ref" ∷ []

module _ (paths : PathLibrary) where
  unfoldable pub worktree_variant : FilePath → Value → Result VariantSpec
  worktree_variant suite_root item = do
    data' ← object item worktree_keys worktree_keys
    id ← text (get_or_null "id" data') is_identifier
    root ← root_path paths suite_root (get_or_null "root" data')
    source_ref ← text (get_or_null "source_ref" data') any_text
    ok (record {
      id = id;
      kind = "worktree";
      git_ref = none;
      root = some root;
      source_ref = some source_ref;
    })

  -- One turn of the loop.
  unfoldable pub parse_variant : FilePath → Value → Result VariantSpec
  parse_variant suite_root (obj fs) = do
    kind ← text (get_or_null "kind" fs) any_text
    if kind == "without_skill"
        then without_skill_variant (obj fs)
        else if kind == "git_ref"
        then git_ref_variant (obj fs)
        else if kind == "worktree"
        then worktree_variant suite_root (obj fs)
        else err "kind has unsupported value"
  parse_variant suite_root _ = err "must be an object"

  -- `_parse_variants`
  unfoldable pub parse_variants : FilePath → Value → Result (List VariantSpec)
  unfolding unique_ids
  parse_variants suite_root raw = do
    items ← list raw 2
    variants ← traverse (parse_variant suite_root) items
    unique_ids (variant_ids variants)
    ok variants

-- A variant that is read: an identifier, and the fields of its kind, and no others.
pub record IsVariant (v : VariantSpec) : Type 0 where
  pub identifier : is_identifier v.id ≡ true
  pub known_kind : contains v.kind ("without_skill" ∷ "git_ref" ∷ "worktree" ∷ []) ≡ true
  pub git_ref : is_none v.git_ref ≡ not (v.kind == "git_ref")
  pub root : is_none v.root ≡ not (v.kind == "worktree")
  pub source_ref : is_none v.source_ref ≡ not (v.kind == "worktree")

identifier_of : (v : Value) (s : String) → text v is_identifier ≡ ok s → is_identifier s ≡ true
identifier_of v s e = ((text-fits v is_identifier).at s e).1

given_without_skill :
    (id : String)
    → is_identifier id ≡ true
    → IsVariant
        (record { id = id; kind = "without_skill"; git_ref = none; root = none; source_ref = none })
unfolding contains
given_without_skill id h = record {
  identifier = h;
  known_kind = refl;
  git_ref = refl;
  root = refl;
  source_ref = refl;
}

given_git_ref :
    (id r : String)
    → is_identifier id ≡ true
    → IsVariant
        (record { id = id; kind = "git_ref"; git_ref = some r; root = none; source_ref = none })
unfolding contains
given_git_ref id r h = record {
  identifier = h;
  known_kind = refl;
  git_ref = refl;
  root = refl;
  source_ref = refl;
}

given_worktree :
    (id : String) (p : FilePath) (r : String)
    → is_identifier id ≡ true
    → IsVariant
        (record { id = id; kind = "worktree"; git_ref = none; root = some p; source_ref = some r })
unfolding contains
given_worktree id p r h = record {
  identifier = h;
  known_kind = refl;
  git_ref = refl;
  root = refl;
  source_ref = refl;
}

without_skill_variant-IsVariant : (v : Value) → Ensures IsVariant (without_skill_variant v)
unfolding without_skill_variant
without_skill_variant-IsVariant v =
    search (ensures_rules, given_without_skill, identifier_of) depth 9

git_ref_variant-IsVariant : (v : Value) → Ensures IsVariant (git_ref_variant v)
unfolding git_ref_variant
git_ref_variant-IsVariant v = search (ensures_rules, given_git_ref, identifier_of) depth 10

-- What `_parse_variants` returns: at least two variants with distinct ids, each sound.
pub record AreVariants (vs : List VariantSpec) : Type 0 where
  pub two : 2 ≤ length vs
  pub ids_distinct : distinct (variant_ids vs) ≡ true
  pub each : All IsVariant vs

module _ (paths : PathLibrary) where
  worktree_variant-IsVariant :
      (root : FilePath) (v : Value) → Ensures IsVariant (worktree_variant paths root v)
  unfolding worktree_variant
  worktree_variant-IsVariant root v = search (ensures_rules, given_worktree, identifier_of) depth 12

  parse_variant-IsVariant :
      (root : FilePath) (v : Value) → Ensures IsVariant (parse_variant paths root v)
  unfolding parse_variant
  parse_variant-IsVariant root (obj fs) =
      search
        (
          ensures_rules, without_skill_variant-IsVariant, git_ref_variant-IsVariant,
          worktree_variant-IsVariant,
        )
        depth 9
  parse_variant-IsVariant root null = Ensures-err "must be an object"
  parse_variant-IsVariant root (bool b) = Ensures-err "must be an object"
  parse_variant-IsVariant root (int n) = Ensures-err "must be an object"
  parse_variant-IsVariant root (float x) = Ensures-err "must be an object"
  parse_variant-IsVariant root (str s) = Ensures-err "must be an object"
  parse_variant-IsVariant root (arr vs) = Ensures-err "must be an object"

  pub parse_variants-Ensures :
      (root : FilePath) (raw : Value) → Ensures AreVariants (parse_variants paths root raw)
  unfolding parse_variants
  parse_variants-Ensures root raw = Ensures-bind (list raw 2) _ λ items listed.
      Ensures-bind (traverse (parse_variant paths root) items) _ λ vs read.
        Ensures-bind (unique_ids (variant_ids vs)) _ λ _ unique. Ensures-pure vs (record {
          two = read_list-long raw 2 (parse_variant paths root) items vs listed read;
          ids_distinct = distinct_ids (variant_ids vs) unique;
          each =
              (traverse-All (parse_variant paths root) (parse_variant-IsVariant root) items).at vs
                read;
        })

  -- The variants that `_parse_variants` returns are at least two, their ids are identifiers and
  -- distinct, and each has the fields of its kind and no others.
  pub parse_variants-AreVariants :
      (root : FilePath) (raw : Value) (vs : List VariantSpec)
      → parse_variants paths root raw ≡ ok vs
      → AreVariants vs
  parse_variants-AreVariants root raw vs e = (parse_variants-Ensures root raw).at vs e
