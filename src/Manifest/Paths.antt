-- ===== src/Manifest/Paths.antt =====
-- The readers of paths in skivolve/manifest.py.
use skivolve.Base.{
  ℕ, String, Bool, true, false, ◌&&◌, ◌||◌, not, Option, none, some, List, [], ◌∷◌, ◌≡◌, ◌==◌,
  string_eq, nat_eq, ltb, any, contains, Result, ok, ◌>>=◌, ◌>>◌, raise_if, Ensures, ensures_rules,
  Ensures-bind, Ensures-guard, Ensures-pure, Ensures-err, Ensures-if, arith, refl, not-false,
}
use skivolve.Base.Text.{codes, is_empty_text}
use skivolve.Json.{Value, null, bool, int, float, str, arr, obj}
use skivolve.Manifest.Types.{FilePath, PathLibrary}
use skivolve.Manifest.Values.{text, any_text}

-- The kinds that `_suite_path` is asked for.
pub data PathKind : Type 0 where
  file directory : PathKind

unfoldable pub starts_with_dot_slash : List ℕ → Bool
starts_with_dot_slash (a ∷ b ∷ _) = a == b'.' && b == b'/'
starts_with_dot_slash _ = false

unfoldable pub starts_with_slash : List ℕ → Bool
starts_with_slash (a ∷ _) = a == b'/'
starts_with_slash [] = false

unfoldable pub ends_with_slash : List ℕ → Bool
ends_with_slash [] = false
ends_with_slash (a ∷ []) = a == b'/'
ends_with_slash (a ∷ b ∷ cs) = ends_with_slash (b ∷ cs)

unfoldable pub has_double_slash : List ℕ → Bool
has_double_slash (a ∷ b ∷ cs) = a == b'/' && b == b'/' || has_double_slash (b ∷ cs)
has_double_slash _ = false

-- The spellings that a canonical relative path may not have.
unfoldable pub noncanonical_spelling : String → Bool
unfolding codes starts_with_dot_slash ends_with_slash has_double_slash
noncanonical_spelling raw =
    starts_with_dot_slash (codes raw)
    || has_double_slash (codes raw)
    || ends_with_slash (codes raw)
    || any (λ c. c == 92) (codes raw)
    || any (λ c. ltb c 32) (codes raw)

text-str : (value : Value) → Ensures (λ raw. value ≡ str raw) (text value any_text)
unfolding text
text-str (str s) = Ensures-if (is_empty_text s) _ _ (λ _. Ensures-err _) λ _. Ensures-pure s refl
text-str null = Ensures-err _
text-str (bool b) = Ensures-err _
text-str (int n) = Ensures-err _
text-str (float x) = Ensures-err _
text-str (arr vs) = Ensures-err _
text-str (obj fs) = Ensures-err _

module _ (paths : PathLibrary) where
  open paths use {
    is_absolute, join, resolve, is_relative_to, is_symlink, is_file, is_dir, as_posix, parts,
  }

  unfoldable pub right_kind : PathKind → FilePath → FilePath → Bool
  right_kind file logical resolved = not (is_symlink logical) && is_file resolved
  right_kind directory logical resolved = not (is_symlink logical) && is_dir resolved

  -- `_suite_path`
  unfoldable pub suite_path : FilePath → Value → PathKind → Result FilePath
  unfolding right_kind
  suite_path root value kind = do
    raw ← text value any_text
    raise_if (is_absolute raw) "must be relative to the suite root"
    let logical = join root raw
    let resolved = resolve logical
    raise_if (not (is_relative_to resolved root)) "escapes the suite root"
    raise_if (not (right_kind kind logical resolved)) "is not of the required kind"
    ok resolved

  -- `_suite_protocol_lock`
  unfoldable pub suite_protocol_lock : FilePath → Value → Result FilePath
  unfolding starts_with_slash codes
  suite_protocol_lock root value = do
    raw ← text value any_text
    raise_if
        (not (as_posix raw == raw) || starts_with_slash (codes raw) || contains ".." (parts raw))
        "must be a canonical suite-relative POSIX path"
    suite_path root value file

  unfoldable pub traverses_symlink : FilePath → List String → Bool
  traverses_symlink logical [] = false
  traverses_symlink logical (part ∷ rest) =
      is_symlink (join logical part) || traverses_symlink (join logical part) rest

  -- The part of `_shared_verifier_directory` and `_suite_profile_directory` that walks a path.
  unfoldable pub contained_directory : FilePath → String → Result FilePath
  unfolding traverses_symlink
  contained_directory root raw = do
    raise_if (traverses_symlink root (parts raw)) "must not traverse a symlink"
    let resolved = resolve (join root raw)
    raise_if (not (is_relative_to resolved root) || not (is_dir resolved))
        "must name a contained directory"
    ok resolved

  -- `_suite_profile_directory`
  unfoldable pub suite_profile_directory : FilePath → Value → Result FilePath
  unfolding contained_directory starts_with_dot_slash codes
  suite_profile_directory root value = do
    raw ← text value any_text
    raise_if
        (is_absolute raw
          || as_posix raw == "."
          || contains ".." (parts raw)
          || not (as_posix raw == raw)
          || starts_with_dot_slash (codes raw))
        "must be a canonical suite-relative path"
    contained_directory root raw

  unfoldable pub named_verifier_directory : FilePath → Value → Result (Option FilePath)
  unfolding contained_directory noncanonical_spelling
  named_verifier_directory root value = do
    raw ← text value any_text
    raise_if
        (is_absolute raw
          || as_posix raw == "."
          || contains ".." (parts raw)
          || not (as_posix raw == raw)
          || noncanonical_spelling raw)
        "must be a canonical suite-relative path"
    found ← contained_directory root raw
    ok (some found)

  -- `_shared_verifier_directory`
  unfoldable pub shared_verifier_directory : FilePath → Value → Result (Option FilePath)
  unfolding named_verifier_directory
  shared_verifier_directory root null = ok none
  shared_verifier_directory root value = named_verifier_directory root value

  -- `_root_path`
  unfoldable pub root_path : FilePath → Value → Result FilePath
  root_path root value = do
    raw ← text value any_text
    raise_if (is_absolute raw) "must be relative to the suite root"
    let resolved = resolve (join root raw)
    raise_if (not (is_dir resolved)) "is not a directory"
    ok resolved

  -- `_repository_path`
  unfoldable pub repository_path : Value → Result String
  repository_path value = do
    raw ← text value any_text
    raise_if (is_absolute raw || contains ".." (parts raw) || as_posix raw == ".")
        "must be a repository-relative path without parent traversal"
    ok (as_posix raw)

  -- `_bundle_source_path`
  unfoldable pub bundle_source_path : Value → Result String
  unfolding noncanonical_spelling
  bundle_source_path value = do
    raw ← text value any_text
    path ← repository_path value
    raise_if (not (path == raw) || noncanonical_spelling raw)
        "must be a canonical repository-relative path"
    ok path

  pub suite_path-Ensures :
      (root : FilePath) (value : Value) (kind : PathKind)
      → Ensures (λ p. is_relative_to p root ≡ true) (suite_path root value kind)
  unfolding suite_path
  suite_path-Ensures root value kind = search (ensures_rules, not-false) depth 9

  -- The kind that `_suite_path` was asked for.
  abbrev pub IsOfKind : PathKind → FilePath → Type 0
  IsOfKind file p = is_file p ≡ true
  IsOfKind directory p = is_dir p ≡ true

  right_kind-IsOfKind :
      (kind : PathKind) (logical resolved : FilePath)
      → not (right_kind kind logical resolved) ≡ false
      → (is_symlink logical ≡ false) × IsOfKind kind resolved
  unfolding right_kind
  right_kind-IsOfKind file logical resolved h = ground (arith, h)
  right_kind-IsOfKind directory logical resolved h = ground (arith, h)

  -- The value that a path was read from, and what has been asked of the file system.
  pub record IsSuitePath (root : FilePath) (value : Value) (kind : PathKind) (p : FilePath)
      : Type 0 where
    pub raw : String
    pub written : value ≡ str raw
    pub relative : is_absolute raw ≡ false
    pub resolved : p ≡ resolve (join root raw)
    pub contained : is_relative_to p root ≡ true
    pub no_symlink : is_symlink (join root raw) ≡ false
    pub of_kind : IsOfKind kind p

  suite_path-IsSuitePath :
      (root : FilePath) (value : Value) (kind : PathKind)
      → Ensures (IsSuitePath root value kind) (suite_path root value kind)
  unfolding suite_path
  suite_path-IsSuitePath root value kind = Ensures-bind (text value any_text) _ λ raw read.
      Ensures-guard (is_absolute raw) _ _ λ relative.
        Ensures-guard (not (is_relative_to (resolve (join root raw)) root)) _ _ λ contained.
          Ensures-guard (not (right_kind kind (join root raw) (resolve (join root raw)))) _ _
            λ kept. Ensures-pure _ (record {
              raw = raw;
              written = (text-str value).at raw read;
              relative = relative;
              resolved = refl;
              contained = not-false _ contained;
              no_symlink = (right_kind-IsOfKind kind _ _ kept).0;
              of_kind = (right_kind-IsOfKind kind _ _ kept).1;
            })

  -- A path that `_suite_path` returns is the resolved join of the suite root and the value's text,
  -- which is relative; it lies under the suite root and is an existing file or directory, as was asked
  -- for, and the join is no symbolic link.
  pub suite_path-contained :
      (root : FilePath) (value : Value) (kind : PathKind) (p : FilePath)
      → suite_path root value kind ≡ ok p
      → IsSuitePath root value kind p
  suite_path-contained root value kind p e = (suite_path-IsSuitePath root value kind).at p e
