-- ===== src/Artifacts/ShapeSpec.antt =====
-- The shape check of skivolve/artifacts.py against a description by recursion on the value.
use skivolve.Base.{
  ℕ, zero, suc, ◌+◌, ◌≤◌, ◌<◌, Bool, false, ◌&&◌, Option, some, [], ◌∷◌, ◌≡◌, refl, sym, ◌∙◌, arith,
  leb, ltb, Result, ok, err, ◌>>=◌, ◌>>◌, raise_if, ltb→lt, Bool-cases, inl, inr,
}
use skivolve.Json.{Value, null, bool, int, float, str, arr, obj}
use skivolve.Artifacts.Text.{Coding}
use skivolve.Artifacts.Shape.{
  max_json_depth, max_json_members, Stack, expand, visit, shape_loop, size_value,
  validate_json_shape,
}
use skivolve.Artifacts.ShapeForm.{
  members_of, is_ok, stack_size, stack_members, value_fits, shape_fits, stack_fits,
}
use skivolve.Artifacts.ShapeTurn.{Turn, expand-Turn}

too_many :
    (fit : Bool) (total : ℕ)
    → max_json_members < total
    → (fit && leb total max_json_members) ≡ false
too_many fit total h = ground (arith, h)

same_verdict :
    {a b : Bool} {m n : ℕ}
    → a ≡ b
    → m ≡ n
    → (a && leb m max_json_members) ≡ (b && leb n max_json_members)
same_verdict h k = cc (h, k)

module _ (coding : Coding) where
  -- The verdict that is left to find.
  admits : Stack → ℕ → Bool
  admits stack members =
      stack_fits coding stack && leb (members + stack_members stack) max_json_members

  -- One turn of the loop keeps the verdict and shrinks the stack.
  Visited : Value × ℕ → Stack → ℕ → Result (Stack × ℕ) → Type 0
  Visited top stack members (err e) = admits (top ∷ stack) members ≡ false
  Visited top stack members (ok (next, count)) =
      (suc (stack_size next) ≡ stack_size (top ∷ stack))
      × (admits next count ≡ admits (top ∷ stack) members)
      × (count ≤ max_json_members)

  value_fits-deep :
      (v : Value) (depth : ℕ) → leb depth max_json_depth ≡ false → value_fits coding depth v ≡ false
  value_fits-deep null depth h = h
  value_fits-deep (bool b) depth h = h
  value_fits-deep (int n) depth h = h
  value_fits-deep (float x) depth h = h
  value_fits-deep (str s) depth h = ground (arith, h)
  value_fits-deep (arr vs) depth h = ground (arith, h)
  value_fits-deep (obj fs) depth h = ground (arith, h)

  Visited-counted :
      (v : Value) (depth : ℕ) (stack : Stack) (members : ℕ) (turn : Result (Stack × ℕ))
      → Turn coding v depth stack turn
      → Visited
          (v, depth)
          stack
          members
          (turn >>= λ next.
            raise_if
              (ltb max_json_members (members + next.1))
              "final JSON exceeds 10000 aggregate members"
            >> ok (next.0, members + next.1))
  unfolding Turn Visited admits
  Visited-counted v depth stack members (err e) h = ground (arith, h)
  Visited-counted v depth stack members (ok (next, counted)) h =
      elim (Bool-cases (ltb max_json_members (members + counted))) [
        | inl over ↦ rw over (
            too_many (value_fits coding depth v && stack_fits coding stack)
              (members + (members_of v + stack_members stack))
              (omega (arith, ltb→lt _ _ over, h.1)))
        | inr within ↦
            rw within (h.0, same_verdict h.2 (omega (arith, h.1)), ground (arith, within))
      ]

  visit-Visited :
      (top : Value × ℕ) (stack : Stack) (members : ℕ)
      → Visited top stack members (visit coding top stack members)
  unfolding Visited visit admits
  visit-Visited (v, depth) stack members = elim (Bool-cases (ltb max_json_depth depth)) [
    | inl over ↦ rw over (ground (arith, value_fits-deep v depth (ground (arith, over))))
    | inr within ↦ rw within (
        Visited-counted v depth stack members (expand coding v depth stack)
          (expand-Turn coding v depth stack (ground (arith, within))))
  ]

  size_value-positive : (v : Value) → 0 < size_value v
  size_value-positive null = omega arith
  size_value-positive (bool b) = omega arith
  size_value-positive (int n) = omega arith
  size_value-positive (float x) = omega arith
  size_value-positive (str s) = omega arith
  size_value-positive (arr vs) = omega arith
  size_value-positive (obj fs) = omega arith

  -- The loop ends, and lets through what the verdict says.
  abbrev Ends : Option (Result (Unit {0})) → Bool → Type 0
  Ends run verdict = (r : Result (Unit {0})) × (run ≡ some r) × (is_ok r ≡ verdict)

  Ends-turn :
      (fuel : ℕ) (top : Value × ℕ) (stack : Stack) (members : ℕ) (turn : Result (Stack × ℕ))
      → stack_size (top ∷ stack) ≤ suc fuel
      → Visited top stack members turn
      → ((next : Stack) (count : ℕ)
          → stack_size next ≤ fuel
          → count ≤ max_json_members
          → Ends (shape_loop coding fuel next count) (admits next count))
      → Ends
          (elim turn [
            | err e ↦ some (err e)
            | ok (next, count) ↦ shape_loop coding fuel next count
          ])
          (admits (top ∷ stack) members)
  unfolding Visited
  Ends-turn fuel top stack members (err e) room visited later = (err e, refl, sym visited)
  Ends-turn fuel top stack members (ok (next, count)) room visited later =
      let (r, run, same) = later next count (omega (arith, room, visited.0)) visited.2 in
      (r, run, same ∙ visited.1)

  shape_loop-Ends :
      (fuel : ℕ) (stack : Stack) (members : ℕ)
      → stack_size stack ≤ fuel
      → members ≤ max_json_members
      → Ends (shape_loop coding fuel stack members) (admits stack members)
  unfolding shape_loop admits
  shape_loop-Ends fuel [] members room within = (ok tt, refl, ground (arith, within))
  shape_loop-Ends zero ((v, depth) ∷ stack) members room within =
      absurd (omega (arith, room, size_value-positive v))
  shape_loop-Ends (suc fuel) (top ∷ stack) members room within =
      Ends-turn fuel top stack members (visit coding top stack members) room
        (visit-Visited top stack members) (shape_loop-Ends fuel)

  admits-root : (root : Value) → admits ((root, 1) ∷ []) 0 ≡ shape_fits coding root
  unfolding admits
  admits-root root = ground arith

-- For every value and every text encoding, the loop of the shape check ends within as many turns as
-- the value has nodes, and it lets the value through exactly when nothing in it lies deeper than 64
-- levels, every text and key in it encodes to at most 256 KiB, and its lists and dicts have at most
-- 10000 members in all.
pub validate_json_shape-exact :
    (coding : Coding) (root : Value)
    → (r : Result (Unit {0})) × (validate_json_shape coding root ≡ some r)
      × (is_ok r ≡ shape_fits coding root)
unfolding validate_json_shape
validate_json_shape-exact coding root =
    let (r, run, same) =
      shape_loop-Ends coding (size_value root) ((root, 1) ∷ []) 0 (omega arith) (omega arith) in
    (r, run, same ∙ admits-root coding root)
