-- ===== src/Artifacts/ShapeTurn.antt =====
-- One turn of the shape check of skivolve/artifacts.py.
use skivolve.Base.{
  ℕ, suc, ◌+◌, String, Bool, true, false, ◌&&◌, ◌∷◌, ◌≡◌, refl, arith, leb, Result, ok, err, ◌>>=◌,
  ◌>>◌,
}
use skivolve.Json.{
  Value, null, bool, int, float, str, arr, obj, Items, nil, cons, Fields, end, field,
}
use skivolve.Artifacts.Text.{Coding}
use skivolve.Artifacts.Shape.{
  max_json_depth, Stack, count_items, count_fields, push_items, check_json_string, push_fields,
  expand, size_value, size_items, size_fields,
}
use skivolve.Artifacts.ShapeForm.{
  members_of, members_of_items, members_of_fields, is_ok, stack_size, stack_members, string_fits,
  keys_fit, value_fits, items_fit, fields_fit, stack_fits,
}

regroup :
    (all rest first old : Bool) → all ≡ (rest && (first && old)) → all ≡ ((first && rest) && old)
regroup all rest true old h = h
regroup all true false old h = h
regroup all false false old h = h

module _ (coding : Coding) where
  -- What a turn pushes, in the measures of the loop.
  record Pushes (next stack : Stack) (counted size_pushed members_pushed : ℕ) (fit : Bool)
      : Type 0 where
    size_eq : stack_size next ≡ size_pushed + stack_size stack
    members_eq : counted + stack_members next ≡ members_pushed + stack_members stack
    fits_eq : stack_fits coding next ≡ (fit && stack_fits coding stack)

  push_items-Pushes :
      (vs : Items) (depth : ℕ) (stack : Stack)
      → Pushes
          (push_items vs depth stack)
          stack
          (count_items vs)
          (size_items vs)
          (members_of_items vs)
          (items_fit coding depth vs)
  unfolding push_items
  push_items-Pushes nil depth stack = record {
    size_eq = omega arith;
    members_eq = omega arith;
    fits_eq = ground arith;
  }
  push_items-Pushes (cons v vs) depth stack =
      let rest = push_items-Pushes vs depth ((v, depth) ∷ stack) in
      record {
        size_eq = omega (arith, rest.size_eq);
        members_eq = omega (arith, rest.members_eq);
        fits_eq =
            regroup _ (items_fit coding depth vs) (value_fits coding depth v)
              (stack_fits coding stack) rest.fits_eq;
      }

  -- The check of one text decides whether it fits.
  is_ok-check_json_string : (s : String) → is_ok (check_json_string coding s) ≡ string_fits coding s
  unfolding check_json_string
  is_ok-check_json_string s = ground arith

  -- What `push_fields` leaves, or that a key does not fit.
  FieldsTurn : Fields → ℕ → Stack → Result Stack → Type 0
  FieldsTurn fs depth stack (err e) = keys_fit coding fs ≡ false
  FieldsTurn fs depth stack (ok next) =
      (keys_fit coding fs ≡ true)
      × Pushes next stack (count_fields fs) (size_fields fs) (members_of_fields fs)
          (fields_fit coding depth fs)

  FieldsTurn-step :
      (k : String) (v : Value) (fs : Fields) (depth : ℕ) (stack : Stack)
      (checked : Result (Unit {0})) (rest : Result Stack)
      → is_ok checked ≡ string_fits coding k
      → FieldsTurn fs depth ((v, depth) ∷ stack) rest
      → FieldsTurn (field k v fs) depth stack (checked >> rest)
  unfolding FieldsTurn
  FieldsTurn-step k v fs depth stack (err e) rest same turn = ground (arith, same)
  FieldsTurn-step k v fs depth stack (ok _) (err e) same turn = ground (arith, same, turn)
  FieldsTurn-step k v fs depth stack (ok _) (ok next) same turn =
      let pushed = turn.1 in
      (
        ground (arith, same, turn.0),
        record {
          size_eq = omega (arith, pushed.size_eq);
          members_eq = omega (arith, pushed.members_eq);
          fits_eq =
              regroup _ (fields_fit coding depth fs) (value_fits coding depth v)
                (stack_fits coding stack) pushed.fits_eq;
        },
      )

  push_fields-FieldsTurn :
      (fs : Fields) (depth : ℕ) (stack : Stack)
      → FieldsTurn fs depth stack (push_fields coding fs depth stack)
  unfolding FieldsTurn push_fields
  push_fields-FieldsTurn end depth stack =
      (refl, record { size_eq = omega arith; members_eq = omega arith; fits_eq = ground arith })
  push_fields-FieldsTurn (field k v fs) depth stack =
      FieldsTurn-step k v fs depth stack (check_json_string coding k)
        (push_fields coding fs depth ((v, depth) ∷ stack)) (is_ok-check_json_string k)
        (push_fields-FieldsTurn fs depth ((v, depth) ∷ stack))

  -- What the turn of one value pushes, or that the value does not fit.
  unfoldable pub Turn : Value → ℕ → Stack → Result (Stack × ℕ) → Type 0
  Turn v depth stack (err e) = value_fits coding depth v ≡ false
  Turn v depth stack (ok (next, counted)) =
      (suc (stack_size next) ≡ size_value v + stack_size stack)
      × (counted + stack_members next ≡ members_of v + stack_members stack)
      × (stack_fits coding next ≡ (value_fits coding depth v && stack_fits coding stack))

  Turn-string :
      (s : String) (depth : ℕ) (stack : Stack) (checked : Result (Unit {0}))
      → leb depth max_json_depth ≡ true
      → is_ok checked ≡ string_fits coding s
      → Turn (str s) depth stack (checked >>= λ _. ok (stack, 0))
  unfolding Turn
  Turn-string s depth stack (err e) h same = ground (arith, h, same)
  Turn-string s depth stack (ok _) h same = (omega arith, omega arith, ground (arith, h, same))

  Turn-fields :
      (fs : Fields) (depth : ℕ) (stack : Stack) (pushed : Result Stack)
      → leb depth max_json_depth ≡ true
      → FieldsTurn fs (suc depth) stack pushed
      → Turn (obj fs) depth stack (pushed >>= λ next. ok (next, count_fields fs))
  unfolding Turn FieldsTurn
  Turn-fields fs depth stack (err e) h turn = ground (arith, h, turn)
  Turn-fields fs depth stack (ok next) h turn =
      (omega (arith, turn.1.size_eq), turn.1.members_eq, ground (arith, h, turn.0, turn.1.fits_eq))

  pub expand-Turn :
      (v : Value) (depth : ℕ) (stack : Stack)
      → leb depth max_json_depth ≡ true
      → Turn v depth stack (expand coding v depth stack)
  unfolding Turn expand
  expand-Turn null depth stack h = (omega arith, omega arith, ground (arith, h))
  expand-Turn (bool b) depth stack h = (omega arith, omega arith, ground (arith, h))
  expand-Turn (int n) depth stack h = (omega arith, omega arith, ground (arith, h))
  expand-Turn (float x) depth stack h = (omega arith, omega arith, ground (arith, h))
  expand-Turn (str s) depth stack h =
      Turn-string s depth stack (check_json_string coding s) h (is_ok-check_json_string s)
  expand-Turn (arr vs) depth stack h =
      let pushed = push_items-Pushes vs (suc depth) stack in
      (omega (arith, pushed.size_eq), pushed.members_eq, ground (arith, h, pushed.fits_eq))
  expand-Turn (obj fs) depth stack h =
      Turn-fields fs depth stack (push_fields coding fs (suc depth) stack) h
        (push_fields-FieldsTurn fs (suc depth) stack)
