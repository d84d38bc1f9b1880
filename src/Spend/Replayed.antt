-- ===== src/Spend/Replayed.antt =====
-- What `_restore_journal` of skivolve/comparator_runtime.py does with a line that the ledger wrote.
use skivolve.Base.{
  ℕ, ◌≤◌, ◌<◌, String, true, false, Option, none, some, ◌∷◌, ◌≡◌, refl, ◌∙◌, arith, ltb, nat_eq,
  string_eq, list_eq, lt→ltb, ok, beq_refl, contains, subset,
}
use mathlib.Core.Option.{map as option_map}
use skivolve.Base.Int.{int_eq}
use skivolve.Base.Text.{is_hex}
use skivolve.Base.Dict.{lookup, insert}
use skivolve.Json.{Float, Value, get, get_or_null, has_exactly, names, same_float}
use skivolve.Spend.Money.{Arithmetic, ExactBelow, is_finite, finite_nonnegative}
use skivolve.Spend.Ledger.{
  Codec, Event, reserve_event, reconcile_event, forfeit_event, historical_event, event_record,
  validate_spend_binding,
}
use skivolve.Spend.Calls.{charged_amount, close_event}
use skivolve.Spend.Refines.{IsBinding, not_negative, units_charged}
use skivolve.Spend.Journal.{
  Attempt, Replay, attempt_text, unclosed, replay_reserve, replay_close, replay_historical,
  replay_event, canonical_fields, replay_line,
}
use skivolve.Spend.Lines.{written_line, Reloads}

-- A reservation of some units as `attempts` holds it.
abbrev pub attempt : Float → Option Float → String → String → Attempt
attempt reserved charged request invocation = record {
  reserved = reserved;
  charged = charged;
  request = request;
  invocation = invocation;
}

same_float_refl : (x : Float) → is_finite x ≡ true → same_float x x ≡ true
unfolding same_float is_finite
same_float_refl (Float.finite a) h = beq_refl a
same_float_refl (Float.infinite b) h = absurd (cc h)
same_float_refl Float.not_a_number h = absurd (cc h)

module _ {m : Arithmetic} {bound : ℕ} (money : ExactBelow m bound) (codec : Codec) where
  -- A line whose dict passes the checks that every line meets.
  replay_line-checked :
      (e : Event) (l : Reloads codec e) (id request invocation : String) (r : Replay)
      → get_or_null "attempt_id" (event_record e) ≡ Value.str id
      → get_or_null "request_sha256" (event_record e) ≡ Value.str request
      → get_or_null "invocation_id" (event_record e) ≡ Value.str invocation
      → is_hex 32 id ≡ true
      → IsBinding request invocation
      → replay_line m codec (written_line codec e) r
        ≡ replay_event m l.fields id request invocation r
  unfolding replay_line canonical_fields attempt_text validate_spend_binding
  replay_line-checked e l id request invocation r id_eq request_eq invocation_eq hex binding =
      rw
        (
          l.loaded,
          l.canonical,
          beq_refl (written_line codec e),
          l.reads "attempt_id",
          id_eq,
          hex,
          l.reads "request_sha256",
          request_eq,
          l.reads "invocation_id",
          invocation_eq,
          binding.0,
          binding.1,
        )
        refl

  not_less : (j k : ℕ) → k ≤ j → ltb j k ≡ false
  not_less j k h = ground (arith, h)

  pub amount_read : (n : ℕ) → finite_nonnegative m (Value.float (money.usd n)) ≡ ok (money.usd n)
  unfolding finite_nonnegative
  amount_read n = rw (money.usd_finite n, not_negative money codec n) refl

  pub replay_line-reserve :
      (id request invocation : String) (n : ℕ) (r : Replay)
      → Reloads codec (reserve_event id (money.usd n) request invocation)
      → is_hex 32 id ≡ true
      → IsBinding request invocation
      → 0 < n
      → contains id r.seen ≡ false
      → replay_line m codec
          (written_line codec (reserve_event id (money.usd n) request invocation))
          r
        ≡ ok (record r {
          seen = id ∷ r.seen;
          attempts = insert id (attempt (money.usd n) none request invocation) r.attempts;
        })
  unfolding replay_event replay_reserve event_record get_or_null get has_exactly names subset
      contains
  replay_line-reserve id request invocation n r l hex binding positive new =
      replay_line-checked (reserve_event id (money.usd n) request invocation) l id request
        invocation r refl refl refl hex binding
      ∙ rw
          (
            l.reads "event",
            l.same_keys _,
            l.reads "reserved_usd",
            amount_read n,
            money.usd_positive n,
            lt→ltb 0 n positive,
            new,
          )
          refl

  pub replay_line-close :
      (id request invocation : String) (n : ℕ) (actual : Option ℕ) (r : Replay)
      → Reloads codec (
          close_event id
            (option_map money.usd actual)
            (charged_amount (money.usd n) (option_map money.usd actual))
            request
            invocation)
      → is_hex 32 id ≡ true
      → IsBinding request invocation
      → units_charged n actual ≤ n
      → lookup id r.attempts ≡ some (attempt (money.usd n) none request invocation)
      → replay_line m codec
          (written_line codec (
            close_event id
              (option_map money.usd actual)
              (charged_amount (money.usd n) (option_map money.usd actual))
              request
              invocation))
          r
        ≡ ok (record r {
          attempts =
              insert id
                (attempt
                  (money.usd n)
                  (some (money.usd (units_charged n actual)))
                  request
                  invocation)
                r.attempts;
        })
  unfolding replay_event replay_close unclosed event_record get_or_null get has_exactly names subset
      contains
  replay_line-close id request invocation n none r l hex binding within found =
      replay_line-checked (forfeit_event id (money.usd n) request invocation) l id request
        invocation r refl refl refl hex binding
      ∙ rw
          (
            l.reads "event",
            l.same_keys _,
            l.reads "charged_usd",
            amount_read n,
            found,
            beq_refl request,
            beq_refl invocation,
            money.usd_less n n,
            not_less n n within,
            same_float_refl (money.usd n) (money.usd_finite n),
          )
          refl
  replay_line-close id request invocation n (some c) r l hex binding within found =
      replay_line-checked (reconcile_event id (money.usd c) request invocation) l id request
        invocation r refl refl refl hex binding
      ∙ rw
          (
            l.reads "event",
            l.same_keys _,
            l.reads "charged_usd",
            amount_read c,
            found,
            beq_refl request,
            beq_refl invocation,
            money.usd_less n c,
            not_less n c within,
          )
          refl

  pub replay_line-historical :
      (id request invocation : String) (n : ℕ) (r : Replay)
      → Reloads codec (historical_event id (money.usd n) request invocation)
      → is_hex 32 id ≡ true
      → IsBinding request invocation
      → contains id r.seen ≡ false
      → replay_line m codec
          (written_line codec (historical_event id (money.usd n) request invocation))
          r
        ≡ ok (record r { seen = id ∷ r.seen; historical = m.plus r.historical (money.usd n) })
  unfolding replay_event replay_historical event_record get_or_null get has_exactly names subset
      contains
  replay_line-historical id request invocation n r l hex binding new =
      replay_line-checked (historical_event id (money.usd n) request invocation) l id request
        invocation r refl refl refl hex binding
      ∙ rw (l.reads "event", l.same_keys _, new, l.reads "charged_usd", amount_read n) refl
