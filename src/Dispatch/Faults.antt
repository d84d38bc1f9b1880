-- ===== src/Dispatch/Faults.antt =====
-- What `_GeneratorDispatchLedger` of skivolve/runner.py does with a journal that a crash or another
-- writer has changed.
use skivolve.Base.{ℕ, false, [], ◌∷◌, ◌++◌, ◌≡◌, nat_eq, string_eq, arith, err, contains}
use skivolve.Json.{Fields}
use skivolve.Dispatch.Types.{Bytes, Codec, phase_eq}
use skivolve.Dispatch.Replay.{newline, replay, ends_with_newline}
use skivolve.Dispatch.Phases.{ends_with_newline-append}

no_newline-ends :
    (b : ℕ) (bs : Bytes) → contains newline (b ∷ bs) ≡ false → ends_with_newline (b ∷ bs) ≡ false
unfolding contains ends_with_newline
no_newline-ends b [] h = ground arith
no_newline-ends b (c ∷ bs) h = ground (arith, no_newline-ends c bs)

module _ (codec : Codec) (header : Fields) where
  -- A journal that ends in bytes without a newline, as a crash in the middle of a write leaves it, is
  -- refused as torn, whatever was written before.
  pub replay_torn :
      (raw : Bytes) (b : ℕ) (bs : Bytes)
      → contains newline (b ∷ bs) ≡ false
      → replay codec header (raw ++ b ∷ bs) ≡ err "generator dispatch journal has a torn record"
  unfolding replay
  replay_torn raw b bs h = ground (arith, ends_with_newline-append raw b bs, no_newline-ends b bs h)
