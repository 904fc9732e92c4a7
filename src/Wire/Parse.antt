-- ===== src/Wire/Parse.antt =====
-- `parse` of wire.go on a response made of messages, and on any input.
use pglite_go.Base.{
  ℕ, zero, suc, ◌<◌, ◌≡◌, refl, List, [], ◌∷◌, length, arith, length-append, All, ◌≢◌,
}
use pglite_go.Base.Outcome.{Outcome, ok, stuck, ◌>>=◌, >>=-ne-stuck, >>=-congr}
use pglite_go.Wire.Response.{
  Next, stop, message, bad_length, next_message, Parsing, apply_message, parse_loop, parse_round,
  parse, starting,
}
use pglite_go.Wire.Frames.{
  Message, Fits, frames, next_message-frame, next_message_shrinks, length-frame,
}
use pglite_go.Wire.Total.{apply_message-ne-stuck}
use pglite_go.Wire.Message.{frame}
use pglite_go.Wire.Value.{Floats}

module _ (fl : Floats) where
  -- The messages, applied one after the other.
  unfoldable pub fold_messages : List Message → Parsing fl → Outcome (Parsing fl)
  fold_messages [] s = ok s
  fold_messages ((typ, payload) ∷ ms) s =
      apply_message fl typ payload s >>= λ s'. fold_messages ms s'

  pub parse_loop-frames :
      (fuel : ℕ) (ms : List Message) (s : Parsing fl)
      → length (frames ms) < fuel
      → All (λ (m : Message). Fits m.1) ms
      → parse_loop fl fuel (frames ms) s ≡ fold_messages ms s
  unfolding parse_loop fold_messages
  parse_loop-frames zero ms s h fits = absurd (omega arith)
  parse_loop-frames (suc fuel) [] s h fits = unfold next_message in refl
  parse_loop-frames (suc fuel) ((typ, payload) ∷ ms) s h (fit, fits) =
      rw (next_message-frame typ payload (frames ms) fit) (
        >>=-congr (apply_message fl typ payload s) _ _ (λ s'.
          parse_loop-frames fuel ms s'
            (omega (arith, length-append (frame typ payload) (frames ms), length-frame typ payload))
            fits))

  parse_loop-ne-stuck :
      (fuel : ℕ) (buf : List ℕ) (s : Parsing fl)
      → length buf < fuel
      → parse_loop fl fuel buf s ≢ stuck
  unfolding parse_loop
  parse_loop-ne-stuck zero buf s h = absurd (omega arith)
  parse_loop-ne-stuck (suc fuel) buf s h =
      go (next_message buf) refl (λ rest s' short. parse_loop-ne-stuck fuel rest s' short)
    where
      go :
          (n : Next)
          → next_message buf ≡ n
          → ((rest : List ℕ) (s' : Parsing fl)
              → length rest < fuel
              → parse_loop fl fuel rest s' ≢ stuck)
          → parse_round fl n s (parse_loop fl fuel) ≢ stuck
      go stop e ih = λ x. cc
      go bad_length e ih = λ x. cc
      go (message typ payload rest) e ih =
          >>=-ne-stuck (apply_message fl typ payload s) _ (apply_message-ne-stuck fl typ payload s)
            (λ s' e'. ih rest s' (omega (arith, next_message_shrinks buf typ payload rest e)))

  -- The loop of parse ends on every input, well formed or not.
  pub parse-ne-stuck : (tx : ℕ) (buf : List ℕ) → parse fl tx buf ≢ stuck
  unfolding parse
  parse-ne-stuck tx buf =
      >>=-ne-stuck (parse_loop fl (suc (length buf)) buf (starting fl tx)) _
        (parse_loop-ne-stuck (suc (length buf)) buf (starting fl tx) (omega arith)) (λ s e x. cc)
