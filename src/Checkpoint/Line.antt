-- ===== src/Checkpoint/Line.antt =====
-- The bytes of a line of a checkpoint file, `_checkpoint_line`.
use epochdeck.Prelude.{
  some, ◌<◌, ◌≡◌, ◌∙◌, refl, sym, true, [], ◌∷◌, ◌++◌, arith, All, All-append, Bool-cases, inl, inr,
}
use epochdeck.Text.{Bytes, Text}
use epochdeck.Text.Utf8.{utf8, utf8-ascii}
use epochdeck.Error.{ok, ok_injective}
use epochdeck.Json.{Value, all_finite}
use epochdeck.Json.Dumps.{dumps}
use epochdeck.Json.Dumps.Printable.{IsPrintable, dumps-IsPrintable}
use epochdeck.Platform.{Platform, FloatsPrintable}
use epochdeck.Spool.Lines.{newline}
use epochdeck.Checkpoint.{checkpoint_line}

IsPrintable-ascii : (t : Text) → All IsPrintable t → All (λ c. c < 128) t
IsPrintable-ascii [] h = tt
IsPrintable-ascii (c ∷ cs) h = (omega arith, IsPrintable-ascii cs h.1)

module _ (p : Platform) (floats : FloatsPrintable p) (v : Value) where
  pub printable : All IsPrintable (dumps p.float_repr true v)
  printable = dumps-IsPrintable p.float_repr floats.float_repr-IsPrintable v

  encoded_lem :
      utf8 (dumps p.float_repr true v ++ newline ∷ [])
      ≡ some (dumps p.float_repr true v ++ newline ∷ [])
  encoded_lem = utf8-ascii _ (
      All-append (λ c. c < 128) (dumps p.float_repr true v) (newline ∷ [])
        (IsPrintable-ascii _ printable) (omega arith, tt))

  pub checkpoint_line_lem :
      (b : Bytes) → checkpoint_line p v ≡ ok b → b ≡ dumps p.float_repr true v ++ newline ∷ []
  unfolding checkpoint_line
  checkpoint_line_lem b e = elim (Bool-cases (all_finite v)) [
    | inl h ↦ sym (
        ok_injective (dumps p.float_repr true v ++ newline ∷ []) b
          (sym (rw (h, encoded_lem) refl) ∙ e))
    | inr h ↦ absurd (ground (arith, rw h at e))
  ]
