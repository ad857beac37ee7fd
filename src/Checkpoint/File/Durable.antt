-- ===== src/Checkpoint/File/Durable.antt =====
-- What an update leaves in the file when it is cut short, and when it is written.
use epochdeck.Prelude.{
  ℕ, ◌+◌, ◌≤◌, ◌<◌, ◌≡◌, ◌∙◌, ap, sym, subst, true, false, some, [], ◌∷◌, ◌++◌, arith, length, take,
  take-append_le, length-append, All-take,
}
use epochdeck.Text.{Text, Bytes, codes, text_eq}
use epochdeck.Error.{Result, ok, ◌>>=◌}
use epochdeck.Json.{str, obj, Fields, get}
use epochdeck.Json.Dumps.{dumps}
use epochdeck.Json.Dumps.Printable.{IsPrintable}
use epochdeck.Platform.{Platform, FloatsPrintable}
use epochdeck.Spool.Lines.{newline, ends_with_newline}
use epochdeck.Checkpoint.{
  Data, Loaded, or_null, member, apply_change, apply_record, decoded_record, update_run, load_line,
  load, finished, checkpoint_line,
}
use epochdeck.Checkpoint.Line.{printable, checkpoint_line_lem}
use epochdeck.Checkpoint.Loading.{load_partial, load_appended}
use epochdeck.Checkpoint.File.{update_value}

-- `json.loads` of the line of an update gives its members back; the updates are read as `read`.
pub record Decodes (p : Platform) (source_id : Text) (updates : Fields) (read : Fields)
    : Type 0 where
  pub decoded_update : Fields
  pub decodes :
      p.json_loads (dumps p.float_repr true (update_value source_id updates))
      ≡ some (obj decoded_update)
  pub kind : get (codes "type") decoded_update ≡ some (str (codes "update"))
  pub identity : get (codes "source_id") decoded_update ≡ some (str source_id)
  pub members : get (codes "updates") decoded_update ≡ some (obj read)

abbrev with_runs : Data → Fields → Result Data
with_runs d runs = ok (record d { runs = runs })

abbrev counted : ℕ → Data → Result Loaded
counted n d = ok (record { loaded = some d; updates_since_compaction = n + 1 })

module _ (p : Platform) (floats : FloatsPrintable p) (source_id : Text) (updates read : Fields)
    (known : Decodes p source_id updates read) where
  abbrev line : Bytes
  line = dumps p.float_repr true (update_value source_id updates)

  load_line-update :
      (d : Data) (n : ℕ) (runs : Fields)
      → update_run source_id read d.runs ≡ ok runs
      → load_line p false (record { loaded = some d; updates_since_compaction = n }) line
        ≡ ok (record { loaded = some (record d { runs = runs }); updates_since_compaction = n + 1 })
  unfolding load_line text_eq
  load_line-update d n runs e =
      let r = known.decoded_update in
      ap
        (λ o.
          decoded_record o
          >>= apply_record false (record { loaded = some d; updates_since_compaction = n }))
        known.decodes
      ∙ (λ i.
          apply_change d n (or_null (known.kind i)) (member (codes "runs") r)
            (or_null (known.identity i)) (or_null (known.members i)))
      ∙ ap (λ c. (c >>= with_runs d) >>= counted n) e

  update_cut :
      (whole : Bytes) (d : Data) (n : ℕ) (k : ℕ)
      → ends_with_newline whole ≡ true
      → load p whole ≡ ok (whole, d, n)
      → k ≤ length line
      → load p (whole ++ take k (line ++ newline ∷ [])) ≡ ok (whole, d, n)
  update_cut whole d n k ends held short =
      ap (λ l. load p (whole ++ l)) (take-append_le k line (newline ∷ []) short)
      ∙ load_partial p whole (take k line) ends
          (All-take IsPrintable k line (printable p floats (update_value source_id updates)))
      ∙ held

  update_written :
      (whole : Bytes) (d : Data) (n : ℕ) (runs : Fields)
      → ends_with_newline whole ≡ true
      → load p whole ≡ ok (whole, d, n)
      → update_run source_id read d.runs ≡ ok runs
      → load p (whole ++ (line ++ newline ∷ []))
        ≡ ok (whole ++ (line ++ newline ∷ []), record d { runs = runs }, n + 1)
  update_written whole d n runs ends held e =
      load_appended p whole line d n ends (printable p floats (update_value source_id updates)) held
      ∙ ap (λ r. r >>= finished p (whole ++ (line ++ newline ∷ []))) (load_line-update d n runs e)

-- A checkpoint file of whole lines, to which an update is appended, loads as it did before when the append
-- is cut short at any byte, and the file is what it was; when all is written, the run's state is updated
-- with what `json.loads` makes of the updates.
pub update_durable :
    (p : Platform) (floats : FloatsPrintable p) (source_id : Text) (updates read : Fields)
    (whole encoded : Bytes) (d : Data) (n : ℕ) (runs : Fields)
    → Decodes p source_id updates read
    → ends_with_newline whole ≡ true
    → load p whole ≡ ok (whole, d, n)
    → checkpoint_line p (update_value source_id updates) ≡ ok encoded
    → update_run source_id read d.runs ≡ ok runs
    → ((k : ℕ) → k < length encoded → load p (whole ++ take k encoded) ≡ ok (whole, d, n))
      × (load p (whole ++ encoded) ≡ ok (whole ++ encoded, record d { runs = runs }, n + 1))
update_durable p floats source_id updates read whole encoded d n runs known ends held e g =
    subst
      (λ b.
        ((k : ℕ) → k < length b → load p (whole ++ take k b) ≡ ok (whole, d, n))
        × (load p (whole ++ b) ≡ ok (whole ++ b, record d { runs = runs }, n + 1)))
      (sym (checkpoint_line_lem p floats (update_value source_id updates) encoded e))
      (
        (λ k short. update_cut p floats source_id updates read known whole d n k ends held (
            omega (
              arith,
              short,
              length-append (line p floats source_id updates read known) (newline ∷ []),
            ))),
        update_written p floats source_id updates read known whole d n runs ends held g,
      )
