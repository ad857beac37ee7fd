-- ===== src/Checkpoint/File/Compacted.antt =====
-- Loading the file that `_compact` of class `Checkpoint` leaves.
use epochdeck.Prelude.{
  ◌+◌, ◌≡◌, ◌∙◌, ap, sym, subst, true, false, none, some, [], ◌∷◌, ◌++◌, length, ltb, if◌then◌else◌,
}
use epochdeck.Text.{Bytes, codes, text_eq}
use epochdeck.Error.{ok, ◌>>=◌}
use epochdeck.Json.{str, obj, Fields, no_fields, get}
use epochdeck.Json.Dumps.{dumps}
use epochdeck.Platform.{Platform, FloatsPrintable}
use epochdeck.Spool.Lines.{newline}
use epochdeck.Checkpoint.{
  Data, Loaded, is_str, max_checkpoint_bytes, or_null, member, apply_change, apply_record,
  decoded_record, with_data, load_line, load_lines, load, loaded_from, finished, checkpoint_line,
}
use epochdeck.Checkpoint.Line.{printable, checkpoint_line_lem}
use epochdeck.Checkpoint.Loading.{
  ends-framed, complete_whole, splitlines-IsPrintable, load_appended,
}
use epochdeck.Checkpoint.File.Opening.{written, written_lift, written_guard}
use epochdeck.Checkpoint.File.{Checkpoint, header_value, snapshot_value, compact}

-- `json.loads` of the two lines gives their members back; the runs are read as `read`.
pub record Reads (p : Platform) (d : Data) (read : Fields) : Type 0 where
  pub header : Fields
  pub snapshot : Fields
  pub decodes_header : p.json_loads (dumps p.float_repr true (header_value d)) ≡ some (obj header)
  pub header_type : get (codes "type") header ≡ some (str (codes "header"))
  pub source : get (codes "source") header ≡ some d.source
  pub entity : get (codes "entity") header ≡ some d.entity
  pub project : get (codes "project") header ≡ some d.project
  pub target_project : get (codes "target_project") header ≡ some d.target_project
  pub decodes_snapshot :
      p.json_loads (dumps p.float_repr true (snapshot_value d)) ≡ some (obj snapshot)
  pub snapshot_type : get (codes "type") snapshot ≡ some (str (codes "snapshot"))
  pub runs : get (codes "runs") snapshot ≡ some (obj read)

abbrev start : Loaded
start = record { loaded = none; updates_since_compaction = 0 }

abbrev bare : Data → Data
bare d = record d { runs = no_fields }

module _ (p : Platform) (floats : FloatsPrintable p) (d : Data) (read : Fields)
    (known : Reads p d read) where
  abbrev first_line : Bytes
  first_line = dumps p.float_repr true (header_value d)

  abbrev second_line : Bytes
  second_line = dumps p.float_repr true (snapshot_value d)

  load_line-header :
      load_line p true start first_line
      ≡ ok (record { loaded = some (bare d); updates_since_compaction = 0 })
  unfolding load_line text_eq
  load_line-header =
      ap (λ o. decoded_record o >>= apply_record true start) known.decodes_header ∙ (λ i.
        if is_str (codes "header") (or_null (known.header_type i))
        then ok (record {
          loaded = some (record {
            source = or_null (known.source i);
            entity = or_null (known.entity i);
            project = or_null (known.project i);
            target_project = or_null (known.target_project i);
            runs = no_fields;
          });
          updates_since_compaction = 0;
        })
        else with_data 0 none known.header)

  load_line-snapshot :
      load_line p false
        (record { loaded = some (bare d); updates_since_compaction = 0 })
        second_line
      ≡ ok (record { loaded = some (record d { runs = read }); updates_since_compaction = 0 })
  unfolding load_line text_eq
  load_line-snapshot =
      let r = known.snapshot in
      ap
        (λ o.
          decoded_record o
          >>= apply_record false (record { loaded = some (bare d); updates_since_compaction = 0 }))
        known.decodes_snapshot
      ∙ (λ i.
          apply_change (bare d) 0 (or_null (known.snapshot_type i)) (or_null (known.runs i))
            (member (codes "source_id") r) (member (codes "updates") r))

  load-header : load p (first_line ++ newline ∷ []) ≡ ok (first_line ++ newline ∷ [], bare d, 0)
  unfolding load load_lines
  load-header =
      ap (λ c. c >>= loaded_from p)
        (complete_whole p (first_line ++ newline ∷ []) (ends-framed [] first_line))
      ∙ ap (λ ls. load_lines p true start ls >>= finished p (first_line ++ newline ∷ []))
          (splitlines-IsPrintable first_line (printable p floats (header_value d)))
      ∙ ap (λ l. (l >>= λ m. ok m) >>= finished p (first_line ++ newline ∷ [])) load_line-header

  load-compacted :
      load p ((first_line ++ newline ∷ []) ++ (second_line ++ newline ∷ []))
      ≡ ok (
        (first_line ++ newline ∷ []) ++ (second_line ++ newline ∷ []),
        record d { runs = read },
        0,
      )
  load-compacted =
      load_appended p (first_line ++ newline ∷ []) second_line (bare d) 0
        (ends-framed [] first_line) (printable p floats (snapshot_value d)) load-header
      ∙ ap (λ l. l >>= finished p ((first_line ++ newline ∷ []) ++ (second_line ++ newline ∷ [])))
          load_line-snapshot

-- A compaction that succeeds leaves a file that loads as the data it was written from, with the runs as
-- `json.loads` reads them back, and counts no updates.
pub compact-load :
    (p : Platform) (floats : FloatsPrintable p) (c d : Checkpoint) (read : Fields)
    → Reads p c.held read
    → compact p c ≡ (ok tt, d)
    → load p d.file ≡ ok (d.file, record c.held { runs = read }, 0)
unfolding compact
compact-load p floats c d read known h =
    let (header, e, h1) =
      written_lift p (checkpoint_line p (header_value c.held)) _ c d (ap (written p) h) in
    let (snapshot, f, h2) = written_lift p (checkpoint_line p (snapshot_value c.held)) _ c d h1 in
    let (_, same) =
      written_guard p (ltb max_checkpoint_bytes (length header + length snapshot))
        (λ c. record c { file = header ++ snapshot; updates = 0 }) c d h2 in
    let file : (dumps p.float_repr true (header_value c.held) ++ newline ∷ [])
          ++ (dumps p.float_repr true (snapshot_value c.held) ++ newline ∷ [])
        ≡ d.file =
      sym (λ i.
        checkpoint_line_lem p floats (header_value c.held) header e i
        ++ checkpoint_line_lem p floats (snapshot_value c.held) snapshot f i)
      ∙ ap (λ x. x.file) same in
    subst (λ b. load p b ≡ ok (b, record c.held { runs = read }, 0)) file
      (load-compacted p floats c.held read known)
