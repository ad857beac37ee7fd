-- ===== src/Spool/Entry.antt =====
-- The abstract content of a journal: whole records in the order in which they were appended.
-- An entry is the dict that `json.loads` returns for a line, with the bytes of the line. (`dumps`
-- sorts the keys, so the dict that was appended may list them in another order; its encoding is the
-- same.)
use epochdeck.Prelude.{
  ℕ, zero, suc, ◌+◌, ◌≤◌, ◌≡◌, refl, ap, some, List, [], ◌∷◌, ◌++◌, arith, length, length-append,
  take, drop, take-append-drop, drop-append_self, All, append_assoc, sym, ◌∙◌,
}
use Prim.Native.Nat.add
use epochdeck.Text.{Bytes}
use epochdeck.Error.{ok}
use epochdeck.Json.{obj, Fields}
use epochdeck.Json.Dumps.Printable.{IsPrintable}
use epochdeck.Platform.{Platform, FloatsPrintable}
use epochdeck.Protocol.{encode_json_request}
use epochdeck.Protocol.Encoding.{encode_json_request-IsPrintable}
use epochdeck.Spool.Lines.{newline, max_journal_record_bytes, read_journal_line}
use epochdeck.Spool.Lines.Framing.{NoNewline, framed, read_journal_line-framed}

pub record Entry : Type 0 where
  pub fields : Fields
  pub bytes : Bytes

-- The line is the canonical encoding of the dict, within the size limit, and decodes to the dict.
pub record IsEntry (p : Platform) (e : Entry) : Type 0 where
  pub encodes : encode_json_request p (obj e.fields) ≡ ok e.bytes
  pub fits : length e.bytes ≤ max_journal_record_bytes
  pub decodes : p.json_loads (framed e.bytes) ≡ some (obj e.fields)

-- The bytes of a journal that holds these entries.
abbrev pub content : List Entry → Bytes
content [] = []
content (e ∷ es) = e.bytes ++ (newline ∷ content es)

pub content-append : (xs ys : List Entry) → content (xs ++ ys) ≡ content xs ++ content ys
content-append [] ys = refl
content-append (e ∷ xs) ys =
    rw (content-append xs ys) (sym (append_assoc e.bytes (newline ∷ content xs) (content ys)))

-- The offset behind the first `k` entries.
abbrev pub offset_of : List Entry → ℕ → ℕ
offset_of es k = length (content (take k es))

pub length-content_cons :
    (e : Entry) (es : List Entry)
    → length (content (e ∷ es)) ≡ suc (length e.bytes + length (content es))
length-content_cons e es = omega (arith, length-append {0} e.bytes (newline ∷ content es))

pub length-le-content : (es : List Entry) → length es ≤ length (content es)
length-le-content [] = omega arith
length-le-content (e ∷ es) = omega (arith, length-content_cons e es, length-le-content es)

module _ (es : List Entry) where
  pub content-split : (k : ℕ) → content (take k es) ++ content (drop k es) ≡ content es
  content-split k =
      sym (content-append (take k es) (drop k es)) ∙ ap content (take-append-drop k es)

  -- Reading from the offset of an entry on is reading the entries from there on.
  pub drop-offset_of : (k : ℕ) → drop (offset_of es k) (content es) ≡ content (drop k es)
  drop-offset_of k =
      ap (drop (offset_of es k)) (sym (content-split k))
      ∙ drop-append_self (content (take k es)) (content (drop k es))

  pub offset_of-le : (k : ℕ) → offset_of es k ≤ length (content es)
  offset_of-le k = omega (
    arith,
    ap length (content-split k),
    length-append {0} (content (take k es)) (content (drop k es)),
  )

-- The next `m` entries end at the offset of `k + m`.
pub offset_of-add :
    (es : List Entry) (k m : ℕ)
    → offset_of es k + length (content (take m (drop k es))) ≡ offset_of es (k + m)
offset_of-add es zero m = rw (add.zero m) (omega arith)
offset_of-add [] (suc k) zero = rw (add.suc k 0) (omega arith)
offset_of-add [] (suc k) (suc m) = rw (add.suc k (suc m)) (omega arith)
offset_of-add (e ∷ es) (suc k) m = rw (add.suc k m) (
    omega (
      arith,
      offset_of-add es k m,
      length-content_cons e (take k es),
      length-content_cons e (take (k + m) es),
    ))

pub NoNewline-IsPrintable : (l : Bytes) → All IsPrintable l → NoNewline l
NoNewline-IsPrintable [] h = tt
NoNewline-IsPrintable (b ∷ l) h = (omega arith, NoNewline-IsPrintable l h.1)

module _ (p : Platform) (floats : FloatsPrintable p) (e : Entry) (valid : IsEntry p e) where
  pub entry-NoNewline : NoNewline e.bytes
  entry-NoNewline =
      NoNewline-IsPrintable e.bytes
        (encode_json_request-IsPrintable p floats (obj e.fields) valid.encodes)

  -- The next line of a journal is its next entry.
  pub read_journal_line-entry :
      (es : List Entry) → read_journal_line (content (e ∷ es)) ≡ ok (framed e.bytes, content es)
  read_journal_line-entry es =
      read_journal_line-framed e.bytes (content es) entry-NoNewline valid.fits
