-- ===== src/Checkpoint/Loading.antt =====
-- Loading the file of a checkpoint to which lines were added.
use epochdeck.Prelude.{
  ℕ, ◌≡◌, ◌∙◌, refl, ap, sym, Bool, true, false, ◌&&◌, ◌||◌, Option, none, some, List, [], ◌∷◌,
  ◌++◌, arith, ◌==◌, if◌then◌else◌, length, All, take-append_self, append-nil, append_assoc,
}
use epochdeck.Text.{Bytes}
use epochdeck.Error.{Result, ok, err, ◌>>=◌, returned, ok_injective}
use epochdeck.Json.Dumps.Printable.{IsPrintable}
use epochdeck.Platform.{Platform}
use epochdeck.Protocol.{is_empty}
use epochdeck.Spool.Lines.{newline, ends_with_newline, after_last_newline}
use epochdeck.Spool.Lines.Framing.{after_last_newline-append}
use epochdeck.Spool.Entry.{NoNewline-IsPrintable}
use epochdeck.Checkpoint.{
  Data, Loaded, has_data, loaded_from, finished, add_byte, cut, splitlines, load_line, load_lines,
  complete, load,
}

add_byte-append :
    (b : ℕ) (lf : Bool) (lines later : List Bytes)
    → is_empty lines ≡ false
    → add_byte b lf (lines ++ later) ≡ add_byte b lf lines ++ later
unfolding add_byte is_empty
add_byte-append b lf [] later h = ground arith
add_byte-append b true (line ∷ lines) later h = ground arith
add_byte-append b false (line ∷ lines) later h = ground arith

add_byte-is_empty :
    (b : ℕ) (lf : Bool) (lines : List Bytes)
    → is_empty lines ≡ false
    → is_empty (add_byte b lf lines) ≡ false
unfolding add_byte is_empty
add_byte-is_empty b lf [] h = ground arith
add_byte-is_empty b true (line ∷ lines) h = ground arith
add_byte-is_empty b false (line ∷ lines) h = ground arith

splitlines-is_empty : (bs : Bytes) → ends_with_newline bs ≡ true → is_empty (splitlines bs) ≡ false
unfolding splitlines ends_with_newline
splitlines-is_empty [] h = ground arith
splitlines-is_empty (b ∷ []) h = unfold add_byte is_empty in rw h refl
splitlines-is_empty (b ∷ c ∷ bs) h =
    add_byte-is_empty b (c == newline) (splitlines (c ∷ bs)) (splitlines-is_empty (c ∷ bs) h)

and_true : (b : Bool) → (b && true) ≡ b
and_true true = refl
and_true false = refl

and_false : (b : Bool) → (b && false) ≡ false
and_false true = refl
and_false false = refl

pub bind_ok {ℓ} : {A : Type ℓ} (r : Result A) → (r >>= λ a. ok a) ≡ r
bind_ok (ok a) = refl
bind_ok (err e) = refl

splitlines-append :
    (whole rest : Bytes)
    → ends_with_newline whole ≡ true
    → splitlines (whole ++ rest) ≡ splitlines whole ++ splitlines rest
unfolding splitlines ends_with_newline
splitlines-append [] rest h = ground arith
splitlines-append (b ∷ []) rest h = unfold add_byte in rw h refl
splitlines-append (b ∷ c ∷ bs) rest h =
    ap (add_byte b (c == newline)) (splitlines-append (c ∷ bs) rest h)
    ∙ add_byte-append b (c == newline) (splitlines (c ∷ bs)) (splitlines rest)
        (splitlines-is_empty (c ∷ bs) h)

pub splitlines-IsPrintable :
    (line : Bytes) → All IsPrintable line → splitlines (line ++ newline ∷ []) ≡ line ∷ []
unfolding splitlines
splitlines-IsPrintable [] h = unfold add_byte in refl
splitlines-IsPrintable (b ∷ bs) h =
    ap (add_byte b _) (splitlines-IsPrintable bs h.1) ∙ unfold add_byte in ground (arith, h)

ends-append_nonempty :
    (xs : Bytes) (y : ℕ) (ys : Bytes)
    → ends_with_newline (xs ++ y ∷ ys) ≡ ends_with_newline (y ∷ ys)
unfolding ends_with_newline
ends-append_nonempty [] y ys = refl
ends-append_nonempty (x ∷ []) y ys = refl
ends-append_nonempty (x ∷ z ∷ xs) y ys = ends-append_nonempty (z ∷ xs) y ys

pub ends-framed : (whole line : Bytes) → ends_with_newline (whole ++ (line ++ newline ∷ [])) ≡ true
unfolding ends_with_newline
ends-framed whole line =
    ap ends_with_newline (sym (append_assoc whole line (newline ∷ [])))
    ∙ ends-append_nonempty (whole ++ line) newline []

ends-IsPrintable :
    (y : ℕ) (ys : Bytes) → All IsPrintable (y ∷ ys) → ends_with_newline (y ∷ ys) ≡ false
unfolding ends_with_newline
ends-IsPrintable y [] h = ground (arith, h)
ends-IsPrintable y (z ∷ ys) h = ends-IsPrintable z ys h.1

append-is_empty : (xs : Bytes) (y : ℕ) (ys : Bytes) → is_empty (xs ++ y ∷ ys) ≡ false
unfolding is_empty
append-is_empty [] y ys = refl
append-is_empty (x ∷ xs) y ys = refl

cut-length :
    (p : Platform) (whole rest : Bytes)
    → ends_with_newline whole ≡ true
    → cut p (length whole) (whole ++ rest) ≡ ok whole
unfolding cut ends_with_newline
cut-length p [] rest h = ground arith
cut-length p (b ∷ bs) rest h = ap ok (take-append_self (b ∷ bs) rest)

module _ (p : Platform) where
  load_lines-append :
      (first : Bool) (l m : Loaded) (lines : List Bytes) (line : Bytes)
      → load_lines p first l lines ≡ ok m
      → ((load_lines p first l (lines ++ line ∷ []) ≡ load_line p (first && is_empty lines) m line))
  unfolding load_lines is_empty
  load_lines-append first l m [] line h =
      bind_ok (load_line p first l line)
      ∙ (λ i. load_line p (sym (and_true first) i) (ok_injective l m h i) line)
  load_lines-append first l m (x ∷ lines) line h =
      let (n, e, h1) = returned (load_line p first l x) _ h in
      ap (λ r. r >>= λ k. load_lines p false k (lines ++ line ∷ [])) e
      ∙ load_lines-append false n m lines line h1
      ∙ ap (λ b. load_line p b m line) (sym (and_false first))

  pub complete_whole :
      (whole : Bytes) → ends_with_newline whole ≡ true → complete p whole ≡ ok whole
  unfolding complete
  complete_whole whole h = ground (arith, h)

  complete_partial :
      (whole partial : Bytes)
      → ends_with_newline whole ≡ true
      → All IsPrintable partial
      → complete p (whole ++ partial) ≡ ok whole
  unfolding complete
  complete_partial whole [] h g = rw (append-nil whole) (complete_whole whole h)
  complete_partial whole (y ∷ ys) h g =
      let open_end = ends-append_nonempty whole y ys ∙ ends-IsPrintable y ys g in
      let last = after_last_newline-append whole (y ∷ ys) (NoNewline-IsPrintable (y ∷ ys) g) h in
      ap
        (λ c.
          if c
          then ok (whole ++ y ∷ ys)
          else cut p (after_last_newline (whole ++ y ∷ ys)) (whole ++ y ∷ ys))
        (λ i. append-is_empty whole y ys i || open_end i)
      ∙ ap (λ n. cut p n (whole ++ y ∷ ys)) last
      ∙ cut-length p whole (y ∷ ys) h

  -- A part of a line behind whole lines is cut off.
  pub load_partial :
      (whole partial : Bytes)
      → ends_with_newline whole ≡ true
      → All IsPrintable partial
      → load p (whole ++ partial) ≡ load p whole
  unfolding load
  load_partial whole partial h g =
      ap (λ c. c >>= loaded_from p)
        (complete_partial whole partial h g ∙ sym (complete_whole whole h))

  has_data_lem : (o : Option Data) (d : Data) → has_data p o ≡ ok d → o ≡ some d
  has_data_lem none d h = ground arith
  has_data_lem (some e) d h = ap some (ok_injective e d h)

  finished_lem :
      (kept : Bytes) (l : Loaded) (d : Data) (n : ℕ)
      → finished p kept l ≡ ok (kept, d, n)
      → l ≡ record { loaded = some d; updates_since_compaction = n }
  finished_lem kept l d n h =
      let (e, has, h1) = returned (has_data p l.loaded) _ h in
      let same = ok_injective (kept, e, l.updates_since_compaction) (kept, d, n) h1 in
      λ i. record {
        loaded = (has_data_lem l.loaded e has ∙ ap (λ t. some t.1) same) i;
        updates_since_compaction = (same i).2;
      }

  -- A line behind whole lines is applied to what they hold.
  pub load_appended :
      (whole line : Bytes) (d : Data) (n : ℕ)
      → ends_with_newline whole ≡ true
      → All IsPrintable line
      → load p whole ≡ ok (whole, d, n)
      → load p (whole ++ (line ++ newline ∷ [])) ≡ (
          load_line p false (record { loaded = some d; updates_since_compaction = n }) line >>= λ m.
          finished p (whole ++ (line ++ newline ∷ [])) m)
  unfolding load
  load_appended whole line d n h g e =
      let framed = line ++ newline ∷ [] in
      let start : Loaded = record { loaded = none; updates_since_compaction = 0 } in
      let (l, loads, end) =
        returned (load_lines p true start (splitlines whole)) _
          (ap (λ c. c >>= loaded_from p) (sym (complete_whole whole h)) ∙ e) in
      let lines : splitlines (whole ++ framed) ≡ splitlines whole ++ line ∷ [] =
        splitlines-append whole framed h
        ∙ ap (λ ls. splitlines whole ++ ls) (splitlines-IsPrintable line g) in
      ap (λ c. c >>= loaded_from p) (complete_whole (whole ++ framed) (ends-framed whole line))
      ∙ ap (λ ls. load_lines p true start ls >>= finished p (whole ++ framed)) lines
      ∙ ap (λ r. r >>= finished p (whole ++ framed))
          (load_lines-append true start l (splitlines whole) line loads ∙ (λ i.
            load_line p (splitlines-is_empty whole h i) (finished_lem whole l d n end i) line))
