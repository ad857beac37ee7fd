-- ===== src/Json/Dumps/Printable.antt =====
-- The text of `json.dumps` with `ensure_ascii` is printable ASCII: no control byte, hence no line
-- feed, ever stands in a journal record.
use epochdeck.Prelude.{
  ℕ, suc, ◌/◌, ◌%◌, ◌≤◌, true, false, List, [], ◌∷◌, ◌++◌, arith, ltb, All, All-append, Bool-cases,
  inl, inr,
}
use epochdeck.Prelude.Int.{ℤ, pos, negsuc}
use epochdeck.Text.{Text, text_lt}
use epochdeck.Text.Decimal.{decimal, decimal-IsDigit}
use epochdeck.Json.{
  Value, null, bool, int, float, str, arr, obj, Items, no_items, item, Fields, no_fields, field,
}
use epochdeck.Json.Dumps.{
  hex, unicode_escape, long_escape, escape, escape_all, quote, integer, insert_member, sort_members,
  comma_separated, members, object_text, array_text, dumps, dumps_items, dumps_fields,
}

abbrev pub IsPrintable : ℕ → Type 0
IsPrintable c = (32 ≤ c) × (c ≤ 126)

hex-IsPrintable : (d : ℕ) → d ≤ 15 → IsPrintable (hex d)
unfolding hex
hex-IsPrintable d h = ground arith

unicode_escape-IsPrintable : (c : ℕ) → All IsPrintable (unicode_escape c)
unfolding unicode_escape
unicode_escape-IsPrintable c = ground (
  arith,
  hex-IsPrintable (c / 4096 % 16),
  hex-IsPrintable (c / 256 % 16),
  hex-IsPrintable (c / 16 % 16),
  hex-IsPrintable (c % 16),
)

long_escape-IsPrintable : (c : ℕ) → All IsPrintable (long_escape c)
unfolding long_escape
long_escape-IsPrintable c = elim (Bool-cases (ltb c 0x10000)) [
  | inl short ↦ rw short (unicode_escape-IsPrintable c)
  | inr long ↦ rw long (
      All-append IsPrintable (unicode_escape _) (unicode_escape _) (unicode_escape-IsPrintable _)
        (unicode_escape-IsPrintable _))
]

escape-IsPrintable : (c : ℕ) → All IsPrintable (escape true c)
unfolding escape
escape-IsPrintable c = ground (arith, long_escape-IsPrintable c)

escape_all-IsPrintable : (s : Text) → All IsPrintable (escape_all true s)
unfolding escape_all
escape_all-IsPrintable [] = tt
escape_all-IsPrintable (c ∷ cs) =
    All-append IsPrintable (escape true c) (escape_all true cs) (escape-IsPrintable c)
      (escape_all-IsPrintable cs)

quote-IsPrintable : (s : Text) → All IsPrintable (quote true s)
quote-IsPrintable s =
    unfold quote in
    (
      omega arith,
      All-append IsPrintable (escape_all true s) (b'"' ∷ []) (escape_all-IsPrintable s)
          (omega arith, tt),
    )

digits-IsPrintable : (l : List ℕ) → All (λ c. (48 ≤ c) × (c ≤ 57)) l → All IsPrintable l
digits-IsPrintable [] h = tt
digits-IsPrintable (c ∷ cs) h = (omega arith, digits-IsPrintable cs h.1)

integer-IsPrintable : (n : ℤ) → All IsPrintable (integer n)
unfolding integer
integer-IsPrintable (pos n) = digits-IsPrintable (decimal n) (decimal-IsDigit n)
integer-IsPrintable (negsuc n) =
    (omega arith, digits-IsPrintable (decimal (suc n)) (decimal-IsDigit (suc n)))

comma_separated-IsPrintable :
    (ts : List Text) → All (All IsPrintable) ts → All IsPrintable (comma_separated ts)
unfolding comma_separated
comma_separated-IsPrintable [] h = tt
comma_separated-IsPrintable (t ∷ []) h = h.0
comma_separated-IsPrintable (t ∷ u ∷ ts) h =
    All-append IsPrintable t (b',' ∷ comma_separated (u ∷ ts)) h.0
      (omega arith, comma_separated-IsPrintable (u ∷ ts) h.1)

-- The rendered value of every member is printable.
abbrev pub ValuesPrintable : List (Text × Text) → Type 0
ValuesPrintable ms = All (λ m. All IsPrintable m.1) ms

insert_member-ValuesPrintable :
    (m : Text × Text) (ms : List (Text × Text))
    → All IsPrintable m.1
    → ValuesPrintable ms
    → ValuesPrintable (insert_member m ms)
unfolding insert_member
insert_member-ValuesPrintable m [] h hs = (h, tt)
insert_member-ValuesPrintable m (n ∷ ns) h hs = elim (Bool-cases (text_lt m.0 n.0)) [
  | inl before ↦ rw before (h, hs)
  | inr after ↦ rw after (hs.0, insert_member-ValuesPrintable m ns h hs.1)
]

sort_members-ValuesPrintable :
    (ms : List (Text × Text)) → ValuesPrintable ms → ValuesPrintable (sort_members ms)
unfolding sort_members
sort_members-ValuesPrintable [] h = tt
sort_members-ValuesPrintable (m ∷ ms) h =
    insert_member-ValuesPrintable m (sort_members ms) h.0 (sort_members-ValuesPrintable ms h.1)

members-IsPrintable :
    (ms : List (Text × Text)) → ValuesPrintable ms → All (All IsPrintable) (members true ms)
unfolding members
members-IsPrintable [] h = tt
members-IsPrintable ((k, t) ∷ ms) h = (
  All-append IsPrintable (quote true k) (b':' ∷ t) (quote-IsPrintable k) (omega arith, h.0),
  members-IsPrintable ms h.1,
)

enclosed-IsPrintable :
    (a b : ℕ) (t : Text)
    → IsPrintable a
    → IsPrintable b
    → All IsPrintable t
    → All IsPrintable (a ∷ (t ++ b ∷ []))
enclosed-IsPrintable a b t ha hb h = (ha, All-append IsPrintable t (b ∷ []) h (hb, tt))

object_text-IsPrintable :
    (ms : List (Text × Text)) → ValuesPrintable ms → All IsPrintable (object_text true ms)
unfolding object_text
object_text-IsPrintable ms h = enclosed-IsPrintable b'{' b'}' _ (omega arith) (omega arith) (
    comma_separated-IsPrintable (members true (sort_members ms))
      (members-IsPrintable (sort_members ms) (sort_members-ValuesPrintable ms h)))

array_text-IsPrintable :
    (ts : List Text) → All (All IsPrintable) ts → All IsPrintable (array_text ts)
unfolding array_text
array_text-IsPrintable ts h =
    enclosed-IsPrintable b'[' b']' _ (omega arith) (omega arith) (comma_separated-IsPrintable ts h)

module _ (float_repr : ℕ → Text) (floats : (x : ℕ) → All IsPrintable (float_repr x)) where
  mutual
    unfolding dumps dumps_items dumps_fields

    pub dumps-IsPrintable : (v : Value) → All IsPrintable (dumps float_repr true v)
    dumps-IsPrintable null = omega arith
    dumps-IsPrintable (bool true) = omega arith
    dumps-IsPrintable (bool false) = omega arith
    dumps-IsPrintable (int n) = integer-IsPrintable n
    dumps-IsPrintable (float x) = floats x
    dumps-IsPrintable (str s) = quote-IsPrintable s
    dumps-IsPrintable (arr xs) =
        array_text-IsPrintable (dumps_items float_repr true xs) (dumps_items-IsPrintable xs)
    dumps-IsPrintable (obj fs) =
        object_text-IsPrintable (dumps_fields float_repr true fs) (dumps_fields-IsPrintable fs)

    pub dumps_items-IsPrintable :
        (xs : Items) → All (All IsPrintable) (dumps_items float_repr true xs)
    dumps_items-IsPrintable no_items = tt
    dumps_items-IsPrintable (item v xs) = (dumps-IsPrintable v, dumps_items-IsPrintable xs)

    pub dumps_fields-IsPrintable : (fs : Fields) → ValuesPrintable (dumps_fields float_repr true fs)
    dumps_fields-IsPrintable no_fields = tt
    dumps_fields-IsPrintable (field k v fs) = (dumps-IsPrintable v, dumps_fields-IsPrintable fs)
