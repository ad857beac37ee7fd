-- ===== src/Run/Flatten/Keys.antt =====
-- Flattened log data is the leaves of the nested data, in order, each under the path to it, and no two of
-- them have the same key.
use epochdeck.Prelude.{
  ℕ, suc, ◌≤◌, ◌<◌, ◌≡◌, ◌∙◌, ap, sym, subst, Bool, false, not, List, [], ◌∷◌, ◌++◌, append_assoc,
  append-nil, arith, ltb, leb, length, length-append,
}
use epochdeck.Text.{Text}
use epochdeck.Error.{
  value_error, type_error, Result, ok, err, raise_if, returned, ok_injective, passes, Error,
}
use epochdeck.Json.{bool, int, float}
use epochdeck.Platform.{Platform}
use epochdeck.Metrics.{Floats, number_of}
use epochdeck.Python.{
  text_key, other_key, Entries, no_entries, entry, Object, mapping, sequence, text, boolean,
  integer, number, nothing, rich, other,
}
use epochdeck.Run.Documents.{validate_label}
use epochdeck.Run.Flatten.{
  Flattened, joined, is_seen, reserve, add_metric, add_rich, count_node, flatten_entries,
  flatten_object, flatten_values, max_values_per_log, max_log_value_nodes, max_log_value_depth,
}

abbrev pub number_leaf : Text → Result ℕ → Floats
number_leaf key (ok x) = (key, x) ∷ []
number_leaf key (err e) = []

-- The numbers of the data, with their paths.
unfoldable mutual
  pub metric_leaves : Platform → Text → Entries → Floats
  metric_leaves p prefix no_entries = []
  metric_leaves p prefix (entry other_key o es) = metric_leaves p prefix es
  metric_leaves p prefix (entry (text_key k) o es) =
      object_metrics p (joined prefix k) o ++ metric_leaves p prefix es

  pub object_metrics : Platform → Text → Object → Floats
  object_metrics p key (mapping es) = metric_leaves p key es
  object_metrics p key (boolean b) = number_leaf key (number_of p (bool b))
  object_metrics p key (integer n) = number_leaf key (number_of p (int n))
  object_metrics p key (number x) = number_leaf key (number_of p (float x))
  object_metrics p key o = []

-- The rich values of the data, with their paths.
unfoldable mutual
  pub rich_leaves : Text → Entries → List (Text × ℕ)
  rich_leaves prefix no_entries = []
  rich_leaves prefix (entry other_key o es) = rich_leaves prefix es
  rich_leaves prefix (entry (text_key k) o es) =
      object_rich (joined prefix k) o ++ rich_leaves prefix es

  pub object_rich : Text → Object → List (Text × ℕ)
  object_rich key (mapping es) = rich_leaves key es
  object_rich key (rich value) = (key, value) ∷ []
  object_rich key o = []

-- The paths of the leaves, the last one first.
unfoldable mutual
  pub leaf_keys : Text → Entries → List Text → List Text
  leaf_keys prefix no_entries before = before
  leaf_keys prefix (entry other_key o es) before = leaf_keys prefix es before
  leaf_keys prefix (entry (text_key k) o es) before =
      leaf_keys prefix es (object_keys (joined prefix k) o before)

  pub object_keys : Text → Object → List Text → List Text
  object_keys key (mapping es) before = leaf_keys key es before
  object_keys key o before = key ∷ before

abbrev pub Distinct : List Text → Type 0
Distinct [] = Unit
Distinct (k ∷ ks) = (is_seen k ks ≡ false) × Distinct ks

-- What one part of the data adds.
record Adds (ms : Floats) (rs : List (Text × ℕ)) (ks : List Text → List Text) (s t : Flattened)
    : Type 0 where
  metrics : t.metrics ≡ s.metrics ++ ms
  rich_values : t.rich_values ≡ s.rich_values ++ rs
  keys : t.seen ≡ ks s.seen
  distinct : Distinct s.seen → Distinct t.seen
  few_metrics : length s.metrics ≤ max_values_per_log → length t.metrics ≤ max_values_per_log
  few_rich : length s.rich_values ≤ max_values_per_log → length t.rich_values ≤ max_values_per_log

reserve_lem :
    (key : Text) (s t : Flattened)
    → reserve key s ≡ ok t
    → (is_seen key s.seen ≡ false) × (t ≡ record s { seen = key ∷ s.seen })
unfolding reserve
reserve_lem key s t h =
    passes (is_seen key s.seen) value_error (record s { seen = key ∷ s.seen }) t h

room_left : (m n : ℕ) (e : Error) → raise_if (leb m n) e ≡ ok tt → n < m
room_left m n e h = ground arith

same-Adds :
    (s t : Flattened)
    → t.metrics ≡ s.metrics
    → t.rich_values ≡ s.rich_values
    → t.seen ≡ s.seen
    → Adds [] [] (λ ks. ks) s t
same-Adds s t metrics rich_values seen = record {
  metrics = metrics ∙ sym (append-nil s.metrics);
  rich_values = rich_values ∙ sym (append-nil s.rich_values);
  keys = seen;
  distinct = λ h. subst Distinct (sym seen) h;
  few_metrics = λ h. omega (arith, ap length metrics);
  few_rich = λ h. omega (arith, ap length rich_values);
}

Adds-trans :
    (ms ns : Floats) (rs us : List (Text × ℕ)) (f g : List Text → List Text) (s t u : Flattened)
    → Adds ms rs f s t
    → Adds ns us g t u
    → Adds (ms ++ ns) (rs ++ us) (λ ks. g (f ks)) s u
Adds-trans ms ns rs us f g s t u a b = record {
  metrics = b.metrics ∙ ap (λ l. l ++ ns) a.metrics ∙ append_assoc s.metrics ms ns;
  rich_values = b.rich_values ∙ ap (λ l. l ++ us) a.rich_values ∙ append_assoc s.rich_values rs us;
  keys = b.keys ∙ ap g a.keys;
  distinct = λ h. b.distinct (a.distinct h);
  few_metrics = λ h. b.few_metrics (a.few_metrics h);
  few_rich = λ h. b.few_rich (a.few_rich h);
}

module _ (p : Platform) (allow_rich : Bool) where
  add_metric-Adds :
      (key : Text) (value : Result ℕ) (s t : Flattened)
      → add_metric p allow_rich key value s ≡ ok t
      → Adds (number_leaf key value) [] (λ ks. key ∷ ks) s t
  unfolding add_metric
  add_metric-Adds key (err e) s t h =
      let (r, reserved, h1) = returned (reserve key s) _ h in
      let (u, room, h2) =
        returned (raise_if (leb max_values_per_log (length r.metrics)) value_error) (λ u. err e)
          h1 in
      ground arith
  add_metric-Adds key (ok x) s t h =
      let (r, reserved, h1) = returned (reserve key s) _ h in
      let (fresh, same) = reserve_lem key s r reserved in
      let (u, room, h2) =
        returned (raise_if (leb max_values_per_log (length r.metrics)) value_error)
          (λ u. ok (record r { metrics = r.metrics ++ (key, x) ∷ [] })) h1 in
      let made : t ≡ record r { metrics = r.metrics ++ (key, x) ∷ [] } =
        sym (ok_injective (record r { metrics = r.metrics ++ (key, x) ∷ [] }) t h2) in
      record {
        metrics = ap (λ t. t.metrics) made ∙ ap (λ r. r.metrics ++ (key, x) ∷ []) same;
        rich_values =
            ap (λ t. t.rich_values) made
            ∙ ap (λ r. r.rich_values) same
            ∙ sym (append-nil s.rich_values);
        keys = ap (λ t. t.seen) made ∙ ap (λ r. r.seen) same;
        distinct =
            λ h. subst Distinct (sym (ap (λ t. t.seen) made ∙ ap (λ r. r.seen) same)) (fresh, h);
        few_metrics = λ h. omega (
          arith,
          ap (λ (t : Flattened). length t.metrics) made,
          room_left max_values_per_log (length r.metrics) value_error room,
          length-append {0} r.metrics ((key, x) ∷ []),
        );
        few_rich = λ h. omega (
          arith,
          ap (λ (t : Flattened). length t.rich_values) made,
          ap (λ (t : Flattened). length t.rich_values) same,
        );
      }

  add_rich-Adds :
      (key : Text) (value : ℕ) (s t : Flattened)
      → add_rich p allow_rich key value s ≡ ok t
      → Adds [] ((key, value) ∷ []) (λ ks. key ∷ ks) s t
  unfolding add_rich
  add_rich-Adds key value s t h =
      let (v, allowed, h0) = returned (raise_if (not allow_rich) type_error) (λ v. _) h in
      let (r, reserved, h1) = returned (reserve key s) _ h0 in
      let (fresh, same) = reserve_lem key s r reserved in
      let (u, room, h2) =
        returned (raise_if (leb max_values_per_log (length r.rich_values)) value_error)
          (λ u. ok (record r { rich_values = r.rich_values ++ (key, value) ∷ [] })) h1 in
      let made : t ≡ record r { rich_values = r.rich_values ++ (key, value) ∷ [] } =
        sym (ok_injective (record r { rich_values = r.rich_values ++ (key, value) ∷ [] }) t h2) in
      record {
        metrics = ap (λ t. t.metrics) made ∙ ap (λ r. r.metrics) same ∙ sym (append-nil s.metrics);
        rich_values =
            ap (λ t. t.rich_values) made ∙ ap (λ r. r.rich_values ++ (key, value) ∷ []) same;
        keys = ap (λ t. t.seen) made ∙ ap (λ r. r.seen) same;
        distinct =
            λ h. subst Distinct (sym (ap (λ t. t.seen) made ∙ ap (λ r. r.seen) same)) (fresh, h);
        few_metrics = λ h. omega (
          arith,
          ap (λ (t : Flattened). length t.metrics) made,
          ap (λ (t : Flattened). length t.metrics) same,
        );
        few_rich = λ h. omega (
          arith,
          ap (λ (t : Flattened). length t.rich_values) made,
          room_left max_values_per_log (length r.rich_values) value_error room,
          length-append {0} r.rich_values ((key, value) ∷ []),
        );
      }

  count_node-Adds : (s t : Flattened) → count_node p allow_rich s ≡ ok t → Adds [] [] (λ ks. ks) s t
  unfolding count_node
  count_node-Adds s t h =
      let (u, room, h1) =
        returned (raise_if (ltb max_log_value_nodes (suc s.visited)) value_error)
          (λ u. ok (record s { visited = suc s.visited })) h in
      let made : t ≡ record s { visited = suc s.visited } =
        sym (ok_injective (record s { visited = suc s.visited }) t h1) in
      same-Adds s t (ap (λ t. t.metrics) made) (ap (λ t. t.rich_values) made)
        (ap (λ t. t.seen) made)

  mutual
    unfolding flatten_entries flatten_object metric_leaves object_metrics rich_leaves object_rich
        leaf_keys object_keys

    entries-Adds :
        (prefix : Text) (depth : ℕ) (es : Entries) (s t : Flattened)
        → flatten_entries p allow_rich prefix depth es s ≡ ok t
        → Adds (metric_leaves p prefix es) (rich_leaves prefix es) (leaf_keys prefix es) s t
    entries-Adds prefix depth no_entries s t h =
        let made : t ≡ s = sym (ok_injective s t h) in
        same-Adds s t (ap (λ t. t.metrics) made) (ap (λ t. t.rich_values) made)
          (ap (λ t. t.seen) made)
    entries-Adds prefix depth (entry other_key o es) s t h =
        let (r, counted, raised) = returned (count_node p allow_rich s) (λ r. err type_error) h in
        ground arith
    entries-Adds prefix depth (entry (text_key k) o es) s t h =
        let (r, counted, h1) = returned (count_node p allow_rich s) _ h in
        let (u, labelled, h2) = returned (validate_label 256 (joined prefix k)) _ h1 in
        let (v, inner, h3) =
          returned (flatten_object p allow_rich (joined prefix k) depth o r) _ h2 in
        Adds-trans (object_metrics p (joined prefix k) o) (metric_leaves p prefix es)
          (object_rich (joined prefix k) o) (rich_leaves prefix es)
          (object_keys (joined prefix k) o) (leaf_keys prefix es) s v t
          (Adds-trans [] (object_metrics p (joined prefix k) o) [] (object_rich (joined prefix k) o)
            (λ ks. ks) (object_keys (joined prefix k) o) s r v (count_node-Adds s r counted)
            (object-Adds (joined prefix k) depth o r v inner))
          (entries-Adds prefix depth es v t h3)

    object-Adds :
        (key : Text) (depth : ℕ) (o : Object) (s t : Flattened)
        → flatten_object p allow_rich key depth o s ≡ ok t
        → Adds (object_metrics p key o) (object_rich key o) (object_keys key o) s t
    object-Adds key depth (mapping es) s t h =
        let (u, shallow, h1) =
          returned (raise_if (leb max_log_value_depth depth) value_error)
            (λ u. flatten_entries p allow_rich key (suc depth) es s) h in
        entries-Adds key (suc depth) es s t h1
    object-Adds key depth (rich value) s t h = add_rich-Adds key value s t h
    object-Adds key depth (boolean b) s t h = add_metric-Adds key (number_of p (bool b)) s t h
    object-Adds key depth (integer n) s t h = add_metric-Adds key (number_of p (int n)) s t h
    object-Adds key depth (number x) s t h = add_metric-Adds key (number_of p (float x)) s t h
    object-Adds key depth (sequence os) s t h = ground arith
    object-Adds key depth (text x) s t h = ground arith
    object-Adds key depth nothing s t h = ground arith
    object-Adds key depth other s t h = ground arith

  -- Accepted log data gives its numbers and its rich values, in order, each under the path to it; the
  -- paths of the leaves are distinct, and there are at most 256 of each.
  pub flatten_values_lem :
      (es : Entries) (f : Flattened)
      → flatten_values p allow_rich (mapping es) ≡ ok f
      → (f.metrics ≡ metric_leaves p [] es)
        × (f.rich_values ≡ rich_leaves [] es)
        × Distinct (leaf_keys [] es [])
        × (length f.metrics ≤ max_values_per_log)
        × (length f.rich_values ≤ max_values_per_log)
  unfolding flatten_values
  flatten_values_lem es f h =
      let start : Flattened = record { metrics = []; rich_values = []; seen = []; visited = 1 } in
      let a : Adds (metric_leaves p [] es) (rich_leaves [] es) (leaf_keys [] es) start f =
        entries-Adds [] 0 es start f h in
      (
        a.metrics,
        a.rich_values,
        subst Distinct a.keys (a.distinct tt),
        a.few_metrics (omega arith),
        a.few_rich (omega arith),
      )
