-- ===== src/Agent/Captures/Parse/Grammar.antt =====
-- What the parser of TRIGGERS accepts.
use mikroscope.Common.{
  after_prefix, add_front, trim_space, List, [], ◌∷◌, ◌++◌, Option, none, some, false, Bytes, ◌≡◌,
  ◌≢◌, refl, ◌∙◌, ap, arith, length, ◌==◌, ==_iff, Bool-cases, inl, inr, ◌⊎◌, if◌then◌else◌,
}
use mikroscope.Sample.Floats.{Floats}
use mikroscope.Agent.Captures.Types.{Condition}
use mikroscope.Agent.Captures.Parse.{
  TriggerSpec, Result, ok, error, takes_no_threshold, split_op, split_commas, trigger_grammar,
  find_spec, in_range, with_number, by_spec, parse_condition, add_condition, parse_parts,
  parse_triggers,
}

-- Both results one after the other, or the first error.
abbrev pub both : {A : Type 0} → Result (List A) → Result (List A) → Result (List A)
both (error e) r = error e
both (ok cs) (error e) = error e
both (ok cs) (ok ds) = ok (cs ++ ds)

split_some : (s : Bytes) → (w : Bytes) × (ws : List Bytes) × (split_commas s ≡ w ∷ ws)
unfolding split_commas add_front
split_some [] = ([], [], refl)
split_some (b ∷ bs) = elim (Bool-cases (b == 44)) [
  | inl comma ↦ ([], split_commas bs, rw comma refl)
  | inr other ↦ let (w, ws, e) = split_some bs in (b ∷ w, ws, rw (other, e) refl)
]

split_commas-comma : (s t : Bytes) → split_commas (s ++ 44 ∷ t) ≡ split_commas s ++ split_commas t
unfolding split_commas add_front
split_commas-comma [] t = refl
split_commas-comma (b ∷ bs) t = elim (Bool-cases (b == 44)) [
  | inl comma ↦ rw comma (ap (λ ws. [] ∷ ws) (split_commas-comma bs t))
  | inr other ↦ let (w, ws, e) = split_some bs in rw (other, split_commas-comma bs t, e) refl
]

after_prefix_lem : (p s rest : Bytes) → after_prefix p s ≡ some rest → s ≡ p ++ rest
unfolding after_prefix
after_prefix_lem [] s rest h = cc
after_prefix_lem (a ∷ ps) [] rest h = cc
after_prefix_lem (a ∷ ps) (b ∷ bs) rest h = ground (arith, after_prefix_lem ps bs rest)

module _ {F : Type 0} (fl : Floats F) (parse_float : Bytes → Option F) where
  add-both :
      (c : Result (Condition F)) (r s : Result (List (Condition F)))
      → add_condition fl parse_float c (both r s) ≡ both (add_condition fl parse_float c r) s
  unfolding add_condition
  add-both (error e) r s = refl
  add-both (ok c) (error e) s = refl
  add-both (ok c) (ok cs) (error e) = refl
  add-both (ok c) (ok cs) (ok ds) = refl

  both_nil : (r : Result (List (Condition F))) → r ≡ both (ok []) r
  both_nil (error e) = refl
  both_nil (ok cs) = refl

  parse_parts-append :
      (xs ys : List Bytes)
      → parse_parts fl parse_float (xs ++ ys)
        ≡ both (parse_parts fl parse_float xs) (parse_parts fl parse_float ys)
  unfolding parse_parts
  parse_parts-append [] ys = both_nil (parse_parts fl parse_float ys)
  parse_parts-append (x ∷ xs) ys = elim (Bool-cases (length (trim_space x) == 0)) [
    | inl empty ↦ rw empty (parse_parts-append xs ys)
    | inr some_text ↦ rw some_text (
        ap (add_condition fl parse_float (parse_condition fl parse_float (trim_space x)))
          (parse_parts-append xs ys)
        ∙ add-both (parse_condition fl parse_float (trim_space x)) (parse_parts fl parse_float xs)
            (parse_parts fl parse_float ys))
  ]

  -- Two settings with a comma between them give the conditions of the first, then those of the
  -- second, and the first error of the two if there is one.
  pub parse_triggers-comma :
      (s t : Bytes)
      → parse_triggers fl parse_float (s ++ 44 ∷ t)
        ≡ both (parse_triggers fl parse_float s) (parse_triggers fl parse_float t)
  unfolding parse_triggers
  parse_triggers-comma s t =
      ap (parse_parts fl parse_float) (split_commas-comma s t)
      ∙ parse_parts-append (split_commas s) (split_commas t)

  -- How a condition with this text and number may have been accepted for an entry of the grammar.
  abbrev pub Fits : TriggerSpec F → Bytes → F → Type 0
  Fits spec arg threshold =
      ((length spec.op ≡ 0) × (arg ≡ []) × (threshold ≡ fl.of_ℕ 0))
      ⊎ ((number : Bytes) × (length spec.op ≢ 0)
          × (arg ≡ spec.op ++ number)
          × (parse_float number ≡ some threshold)
          × (fl.lt threshold spec.min ≡ false)
          × (fl.lt spec.max threshold ≡ false))

  in_range-ok :
      (spec : TriggerSpec F) (raw : Bytes) (o : Option F) (c : Condition F)
      → in_range fl parse_float spec raw o ≡ ok c
      → (c.name ≡ raw)
        × (c.kind ≡ spec.kind)
        × (o ≡ some c.threshold)
        × (fl.lt c.threshold spec.min ≡ false)
        × (fl.lt spec.max c.threshold ≡ false)
  unfolding in_range
  in_range-ok spec raw none c h = cc
  in_range-ok spec raw (some v) c h = grind arith

  with_number-ok :
      (spec : TriggerSpec F) (raw arg : Bytes) (o : Option Bytes) (c : Condition F)
      → length spec.op ≢ 0
      → after_prefix spec.op arg ≡ o
      → with_number fl parse_float spec raw o ≡ ok c
      → (c.name ≡ raw) × (c.kind ≡ spec.kind) × Fits spec arg c.threshold
  unfolding with_number
  with_number-ok spec raw arg none c ne p h = cc
  with_number-ok spec raw arg (some number) c ne p h =
      let (name, kind, read, low, high) = in_range-ok spec raw (parse_float number) c h in
      (name, kind, inr (number, ne, after_prefix_lem spec.op arg number p, read, low, high))

  same_condition :
      (raw : Bytes) (spec : TriggerSpec F) (c : Condition F)
      → ok (record { name = raw; threshold = fl.of_ℕ 0; kind = spec.kind }) ≡ ok c
      → (c.name ≡ raw) × (c.kind ≡ spec.kind) × (c.threshold ≡ fl.of_ℕ 0)
  same_condition raw spec c h = grind arith

  plain-ok :
      (spec : TriggerSpec F) (raw arg : Bytes) (c : Condition F)
      → length spec.op ≡ 0
      → (if length arg == 0
          then ok (record { name = raw; threshold = fl.of_ℕ 0; kind = spec.kind })
          else error takes_no_threshold)
        ≡ ok c
      → (c.name ≡ raw) × (c.kind ≡ spec.kind) × Fits spec arg c.threshold
  plain-ok spec raw [] c plain h =
      let (name, kind, threshold) = same_condition raw spec c h in
      (name, kind, inl (plain, refl, threshold))
  plain-ok spec raw (b ∷ bs) c plain h = absurd (grind arith)

  by_spec-ok :
      (o : Option (TriggerSpec F)) (raw arg : Bytes) (c : Condition F)
      → by_spec fl parse_float o raw arg ≡ ok c
      → (spec : TriggerSpec F) × (o ≡ some spec)
        × (c.name ≡ raw)
        × (c.kind ≡ spec.kind)
        × Fits spec arg c.threshold
  unfolding by_spec
  by_spec-ok none raw arg c h = cc
  by_spec-ok (some spec) raw arg c h = elim (Bool-cases (length spec.op == 0)) [
    | inl plain ↦
        let (name, kind, fits) = plain-ok spec raw arg c ((==_iff _ _).0 plain) (rw plain at h) in
        (spec, refl, name, kind, fits)
    | inr level ↦
        let (name, kind, fits) =
          with_number-ok spec raw arg (after_prefix spec.op arg) c (ground (arith, level)) refl
            (rw level at h) in
        (spec, refl, name, kind, fits)
  ]

  pub parse_condition-Fits :
      (raw : Bytes) (c : Condition F)
      → parse_condition fl parse_float raw ≡ ok c
      → (spec : TriggerSpec F) × (find_spec fl parse_float
            (split_op raw).0
            (trigger_grammar fl parse_float)
          ≡ some spec)
        × (c.name ≡ raw)
        × (c.kind ≡ spec.kind)
        × Fits spec (split_op raw).1 c.threshold
  unfolding parse_condition
  parse_condition-Fits raw c h =
      by_spec-ok (find_spec fl parse_float (split_op raw).0 (trigger_grammar fl parse_float)) raw
        (split_op raw).1 c h
