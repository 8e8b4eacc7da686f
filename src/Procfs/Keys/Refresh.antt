-- ===== src/Procfs/Keys/Refresh.antt =====
-- `ParseVmstatInto` against `ParseVmstat`: it stops early, and what it leaves out is not wanted.
use mikroscope.Common.{
  ℕ, ◌+◌, ◌≤◌, List, [], ◌∷◌, Option, none, some, Bool, true, false, not, Bytes, insert, ◌≡◌, refl,
  sym, ap, ◌∙◌, arith, length, ltb→le, ◌==◌, if◌then◌else◌, Bool-cases, Option-cases, inl, inr, ◌⊎◌,
  ◌>>◌, require,
}
use mikroscope.Procfs.Numbers.{parse_uint}
use mikroscope.Procfs.Lines.{each_all, each_until, split_lines}
use mikroscope.Procfs.Keys.{
  key_value, Wanted, wanted, is_wanted, is_short, store_wanted, vmstat_line, vmstat_into_line,
  parse_vmstat, parse_vmstat_into,
}
use mikroscope.Procfs.Keys.Rows.{row_of, rows, each_all-rows, Distinct, store_rows-Distinct}
use mikroscope.Procfs.Keys.Refreshed.{
  Table, refresh, pending, pending-le, refresh_nil, refresh_unwanted, refresh_wanted,
  refresh_pending, insert-Distinct, length-insert, pending-insert,
}

-- What a run of the loop over the rows of a file gives: the map refreshed, and the count of its rows
-- that are wanted.
abbrev Done : Table → Wanted ℕ → Wanted ℕ → Type 0
Done file w w' = (w'.dst ≡ refresh file w.dst) × (w'.found ≡ w.found + pending w.dst file)

-- The loop stopped: as many rows were stored as keys are wanted, so that none of the rest is.
stopped :
    (file : Table) (w : Wanted ℕ)
    → Distinct file
    → Distinct w.dst
    → w.found + pending w.dst file ≤ length w.dst
    → is_short w ≡ false
    → Done file w w
stopped file w f d b s =
    let none_left : pending w.dst file ≡ 0 = omega (arith, ltb→le w.found (length w.dst) s) in
    (sym (refresh_pending file w.dst f d none_left), omega arith)

abbrev stored : Bytes → ℕ → Wanted ℕ → Wanted ℕ
stored k n w = record { dst = insert k n w.dst; found = w.found + 1 }

no_row : {r : Bytes × ℕ} → some r ≡ none → ⊥
no_row h = cc

same_row :
    {j k : Bytes} {m n : ℕ}
    → ◌≡◌ {A = Option (Bytes × ℕ)} (some (j, m)) (some (k, n))
    → (j ≡ k) × (m ≡ n)
same_row h = (cc, cc)

row_of-some :
    (line : Bytes) (n : ℕ)
    → (length (key_value line).0 == 0) ≡ false
    → parse_uint (key_value line).1 ≡ some n
    → row_of line ≡ some ((key_value line).0, n)
unfolding row_of
row_of-some line n e o = rw (e, o) refl

row_of-none :
    (line : Bytes)
    → ((length (key_value line).0 == 0) ≡ true) ⊎ (parse_uint (key_value line).1 ≡ none)
    → row_of line ≡ none
unfolding row_of
row_of-none line (inl e) = rw e refl
row_of-none line (inr o) = ground (arith, o)

-- A row that is no key and number, or that is not wanted, stores nothing.
into_none :
    (w : Wanted ℕ) (line : Bytes)
    → row_of line ≡ none
    → (vmstat_into_line w line ≡ (w, true)) ⊎ (vmstat_into_line w line ≡ (w, is_short w))
unfolding row_of vmstat_into_line store_wanted
into_none w line h =
    let (key, v) = key_value line in
    elim (Bool-cases (length key == 0)) [
      | inl e ↦ inl (rw e refl)
      | inr e ↦ elim (Option-cases (parse_uint v)) [
        | inl o ↦ elim (Bool-cases (is_wanted key w)) [
          | inl y ↦ inr (rw (e, o, y) refl)
          | inr y ↦ inl (rw (e, o, y) refl)
        ]
        | inr (n, o) ↦ absurd (no_row (sym (row_of-some line n e o) ∙ h))
      ]
    ]

into_some :
    (w : Wanted ℕ) (line k : Bytes) (n : ℕ)
    → row_of line ≡ some (k, n)
    → vmstat_into_line w line
      ≡ (if is_wanted k w then (stored k n w, is_short (stored k n w)) else (w, true))
unfolding row_of vmstat_into_line store_wanted
into_some w line k n h =
    let (key, v) = key_value line in
    elim (Bool-cases (length key == 0)) [
      | inl e ↦ absurd (no_row (sym h ∙ row_of-none line (inl e)))
      | inr e ↦ elim (Option-cases (parse_uint v)) [
        | inl o ↦ absurd (no_row (sym h ∙ row_of-none line (inr o)))
        | inr (m, o) ↦
            let same = same_row (sym (row_of-some line m e o) ∙ h) in
            let (k', n') = same in
            rw (← k', ← n')
              (elim (Bool-cases (is_wanted key w)) [
                | inl y ↦ rw (e, o, y) refl
                | inr y ↦ rw (e, o, y) refl
              ])
      ]
    ]

-- The rest of the loop, from a state that the callback left.
go_on :
    (ls : List Bytes) (w : Wanted ℕ) (more : Bool)
    → Done (rows ls) w (each_until vmstat_into_line w ls)
    → (more ≡ true) ⊎ (more ≡ is_short w)
    → Distinct (rows ls)
    → Distinct w.dst
    → w.found + pending w.dst (rows ls) ≤ length w.dst
    → Done (rows ls) w (if more then each_until vmstat_into_line w ls else w)
go_on ls w true done m f d b = done
go_on ls w false done (inl m) f d b = cc
go_on ls w false done (inr m) f d b = stopped (rows ls) w f d b (sym m)

abbrev Loop : List Bytes → Type 0
Loop ls =
    (w : Wanted ℕ)
    → Distinct (rows ls)
    → Distinct w.dst
    → w.found + pending w.dst (rows ls) ≤ length w.dst
    → Done (rows ls) w (each_until vmstat_into_line w ls)

skip_row : (l : Bytes) (ls : List Bytes) → row_of l ≡ none → Loop ls → Loop (l ∷ ls)
unfolding each_until rows
skip_row l ls o loop w f d b =
    let f' : Distinct (rows ls) = rw o at f in
    let b' : w.found + pending w.dst (rows ls) ≤ length w.dst = rw o at b in
    let done = loop w f' d b' in
    elim (into_none w l o) [
      | inl s ↦ rw (s, o) done
      | inr s ↦ rw (s, o) (go_on ls w (is_short w) done (inr refl) f' d b')
    ]

take_row :
    (l k : Bytes) (n : ℕ) (ls : List Bytes) → row_of l ≡ some (k, n) → Loop ls → Loop (l ∷ ls)
unfolding each_until rows
take_row l k n ls o loop w f d b =
    let f' : Distinct ((k, n) ∷ rows ls) = rw o at f in
    let b' : w.found + pending w.dst ((k, n) ∷ rows ls) ≤ length w.dst = rw o at b in
    elim (Bool-cases (is_wanted k w)) [
      | inl y ↦
          let d' = insert-Distinct k n w.dst d in
          let room : (stored k n w).found + pending (stored k n w).dst (rows ls)
              ≤ length (stored k n w).dst =
            ground (arith, pending-insert k n w.dst (rows ls) y, length-insert k n w.dst y) in
          let done =
            go_on ls (stored k n w) (is_short (stored k n w)) (loop (stored k n w) f'.1 d' room)
              (inr refl) f'.1 d' room in
          rw (into_some w l k n o, y, o)
            (
              done.0 ∙ refresh_wanted k n (rows ls) w.dst d f'.0 y,
              done.1 ∙ ground (arith, pending-insert k n w.dst (rows ls) y),
            )
      | inr y ↦
          let done = loop w f'.1 d (ground arith) in
          rw (into_some w l k n o, y, o)
            (
              done.0 ∙ sym (refresh_unwanted k n (rows ls) w.dst (ground arith)),
              done.1 ∙ ground arith,
            )
    ]

into_rows : (ls : List Bytes) → Loop ls
unfolding each_until rows
into_rows [] = λ w f d b. (sym (refresh_nil w.dst), omega arith)
into_rows (l ∷ ls) = elim (Option-cases (row_of l)) [
  | inl o ↦ skip_row l ls o (into_rows ls)
  | inr ((k, n), o) ↦ take_row l k n ls o (into_rows ls)
]

kept : (out file : Table) → (require (not (length out == 0)) >> some out) ≡ some file → out ≡ file
kept [] file h = cc
kept (r ∷ out) file h = ground arith

result :
    (found p : ℕ) (m m' : Table)
    → found ≡ 0 + p
    → m ≡ m'
    → (require (not (found == 0)) >> some m) ≡ (if p == 0 then none else some m')
result found p m m' e h = ground arith

-- On a file without a key twice, `ParseVmstatInto` gives each key of the caller's map the number
-- that `ParseVmstat` reads for it, where there is one, and keeps the keys and the other numbers as
-- they are; it fails exactly when the file has none of the keys. Its early end loses nothing.
pub parse_vmstat_into-refresh :
    (b : Bytes) (dst file : Table)
    → Distinct (rows (split_lines b))
    → Distinct dst
    → parse_vmstat b ≡ some file
    → parse_vmstat_into b dst ≡ (if pending dst file == 0 then none else some (refresh file dst))
unfolding parse_vmstat_into parse_vmstat
parse_vmstat_into-refresh b dst file f d h =
    let ls = split_lines b in
    let read : each_all vmstat_line [] ls ≡ rows ls =
      each_all-rows ls [] ∙ store_rows-Distinct (rows ls) f in
    let same : rows ls ≡ file = sym read ∙ kept (each_all vmstat_line [] ls) file h in
    let room : 0 + pending dst (rows ls) ≤ length dst = omega (arith, pending-le dst (rows ls) f) in
    let done = into_rows ls (wanted dst) f d room in
    result _ _ _ _ done.1 done.0
    ∙ ap (λ t. if pending dst t == 0 then none else some (refresh t dst)) same
