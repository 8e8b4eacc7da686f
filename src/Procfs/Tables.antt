-- ===== src/Procfs/Tables.antt =====
-- The files with one record to a line: what their parsers give, and when they fail.
mod Tests
use mikroscope.Common.{
  ℕ, List, [], ◌∷◌, ◌++◌, Option, none, some, Bool, true, false, not, Bytes, codes, after_prefix,
  trim_space, ◌≡◌, refl, sym, ap, ◌∙◌, arith, append-nil, append_assoc, length, get_or, ltb, ◌==◌,
  if◌then◌else◌, Bool-cases, inl, inr, Option-cases, select, is_some, ◌>>=◌, ◌>>◌, require,
}
use mikroscope.Procfs.Types.{Softnet, Schedstat, Diskstat, BuddyZone}
use mikroscope.Procfs.Numbers.{next_field}
use mikroscope.Procfs.Lines.{split_lines, each_line, columns}
use mikroscope.Procfs.Cpus.{hex_columns, softnet_of, softnet_line, parse_softnet}
use mikroscope.Procfs.Columns.{schedstat_line, parse_schedstat}
use mikroscope.Procfs.Devices.{
  buddyinfo_line, parse_buddyinfo, parse_buddy_line, row_fields, disk_of, diskstats_line,
  parse_diskstats,
}

-- Every line that is not skipped gives a record, or all fails.
abbrev pub all_rows : {A : Type 0} → (Bytes → Option A) → List Bytes → Option (List A)
all_rows row [] = some []
all_rows row (l ∷ ls) = do let r = (← row l); let rs = (← all_rows row ls); some (r ∷ rs)

-- The same where a file without a record is an error too.
abbrev pub some_rows : {A : Type 0} → (Bytes → Option A) → List Bytes → Option (List A)
some_rows row ls = do let rs = (← all_rows row ls); require (not (length rs == 0)); some rs

abbrev append_row : {A : Type 0} → List A → Option A → Option (List A)
append_row out o = do let r = (← o); some (out ++ r ∷ [])

-- The callback that the four parsers have.
abbrev Appends :
    {A : Type 0} → (Bytes → Bool) → (Bytes → Option A) → (List A → Bytes → Option (List A)) → Type 0
Appends {A} counts row step =
    (out : List A) (line : Bytes)
    → step out line ≡ (if counts line then append_row out (row line) else some out)

each_line-none :
    {S : Type 0} (step : S → Bytes → Option S) (ls : List Bytes) → each_line step none ls ≡ none
unfolding each_line
each_line-none step ls = refl

push :
    {A : Type 0} (out : List A) (r : A) (o : Option (List A))
    → (o >>= λ rs. some ((out ++ r ∷ []) ++ rs))
      ≡ ((o >>= λ rs. some (r ∷ rs)) >>= λ rs. some (out ++ rs))
push out r none = refl
push out r (some rs) = ap some (append_assoc out (r ∷ []) rs)

whole : {A : Type 0} (o : Option (List A)) → (o >>= λ rs. some ([] ++ rs)) ≡ o
whole none = refl
whole (some rs) = refl

module _ {A : Type 0} (counts : Bytes → Bool) (row : Bytes → Option A)
    (step : List A → Bytes → Option (List A)) (appends : Appends counts row step) where
  each_line-all_rows :
      (out : List A) (ls : List Bytes)
      → each_line step (some out) ls ≡ (all_rows row (select counts ls) >>= λ rs. some (out ++ rs))
  unfolding each_line
  each_line-all_rows out [] = ap some (sym (append-nil out))
  each_line-all_rows out (l ∷ ls) =
      ap (λ s. each_line step s ls) (appends out l) ∙ elim (Bool-cases (counts l)) [
        | inl e ↦ elim (Option-cases (row l)) [
          | inl o ↦ rw (e, o) (each_line-none step ls)
          | inr (r, o) ↦
              rw (e, o)
                (each_line-all_rows (out ++ r ∷ []) ls
                  ∙ push out r (all_rows row (select counts ls)))
        ]
        | inr e ↦ rw e (each_line-all_rows out ls)
      ]

  all_lines : (ls : List Bytes) → each_line step (some []) ls ≡ all_rows row (select counts ls)
  all_lines ls = each_line-all_rows [] ls ∙ whole (all_rows row (select counts ls))

-- What counts as a row, and its record.
abbrev has_bytes : Bytes → Bool
has_bytes line = not (length line == 0)

abbrev not_blank : Bytes → Bool
not_blank line = not (length (trim_space line) == 0)

abbrev is_cpu : Bytes → Bool
is_cpu line = is_some (after_prefix (codes "cpu") (next_field line).0)

abbrev has_field : Bytes → Bool
has_field line = not (length (row_fields 14 line) == 0)

abbrev softnet_record : Bytes → Option Softnet
softnet_record line = do
  let cols = (← hex_columns 11 line)
  require (not (ltb (length cols) 3))
  some (softnet_of cols)

abbrev sched_record : Bytes → Option Schedstat
sched_record line = do
  let (cols, after) = (← columns 9 (next_field line).1)
  some
      (record { run_ns = get_or cols 6 0; wait_ns = get_or cols 7 0; timeslices = get_or cols 8 0 })

abbrev disk_record : Bytes → Option Diskstat
disk_record line =
    if ltb (length (row_fields 14 line)) 14 then none else disk_of (row_fields 14 line)

no_columns :
    {A : Type 0} (n : ℕ) (out : List A)
    → (if n == 0 then some out else none) ≡ (if not (n == 0) then none else some out)
no_columns n out = ground arith

by_columns :
    {A : Type 0} (n c : ℕ) (out : List A) (r : A)
    → (if n == 0 then some out else require (not (ltb c 3)) >> some (out ++ r ∷ []))
      ≡ (if not (n == 0) then append_row out (require (not (ltb c 3)) >> some r) else some out)
by_columns n c out r = ground arith

disk_case :
    (n : ℕ) (out : List Diskstat) (o : Option Diskstat)
    → (if n == 0 then some out else if ltb n 14 then none else append_row out o)
      ≡ (if not (n == 0) then append_row out (if ltb n 14 then none else o) else some out)
disk_case n out o = ground arith

softnet_line-Appends : Appends has_bytes softnet_record softnet_line
unfolding softnet_line
softnet_line-Appends out line = elim (Option-cases (hex_columns 11 line)) [
  | inl o ↦ rw o (no_columns (length line) out)
  | inr (cols, o) ↦ rw o (by_columns (length line) (length cols) out (softnet_of cols))
]

schedstat_line-Appends : Appends is_cpu sched_record schedstat_line
unfolding schedstat_line
schedstat_line-Appends out line = elim (Option-cases (columns 9 (next_field line).1)) [
  | inl o ↦ rw o refl
  | inr (cols, o) ↦ rw o refl
]

diskstats_line-Appends : Appends has_field disk_record diskstats_line
unfolding diskstats_line
diskstats_line-Appends out line =
    let cols = row_fields 14 line in disk_case (length cols) out (disk_of cols)

buddyinfo_line-Appends : Appends not_blank parse_buddy_line buddyinfo_line
unfolding buddyinfo_line
buddyinfo_line-Appends out line = ground arith

pub tables_lem :
    (b : Bytes)
    → (parse_softnet b ≡ some_rows softnet_record (select has_bytes (split_lines b)))
      × (parse_schedstat b ≡ some_rows sched_record (select is_cpu (split_lines b)))
      × (parse_buddyinfo b ≡ some_rows parse_buddy_line (select not_blank (split_lines b)))
      × (parse_diskstats b ≡ all_rows disk_record (select has_field (split_lines b)))
unfolding parse_softnet parse_schedstat parse_buddyinfo parse_diskstats
tables_lem b =
    let ls = split_lines b in
    (
      rw (all_lines has_bytes softnet_record softnet_line softnet_line-Appends ls) refl,
      rw (all_lines is_cpu sched_record schedstat_line schedstat_line-Appends ls) refl,
      rw (all_lines not_blank parse_buddy_line buddyinfo_line buddyinfo_line-Appends ls) refl,
      all_lines has_field disk_record diskstats_line diskstats_line-Appends ls,
    )
