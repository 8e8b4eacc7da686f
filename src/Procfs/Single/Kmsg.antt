-- ===== src/Procfs/Single/Kmsg.antt =====
-- A record of /dev/kmsg as the kernel prints it, read by `ParseKmsgRecord`.
use mikroscope.Common.{
  ◌||◌, ◌&&◌, if◌then◌else◌, ◌⊎◌, inl, inr, Bool-cases, ◌∙◌, ℕ, suc, ◌/◌, ◌%◌, ◌<◌, [], ◌∷◌, ◌++◌,
  some, true, false, Bytes, itoa, ◌≡◌, refl, ap, arith, length, take, drop, ◌==◌, All, All-append,
  u64_mod,
}
use mikroscope.Procfs.Numbers.{is_digit}
use mikroscope.Procfs.Numbers.RoundTrip.{itoa-All, parse_uint-itoa}
use mikroscope.Procfs.Trim.{index_byte, up_to, trim_quotes, trim_front, trim_back, next_csv}
use mikroscope.Procfs.Single.{parse_kmsg_record}

-- No byte of a text is this one.
abbrev pub Without : ℕ → Bytes → Type 0
Without c s = All (λ b. (b == c) ≡ false) s

index_byte-append :
    (c : ℕ) (w rest : Bytes) → Without c w → index_byte c (w ++ c ∷ rest) ≡ some (length w)
unfolding index_byte
index_byte-append c [] rest h = ground arith
index_byte-append c (b ∷ w) rest h = rw (h.0, index_byte-append c w rest h.1) refl

take_front : (w rest : Bytes) → take (length w) (w ++ rest) ≡ w
take_front [] rest = refl
take_front (b ∷ w) rest = ap (λ t. b ∷ t) (take_front w rest)

drop_front : (c : ℕ) (w rest : Bytes) → drop (suc (length w)) (w ++ c ∷ rest) ≡ rest
drop_front c [] rest = refl
drop_front c (b ∷ w) rest = drop_front c w rest

next_csv_append : (w rest : Bytes) → Without 44 w → next_csv (w ++ 44 ∷ rest) ≡ (w, rest)
unfolding next_csv
next_csv_append w rest h = rw (index_byte-append 44 w rest h, take_front, drop_front) refl

up_to_append : (c : ℕ) (w rest : Bytes) → Without c w → up_to c (w ++ c ∷ rest) ≡ w
unfolding up_to
up_to_append c w rest h = rw (index_byte-append c w rest h, take_front) refl

digits-Without :
    (c : ℕ) (s : Bytes) → is_digit c ≡ false → All (λ b. is_digit b ≡ true) s → Without c s
digits-Without c [] n h = tt
digits-Without c (b ∷ s) n h = (ground arith, digits-Without c s n h.1)

-- A message without the blanks around it: spaces and tabs, and carriage returns at its end.
abbrev FrontBlank : ℕ → Type 0
FrontBlank b = (b ≡ 32) ⊎ (b ≡ 9)

abbrev BackBlank : ℕ → Type 0
BackBlank b = (b ≡ 32) ⊎ ((b ≡ 9) ⊎ (b ≡ 13))

abbrev Starts : Bytes → Type 0
Starts [] = Unit
Starts (b ∷ bs) = FrontBlank b → ⊥

abbrev Ends : Bytes → Type 0
Ends [] = Unit
Ends (b ∷ []) = BackBlank b → ⊥
Ends (b ∷ c ∷ bs) = Ends (c ∷ bs)

pub record Trimmed (message core : Bytes) : Type 0 where
  pub front : Bytes
  pub back : Bytes
  pub parts : message ≡ front ++ (core ++ back)
  pub front_blank : All FrontBlank front
  pub back_blank : All BackBlank back
  pub starts : Starts core
  pub ends : Ends core

trim_front_lem :
    (b : Bytes)
    → let t = trim_front (λ c. c == 32 || c == 9) b in
      (front : Bytes) × (b ≡ front ++ t) × All FrontBlank front × Starts t
unfolding trim_front
trim_front_lem [] = ([], refl, tt, tt)
trim_front_lem (c ∷ b) = elim (Bool-cases (c == 32 || c == 9)) [
  | inl blank ↦
      let (front, same, all, starts) = trim_front_lem b in
      (c ∷ front, rw blank (ap (λ t. c ∷ t) same), (ground arith, all), rw blank starts)
  | inr other ↦ ([], rw other refl, tt, rw other (λ h. absurd (ground arith)))
]

back_step :
    (c : ℕ) (b t back : Bytes)
    → b ≡ t ++ back
    → All BackBlank back
    → Ends t
    → let u = if length t == 0 && (c == 32 || (c == 9 || c == 13)) then [] else c ∷ t in
      (rest : Bytes) × (c ∷ b ≡ u ++ rest)
      × All BackBlank rest
      × (Starts (c ∷ b) → Starts u)
      × Ends u
back_step c b [] back same all ends = elim (Bool-cases (c == 32 || (c == 9 || c == 13))) [
  | inl blank ↦ (
    c ∷ back,
    rw blank (ap (λ t. c ∷ t) same),
    (ground arith, all),
    rw blank (λ h. tt),
    rw blank tt,
  )
  | inr other ↦ (
    back,
    rw other (ap (λ t. c ∷ t) same),
    all,
    rw other (λ h. h),
    rw other (λ h. absurd (ground arith)),
  )
]
back_step c b (d ∷ t) back same all ends =
    let long : (length (d ∷ t) == 0) ≡ false = ground arith in
    (back, rw long (ap (λ t. c ∷ t) same), all, rw long (λ h. h), rw long ends)

trim_back_lem :
    (b : Bytes)
    → let t = trim_back (λ c. c == 32 || (c == 9 || c == 13)) b in
      (back : Bytes) × (b ≡ t ++ back) × All BackBlank back × (Starts b → Starts t) × Ends t
unfolding trim_back
trim_back_lem [] = ([], refl, tt, (λ h. tt), tt)
trim_back_lem (c ∷ b) =
    let (back, same, all, starts, ends) = trim_back_lem b in
    back_step c b (trim_back (λ c. c == 32 || (c == 9 || c == 13)) b) back same all ends

trim_quotes-Trimmed : (b : Bytes) → Trimmed b (trim_quotes b)
unfolding trim_quotes
trim_quotes-Trimmed b =
    let (front, same, front_blank, starts) = trim_front_lem b in
    let (back, parts, back_blank, kept, ends) =
      trim_back_lem (trim_front (λ c. c == 32 || c == 9) b) in
    record {
      front = front;
      back = back;
      parts = same ∙ ap (λ t. front ++ t) parts;
      front_blank = front_blank;
      back_blank = back_blank;
      starts = kept starts;
      ends = ends;
    }

-- The fields in front of the semicolon, and a record: what follows the first newline is its
-- dictionary.
abbrev pub print_head : ℕ → ℕ → ℕ → Bytes → Bytes
print_head priority seq time_usec flags =
    itoa priority ++ 44 ∷ (itoa seq ++ 44 ∷ (itoa time_usec ++ 44 ∷ flags))

abbrev pub print_kmsg : ℕ → ℕ → ℕ → Bytes → Bytes → Bytes → Bytes
print_kmsg priority seq time_usec flags message dictionary =
    print_head priority seq time_usec flags ++ 59 ∷ (message ++ 10 ∷ dictionary)

number-Without : (c n : ℕ) → is_digit c ≡ false → Without c (itoa n)
number-Without c n h = digits-Without c (itoa n) h (itoa-All n)

head-Without :
    (priority seq time_usec : ℕ) (flags : Bytes)
    → Without 59 flags
    → Without 59 (print_head priority seq time_usec flags)
head-Without p s t flags h =
    let join = All-append (λ b. (b == 59) ≡ false) in
    join (itoa p) _ (number-Without 59 p refl) (
      refl,
      join (itoa s) _ (number-Without 59 s refl)
          (refl, join (itoa t) _ (number-Without 59 t refl) (refl, h)),
    )

pub parse_kmsg_record-print :
    (priority seq time_usec : ℕ) (flags message dictionary : Bytes)
    → priority < u64_mod
    → seq < u64_mod
    → time_usec < u64_mod
    → Without 59 flags
    → Without 10 message
    → (core : Bytes) × Trimmed message core
      × (parse_kmsg_record (print_kmsg priority seq time_usec flags message dictionary)
          ≡ some (record {
            priority = priority;
            level = priority % 8;
            facility = priority / 8 % 32;
            seq = seq;
            time_usec = time_usec;
            message = core;
            iface = [];
            ros_iface = [];
            kind = [];
            label = [];
            role = [];
          }))
unfolding parse_kmsg_record
parse_kmsg_record-print p s t flags message dictionary hp hs ht hf hm =
    let head = print_head p s t flags in
    (
      trim_quotes message,
      trim_quotes-Trimmed message,
      rw
          (
            index_byte-append 59 head (message ++ 10 ∷ dictionary) (head-Without p s t flags hf),
            take_front,
            drop_front,
            next_csv_append (itoa p) _ (number-Without 44 p refl),
            parse_uint-itoa p hp,
            next_csv_append (itoa s) _ (number-Without 44 s refl),
            parse_uint-itoa s hs,
            next_csv_append (itoa t) _ (number-Without 44 t refl),
            parse_uint-itoa t ht,
            up_to_append 10 message dictionary hm,
          )
          refl,
    )
