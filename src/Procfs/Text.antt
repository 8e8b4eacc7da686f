-- ===== src/Procfs/Text.antt =====
-- internal/procfs/ports.go and kmsg.go: the regular expressions, as matchers on ASCII text, and the
-- string functions that stand beside them.
use mikroscope.Common.{
  ℕ, ◌+◌, [], ◌∷◌, Option, none, some, Bool, true, false, ◌&&◌, ◌||◌, not, Bytes, codes, length,
  leb, ltb, ◌==◌, if◌then◌else◌, ◌>>=◌, ◌>>◌, require, after_prefix, is_some, map,
}
use mikroscope.Procfs.Numbers.{is_digit}
use mikroscope.Procfs.Columns.{last_byte}
use mikroscope.Procfs.Numbers.Decimal.{value}

abbrev pub is_letter : ℕ → Bool
is_letter c = (leb 65 c && leb c 90) || (leb 97 c && leb c 122)

-- `\w`, `\s`.
abbrev pub is_word_byte : ℕ → Bool
is_word_byte c = is_digit c || (is_letter c || c == 95)

abbrev pub is_re_space : ℕ → Bool
is_re_space c = c == 9 || (c == 10 || (c == 12 || (c == 13 || c == 32)))

-- The longest run of bytes that pass a test, and the rest: `x*` of a class that what follows it does
-- not meet.
unfoldable pub span : (ℕ → Bool) → Bytes → Bytes × Bytes
span p [] = ([], [])
span p (b ∷ bs) = let rest = span p bs in if p b then (b ∷ rest.0, rest.1) else ([], b ∷ bs)

-- `x+`.
abbrev pub span_some : (ℕ → Bool) → Bytes → Option (Bytes × Bytes)
span_some p s = do let (run, rest) = span p s; require (not (length run == 0)); some (run, rest)

-- `\b` after a word byte.
abbrev pub ends_word : Bytes → Bool
ends_word [] = true
ends_word (b ∷ bs) = not (is_word_byte b)

abbrev first_some : {A : Type 0} → Option A → Option A → Option A
first_some none b = b
first_some (some a) b = some a

-- `(eth|switch)(\d+)` at the start: the digits and the rest.
unfoldable pub after_device : Bytes → Option (Bytes × Bytes)
unfolding span
after_device s = do
  let rest = (← first_some (after_prefix (codes "eth") s) (after_prefix (codes "switch") s))
  span_some is_digit rest

-- `(eth\d+|switch\d+)\b` at the start.
unfoldable pub device_here : Bytes → Option Bytes
unfolding after_device span
device_here s = do
  let (digits, rest) = (← after_device s)
  require (ends_word rest)
  some (span is_word_byte s).0

-- `\b(eth\d+|switch\d+)\b`, leftmost; the flag tells whether the byte before is a word byte.
unfoldable pub find_device_from : Bool → Bytes → Option Bytes
find_device_from inside [] = none
find_device_from inside (b ∷ bs) =
    let rest = find_device_from (is_word_byte b) bs in
    let here = device_here (b ∷ bs) in if inside then rest else first_some here rest

unfoldable pub find_device : Bytes → Option Bytes
unfolding find_device_from device_here
find_device s = find_device_from false s

abbrev pub lower_byte : ℕ → ℕ
lower_byte c = if leb 65 c && leb c 90 then c + 32 else c

unfoldable pub lower : Bytes → Bytes
lower s = map lower_byte s

-- `(up|down)\b`.
abbrev up_or_down : Bytes → Option Bytes
up_or_down s =
    first_some
      (do let r = (← after_prefix (codes "up") s); require (ends_word r); some (codes "up"))
      (do let r = (← after_prefix (codes "down") s); require (ends_word r); some (codes "down"))

abbrev after_spaces : Bytes → Option Bytes
after_spaces s = do let (run, rest) = (← span_some is_re_space s); some rest

-- `phy\s+` where it stands, or nothing.
abbrev skip_phy : Bytes → Bytes
skip_phy s = elim (do let r = (← after_prefix (codes "phy") s); after_spaces r) [
  | none ↦ s
  | some r ↦ r
]

-- `(?i)^\S+:\s+(?:phy\s+)?link(?:\s+is)?\s+(up|down)\b`: the state, in lower case. The first word is
-- the run up to white space, so that its colon is its last byte.
unfoldable pub link_state : Bytes → Option Bytes
unfolding lower span
link_state msg = do
  let (name, r1) = span (λ c. not (is_re_space c)) (lower msg)
  require (not (ltb (length name) 2) && last_byte name == 58)
  let r2 = (← after_spaces r1)
  let r3 = (← after_prefix (codes "link") (skip_phy r2))
  let r4 = (← after_spaces r3)
  let plain = up_or_down r4
  let linking = (do
    let r5 = (← after_prefix (codes "is") r4)
    let r6 = (← after_spaces r5)
    up_or_down r6)
  first_some linking plain

-- `port \d+\((?:eth|switch)\d+\) entered (\w+) state` at the start.
unfoldable pub stp_here : Bytes → Option Bytes
unfolding after_device span
stp_here s = do
  let r1 = (← after_prefix (codes "port ") s)
  let (number, r2) = (← span_some is_digit r1)
  let r3 = (← after_prefix (codes "(") r2)
  let (device, r4) = (← after_device r3)
  let r5 = (← after_prefix (codes ") entered ") r4)
  let (state, r6) = (← span_some is_word_byte r5)
  let r7 = (← after_prefix (codes " state") r6)
  some state

-- The same after `\b`, leftmost.
unfoldable pub stp_from : Bool → Bytes → Option Bytes
stp_from inside [] = none
stp_from inside (b ∷ bs) =
    let rest = stp_from (is_word_byte b) bs in
    let here = stp_here (b ∷ bs) in if inside then rest else first_some here rest

unfoldable pub find_stp_state : Bytes → Option Bytes
unfolding stp_from stp_here
find_stp_state s = stp_from false s

-- `strings.Contains`.
unfoldable pub contains : Bytes → Bytes → Bool
contains p [] = length p == 0
contains p (b ∷ bs) =
    let rest = contains p bs in if is_some (after_prefix p (b ∷ bs)) then true else rest

-- `strconv.Atoi` of digits refuses a number above 2 ^ 63 - 1.
unfoldable pub atoi : Bytes → Option ℕ
atoi digits = if ltb (value digits) 9223372036854775808 then some (value digits) else none
