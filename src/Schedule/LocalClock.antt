-- ===== src/Schedule/LocalClock.antt =====
-- reboot_schedule.rs: the texts of a date, a time and an offset, and the line of `date`.
use zwrt_datad.Prelude.{
  ℕ, ◌+◌, ◌-◌, ◌*◌, ◌%◌, Bool, true, false, not, ◌&&◌, ◌||◌, Option, none, some, ◌≡◌, List, [], ◌∷◌,
  ltb, leb, arith, ◌==◌, length, if◌then◌else◌,
}
use zwrt_datad.Prelude.Text.{Bytes, is_digit}
use zwrt_datad.Prelude.Utf8.{chars, is_whitespace}

pub record Clock : Type 0 where
  pub date : Bytes
  pub time : Bytes
  pub offset : Bytes

-- `parse` of two or four ASCII digits.
abbrev pub two : ℕ → ℕ → ℕ
two a b = (a - b'0') * 10 + (b - b'0')

abbrev pub four : ℕ → ℕ → ℕ → ℕ → ℕ
four a b c d = two a b * 100 + two c d

unfoldable pub valid_time : Bytes → Bool
unfolding is_digit
valid_time (h ∷ h' ∷ colon ∷ m ∷ m' ∷ []) =
    colon == b':'
    && (is_digit h && is_digit h' && is_digit m && is_digit m')
    && ltb (two h h') 24
    && ltb (two m m') 60
valid_time _ = false

unfoldable pub leap : ℕ → Bool
leap year = year % 4 == 0 && (not (year % 100 == 0) || year % 400 == 0)

-- `days[month - 1]`
unfoldable pub days_in : ℕ → ℕ → ℕ
unfolding leap
days_in year month =
    if month == 2
    then if leap year then 29 else 28
    else if month == 4 || month == 6 || month == 9 || month == 11
    then 30
    else 31

unfoldable pub valid_date : Bytes → Bool
valid_date (y ∷ y' ∷ y'' ∷ y''' ∷ dash ∷ m ∷ m' ∷ dash' ∷ d ∷ d' ∷ []) =
    let year = four y y' y'' y''' in
    let month = two m m' in
    let day = two d d' in
    dash == b'-'
    && dash' == b'-'
    && (is_digit y && is_digit y' && is_digit y'' && is_digit y''')
    && (is_digit m && is_digit m')
    && (is_digit d && is_digit d')
    && leb 2024 year
    && (leb 1 month && leb month 12)
    && (leb 1 day && leb day (days_in year month))
valid_date _ = false

-- The tests of `parse_clock` on its third word.
unfoldable pub valid_offset : Bytes → Bool
unfolding is_digit
valid_offset (sign ∷ h ∷ h' ∷ m ∷ m' ∷ []) =
    (sign == b'+' || sign == b'-')
    && (is_digit h && is_digit h' && is_digit m && is_digit m')
    && leb (two h h') 14
    && leb (two m m') 59
    && not (two h h' == 14 && not (two m m' == 0))
valid_offset _ = false

abbrev push_word : Bytes → List Bytes → List Bytes
push_word [] found = found
push_word (b ∷ word) found = (b ∷ word) ∷ found

-- The word that is being read, and the words behind it.
split : Bytes → Bytes × List Bytes
unfolding is_whitespace
split [] = ([], [])
split (b ∷ text) =
    let (word, found) = split text in
    if is_whitespace b then ([], push_word word found) else (b ∷ word, found)

-- `split_whitespace`, on the characters. A word that the tests below accept is ASCII, so that its
-- characters are its bytes.
unfoldable pub words : Bytes → List Bytes
unfolding split
words text = let (word, found) = split text in push_word word found

clock_of_words : List Bytes → Option Clock
clock_of_words (date ∷ time ∷ offset ∷ []) =
    if valid_date date && valid_time time && valid_offset offset
    then some (record { date = date; time = time; offset = offset })
    else none
clock_of_words _ = none

unfoldable pub parse_clock : Bytes → Option Clock
unfolding clock_of_words
parse_clock text = clock_of_words (words (chars text))

-- `local_clock`; the argument is what `/bin/date` printed, if it succeeded and printed UTF-8.
unfoldable pub local_clock : Option Bytes → Option Clock
local_clock none = none
local_clock (some output) = if leb (length output) 64 then parse_clock output else none

-- A clock that `parse_clock` gives has a valid date and a valid time.
pub parse_clock_valid :
    (text : Bytes) (clock : Clock)
    → parse_clock text ≡ some clock
    → (valid_date clock.date ≡ true) × (valid_time clock.time ≡ true)
unfolding parse_clock
parse_clock_valid text clock h = go (words (chars text)) h
  where
    go :
        (found : List Bytes)
        → clock_of_words found ≡ some clock
        → (valid_date clock.date ≡ true) × (valid_time clock.time ≡ true)
    go [] h = cc
    go (a ∷ []) h = cc
    go (a ∷ b ∷ []) h = cc
    go (date ∷ time ∷ offset ∷ []) h = ground arith
    go (a ∷ b ∷ c ∷ d ∷ more) h = cc

pub local_clock_valid :
    (output : Option Bytes) (clock : Clock)
    → local_clock output ≡ some clock
    → (valid_date clock.date ≡ true) × (valid_time clock.time ≡ true)
unfolding local_clock
local_clock_valid none clock h = cc
local_clock_valid (some output) clock h = ground (arith, parse_clock_valid output clock)
