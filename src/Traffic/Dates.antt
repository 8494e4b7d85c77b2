-- ===== src/Traffic/Dates.antt =====
-- The order of texts, and of valid dates among them.
use zwrt_datad.Prelude.{◌≡◌, ◌<◌, ◌∙◌, sym, true, false, [], ◌∷◌, arith, ltb→lt}
use zwrt_datad.Prelude.Text.{Bytes, text_eq, text_lt}
use zwrt_datad.Schedule.LocalClock.{valid_date}
use zwrt_datad.Schedule.Dates.{day_number, text_lt-day_number}

text_lt_total : (s t : Bytes) → text_eq s t ≡ false → text_lt t s ≡ false → text_lt s t ≡ true
unfolding text_eq text_lt
text_lt_total [] [] e l = cc
text_lt_total [] (b ∷ t) e l = ground arith
text_lt_total (a ∷ s) [] e l = cc
text_lt_total (a ∷ s) (b ∷ t) e l = ground (arith, text_lt_total s t)

pub lt-day_number :
    (s t : Bytes)
    → valid_date s ≡ true
    → valid_date t ≡ true
    → text_lt s t ≡ true
    → day_number s < day_number t
lt-day_number s t v w l =
    ltb→lt (day_number s) (day_number t) (sym (text_lt-day_number s t v w) ∙ l)

pub not_lt-day_number :
    (s t : Bytes)
    → valid_date s ≡ true
    → valid_date t ≡ true
    → text_eq s t ≡ false
    → text_lt t s ≡ false
    → day_number s < day_number t
not_lt-day_number s t v w e l = lt-day_number s t v w (text_lt_total s t e l)
