-- ===== src/Tests/Journal.antt =====
-- The journal at concrete inputs.
use zwrt_datad.Prelude.{ℕ, ◌≡◌, refl, Bool, true, none, List, [], ◌∷◌, retain, arith, map}
use zwrt_datad.Prelude.Text.{Bytes, codes, text_eq, one_of}
use zwrt_datad.Journal.{
  Stored, Report, load, push, flush, rank, repeated, appended, bounded, take_chars, same_report,
  newest_first, wanted, loaded,
}
use zwrt_datad.Journal.Trace.{Sample, pushed, flushed, apply, run, started}
use zwrt_datad.Journal.Rising.{IsGood, run-IsGood}
use zwrt_datad.Journal.Paging.{walk, walk-wanted}
use zwrt_datad.Journal.Flushed.{saved_journal}

abbrev report : Bytes → Bytes → Bytes → Report
report category action result = record {
  category = category;
  action = action;
  result = result;
  reason = [];
  task = [];
}

abbrev call : ℕ → Report → Sample
call now r = record { saves = true; event = pushed now [] r }

-- A delivery, a failure that comes twice, a probe that is not recorded, a redial, a flush.
abbrev hour : List Sample
hour =
    call 100 (report (codes "notification") (codes "sms") (codes "success"))
    ∷ call 110 (report (codes "notification") (codes "sms") (codes "failed"))
    ∷ call 120 (report (codes "notification") (codes "sms") (codes "failed"))
    ∷ call 130 (report (codes "recovery") (codes "probe") (codes "failed"))
    ∷ call 140 (report (codes "recovery") (codes "redial") (codes "requested"))
    ∷ record { saves = true; event = flushed }
    ∷ []

abbrev fits : Stored → Bool
fits s = true

hour_ids : map (λ e. e.id) (started fits hour).stored.entries ≡ 1 ∷ 2 ∷ 3 ∷ []
unfolding run apply load loaded push rank repeated same_report appended bounded take_chars flush
    text_eq one_of
hour_ids = refl

run-IsGood_example : IsGood 6 (started fits hour).stored
run-IsGood_example = run-IsGood fits hour (omega arith)

walk-wanted_example :
    walk 3 (started fits hour) none true none
    ≡ retain (wanted none true) (newest_first (started fits hour).stored.entries)
walk-wanted_example = walk-wanted fits hour none true (omega arith)

saved_journal_example : (load fits (started fits hour).path).stored ≡ (started fits hour).stored
unfolding run apply load loaded push rank repeated same_report appended bounded take_chars flush
    text_eq one_of
saved_journal_example =
    saved_journal fits hour (omega arith)
      (
        (omega arith, omega arith, omega arith),
        (
          (omega arith, omega arith, omega arith),
          (
            (omega arith, omega arith, omega arith),
            (
              (omega arith, omega arith, omega arith),
              ((omega arith, omega arith, omega arith), (tt, tt)),
            ),
          ),
        ),
      )
      refl refl
