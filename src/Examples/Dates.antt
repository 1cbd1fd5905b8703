-- ===== src/Examples/Dates.antt =====
-- Dates: the theorem on the calendar, and the formats at an instant of 2024.
use rshs.Common.{codes, refl, some, ◌≡◌}
use rshs.Time.{civil_from_days, pos, since_epoch}
use rshs.Time.Calendar.{IsDateOf, civil_from_days_lem}
use rshs.Time.Format.{format_rfc1123, format_rfc3339, format_rfc850}

civil_from_days_lem_example : IsDateOf 19862 (civil_from_days (pos 19862))
civil_from_days_lem_example = civil_from_days_lem 19862

rfc1123_test :
    format_rfc1123 (since_epoch 1716134400000000000) ≡ some (codes "Sun, 19 May 2024 16:00:00 GMT")
unfolding format_rfc1123
rfc1123_test = refl

rfc3339_test : format_rfc3339 (since_epoch 1716134400000000000) ≡ codes "2024-05-19T16:00:00Z"
unfolding format_rfc3339
rfc3339_test = refl

rfc850_test : format_rfc850 (since_epoch 1716134400000000000) ≡ some (codes "19-May-2024 16:00")
unfolding format_rfc850
rfc850_test = refl
