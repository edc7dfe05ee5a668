-- ===== src/Tests/Dates.antt =====
-- Examples for MyNet/base/Date.cc and Date.h.
use my_net.Common.{◌≡◌, arith}
use my_net.Common.Int.{pos}
use my_net.Date.{get_julian_day_num, get_year_month_day}
use my_net.Date.Months.{IsDate}
use my_net.Date.Roundtrip.{get_year_month_day-get_julian_day_num}

-- 29 February 2000 and 1 March 2000
leap_day : IsDate 6800 2 29
leap_day = ground arith

next_day : IsDate 6800 3 1
next_day = ground arith

date_and_back_example :
    get_year_month_day (get_julian_day_num (pos 2000) (pos 2) (pos 29))
    ≡ record { year = pos 2000; month = pos 2; day = pos 29 }
date_and_back_example = get_year_month_day-get_julian_day_num 6800 2 29 leap_day
