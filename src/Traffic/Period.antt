-- ===== src/Traffic/Period.antt =====
-- internal/service/traffic.go: the billing period. A date is that of the accounting timezone.
use fluxlite.Common.{ℕ, ◌+◌, ◌-◌, ◌*◌, ◌≤◌, ◌≡◌, ◌∙◌, sym, subst, ltb, ◌==◌, if◌then◌else◌, arith}
use fluxlite.Common.Int.{ℤ, pos, negsuc, ltb_ℤ}

pub record Date : Type 0 where
  pub year : ℕ
  pub month : ℕ
  pub day : ℕ

-- The text YYYY-MM-DD, read as a number: dates sort as their texts.
abbrev pub day_key : Date → ℕ
day_key d = d.year * 10000 + d.month * 100 + d.day

abbrev nat_part : ℤ → ℕ
nat_part (pos n) = n
nat_part (negsuc n) = 0

-- A reset day brought into 1 … 28.
unfoldable pub clamp_day : ℤ → ℕ
clamp_day d = if ltb_ℤ d (pos 1) then 1 else if ltb_ℤ (pos 28) d then 28 else nat_part d

-- `AddDate(0, -1, 0)` on a day up to 28, which every month has.
abbrev month_before : Date → Date
month_before d =
    if d.month == 1
    then record d { year = d.year - 1; month = 12 }
    else record d { month = d.month - 1 }

-- `QuotaPeriodStart`
unfoldable pub quota_period_start : Date → ℤ → Date
quota_period_start today reset_day =
    let start : Date = record today { day = clamp_day reset_day } in
    if ltb today.day start.day then month_before start else start

abbrev pub IsDate : Date → Type 0
IsDate d = (1 ≤ d.year) × (1 ≤ d.month) × (d.month ≤ 12) × (1 ≤ d.day) × (d.day ≤ 31)

clamp_day_range : (z : ℤ) → (1 ≤ clamp_day z) × (clamp_day z ≤ 28)
unfolding clamp_day
clamp_day_range (pos n) = ground arith
clamp_day_range (negsuc n) = ground arith

abbrev start_of : Date → ℕ → Date
start_of today day =
    let start : Date = record today { day = day } in
    if ltb today.day day then month_before start else start

latest :
    (today : Date) (day : ℕ)
    → IsDate today
    → (1 ≤ day) × (day ≤ 28)
    → let start = start_of today day in
      (start.day ≡ day)
      × (1 ≤ start.month)
      × (start.month ≤ 12)
      × (day_key start ≤ day_key today)
      × ((d : Date)
          → IsDate d
          → d.day ≡ day
          → day_key d ≤ day_key today
          → day_key d ≤ day_key start)
latest today day valid range =
    (ground arith, ground arith, ground arith, ground arith, λ d v same le. ground arith)

-- The reset day read off an integer: below 1 it is 1, above 28 it is 28, and any other day is itself.
abbrev pub IsResetDay : ℤ → ℕ → Type 0
IsResetDay z day =
    ((n : ℕ) → z ≡ pos n → (n ≤ 1 → day ≡ 1) × (28 ≤ n → day ≡ 28) × (1 ≤ n → n ≤ 28 → day ≡ n))
    × ((n : ℕ) → z ≡ negsuc n → day ≡ 1)

clamp_day_lem : (z : ℤ) → IsResetDay z (clamp_day z)
unfolding clamp_day
clamp_day_lem (pos k) = (
  λ n e. let k' : k ≡ n = cc in (λ a. ground arith, λ a. ground arith, λ a b. ground arith),
  λ n e. cc,
)
clamp_day_lem (negsuc k) = (λ n e. cc, λ n e. ground arith)

-- The period starts on its reset day, where a day below 1 counts as 1 and one above 28 as 28, and not
-- after today; and no later date with that day lies up to today: the period that contains today is the
-- one that is found.
pub quota_period_start_latest :
    (today : Date) (reset_day : ℤ)
    → IsDate today
    → let start = quota_period_start today reset_day in
      IsResetDay reset_day start.day
      × (1 ≤ start.month)
      × (start.month ≤ 12)
      × (day_key start ≤ day_key today)
      × ((d : Date)
          → IsDate d
          → d.day ≡ start.day
          → day_key d ≤ day_key today
          → day_key d ≤ day_key start)
unfolding quota_period_start
quota_period_start_latest today reset_day valid =
    let (day, low, high, before, last) =
      latest today (clamp_day reset_day) valid (clamp_day_range reset_day) in
    (
      subst (IsResetDay reset_day) (sym day) (clamp_day_lem reset_day),
      low,
      high,
      before,
      λ d v same le. last d v (same ∙ day) le,
    )
