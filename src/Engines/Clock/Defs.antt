-- ===== src/Engines/Clock/Defs.antt =====
-- The operations of ml/src/retail_ml/engines/clock.py. A date is its proleptic ordinal (1 is Monday,
-- January 1 of year 1), and an instant is the wall clock of the market's own zone, in which the
-- source compares its instants.
use retail_intelligence.Base.Result.{Result, ◌>>=◌, ok, err}
use retail_intelligence.Base.Equality.{Eq, nat_eq, string_eq, pair_eq, option_eq}
use retail_intelligence.Base.{
  ℕ, ◌+◌, ◌-◌, ◌*◌, ◌%◌, ◌≡◌, ◌↔◌, Bool, true, not, ◌&&◌, ◌||◌, arith, ltb, leb, eqb, if◌then◌else◌,
}

pub data ClockError : Type 0 where
  date_overflow not_monday_midnight : ClockError

-- December 31 of year 9999
abbrev pub max_ordinal : ℕ
max_ordinal = 3652059

abbrev pub snapshot_second : ℕ
snapshot_second = 23 * 3600

pub record Instant : Type 0 where
  pub day : ℕ
  pub second : ℕ

-- Monday is 0.
unfoldable pub weekday : ℕ → ℕ
weekday day = (day + 6) % 7

abbrev pub midnight : ℕ → Instant
midnight day = record { day = day; second = 0 }

abbrev pub instant_beq : Instant → Instant → Bool
instant_beq a b = eqb a.day b.day && eqb a.second b.second

pub instant_beq_iff : (a b : Instant) → (instant_beq a b ≡ true) ↔ (a ≡ b)
instant_beq_iff a b = ground arith

instance abbrev pub instant_eq : Eq Instant
instant_eq = record { is_eq = instant_beq; is_eq_iff = instant_beq_iff }

-- a < b, as the source compares instants of one zone
unfoldable pub precedes : Instant → Instant → Bool
precedes a b = ltb a.day b.day || (eqb a.day b.day && ltb a.second b.second)

unfoldable pub monday_period_bounds : ℕ → Result ClockError (Instant × Instant)
unfolding weekday
monday_period_bounds any_date =
    let monday = any_date - weekday any_date in
    if ltb max_ordinal (monday + 7)
    then err date_overflow
    else ok (midnight monday, midnight (monday + 7))

unfoldable pub opening_snapshot_instant : Instant → Result ClockError Instant
unfolding weekday
opening_snapshot_instant period_open =
    if not (eqb (weekday period_open.day) 0) || not (eqb period_open.second 0)
    then err not_monday_midnight
    else if leb period_open.day 4
    then err date_overflow
    else ok (record { day = period_open.day - 4; second = snapshot_second })

unfoldable pub bridge_interval : Instant → Result ClockError (Instant × Instant)
bridge_interval period_open = do
  snapshot ← opening_snapshot_instant period_open
  ok (snapshot, period_open)
