-- ===== src/Timed.antt =====
-- XTimed (include/xvalue/xtimed.h) and XValueRT (include/xvalue/xvalue_rt.h): a value with the time
-- of its last change. The clock's reading is an argument.
pub mod Monotonic
pub mod Progress
use xnode.Prelude.{ℕ, ◌+◌, ◌-◌, ◌^◌, ◌≡◌, refl, Bool, true, false, not, ◌&&◌, if◌then◌else◌, arith}
use xnode.Prelude.Int.{ℤ, pos, negsuc, ◌+ℤ◌, ◌-ℤ◌, eqb_ℤ}
use xnode.Container.{Mapped}
use xnode.Container.Erase.{is_erased_value}
use xnode.Value
use xnode.Value.{Double, XValue, is_empty}

-- kAbsentRT
abbrev pub absent_rt : ℤ
absent_rt = negsuc (2 ^ 63 - 1)

pub record XTimed (D : Type 0) : Type 0 where
  pub value : XValue D
  pub timestamp : ℤ

module _ {D : Type 0} where
  -- XTimed()
  abbrev pub absent : XTimed D
  absent = record { value = XValue.empty; timestamp = absent_rt }

  -- XTimed(const TValue&), XTimed(TValue&&)
  unfoldable pub timed : ℤ → XValue D → XTimed D
  timed now v = record { value = v; timestamp = now }

  unfoldable pub empty_with_time : ℤ → XTimed D
  unfolding timed
  empty_with_time now = timed now XValue.empty

  unfoldable pub time_is_absent : XTimed D → Bool
  time_is_absent t = eqb_ℤ t.timestamp absent_rt

  unfoldable pub time_elapsed : ℤ → XTimed D → ℤ
  unfolding time_is_absent
  time_elapsed now t = if time_is_absent t then pos 0 else now -ℤ t.timestamp

  -- TimeReset: the new time is the clock's plus `elapsed`, or none; the result is the time that has
  -- passed since the old one, or kAbsentRT. The clock is read twice.
  unfoldable pub time_reset : ℤ → ℤ → ℤ → XTimed D → ℤ × XTimed D
  time_reset now later elapsed t =
      let set = record t {
        timestamp = if eqb_ℤ elapsed absent_rt then absent_rt else now +ℤ elapsed;
      } in
      (if eqb_ℤ t.timestamp absent_rt then t.timestamp else later -ℤ t.timestamp, set)

  -- The mapped type of the containers: `==` is that of the values, and passes over the times.
  abbrev pub mapped : Double D → Mapped (XTimed D)
  mapped f = record {
    eq = λ a b. Value.eq f a.value b.value;
    default = absent;
    is_empty = λ t. is_empty t.value;
    time_is_absent = λ t. time_is_absent t;
  }

-- A value that was built by default does not count as erased, and the mark of an erased entry does,
-- unless the clock reads the time that stands for none.
pub erased_marks :
    {D : Type 0} (f : Double D) (now : ℤ)
    → eqb_ℤ now absent_rt ≡ false
    → (is_erased_value (mapped f) absent ≡ false)
      × (is_erased_value (mapped f) (empty_with_time now) ≡ true)
unfolding is_empty time_is_absent empty_with_time
erased_marks f now h = ground arith
