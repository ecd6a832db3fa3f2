-- ===== src/Overflow.antt =====
-- proxy/psasip/sipoverflow.C and proxy/psasip/sipoverflow.h: COverflow, the limit on calls in a
-- second. Times are what time(0) returns, in seconds; the counters are not negative and stay within
-- an int. The products with FLOW_*_PERCENT are floating point, and stand as parameters.
pub mod Limits
use tsm_proxy.Prelude.{
  ℕ, ◌+◌, ◌-◌, ◌≡◌, Bool, true, false, ◌&&◌, not, ◌==◌, leb, ltb, if◌then◌else◌,
}

pub record Overflow : Type 0 where
  pub pre_time : ℕ
  pub pre_policy : Bool
  pub cur_caps : ℕ
  pub cur_time : ℕ
  pub max_caps_time : ℕ
  pub max_caps : ℕ
  pub caps_limition : ℕ
  pub pd : ℕ
  pub pd_limition : ℕ
  pub start1_limition : ℕ
  pub start2_limition : ℕ
  pub cur_limition : ℕ
  pub flow_control : Bool

-- `int(max * FLOW_LIMITION_PERCENT)`, and the two of the slow start.
pub record Percents : Type 0 where
  pub limition : ℕ → ℕ
  pub slowstart1 : ℕ → ℕ
  pub slowstart2 : ℕ → ℕ

-- The constructor, at the time `now`.
unfoldable pub new : Percents → (now max_caps : ℕ) → Overflow
new percents now max_caps = record {
  pre_time = now;
  pre_policy = true;
  cur_caps = 0;
  cur_time = now;
  max_caps_time = now;
  max_caps = 0;
  caps_limition = max_caps;
  pd = 0;
  pd_limition = percents.limition max_caps;
  start1_limition = percents.slowstart1 max_caps;
  start2_limition = percents.slowstart2 max_caps;
  cur_limition = max_caps;
  flow_control = false;
}

unfoldable pub reset_threshold : Percents → ℕ → Overflow → Overflow
reset_threshold percents max_caps o = record o {
  caps_limition = max_caps;
  pd_limition = percents.limition max_caps;
  start1_limition = percents.slowstart1 max_caps;
  start2_limition = percents.slowstart2 max_caps;
  cur_limition = max_caps;
}

-- The two values of a TOverFlowInfo, and the state without them.
unfoldable pub get_flow_info : Overflow → Overflow × ℕ × ℕ
get_flow_info o = (record o { max_caps = 0; max_caps_time = 0 }, o.max_caps, o.max_caps_time)

-- checkOverflow in the second of the last check, `i==0`.
unfoldable pub same_second : Overflow → Overflow × Bool
same_second o =
    if leb o.caps_limition 0
    then (o, true)
    else if o.flow_control
    then (o, false)
    else if leb o.cur_limition o.cur_caps && ltb o.cur_caps o.pd_limition
    then (record o { pre_policy = not o.pre_policy }, not o.pre_policy)
    else if leb o.pd_limition o.cur_caps
    then (record o { flow_control = true }, false)
    else (o, true)

unfoldable pub stage : ℕ → ℕ → Overflow → Overflow
stage pd limit o = record o { pd = pd; cur_limition = limit }

-- `i==1`, one second after the last check.
unfoldable pub after_one : Overflow → Overflow
unfolding stage
after_one o =
    if o.flow_control
    then stage 1 o.start1_limition o
    else if o.pd == 1
    then stage 2 o.start2_limition o
    else if o.pd == 2
    then stage 0 o.caps_limition o
    else o

-- `i==2`
unfoldable pub after_two : Overflow → Overflow
unfolding stage
after_two o =
    if o.flow_control
    then stage 2 o.start2_limition o
    else if o.pd == 0
    then o
    else stage 0 o.caps_limition o

-- The stage for the time since `pre`. A clock that went back leaves the stage as it is.
unfoldable pub next_stage : (pre now : ℕ) → Overflow → Overflow
unfolding after_one after_two stage
next_stage pre now o =
    if now == pre + 1
    then after_one o
    else if now == pre + 2
    then after_two o
    else if ltb (pre + 2) now
    then stage 0 o.caps_limition o
    else o

unfoldable pub note_max : Overflow → Overflow
note_max o =
    if ltb o.max_caps o.cur_caps
    then record o { max_caps_time = o.pre_time; max_caps = o.cur_caps - 1 }
    else o

unfoldable pub new_second : (now : ℕ) → Overflow → Overflow
unfolding note_max next_stage
new_second now o =
    record (next_stage o.pre_time now (record (note_max o) { cur_caps = 1; pre_time = now })) {
      flow_control = false;
    }

-- checkOverflow at the time `now`: true lets the call in.
unfoldable pub check_overflow : ℕ → Overflow → Overflow × Bool
unfolding same_second new_second
check_overflow now o =
    let counted = record o { cur_time = now; cur_caps = o.cur_caps + 1 } in
    if now == o.pre_time then same_second counted else (new_second now counted, true)
