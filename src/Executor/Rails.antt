-- ===== src/Executor/Rails.antt =====
-- The rails of deepfield/executor.py: `tp_target`, `_armed`, `_update_peak`, `rails_ok` and
-- `rails_detail`. The notes that are only drawn are left out.
pub mod Verdict
use oracle_deepfield.Base.{
  ℕ, Bool, true, false, not, ◌&&◌, ◌||◌, Option, none, some, List, [], ◌∷◌, leb, if◌then◌else◌,
}
use oracle_deepfield.Num.{Float, nought, of_ℕ, fmax, fmin, neg}
use oracle_deepfield.Executor.Ledger.{
  Mode, off, paper, validate, live, Row, day_start, week_start, committed_position_count,
  realized_pnl_since,
}

-- The configuration of the rails.
pub record Limits (F : Type 0) : Type 0 where
  pub rails_enabled : Bool
  pub max_open_positions : ℕ
  pub kill_switch_dd_pct : F
  pub daily_loss_limit_usd : F
  pub weekly_loss_limit_usd : F
  pub rails_tight_pct : F

-- What one call reads: the mode, whether a simulated exchange is attached, the HALT file, the
-- stored peak (none where it is missing or no number), the clock and the ledger.
pub record Session (F : Type 0) : Type 0 where
  pub mode : Mode
  pub sim_attached : Bool
  pub halt_file : Bool
  pub peak_equity : Option F
  pub now : ℕ
  pub orders : List (Row F)

pub data Reason : Type 0 where
  halted rails_disabled equity_unavailable max_positions kill_switch daily_loss weekly_loss : Reason
  clear : Reason

pub data RailName : Type 0 where
  kill_switch_rail positions_rail daily_rail weekly_rail : RailName

pub record Rail (F : Type 0) : Type 0 where
  pub name : RailName
  pub used : Option F
  pub limit : Option F
  pub headroom : Option F
  pub pct : Option F
  pub blocking : Bool

pub record Detail (F : Type 0) : Type 0 where
  pub ok : Bool
  pub reason : Reason
  pub halt : Bool
  pub enabled : Bool
  pub tight_pct : F
  pub rails : List (Rail F)

abbrev pub is_none {ℓ} : {A : Type ℓ} → Option A → Bool
is_none none = true
is_none (some a) = false

-- `_armed`
unfoldable pub armed : Mode → Bool → Bool
armed live sim = true
armed paper sim = sim
armed off sim = false
armed validate sim = false

module _ {F : Type 0} ⦃fl : Float F⦄ where
  open fl use {add, sub, mul, div, abs, lt, le, eq}

  -- `tp_target`, with TP_PCT and TP_TARGET_FLOOR_BASELINE
  unfoldable pub tp_target : F → Bool → F → F → F
  tp_target tp_pct floor_baseline baseline trough =
      let t = mul (fmin baseline trough) (add (of_ℕ 1) tp_pct) in
      if floor_baseline then fmax baseline t else t

  abbrev pub peak_of : Session F → F
  peak_of s = elim (s.peak_equity) [ none ↦ nought | some p ↦ p ]

  -- `_update_peak`
  unfoldable pub update_peak : F → Session F → Session F
  update_peak equity s = if lt (peak_of s) equity then record s { peak_equity = some equity } else s

  -- `portfolio_value`: the broker's answer, or PAPER_PORTFOLIO_USD where nothing is armed
  unfoldable pub portfolio_value : F → Option F → Session F → Option F × Session F
  unfolding armed update_peak
  portfolio_value paper_usd balance s =
      if armed s.mode s.sim_attached
      then elim balance [ none ↦ (none, s) | some eq ↦ (some eq, update_peak eq s) ]
      else (some paper_usd, s)

  abbrev pub peak_floor : Limits F → Session F → F
  peak_floor l s = mul (peak_of s) (sub (of_ℕ 1) l.kill_switch_dd_pct)

  abbrev pub below : F → Option F → Bool
  below limit none = false
  below limit (some equity) = lt equity limit

  unfoldable pub kill_fires : Limits F → Session F → Option F → Bool
  kill_fires l s equity = lt nought (peak_of s) && below (peak_floor l s) equity

  abbrev pub daily_pnl : Session F → F
  daily_pnl s = realized_pnl_since s.orders (day_start s.now) s.mode

  abbrev pub weekly_pnl : Session F → F
  weekly_pnl s = realized_pnl_since s.orders (week_start s.now) s.mode

  abbrev pub committed : Session F → ℕ
  committed s = committed_position_count s.orders s.mode

  -- An unreadable equity where the kill switch has to be judged.
  abbrev pub is_blind : Session F → Option F → Bool
  is_blind s equity = armed s.mode s.sim_attached && is_none equity

  -- `rails_ok`
  unfoldable pub rails_ok : Limits F → Session F → Option F → Bool × Reason
  unfolding armed kill_fires committed_position_count realized_pnl_since
  rails_ok l s equity =
      if s.halt_file
      then (false, halted)
      else if not l.rails_enabled
      then (true, rails_disabled)
      else if is_blind s equity
      then (false, equity_unavailable)
      else if leb l.max_open_positions (committed s)
      then (false, max_positions)
      else if kill_fires l s equity
      then (false, kill_switch)
      else if le (daily_pnl s) (neg l.daily_loss_limit_usd)
      then (false, daily_loss)
      else if le (weekly_pnl s) (neg l.weekly_loss_limit_usd)
      then (false, weekly_loss)
      else (true, clear)

  abbrev pub headroom_of : Bool → F → F → F
  headroom_of invert used limit = if invert then sub used limit else sub limit used

  -- A limit of 0 has no span to take a percentage of.
  unfoldable pub pct_of : F → F → Option F
  pct_of head limit =
      if eq limit nought
      then none
      else if eq (abs limit) nought
      then none
      else some (fmax nought (fmin (of_ℕ 100) (div (mul (of_ℕ 100) head) (abs limit))))

  -- `_rail`
  unfoldable pub rail : RailName → Option F → Option F → Bool → Bool → Rail F
  unfolding pct_of
  rail name (some used) (some limit) blocking invert =
      let head = headroom_of invert used limit in
      record {
        name = name;
        used = some used;
        limit = some limit;
        headroom = some head;
        pct = pct_of head limit;
        blocking = blocking;
      }
  rail name used limit blocking invert = record {
    name = name;
    used = used;
    limit = limit;
    headroom = none;
    pct = none;
    blocking = blocking;
  }

  -- The floor under the peak, where one was recorded.
  abbrev pub kill_floor : Limits F → Session F → Option F
  kill_floor l s = if lt nought (peak_of s) then some (peak_floor l s) else none

  abbrev pub below_floor : Option F → Option F → Bool
  below_floor none equity = false
  below_floor (some limit) equity = below limit equity

  abbrev pub kill_rail : Limits F → Session F → Option F → Rail F
  kill_rail l s equity =
      rail kill_switch_rail equity (kill_floor l s)
        (is_blind s equity || below_floor (kill_floor l s) equity) true

  abbrev pub positions_rail_of : Limits F → Session F → Rail F
  positions_rail_of l s =
      let n = committed s in
      rail positions_rail (some (of_ℕ n)) (some (of_ℕ l.max_open_positions))
        (leb l.max_open_positions n) false

  abbrev pub loss_rail : RailName → F → F → Rail F
  loss_rail name pl cap = rail name (some pl) (some (neg cap)) (le pl (neg cap)) true

  abbrev pub all_rails : Limits F → Session F → Option F → List (Rail F)
  all_rails l s equity =
      kill_rail l s equity
      ∷ positions_rail_of l s
      ∷ loss_rail daily_rail (daily_pnl s) l.daily_loss_limit_usd
      ∷ loss_rail weekly_rail (weekly_pnl s) l.weekly_loss_limit_usd
      ∷ []

  -- `rails_detail`
  unfoldable pub rails_detail : Limits F → Session F → Option F → Detail F
  unfolding rails_ok rail armed committed_position_count realized_pnl_since
  rails_detail l s equity =
      let (ok, reason) = rails_ok l s equity in
      record {
        ok = ok;
        reason = reason;
        halt = s.halt_file;
        enabled = l.rails_enabled;
        tight_pct = l.rails_tight_pct;
        rails = if s.halt_file || not l.rails_enabled then [] else all_rails l s equity;
      }
