-- ===== src/Executor/Gates.antt =====
-- The gates of deepfield/executor.py that only pause growth: `_accumulation_allowed`,
-- `_stack_margin_ok`, `_note_stack_pause`, `_at_ladder_floor` and `_service_order`. A stored text
-- that does not parse is one that is missing, which is how the code reads it.
pub mod Order
use oracle_deepfield.Base.{
  Bool, true, false, not, ◌&&◌, ◌||◌, Option, none, some, List, [], ◌∷◌, ◌++◌, any_of, ltb, ◌==◌,
  if◌then◌else◌,
}
use oracle_deepfield.Base.Names.{Name, name_eq}
use oracle_deepfield.Num.{Float, nought, of_ℕ}

-- meta['regime'] is none where it is missing or empty.
pub record RegimeGate : Type 0 where
  pub only_in_bear : Bool
  pub blocked : List Name

-- `_accumulation_allowed`
unfoldable pub accumulation_allowed : RegimeGate → Option Name → Bool
unfolding name_eq
accumulation_allowed g none = true
accumulation_allowed g (some regime) = not (g.only_in_bear && any_of (name_eq regime) g.blocked)

-- meta['stress_state'] and meta['web_live']
pub record Stress (F : Type 0) : Type 0 where
  pub lev_now : Option F
  pub lev_ceiling : Option F
  pub updated : F

pub record WebLive (F : Type 0) : Type 0 where
  pub margin_level : Option F
  pub updated : F

pub record Stored (F : Type 0) : Type 0 where
  pub tp_flatten_active : Bool
  pub stress_state : Option (Stress F)
  pub web_live : Option (WebLive F)

pub data Growth : Type 0 where
  growing flattening over_levered under_floor : Growth

abbrev pub is_growing : Growth → Bool
is_growing growing = true
is_growing _ = false

-- `sym not in prio`, then the alphabet: the pairs served first, and the rest in order
unfoldable pub insert_name : (Name → Name → Bool) → Name → List Name → List Name
insert_name before x [] = x ∷ []
insert_name before x (y ∷ ys) = if before y x then y ∷ insert_name before x ys else x ∷ y ∷ ys

unfoldable pub name_lt : Name → Name → Bool
name_lt [] [] = false
name_lt [] (y ∷ ys) = true
name_lt (x ∷ xs) [] = false
name_lt (x ∷ xs) (y ∷ ys) = ltb x y || (x == y && name_lt xs ys)

abbrev pub served_before : List Name → Name → Name → Bool
served_before prio a b =
    let pa = any_of (name_eq a) prio in
    let pb = any_of (name_eq b) prio in (pa && not pb) || ((pa || not pb) && name_lt a b)

-- `_service_order`
unfoldable pub service_order : List Name → List Name → List Name
unfolding insert_name name_lt name_eq
service_order prio [] = []
service_order prio (x ∷ xs) = insert_name (served_before prio) x (service_order prio xs)

module _ {F : Type 0} ⦃fl : Float F⦄ where
  open fl use {add, sub, mul, lt, le, is_inf}

  -- `_at_ladder_floor`; a stop of none or 0 is no floor
  unfoldable pub at_ladder_floor : F → F → Option F → Bool
  at_ladder_floor buffer target none = false
  at_ladder_floor buffer target (some stop) =
      not (fl.eq stop nought) && le target (mul stop (add (of_ℕ 1) buffer))

  -- The effective leverage against the one that survives, not older than 600 seconds.
  unfoldable pub lev_exceeds : F → Option F → Option F → F → Bool
  lev_exceeds now none ceiling updated = false
  lev_exceeds now (some lev) none updated = false
  lev_exceeds now (some lev) (some ceiling) updated =
      (lt nought updated && le (sub now updated) (of_ℕ 600))
      && (lt nought ceiling && (not (is_inf ceiling) && lt ceiling lev))

  abbrev pub over_leverage : F → Option (Stress F) → Bool
  over_leverage now none = false
  over_leverage now (some st) = lev_exceeds now st.lev_now st.lev_ceiling st.updated

  -- The margin level, where it is known and not older than 120 seconds.
  unfoldable pub known_level : F → Option (WebLive F) → Option F
  known_level now none = none
  known_level now (some w) = if lt (of_ℕ 120) (sub now w.updated) then none else w.margin_level

  -- `_note_stack_pause`: since when growth is paused, and whether a line is journaled
  unfoldable pub note_stack_pause : Bool → F → Option F → Option F × Bool
  note_stack_pause true now none = (some now, true)
  note_stack_pause true now (some since) = (some since, false)
  note_stack_pause false now none = (none, false)
  note_stack_pause false now (some since) = (none, true)

  -- the answer, the pause clock and whether a line is journaled
  abbrev pub judged_level : F → F → Option F → Option F → Growth × (Option F × Bool)
  judged_level now floor since none = (growing, (since, false))
  judged_level now floor since (some level) =
      if lt level floor
      then (under_floor, note_stack_pause true now since)
      else (growing, note_stack_pause false now since)

  -- `_stack_margin_ok`
  unfoldable pub stack_margin_ok : F → F → Stored F → Option F → Growth × (Option F × Bool)
  unfolding lev_exceeds known_level note_stack_pause
  stack_margin_ok floor now s since =
      if s.tp_flatten_active
      then (flattening, (since, false))
      else if over_leverage now s.stress_state
      then (over_levered, (since, false))
      else if le floor nought
      then (growing, (since, false))
      else judged_level now floor since (known_level now s.web_live)
