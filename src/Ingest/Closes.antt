-- ===== src/Ingest/Closes.antt =====
-- When a close fires, and what its recompute reads.
use oracle_deepfield.Base.{
  ◌-◌, ℕ, ◌*◌, ◌%◌, ◌≤◌, ◌≡◌, refl, sym, ap, ap₂, ◌∙◌, not, keep, Bool, true, false, ◌&&◌, Option,
  none, some, List, [], ◌∷◌, ◌==◌, ==_iff, arith, if◌then◌else◌, any_of, count_of, Bool-cases, inl,
  inr, subst, &&-left, &&-right,
}
use oracle_deepfield.Base.Names.{Name, name_eq, name_eq→eq, name_lookup}
use oracle_deepfield.Candles.Table.{Bar, Key, key_of, same_key, find_bar, flip_closed}
use oracle_deepfield.Ingest.{
  Setup, Feed, Done, scored, regime_read, close_at, is_later, sibling, is_coincident, flip_siblings,
  note_close, score_close, recomputes, handle_candle_closed,
}

abbrev pub is_signal : Setup → ℕ → Bool
is_signal cfg i = any_of (λ j. j == i) cfg.signal_intervals

-- Whether an event may fire on the close instants seen so far.
abbrev pub is_fresh : Setup → Key → List (Name × ℕ) → Bool
is_fresh cfg ev seen =
    is_signal cfg ev.interval && is_later (name_lookup ev.pair seen) (close_at ev)

later_trans :
    (o : Option ℕ) (t c : ℕ)
    → is_later o t ≡ false
    → is_later o c ≡ true
    → is_later (some c) t ≡ false
later_trans none t c h l = cc
later_trans (some u) t c h l = ground arith

spent_by_later :
    (seen : List (Name × ℕ)) (n : Name) (ev : Key) (t : ℕ)
    → is_later (name_lookup n seen) t ≡ false
    → is_later (name_lookup ev.pair seen) (close_at ev) ≡ true
    → is_later (name_lookup n ((ev.pair, close_at ev) ∷ seen)) t ≡ false
spent_by_later seen n ev t h l = elim (Bool-cases (name_eq ev.pair n)) [
  | inl e ↦ rw e (
      later_trans (name_lookup n seen) t (close_at ev) h (
        subst (λ m. is_later (name_lookup m seen) (close_at ev) ≡ true) (name_eq→eq ev.pair n e) l))
  | inr e ↦ rw e h
]

abbrev pub is_close : Name → ℕ → Name × ℕ → Bool
is_close n t c = name_eq c.0 n && c.1 == t

-- A fresh event is no close of a spent instant.
fresh_is_other :
    (cfg : Setup) (ev : Key) (n : Name) (t : ℕ) (seen : List (Name × ℕ))
    → is_later (name_lookup n seen) t ≡ false
    → is_fresh cfg ev seen ≡ true
    → is_close n t (ev.pair, close_at ev) ≡ false
fresh_is_other cfg ev n t seen h e = elim (Bool-cases (is_close n t (ev.pair, close_at ev))) [
  | inl c ↦
      let q : ev.pair ≡ n = name_eq→eq ev.pair n (&&-left _ _ c) in
      let r : close_at ev ≡ t =
        (==_iff (close_at ev) t).0 (&&-right (name_eq ev.pair n) (close_at ev == t) c) in
      let l : is_later (name_lookup n seen) t ≡ true =
        ap₂ (λ m u. is_later (name_lookup m seen) u) (sym q) (sym r)
        ∙ &&-right (is_signal cfg ev.interval) (is_later (name_lookup ev.pair seen) (close_at ev))
            e in
      cc
  | inr c ↦ c
]

-- The close that has just fired is spent.
just_spent :
    (ev : Key) (n : Name) (t : ℕ) (seen : List (Name × ℕ))
    → is_close n t (ev.pair, close_at ev) ≡ true
    → is_later (name_lookup n ((ev.pair, close_at ev) ∷ seen)) t ≡ false
just_spent ev n t seen c =
    let r : close_at ev ≡ t =
      (==_iff (close_at ev) t).0 (&&-right (name_eq ev.pair n) (close_at ev == t) c) in
    let q : name_eq ev.pair n ≡ true = &&-left _ _ c in
    rw q (subst (λ u. is_later (some (close_at ev)) u ≡ false) r (ground arith))

sibling_own : (ev : Key) → ev ≡ sibling ev ev.interval
sibling_own ev =
    let q : ev.ts ≡ close_at ev - ev.interval * 60 = omega arith in
    λ i. record { pair = ev.pair; interval = ev.interval; ts = q i }

module _ {F : Type 0} where
  abbrev pub is_fire : Done F → Bool
  is_fire (scored n fire t) = fire
  is_fire regime_read = false

  -- The closes that fire in a run of events, with their instants.
  unfoldable pub fired_closes : Setup → List Key → Feed F → List (Name × ℕ)
  unfolding handle_candle_closed
  fired_closes cfg [] s = []
  fired_closes cfg (ev ∷ evs) s =
      let (s', done) = handle_candle_closed cfg ev s in
      let rest = fired_closes cfg evs s' in
      if any_of is_fire done then (ev.pair, close_at ev) ∷ rest else rest

  flip_siblings-last_fired :
      (ev : Key) (others : List ℕ) (s : Feed F)
      → (flip_siblings ev others s).last_fired ≡ s.last_fired
  unfolding flip_siblings
  flip_siblings-last_fired ev [] s = refl
  flip_siblings-last_fired ev (o ∷ os) s = elim (Bool-cases (is_coincident ev o)) [
    | inl e ↦ rw e (flip_siblings-last_fired ev os _)
    | inr e ↦ rw e (flip_siblings-last_fired ev os s)
  ]

  note_close-last_fired :
      (cfg : Setup) (ev : Key) (fire : Bool) (s : Feed F)
      → (note_close cfg ev fire s).last_fired
        ≡ (if fire then (ev.pair, close_at ev) ∷ s.last_fired else s.last_fired)
  unfolding note_close
  note_close-last_fired cfg ev false s = refl
  note_close-last_fired cfg ev true s = flip_siblings-last_fired ev cfg.signal_intervals _

  score_close-last_fired :
      (cfg : Setup) (ev : Key) (s : Feed F)
      → (score_close cfg ev s).0.last_fired ≡ (
          if is_later (name_lookup ev.pair s.last_fired) (close_at ev)
          then (ev.pair, close_at ev) ∷ s.last_fired
          else s.last_fired)
  unfolding score_close
  score_close-last_fired cfg ev s =
      note_close-last_fired cfg ev (is_later (name_lookup ev.pair s.last_fired) (close_at ev))
        (record s { provisional = keep (λ n. not (name_eq n ev.pair)) s.provisional })

  handle_candle_closed-last_fired :
      (cfg : Setup) (ev : Key) (s : Feed F)
      → (handle_candle_closed cfg ev s).0.last_fired ≡ (
          if is_fresh cfg ev s.last_fired
          then (ev.pair, close_at ev) ∷ s.last_fired
          else s.last_fired)
  unfolding handle_candle_closed
  handle_candle_closed-last_fired cfg ev s = elim (Bool-cases (is_signal cfg ev.interval)) [
    | inl e ↦ rw e (score_close-last_fired cfg ev (record s { bars = (flip_closed ev s.bars).1 }))
    | inr e ↦ rw e refl
  ]

  handle_candle_closed-is_fire :
      (cfg : Setup) (ev : Key) (s : Feed F)
      → any_of is_fire (handle_candle_closed cfg ev s).1 ≡ is_fresh cfg ev s.last_fired
  unfolding handle_candle_closed score_close recomputes
  handle_candle_closed-is_fire cfg ev s = ground arith

  -- The instant, or a later one, has fired for the pair.
  abbrev pub IsSpent : Name → ℕ → Feed F → Type 0
  IsSpent n t s = is_later (name_lookup n s.last_fired) t ≡ false

  handle_candle_closed-IsSpent :
      (cfg : Setup) (ev : Key) (n : Name) (t : ℕ) (s : Feed F)
      → IsSpent n t s
      → IsSpent n t (handle_candle_closed cfg ev s).0
  handle_candle_closed-IsSpent cfg ev n t s h =
      rw (handle_candle_closed-last_fired cfg ev s)
        (elim (Bool-cases (is_fresh cfg ev s.last_fired)) [
          | inl e ↦ rw e (spent_by_later s.last_fired n ev t h (&&-right _ _ e))
          | inr e ↦ rw e h
        ])

  spent_never_fires :
      (cfg : Setup) (evs : List Key) (n : Name) (t : ℕ) (s : Feed F)
      → IsSpent n t s
      → count_of (is_close n t) (fired_closes cfg evs s) ≡ 0
  unfolding fired_closes
  spent_never_fires cfg [] n t s h = refl
  spent_never_fires cfg (ev ∷ evs) n t s h =
      let ih =
        spent_never_fires cfg evs n t (handle_candle_closed cfg ev s).0
          (handle_candle_closed-IsSpent cfg ev n t s h) in
      rw (handle_candle_closed-is_fire cfg ev s) (elim (Bool-cases (is_fresh cfg ev s.last_fired)) [
        | inl e ↦ rw (e, fresh_is_other cfg ev n t s.last_fired h e, ih) (omega arith)
        | inr e ↦ rw e ih
      ])

  -- One close, one fire: over any run of CandleClosed events, repeated and out of order as the feed
  -- and the watchdog may deliver them and of both scored intervals, no close instant of a pair fires
  -- twice.
  pub fired_closes_once :
      (cfg : Setup) (evs : List Key) (s : Feed F) (n : Name) (t : ℕ)
      → count_of (is_close n t) (fired_closes cfg evs s) ≤ 1
  unfolding fired_closes
  fired_closes_once cfg [] s n t = omega arith
  fired_closes_once cfg (ev ∷ evs) s n t =
      let after = (handle_candle_closed cfg ev s).0 in
      let ih = fired_closes_once cfg evs after n t in
      rw (handle_candle_closed-is_fire cfg ev s) (elim (Bool-cases (is_fresh cfg ev s.last_fired)) [
        | inl e ↦ elim (Bool-cases (is_close n t (ev.pair, close_at ev))) [
          | inl c ↦
              let spent : IsSpent n t after =
                rw (handle_candle_closed-last_fired cfg ev s, e)
                  (just_spent ev n t s.last_fired c) in
              rw (e, c, spent_never_fires cfg evs n t after spent) (omega arith)
          | inr c ↦ rw (e, c) (omega (arith, ih))
        ]
        | inr e ↦ rw e ih
      ])

  -- The bar at the key, where there is one, is closed.
  abbrev pub is_shut : Option (Bar F) → Bool
  is_shut none = true
  is_shut (some x) = x.closed

  flip_closed-is_shut :
      (k : Key) (t : List (Bar F)) → is_shut (find_bar k (flip_closed k t).1) ≡ true
  unfolding flip_closed
  flip_closed-is_shut k [] = refl
  flip_closed-is_shut k (y ∷ t) = ground (arith, flip_closed-is_shut k t)

  flip_closed_keeps_shut :
      (j k : Key) (t : List (Bar F))
      → is_shut (find_bar k t) ≡ true
      → is_shut (find_bar k (flip_closed j t).1) ≡ true
  unfolding flip_closed
  flip_closed_keeps_shut j k [] h = refl
  flip_closed_keeps_shut j k (y ∷ t) h = elim (Bool-cases (same_key (key_of y) k)) [
    | inl e ↦ ground (arith, e, h)
    | inr e ↦ let ih = flip_closed_keeps_shut j k t (ground (arith, e, h)) in ground (arith, e, ih)
  ]

  flip_siblings_keeps_shut :
      (ev k : Key) (others : List ℕ) (s : Feed F)
      → is_shut (find_bar k s.bars) ≡ true
      → is_shut (find_bar k (flip_siblings ev others s).bars) ≡ true
  unfolding flip_siblings
  flip_siblings_keeps_shut ev k [] s h = h
  flip_siblings_keeps_shut ev k (o ∷ os) s h = elim (Bool-cases (is_coincident ev o)) [
    | inl e ↦
        rw e (flip_siblings_keeps_shut ev k os _ (flip_closed_keeps_shut (sibling ev o) k s.bars h))
    | inr e ↦ rw e (flip_siblings_keeps_shut ev k os s h)
  ]

  flip_siblings-is_shut :
      (ev : Key) (others : List ℕ) (s : Feed F) (other : ℕ)
      → any_of (λ j. j == other) others ≡ true
      → is_coincident ev other ≡ true
      → is_shut (find_bar (sibling ev other) (flip_siblings ev others s).bars) ≡ true
  unfolding flip_siblings
  flip_siblings-is_shut ev [] s other m c = cc
  flip_siblings-is_shut ev (o ∷ os) s other m c = elim (Bool-cases (o == other)) [
    | inl e ↦
        let q : o ≡ other = (==_iff o other).0 e in
        let co : is_coincident ev o ≡ true = subst (λ z. is_coincident ev z ≡ true) (sym q) c in
        subst (λ z. is_shut (find_bar (sibling ev z) (flip_siblings ev (o ∷ os) s).bars) ≡ true) q
          (rw co (
            flip_siblings_keeps_shut ev (sibling ev o) os _
              (flip_closed-is_shut (sibling ev o) s.bars)))
    | inr e ↦
        let m' : any_of (λ j. j == other) os ≡ true = ground (arith, e, m) in
        elim (Bool-cases (is_coincident ev o)) [
          | inl d ↦ rw d (flip_siblings-is_shut ev os _ other m' c)
          | inr d ↦ rw d (flip_siblings-is_shut ev os s other m' c)
        ]
  ]

  note_close-is_shut :
      (cfg : Setup) (ev : Key) (s : Feed F) (other : ℕ)
      → is_shut (find_bar ev s.bars) ≡ true
      → is_signal cfg other ≡ true
      → close_at ev % (other * 60) == 0 ≡ true
      → is_shut (find_bar (sibling ev other) (note_close cfg ev true s).bars) ≡ true
  unfolding note_close
  note_close-is_shut cfg ev s other h m d = elim (Bool-cases (other == ev.interval)) [
    | inl e ↦
        let q : ev.interval ≡ other = sym ((==_iff other ev.interval).0 e) in
        subst (λ k. is_shut (find_bar k (note_close cfg ev true s).bars) ≡ true)
          (sibling_own ev ∙ ap (sibling ev) q)
          (flip_siblings_keeps_shut ev ev cfg.signal_intervals _ h)
    | inr e ↦ flip_siblings-is_shut ev cfg.signal_intervals _ other m (ground (arith, e, d))
  ]

  -- A close that fires is scored on complete series: its recomputes read the table as the handler
  -- leaves it, in which every bar of a scored interval that closes at this instant, its own bar and
  -- that of the coincident border, is closed where it is stored.
  pub fired_close_complete :
      (cfg : Setup) (ev : Key) (s : Feed F) (other : ℕ)
      → any_of is_fire (handle_candle_closed cfg ev s).1 ≡ true
      → is_signal cfg other ≡ true
      → close_at ev % (other * 60) == 0 ≡ true
      → ((handle_candle_closed cfg ev s).1
          ≡ recomputes cfg ev true (handle_candle_closed cfg ev s).0.bars)
        × (is_shut (find_bar (sibling ev other) (handle_candle_closed cfg ev s).0.bars) ≡ true)
  unfolding handle_candle_closed score_close
  fired_close_complete cfg ev s other h m d =
      let fresh : is_fresh cfg ev s.last_fired ≡ true =
        sym (handle_candle_closed-is_fire cfg ev s) ∙ h in
      let signal : is_signal cfg ev.interval ≡ true = &&-left _ _ fresh in
      let later : is_later (name_lookup ev.pair s.last_fired) (close_at ev) ≡ true =
        &&-right (is_signal cfg ev.interval) _ fresh in
      rw (signal, later)
        (refl, note_close-is_shut cfg ev _ other (flip_closed-is_shut ev s.bars) m d)
