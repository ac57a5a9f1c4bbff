-- ===== src/Paper/Exchange.antt =====
-- The endpoints of deepfield/paper_broker.py: `_handle`, with the cancels, the queries and the
-- ledger pages, `_dispatch` with its settling step and its detached refusal, and `attach`.
use oracle_deepfield.Base.{
  ℕ, ◌+◌, Bool, true, false, not, ◌&&◌, Option, none, some, List, [], ◌∷◌, map, leb, ◌==◌,
  if◌then◌else◌, keep, take, drop, any_of,
}
use oracle_deepfield.Base.Names.{Name, name_eq}
use oracle_deepfield.Num.{Float}
use oracle_deepfield.Paper.Types.{
  canceled_by_user, Order, Kind, margin, rollover, Entry, Exchange, Env, Params,
}
use oracle_deepfield.Paper.Book.{sort_by, mark_canceled}
use oracle_deepfield.Paper.Settle.{is_open}
use oracle_deepfield.Paper.Rollover.{settle}
use oracle_deepfield.Paper.Placement.{Answer, add_order}
use oracle_deepfield.Paper.Views.{
  OrderView, PositionView, TradeBalance, order_view, position_view, trade_balance,
}

pub data Request (F : Type 0) : Type 0 where
  place : Params F → Request F
  balance : Request F
  positions : Bool → Request F
  open_orders : Name → Request F
  closed_orders : Name → Request F
  query_orders : List ℕ → Request F
  cancel_order : ℕ → Request F
  cancel_batch : List ℕ → Request F
  -- the type (`none` is "all"), the start and the offset
  ledgers : Option Kind → ℕ → ℕ → Request F
  unsupported : Request F

-- What a call gives back; `failed` is `None`.
pub data Reply (F : Type 0) : Type 0 where
  answered : Answer → Reply F
  balanced : TradeBalance F → Reply F
  listed_positions : List (ℕ × PositionView F) → Reply F
  listed_orders : List (ℕ × OrderView F) → Reply F
  counted : ℕ → Reply F
  listed_entries : List (Entry F) → Reply F
  failed : Reply F

abbrev pub same_kind : Kind → Kind → Bool
same_kind margin margin = true
same_kind rollover rollover = true
same_kind margin rollover = false
same_kind rollover margin = false

abbrev pub of_kind : Option Kind → Kind → Bool
of_kind none k = true
of_kind (some j) k = same_kind j k

abbrev pub close_time : Option ℕ → ℕ
close_time none = 0
close_time (some t) = t

module _ {F : Type 0} where
  -- WHERE txid=? AND status='open', the row canceled by the user; the second part counts rows.
  unfoldable pub cancel_where : Env F → ℕ → List (Order F) → List (Order F)
  cancel_where env t [] = []
  cancel_where env t (o ∷ os) =
      (if o.txid == t && is_open o.status then mark_canceled env canceled_by_user o else o)
      ∷ cancel_where env t os

  unfoldable pub cancel_count : ℕ → List (Order F) → ℕ
  cancel_count t [] = 0
  cancel_count t (o ∷ os) = (if o.txid == t && is_open o.status then 1 else 0) + cancel_count t os

  unfoldable pub cancel_one : Env F → ℕ → Exchange F → ℕ × Exchange F
  unfolding cancel_where cancel_count
  cancel_one env t s = (cancel_count t s.orders, record s { orders = cancel_where env t s.orders })

  unfoldable pub cancel_many : Env F → List ℕ → Exchange F → ℕ × Exchange F
  unfolding cancel_one
  cancel_many env [] s = (0, s)
  cancel_many env (t ∷ ts) s =
      let (n, s') = cancel_one env t s in let (m, s'') = cancel_many env ts s' in (n + m, s'')

  -- No reference asks for every order.
  abbrev pub has_ref : Name → Order F → Bool
  has_ref [] o = true
  has_ref (c ∷ cs) o = name_eq o.userref (c ∷ cs)

  -- ORDER BY closetm DESC LIMIT 50, and only then the reference.
  unfoldable pub recently_closed : Name → List (Order F) → List (Order F)
  unfolding sort_by
  recently_closed ref os = keep (has_ref ref) (
      take 50 (
        sort_by (λ a b. leb (close_time b.closetm) (close_time a.closetm))
          (keep (λ o. not (is_open o.status)) os)))

  unfoldable pub ledger_page : Option Kind → ℕ → ℕ → List (Entry F) → List (Entry F)
  unfolding sort_by
  ledger_page kind start ofs es = take 50 (
      drop ofs (
        sort_by (λ a b. leb a.time b.time)
          (keep (λ e. leb start e.time && of_kind kind e.kind) es)))

module _ {F : Type 0} ⦃fl : Float F⦄ where
  abbrev pub viewed : List (Order F) → List (ℕ × OrderView F)
  viewed = map (λ o. (o.txid, order_view o))

  -- `_handle`
  unfoldable pub handle : Env F → Request F → Exchange F → Reply F × Exchange F
  unfolding cancel_one cancel_many
  handle env (place p) s = let (a, s') = add_order env p s in (answered a, s')
  handle env balance s = (balanced (trade_balance env s), s)
  handle env (positions docalcs) s =
      (listed_positions (map (λ p. (p.postxid, position_view env docalcs p)) s.positions), s)
  handle env (open_orders ref) s =
      (listed_orders (viewed (keep (has_ref ref) (keep (λ o. is_open o.status) s.orders))), s)
  handle env (closed_orders ref) s = (listed_orders (viewed (recently_closed ref s.orders)), s)
  handle env (query_orders ids) s =
      (listed_orders (viewed (keep (λ o. any_of (λ t. o.txid == t) ids) s.orders)), s)
  handle env (cancel_order t) s = let (n, s') = cancel_one env t s in (counted n, s')
  handle env (cancel_batch ts) s = let (n, s') = cancel_many env ts s in (counted n, s')
  handle env (ledgers kind start ofs) s = (listed_entries (ledger_page kind start ofs s.ledger), s)
  handle env unsupported s = (failed, s)

  -- `_dispatch`: refused while detached; otherwise the market is settled first.
  unfoldable pub dispatch : Bool → Env F → Request F → Exchange F → Reply F × Exchange F
  unfolding handle settle
  dispatch false env r s = (failed, s)
  dispatch true env r s = handle env r (settle env s)

  -- A run of dispatches, each with the environment of its moment.
  unfoldable pub run : List (Env F × Request F) → Exchange F → Exchange F
  unfolding dispatch
  run [] s = s
  run ((env, r) ∷ rs) s = run rs (dispatch true env r s).1

  -- The book that `attach` seeds.
  unfoldable pub seed : F → Exchange F
  seed portfolio = record {
    orders = [];
    positions = [];
    ledger = [];
    cash = portfolio;
    deposits = portfolio;
    rollover_next = 0;
    draws = 0;
  }
