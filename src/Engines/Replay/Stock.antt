-- ===== src/Engines/Replay/Stock.antt =====
-- Stock stays physical: from stock and arrivals that are not negative, no period goes below zero or
-- serves more than was asked for.
use retail_intelligence.Engines.Replay.Defs.{
  CellState, new_cell, available, CellKey, Cells, Flow, OrderPolicy, on_hand_total, cell_at,
  receive, Fulfilment, fulfil_one, fulfil, write_off_one, write_off, Orders, schedule, schedule_if,
  order_one, order_all, remove,
}
use retail_intelligence.Base.Dict.{Dict, get_or, All-put, All-get_or}
use retail_intelligence.Base.Equality.{◌==◌, nat_eq, string_eq, pair_eq, option_eq}
use retail_intelligence.Base.Int.{
  ℤ, ◌+ℤ◌, ◌-ℤ◌, ◌≤ℤ◌, ◌<ℤ◌, ltb_ℤ, leb_ℤ, min_ℤ, max_ℤ, ltb_ℤ→lt, le_of_not-ltb_ℤ, lt_of_not-leb_ℤ,
  max_ℤ_cases, min_ℤ_bounds, le-min_ℤ, max_ℤ_bounds, int_laws, pos,
}
use retail_intelligence.Base.{
  ℕ, ◌+◌, String, ◌≡◌, ◌↔◌, inl, inr, Option, none, some, List, [], ◌∷◌, arith, if◌then◌else◌,
  Bool-cases, All,
}
use retail_intelligence.Engines.Clock.Defs.{Instant, instant_eq}

abbrev pub IsStocked : CellState → Type 0
IsStocked c = (pos 0 ≤ℤ c.on_hand) × (pos 0 ≤ℤ c.committed)

abbrev pub AreStocked : Cells → Type 0
AreStocked cells = All (λ (p : CellKey × CellState). IsStocked p.1) cells

abbrev pub IsInflow : Flow → Type 0
IsInflow flow = All (λ (p : CellKey × ℤ). pos 0 ≤ℤ p.1) flow

abbrev pub AreInflows : Dict Instant Flow → Type 0
AreInflows flows = All (λ (p : Instant × Flow). IsInflow p.1) flows

cell_at-IsStocked : (k : CellKey) (cells : Cells) → AreStocked cells → IsStocked (cell_at k cells)
cell_at-IsStocked k cells h = All-get_or IsStocked k new_cell cells (omega arith) h

pub receive-AreStocked :
    (source : Flow) (cells : Cells) (received : ℤ)
    → IsInflow source
    → AreStocked cells
    → pos 0 ≤ℤ received
    → AreStocked (receive source (cells, received)).0
      × (pos 0 ≤ℤ (receive source (cells, received)).1)
unfolding receive
receive-AreStocked [] cells received inflow s r = (s, r)
receive-AreStocked ((key, units) ∷ source) cells received inflow s r =
    let cell = cell_at key cells in
    let h = cell_at-IsStocked key cells s in
    let more = inflow.0 in
    receive-AreStocked source _ (received +ℤ units) inflow.1
      (All-put IsStocked key _ cells (omega int_laws, h.1) s) (omega int_laws)

-- what has been demanded and served so far, and how many cells ran short
pub record IsFulfilment (s : Fulfilment) : Type 0 where
  pub stocked : AreStocked s.cells
  pub served_nonneg : pos 0 ≤ℤ s.served
  pub served_le : s.served ≤ℤ s.demanded
  pub short : (s.stockouts ≡ 0) ↔ (s.served ≡ s.demanded)

served_bounds :
    (cell : CellState) (units : ℤ)
    → IsStocked cell
    → pos 0 <ℤ units
    → let served = min_ℤ (available cell) units in
      (pos 0 ≤ℤ served) × (served ≤ℤ units) × (served ≤ℤ cell.on_hand)
unfolding available
served_bounds cell units h p =
    let free : ℤ = cell.on_hand -ℤ cell.committed in
    let lower = max_ℤ_bounds (pos 0) free in
    let both = min_ℤ_bounds (max_ℤ (pos 0) free) units in
    (
      le-min_ℤ (max_ℤ (pos 0) free) units (pos 0) lower.0 (omega arith),
      both.1,
      elim (max_ℤ_cases (pos 0) free) [ inl e ↦ omega int_laws | inr e ↦ omega int_laws ],
    )

-- a cell that falls short is counted exactly if it is served less than it asked for
short_step :
    (n : ℕ) (a d v u : ℤ)
    → a ≤ℤ d
    → v ≤ℤ u
    → (n ≡ 0) ↔ (a ≡ d)
    → ((if ltb_ℤ v u then n + 1 else n) ≡ 0) ↔ (a +ℤ v ≡ d +ℤ u)
short_step n a d v u le le' h = elim (Bool-cases (ltb_ℤ v u)) [
  | inl less ↦
      let below = ltb_ℤ→lt v u less in
      rw less (λ e. absurd (omega arith), λ e. absurd (omega int_laws))
  | inr full ↦
      let all = le_of_not-ltb_ℤ v u full in
      rw full (
        λ e. let same = h.0 e in omega int_laws,
        λ e. let same : a ≡ d = omega int_laws in h.1 same,
      )
]

fulfil_one-IsFulfilment :
    (key : CellKey) (units : ℤ) (s : Fulfilment)
    → IsFulfilment s
    → IsFulfilment (fulfil_one key units s)
unfolding fulfil_one
fulfil_one-IsFulfilment key units s h =
    let cell = cell_at key s.cells in
    let held = cell_at-IsStocked key s.cells h.stocked in
    let served : ℤ = min_ℤ (available cell) units in
    elim (Bool-cases (leb_ℤ units (pos 0))) [
      | inl skip ↦ rw skip h
      | inr sale ↦
          let some_units = lt_of_not-leb_ℤ units (pos 0) sale in
          let bounds = served_bounds cell units held some_units in
          rw sale (record {
            stocked = All-put IsStocked key _ s.cells (omega int_laws, held.1) h.stocked;
            served_nonneg = let b = h.served_nonneg in omega int_laws;
            served_le = let b = h.served_le in omega int_laws;
            short =
                short_step s.stockouts s.served s.demanded served units h.served_le bounds.1
                  h.short;
          })
    ]

pub fulfil-IsFulfilment :
    (demand : Flow) (s : Fulfilment) → IsFulfilment s → IsFulfilment (fulfil demand s)
unfolding fulfil
fulfil-IsFulfilment [] s h = h
fulfil-IsFulfilment ((key, units) ∷ rest) s h =
    fulfil-IsFulfilment rest (fulfil_one key units s) (fulfil_one-IsFulfilment key units s h)

-- cells, and a count that goes with them
abbrev pub AreStockedWith : Cells × ℤ → Type 0
AreStockedWith s = AreStocked s.0 × (pos 0 ≤ℤ s.1)

write_off_one-AreStocked :
    (key : CellKey) (units : ℤ) (s : Cells × ℤ)
    → AreStockedWith s
    → AreStockedWith (write_off_one key units s)
unfolding write_off_one
write_off_one-AreStocked key units (cells, wasted) h =
    let cell = cell_at key cells in
    let held = cell_at-IsStocked key cells h.0 in
    let gone : ℤ = min_ℤ cell.on_hand units in
    let caps = min_ℤ_bounds cell.on_hand units in
    let former = h.1 in
    elim (Bool-cases (leb_ℤ units (pos 0))) [
      | inl skip ↦ rw skip h
      | inr waste ↦
          let some_units = lt_of_not-leb_ℤ units (pos 0) waste in
          let lower = le-min_ℤ cell.on_hand units (pos 0) held.0 (omega arith) in
          rw waste (All-put IsStocked key _ cells (omega int_laws, held.1) h.0, omega int_laws)
    ]

pub write_off-AreStocked :
    (waste : Flow) (s : Cells × ℤ) → AreStockedWith s → AreStockedWith (write_off waste s)
unfolding write_off
write_off-AreStocked [] s h = h
write_off-AreStocked ((key, units) ∷ rest) s h =
    write_off-AreStocked rest (write_off_one key units s) (write_off_one-AreStocked key units s h)

schedule-AreInflows :
    (arrival : Option Instant) (key : CellKey) (quantity : ℤ) (flows : Dict Instant Flow)
    → pos 0 <ℤ quantity
    → AreInflows flows
    → AreInflows (schedule_if arrival key quantity flows)
unfolding schedule_if schedule
schedule-AreInflows none key quantity flows q h = h
schedule-AreInflows (some at) key quantity flows q h =
    let arrivals = get_or at [] flows in
    let inflow : IsInflow arrivals = All-get_or IsInflow at [] flows tt h in
    let former = All-get_or (λ (u : ℤ). pos 0 ≤ℤ u) key (pos 0) arrivals (omega arith) inflow in
    All-put IsInflow at _ flows
      (All-put (λ (u : ℤ). pos 0 ≤ℤ u) key (get_or key (pos 0) arrivals +ℤ quantity) arrivals
        (omega int_laws) inflow)
      h

pub record AreOrders (s : Orders) : Type 0 where
  pub stocked : AreStocked s.cells
  pub ordered : pos 0 ≤ℤ s.ordered
  pub inflows : AreInflows s.scheduled

module _ (policy : OrderPolicy) (market_id : String) (demand : Flow)
    (arrival : Option Instant) where
  order_one-AreOrders :
      (key : CellKey) (s : Orders)
      → AreOrders s
      → AreOrders (order_one policy market_id demand arrival key s)
  unfolding order_one
  order_one-AreOrders key s h =
      let cell = cell_at key s.cells in
      let held = cell_at-IsStocked key s.cells h.stocked in
      let quantity : ℤ = policy (record {
        sku_id = key.0;
        location_id = key.1;
        on_hand_units = cell.on_hand;
        in_transit_units = cell.in_transit;
        observed_demand_units = get_or key (pos 0) demand;
        market_id = market_id;
      }) in
      elim (Bool-cases (leb_ℤ quantity (pos 0))) [
        | inl skip ↦ rw skip (record {
          stocked = All-put IsStocked key cell s.cells held h.stocked;
          ordered = h.ordered;
          inflows = h.inflows;
        })
        | inr order ↦
            let some_units = lt_of_not-leb_ℤ quantity (pos 0) order in
            let former = h.ordered in
            rw order (record {
              stocked = All-put IsStocked key _ s.cells held h.stocked;
              ordered = omega int_laws;
              inflows = schedule-AreInflows arrival key quantity s.scheduled some_units h.inflows;
            })
      ]

  pub order_all-AreOrders :
      (ks : List CellKey) (s : Orders)
      → AreOrders s
      → AreOrders (order_all policy market_id demand arrival ks s)
  unfolding order_all
  order_all-AreOrders [] s h = h
  order_all-AreOrders (key ∷ ks) s h =
      order_all-AreOrders ks (order_one policy market_id demand arrival key s)
        (order_one-AreOrders key s h)

pub remove-AreInflows :
    (t : Instant) (flows : Dict Instant Flow) → AreInflows flows → AreInflows (remove t flows)
unfolding remove
remove-AreInflows t [] h = tt
remove-AreInflows t ((u, flow) ∷ rest) h = elim (Bool-cases (u == t)) [
  | inl same ↦ rw same h.1
  | inr other ↦ rw other (h.0, remove-AreInflows t rest h.1)
]

pub total-nonneg : (cells : Cells) → AreStocked cells → pos 0 ≤ℤ on_hand_total cells
total-nonneg [] h = omega arith
total-nonneg ((k, c) ∷ cells) h =
    let rest = total-nonneg cells h.1 in let here = h.0.0 in omega int_laws
