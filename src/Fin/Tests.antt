-- ===== src/Fin/Tests.antt =====
-- A small book on concrete inputs.
use swirly.Base.{ℕ, ◌≡◌, refl, inl, Option, none, some, [], ◌∷◌, arith}
use swirly.Base.Int.{ℤ, pos, negsuc, ◌-ℤ◌, int_laws}
use swirly.Fin.Types.{Side, State}
use swirly.Fin.Order.{Order}
use swirly.Fin.Level.{Level, compose_key}
use swirly.Fin.Level
use swirly.Fin.MarketSide.{MarketSide, find, remove, remove_at, take_order, revise_order}
use swirly.Fin.MarketSide
use swirly.Fin.MarketSide.Book.{IsResting, NotIn, levels_of, place, okey}
use swirly.Fin.MarketSide.Book
use swirly.Fin.MarketSide.Insert.{linked, insert_order-place}
use swirly.Fin.MarketSide.Remove.{remove_at-IsValid}
use swirly.Fin.MarketSide.Amend.{Reduces, take_order-Reduces, revise_order-Reduces}
use swirly.Fin.Market.{Market}
use swirly.Fin.Market.Valid.{IsValid}
use swirly.Fin.Market.Book.{CanInsert}
use swirly.Fin.Market.Undo.{Undoes, remove_order-insert_order}

-- An order of 5 lots of account 7 in market 1, with its level's key.
abbrev pub an_order : ℕ → Side → ℕ → Option ℤ → Order
an_order id sd ticks level = record {
  accnt = 7;
  market_id = 1;
  instr = 2;
  settl_day = 0;
  id = id;
  ref = 0;
  side = sd;
  lots = pos 5;
  created = 0;
  level = level;
  state = State.new;
  ticks = pos ticks;
  resd_lots = pos 5;
  exec_lots = pos 0;
  exec_cost = pos 0;
  last_lots = pos 0;
  last_ticks = pos 0;
  min_lots = pos 1;
  modified = 0;
}

abbrev pub first_offer : Order
first_offer = an_order 1 Side.sell 10 (some (pos 10))

abbrev pub second_offer : Order
second_offer = an_order 2 Side.sell 12 (some (pos 12))

abbrev pub only_bid : Order
only_bid = an_order 3 Side.buy 8 (some (negsuc 7))

abbrev pub a_level : ℕ → ℤ → ℕ → Level
a_level first key ticks = record {
  first_order = first;
  key = key;
  ticks = pos ticks;
  lots = pos 5;
  count = 1;
}

abbrev pub offers : MarketSide
offers = record {
  levels = a_level 1 (pos 10) 10 ∷ a_level 2 (pos 12) 12 ∷ [];
  orders = first_offer ∷ second_offer ∷ [];
}

abbrev pub bids : MarketSide
bids = record { levels = a_level 3 (negsuc 7) 8 ∷ []; orders = only_bid ∷ [] }

abbrev pub book : Market
book = record {
  id = 1;
  instr = 2;
  settl_day = 0;
  state = 0;
  last_lots = pos 0;
  last_ticks = pos 0;
  last_time = 0;
  bid_side = bids;
  offer_side = offers;
  max_id = 3;
}

rests :
    (id : ℕ) (sd : Side) (ticks : ℕ)
    → IsResting sd (an_order id sd ticks (some (compose_key sd (pos ticks))))
rests id sd ticks = record {
  on_side = refl;
  at_level = refl;
  open_lots = omega arith;
  filled_lots = omega arith;
  total_lots = omega int_laws;
}

pub offers-IsValid : Book.IsValid Side.sell offers
unfolding levels_of Level.make compose_key
offers-IsValid = record {
  sorted = (omega arith, tt);
  distinct = ((λ e. absurd (omega (arith, e)), tt), (tt, tt));
  resting = (rests 1 Side.sell 10, (rests 2 Side.sell 12, tt));
  aggregated = refl;
}

pub bids-IsValid : Book.IsValid Side.buy bids
unfolding levels_of Level.make compose_key ◌-ℤ◌
bids-IsValid = record {
  sorted = tt;
  distinct = (tt, tt);
  resting = (rests 3 Side.buy 8, tt);
  aggregated = refl;
}

pub book-IsValid : IsValid book
book-IsValid = record {
  bids = bids-IsValid;
  offers = offers-IsValid;
  bid_ids = (omega arith, tt);
  offer_ids = (omega arith, (omega arith, tt));
  apart = ((λ e. absurd (omega (arith, e)), (λ e. absurd (omega (arith, e)), tt)), tt);
}

-- A new bid at the price of the offers' second level, of 5 lots.
abbrev pub a_bid : Order
a_bid = an_order 4 Side.buy 8 none

abbrev pub roomy_book : Market
roomy_book = record book { max_id = 4 }

roomy_book-IsValid : IsValid roomy_book
roomy_book-IsValid = record {
  bids = bids-IsValid;
  offers = offers-IsValid;
  bid_ids = (omega arith, tt);
  offer_ids = (omega arith, (omega arith, tt));
  apart = ((λ e. absurd (omega (arith, e)), (λ e. absurd (omega (arith, e)), tt)), tt);
}

a_bid-CanInsert : CanInsert roomy_book a_bid
a_bid-CanInsert = record {
  sided = inl refl;
  fresh_bid = (λ e. absurd (omega (arith, e)), tt);
  fresh_offer = (λ e. absurd (omega (arith, e)), (λ e. absurd (omega (arith, e)), tt));
  allocated = omega arith;
  open_lots = omega arith;
  filled_lots = omega arith;
  total_lots = omega int_laws;
}

first_offer-found : find 1 offers.orders ≡ some first_offer
unfolding find
first_offer-found = refl

insert_order-place_example :
    ((MarketSide.insert_order bids a_bid).levels ≡ levels_of (place (linked a_bid) bids.orders))
    × ((MarketSide.insert_order bids a_bid).orders ≡ place (linked a_bid) bids.orders)
insert_order-place_example =
    insert_order-place bids a_bid bids-IsValid.sorted bids-IsValid.distinct bids-IsValid.aggregated

remove_at-IsValid_example :
    Book.IsValid Side.sell (remove_at offers (okey first_offer) first_offer).0
    × ((remove_at offers (okey first_offer) first_offer).0.orders ≡ remove 1 offers.orders)
    × NotIn 1 (remove_at offers (okey first_offer) first_offer).0.orders
remove_at-IsValid_example =
    remove_at-IsValid Side.sell offers first_offer offers-IsValid first_offer-found

take_order-Reduces_example :
    Reduces Side.sell offers first_offer (pos 3) (take_order offers first_offer (pos 3) 100)
take_order-Reduces_example =
    take_order-Reduces Side.sell offers first_offer (pos 3) 100 offers-IsValid first_offer-found
      (omega arith)

revise_order-Reduces_example :
    Reduces Side.sell offers first_offer
      (pos 5 -ℤ pos 2)
      (revise_order offers first_offer (pos 2) 100)
revise_order-Reduces_example =
    revise_order-Reduces Side.sell offers first_offer (pos 2) 100 offers-IsValid first_offer-found

remove_order-insert_order_example : Undoes roomy_book a_bid
remove_order-insert_order_example =
    remove_order-insert_order roomy_book a_bid roomy_book-IsValid a_bid-CanInsert
