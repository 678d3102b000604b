-- ===== src/Lob/Markets/Made.antt =====
-- What a call makes of the set of markets.
use swirly.Base.{
  ℕ, Bool, not, ◌&&◌, ◌≡◌, refl, sym, ap, ◌∙◌, ◌⊎◌, inl, inr, true, false, Option, none, some, List,
  [], ◌∷◌, ◌==◌, ltb, if◌then◌else◌, arith, Bool-cases,
}
use swirly.Util.Set.{find, find_hint, insert, insert_hint}
use swirly.Util.Set.Order.{Sorted, Above}
use swirly.Util.Set.Find.{find-insert, find-search_all, search_all, found_or}
use swirly.Fin.MarketId.{to_market_id}
use swirly.Fin.Market.{Market, set_state}
use swirly.Fin.Market
use swirly.Fin.MsgQueue.{MsgQueue, do_create_market, do_update_market}
use swirly.Lob.Engine.{Error}
use swirly.Lob.Markets.{
  Markets, market_key, id64, market, posted_market, create_market, write_market, posted_update,
  update_market,
}

-- The market of the id is found in the new state, and the others as before.
pub record IsMade (e : Markets) (id : ℕ) (m : Market) (r : Option Error × Markets) : Type 0 where
  pub accepted : r.0 ≡ none
  pub was_absent : market id e ≡ none
  pub now_found : (j : ℕ) → market j r.1 ≡ (if id == j then some m else market j e)
  pub sorted : Sorted market_key r.1.markets
  pub message :
      (mq : MsgQueue) × (do_create_market id m.instr m.settl_day m.state e.mq ≡ some mq)
      × (r.1.mq ≡ mq)

not_found-find :
    (id : ℕ) (ms : List Market)
    → (find_hint market_key id ms).1 ≡ false
    → find market_key id ms ≡ none
unfolding find
not_found-find id ms h = rw h refl

insert-insert_hint :
    (m : Market) (ms : List Market)
    → (find_hint market_key m.id ms).1 ≡ false
    → insert market_key m ms ≡ insert_hint market_key (find_hint market_key m.id ms).0 m
unfolding insert
insert-insert_hint m ms h = rw h refl

make-id : (id instr settl_day state : ℕ) → (Market.make id instr settl_day state).id ≡ id
unfolding Market.make
make-id id instr settl_day state = refl

posted_market-IsMade :
    (e : Markets) (m : Market) (p : Option MsgQueue)
    → Sorted market_key e.markets
    → (find_hint market_key m.id e.markets).1 ≡ false
    → do_create_market m.id m.instr m.settl_day m.state e.mq ≡ p
    → ((x : Error) × (posted_market e (find_hint market_key m.id e.markets).0 m p ≡ (some x, e)))
      ⊎ IsMade e m.id m (posted_market e (find_hint market_key m.id e.markets).0 m p)
unfolding market
posted_market-IsMade e m none s h q = inl (Error.queue_full, refl)
posted_market-IsMade e m (some mq) s h q =
    let gone = not_found-find m.id e.markets h in
    let same = insert-insert_hint m e.markets h in
    inr (record {
      accepted = refl;
      was_absent = gone;
      now_found = λ j. ap (find market_key j) (sym same) ∙ found j gone;
      sorted = rw (← same) (find-insert market_key m m.id e.markets s).1;
      message = (mq, q, refl);
    })
  where
    own :
        (j : ℕ) (b : Bool)
        → find market_key m.id e.markets ≡ none
        → (m.id == j) ≡ b
        → (if b
            then some (found_or m (find market_key j e.markets))
            else find market_key j e.markets)
          ≡ (if b then some m else find market_key j e.markets)
    own j true gone hit =
        let same : m.id ≡ j = ground arith in
        ap (λ o. some (found_or m o)) (ap (λ i. find market_key i e.markets) (sym same) ∙ gone)
    own j false gone miss = refl

    found :
        (j : ℕ)
        → find market_key m.id e.markets ≡ none
        → find market_key j (insert market_key m e.markets)
          ≡ (if m.id == j then some m else find market_key j e.markets)
    found j gone = (find-insert market_key m j e.markets s).0 ∙ own j (m.id == j) gone refl

-- On a set of markets in the order of their ids, create_market either throws and changes nothing,
-- or it makes one market under an id that was free: the market is found there with its message in
-- the queue, every other id finds what it found, and the set is in order.
pub create_market-IsMade :
    (e : Markets) (instr_id instr settl_day state now : ℕ)
    → Sorted market_key e.markets
    → ((x : Error) × (create_market e instr_id instr settl_day state now ≡ (some x, e)))
      ⊎ IsMade e
          (id64 (to_market_id instr_id settl_day))
          (Market.make (id64 (to_market_id instr_id settl_day)) instr settl_day state)
          (create_market e instr_id instr settl_day state now)
unfolding create_market Market.make
create_market-IsMade e instr_id instr settl_day state now s =
    let id = id64 (to_market_id instr_id settl_day) in
    elim (Bool-cases (not (settl_day == 0) && ltb settl_day (e.bus_day now))) [
      | inl early ↦ rw early (inl (Error.invalid, refl))
      | inr open_day ↦ elim (Bool-cases (find_hint market_key id e.markets).1) [
        | inl taken ↦ rw (open_day, taken) (inl (Error.already_exists, refl))
        | inr free ↦
            rw (open_day, free)
              (posted_market-IsMade e (Market.make id instr settl_day state) _ s free refl)
      ]
    ]

-- A write of a market that keeps its id changes what is found under its id only.
search_all-write_market :
    (id j : ℕ) (f : Market → Market) (ms : List Market)
    → ((m : Market) → (f m).id ≡ m.id)
    → search_all market_key j (write_market id f ms) ≡ (
        if id == j
        then elim (search_all market_key j ms) [ none ↦ none | some m ↦ some (f m) ]
        else search_all market_key j ms)
unfolding write_market search_all
search_all-write_market id j f [] keep = ground arith
search_all-write_market id j f (m ∷ ms) keep =
    ground (arith, keep m, search_all-write_market id j f ms keep)

write_market-Above :
    (id k : ℕ) (f : Market → Market) (ms : List Market)
    → ((m : Market) → (f m).id ≡ m.id)
    → Above market_key k ms
    → Above market_key k (write_market id f ms)
unfolding write_market
write_market-Above id k f [] keep a = tt
write_market-Above id k f (m ∷ ms) keep a =
    ground (arith, keep m, write_market-Above id m.id f ms keep a.1)

write_market-Sorted :
    (id : ℕ) (f : Market → Market) (ms : List Market)
    → ((m : Market) → (f m).id ≡ m.id)
    → Sorted market_key ms
    → Sorted market_key (write_market id f ms)
unfolding write_market
write_market-Sorted id f [] keep a = tt
write_market-Sorted id f (m ∷ ms) keep a =
    ground (arith, keep m, write_market-Above id m.id f ms keep a)

set_state-id : (m : Market) (state : ℕ) → (set_state m state).id ≡ m.id
unfolding set_state
set_state-id m state = refl

-- On a set of markets in the order of their ids, update_market either throws and changes nothing, or
-- it writes the state of the market of the id, and every other id finds what it found.
pub update_market-found :
    (e : Markets) (id state : ℕ)
    → Sorted market_key e.markets
    → (update_market e id state ≡ (some Error.queue_full, e))
      ⊎ ((j : ℕ)
          → market j (update_market e id state).1 ≡ (
              if id == j
              then elim (market j e) [ none ↦ none | some m ↦ some (set_state m state) ]
              else market j e))
unfolding update_market
update_market-found e id state s = by_post (do_update_market id state e.mq)
  where
    f : Market → Market
    f m = set_state m state

    found :
        (j : ℕ)
        → find market_key j (write_market id f e.markets) ≡ (
            if id == j
            then elim (find market_key j e.markets) [ none ↦ none | some m ↦ some (f m) ]
            else find market_key j e.markets)
    found j =
        find-search_all market_key j _
          (write_market-Sorted id f e.markets (λ m. set_state-id m state) s)
        ∙ search_all-write_market id j f e.markets (λ m. set_state-id m state)
        ∙ ap
            (λ (o : Option Market).
              if id == j then elim o [ none ↦ none | some m ↦ some (f m) ] else o)
            (sym (find-search_all market_key j e.markets s))

    by_post :
        (p : Option MsgQueue)
        → (posted_update e id state p ≡ (some Error.queue_full, e))
          ⊎ ((j : ℕ)
              → market j (posted_update e id state p).1 ≡ (
                  if id == j
                  then elim (market j e) [ none ↦ none | some m ↦ some (f m) ]
                  else market j e))
    by_post none = inl refl
    by_post (some mq) = inr (λ j. unfold market in found j)
