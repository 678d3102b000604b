-- ===== src/Lob/Batch/Archive.antt =====
-- `archive_trade` over several ids: over distinct ids it finds each trade that it has checked, and
-- over an id given twice it does not.
use swirly.Base.{
  ℕ, ◌≡◌, ◌≢◌, refl, sym, ap, ◌∙◌, ◌⊎◌, inl, inr, true, none, some, List, [], ◌∷◌, All, arith,
  Bool-cases, Option-cases,
}
use swirly.Fin.Exec.{Exec}
use swirly.Fin.MsgQueue.{MsgQueue, Posting, complete, thrown, archive_trades}
use swirly.Lob.Sess.{Sess, find_trade, remove_from, remove_trade}
use swirly.Lob.Engine.{Engine, sess}
use swirly.Lob.Batch.{
  ArchiveOutcome, has_trades, remove_trades, archive_committed, archive_posted, archive_trades_of,
}
use swirly.Lob.Batch.Passed.{Absent, Distinct}

find_trade-ids :
    (mid id : ℕ) (ts : List Exec) (t : Exec)
    → find_trade mid id ts ≡ some t
    → (t.market_id ≡ mid) × (t.id ≡ id)
unfolding find_trade
find_trade-ids mid id [] t h = absurd (cc)
find_trade-ids mid id (x ∷ ts) t h = ground (arith, find_trade-ids mid id ts t)

find_trade-remove_from :
    (mid k id : ℕ) (ts : List Exec)
    → k ≢ id
    → find_trade mid id (remove_from mid k ts) ≡ find_trade mid id ts
unfolding find_trade
find_trade-remove_from mid k id [] h = refl
find_trade-remove_from mid k id (x ∷ ts) h = ground (arith, find_trade-remove_from mid k id ts h)

-- The removal of a trade that the session found under an id.
find_trade-removed :
    (mid k id : ℕ) (t : Exec) (s : Sess)
    → find_trade mid k s.trades ≡ some t
    → k ≢ id
    → find_trade mid id (remove_trade t s).trades ≡ find_trade mid id s.trades
unfolding remove_trade
find_trade-removed mid k id t s f h =
    let (own_market, own) = find_trade-ids mid k s.trades t f in
    rw (own_market, own) (find_trade-remove_from mid k id s.trades h)

abbrev pub Held : ℕ → List Exec → ℕ → Type 0
Held mid ts id = (t : Exec) × (find_trade mid id ts ≡ some t)

has_trades-Held :
    (mid : ℕ) (ids : List ℕ) (ts : List Exec) → has_trades mid ids ts ≡ true → All (Held mid ts) ids
unfolding has_trades
has_trades-Held mid [] ts h = tt
has_trades-Held mid (id ∷ ids) ts h = elim (Option-cases (find_trade mid id ts)) [
  | inl absent ↦ absurd (ground (arith, absent))
  | inr (t, found) ↦ ((t, found), has_trades-Held mid ids ts (ground (arith, found)))
]

All-Held :
    (mid k : ℕ) (ids : List ℕ) (t : Exec) (s : Sess)
    → find_trade mid k s.trades ≡ some t
    → Absent k ids
    → All (Held mid s.trades) ids
    → All (Held mid (remove_trade t s).trades) ids
All-Held mid k [] t s f d a = tt
All-Held mid k (id ∷ ids) t s f d a = (
  (a.0.0, find_trade-removed mid k id t s f (λ e. d.0 (sym e)) ∙ a.0.1),
  All-Held mid k ids t s f d.1 a.1,
)

-- The loop over distinct ids of trades that the session holds.
remove_trades-some :
    (mid : ℕ) (ids : List ℕ) (s : Sess)
    → All (Held mid s.trades) ids
    → Distinct ids
    → (s' : Sess) × (remove_trades mid ids s ≡ some s')
      × ((id : ℕ) → Absent id ids → find_trade mid id s'.trades ≡ find_trade mid id s.trades)
unfolding remove_trades
remove_trades-some mid [] s a d = (s, refl, (λ id h. refl))
remove_trades-some mid (k ∷ ids) s ((t, f), a) (d, ds) =
    let (s', eq, same) =
      remove_trades-some mid ids (remove_trade t s) (All-Held mid k ids t s f d a) ds in
    rw f (s', eq, (λ id h. same id h.1 ∙ find_trade-removed mid k id t s f (h.0)))

abbrev pub Ends : ArchiveOutcome → Type 0
Ends (ArchiveOutcome.ended x e) = Unit {0}
Ends ArchiveOutcome.undefined = ⊥

archive_posted-Ends :
    (e : Engine) (accnt mid : ℕ) (ids : List ℕ) (s : Sess) (p : Posting)
    → (s' : Sess) → remove_trades mid ids s ≡ some s'
    → Ends (archive_posted e accnt mid ids s p)
archive_posted-Ends e accnt mid ids s (thrown mq) s' h = tt
archive_posted-Ends e accnt mid ids s (complete mq) s' h = rw h tt

-- Archiving the trades of distinct ids never dereferences the end of a set.
pub archive_trades_of-Ends :
    (e : Engine) (accnt mid : ℕ) (ids : List ℕ) (now : ℕ)
    → Distinct ids
    → Ends (archive_trades_of e accnt mid ids now)
unfolding archive_trades_of
archive_trades_of-Ends e accnt mid ids now d =
    let s = (sess e.max_execs accnt e.sesss).0 in
    elim (Bool-cases (has_trades mid ids s.trades)) [
      | inr miss ↦ rw miss tt
      | inl all ↦
          let (s', eq, same) =
            remove_trades-some mid ids s (has_trades-Held mid ids s.trades all) d in
          let e' = record e { sesss = (sess e.max_execs accnt e.sesss).1 } in
          rw all (archive_posted-Ends e' accnt mid ids s (archive_trades mid ids now e.mq) s' eq)
    ]

abbrev pub Present : ℕ → List ℕ → Type 0
Present id [] = ⊥
Present id (x ∷ xs) = (x ≡ id) ⊎ Present id xs

-- An id that the session does not hold stops the loop.
remove_trades-none :
    (mid id : ℕ) (ids : List ℕ) (s : Sess)
    → find_trade mid id s.trades ≡ none
    → Present id ids
    → remove_trades mid ids s ≡ none
unfolding remove_trades
remove_trades-none mid id [] s h p = absurd p
remove_trades-none mid id (k ∷ ids) s h (inl e) = rw (e, h)
remove_trades-none mid id (k ∷ ids) s h (inr p) = elim (Option-cases (find_trade mid k s.trades)) [
  | inl absent ↦ rw absent
  | inr (t, found) ↦
      let apart : k ≢ id = λ e. cc (found, h, e) in
      rw found (
        remove_trades-none mid id ids (remove_trade t s)
          (find_trade-removed mid k id t s found apart ∙ h) p)
]

remove_trades-step :
    (mid id : ℕ) (ids : List ℕ) (t : Exec) (s : Sess)
    → find_trade mid id s.trades ≡ some t
    → remove_trades mid (id ∷ ids) s ≡ remove_trades mid ids (remove_trade t s)
unfolding remove_trades
remove_trades-step mid id ids t s f = rw f

find_trade-gone :
    (mid id : ℕ) (t : Exec) (s : Sess)
    → find_trade mid id s.trades ≡ some t
    → find_trade mid id (remove_from mid id s.trades) ≡ none
    → find_trade mid id (remove_trade t s).trades ≡ none
unfolding remove_trade
find_trade-gone mid id t s f gone =
    let (own_market, own) = find_trade-ids mid id s.trades t f in rw (own_market, own) gone

-- If an id comes first and again later among ids that the session of the account holds, that id
-- once, and the messages fit in the queue, then archiving them dereferences the end of the set.
pub archive_trades_of-undefined :
    (e : Engine) (accnt mid id : ℕ) (ids : List ℕ) (now : ℕ) (mq : MsgQueue)
    → Present id ids
    → has_trades mid (id ∷ ids) (sess e.max_execs accnt e.sesss).0.trades ≡ true
    → find_trade mid id (remove_from mid id (sess e.max_execs accnt e.sesss).0.trades) ≡ none
    → archive_trades mid (id ∷ ids) now e.mq ≡ complete mq
    → archive_trades_of e accnt mid (id ∷ ids) now ≡ ArchiveOutcome.undefined
unfolding archive_trades_of
archive_trades_of-undefined e accnt mid id ids now mq p held once room =
    let s = (sess e.max_execs accnt e.sesss).0 in
    rw (held, room)
      (ap (archive_committed _ accnt)
        (second s (has_trades-Held mid (id ∷ ids) s.trades held).0 once))
  where
    second :
        (s : Sess)
        → Held mid s.trades id
        → find_trade mid id (remove_from mid id s.trades) ≡ none
        → remove_trades mid (id ∷ ids) s ≡ none
    second s (t, found) gone =
        remove_trades-step mid id ids t s found
        ∙ remove_trades-none mid id ids (remove_trade t s) (find_trade-gone mid id t s found gone) p
