-- ===== src/Fin/MsgQueue/Archive.antt =====
-- The loop of `archive_trade` over its steps: one message for each, all of them posted.
use swirly.Base.{
  append_assoc, ℕ, suc, zero, ◌+◌, ◌-◌, ◌≤◌, ◌<◌, ◌≡◌, refl, sym, ap, ◌∙◌, ◌⊎◌, inl, inr, some,
  List, [], ◌∷◌, ◌++◌, length, length-drop, take, drop, replicate, ltb, leb, arith, Bool-cases,
  length-append,
}
use swirly.Fin.MsgQueue.{
  Msg, MsgQueue, Posting, complete, thrown, reserve, do_archive_trade, archive_steps,
  archive_trades, steps, max_ids,
}
use swirly.Fin.MsgQueue.Post.{append_one, append_none, Fits, posted, post-room}

steps-last : (n : ℕ) → 0 < n → n ≤ max_ids → steps n ≡ 1
unfolding steps
steps-last n h k = ground arith

steps-more : (n : ℕ) → max_ids < n → steps n ≡ suc (steps (n - max_ids))
unfolding steps
steps-more n h = ground arith

take-drop {ℓ} : {A : Type ℓ} (n : ℕ) (xs : List A) → take n xs ++ drop n xs ≡ xs
take-drop zero xs = refl
take-drop (suc n) [] = refl
take-drop (suc n) (x ∷ xs) = ap (λ t. x ∷ t) (take-drop n xs)

take_all {ℓ} : {A : Type ℓ} (n : ℕ) (xs : List A) → length xs ≤ n → take n xs ≡ xs
take_all zero [] h = refl
take_all zero (x ∷ xs) h = absurd (omega arith)
take_all (suc n) [] h = refl
take_all (suc n) (x ∷ xs) h = ap (λ t. x ∷ t) (take_all n xs (omega arith))

length-take {ℓ} : {A : Type ℓ} (n : ℕ) (xs : List A) → n ≤ length xs → length (take n xs) ≡ n
length-take zero xs h = refl
length-take (suc n) [] h = absurd (omega arith)
length-take (suc n) (x ∷ xs) h = ap suc (length-take n xs (omega arith))

-- The ids that messages archive, with the zeros of the slots that are left.
abbrev pub ids_in : List Msg → List ℕ
ids_in [] = []
ids_in (Msg.create_market _ _ _ _ ∷ ms) = ids_in ms
ids_in (Msg.update_market _ _ ∷ ms) = ids_in ms
ids_in (Msg.create_exec _ ∷ ms) = ids_in ms
ids_in (Msg.archive_trade _ ids _ ∷ ms) = ids ++ ids_in ms

-- The messages of a call: as many as steps, with all the ids and then zeros.
abbrev pub Archived : List ℕ → MsgQueue → Posting → Type 0
Archived ids q r =
    (ms : List Msg) × (zeros : ℕ) × (r ≡ complete (posted q ms))
    × (length ms ≡ steps (length ids))
    × (ids_in ms ≡ ids ++ replicate zeros 0)

archive_one : ℕ → List ℕ → ℕ → Msg
archive_one market_id ids modified =
    Msg.archive_trade market_id (ids ++ replicate (max_ids - length ids) 0) modified

do_archive_trade-room :
    (market_id : ℕ) (ids : List ℕ) (modified : ℕ) (q : MsgQueue)
    → length q.msgs < q.capacity
    → do_archive_trade market_id ids modified q
      ≡ some (posted q (archive_one market_id ids modified ∷ []))
unfolding do_archive_trade archive_one
do_archive_trade-room market_id ids modified q h = post-room _ q h

archive_steps-last :
    (fuel market_id : ℕ) (ids : List ℕ) (modified : ℕ) (q : MsgQueue)
    → length ids ≤ max_ids
    → length q.msgs < q.capacity
    → archive_steps (suc fuel) market_id ids modified q
      ≡ complete (posted q (archive_one market_id (take max_ids ids) modified ∷ []))
unfolding archive_steps
archive_steps-last fuel market_id ids modified q h room =
    ground (arith, do_archive_trade-room market_id (take max_ids ids) modified q room)

archive_steps-more :
    (fuel market_id : ℕ) (ids : List ℕ) (modified : ℕ) (q : MsgQueue)
    → max_ids < length ids
    → length q.msgs < q.capacity
    → archive_steps (suc fuel) market_id ids modified q
      ≡ archive_steps fuel market_id
          (drop max_ids ids)
          modified
          (posted q (archive_one market_id (take max_ids ids) modified ∷ []))
unfolding archive_steps
archive_steps-more fuel market_id ids modified q h room =
    ground (arith, do_archive_trade-room market_id (take max_ids ids) modified q room)

archive_steps-Archived :
    (fuel market_id : ℕ) (ids : List ℕ) (modified : ℕ) (q : MsgQueue)
    → length ids < fuel
    → 0 < length ids
    → length q.msgs + steps (length ids) ≤ q.capacity
    → Archived ids q (archive_steps fuel market_id ids modified q)
unfolding archive_one
archive_steps-Archived zero market_id ids modified q f h room = absurd (omega arith)
archive_steps-Archived (suc fuel) market_id ids modified q f h room =
    elim (Bool-cases (leb (length ids) max_ids)) [
      | inl last ↦
          let small : length ids ≤ max_ids = ground arith in
          let one = steps-last (length ids) h small in
          let whole = take_all max_ids ids small in
          (
            archive_one market_id (take max_ids ids) modified ∷ [],
            max_ids - length (take max_ids ids),
            archive_steps-last fuel market_id ids modified q small (omega (arith, one)),
            sym one,
            append_none _
                ∙ ap (λ xs. xs ++ replicate (max_ids - length (take max_ids ids)) 0) whole,
          )
      | inr later ↦
          let big : max_ids < length ids = ground arith in
          let more = steps-more (length ids) big in
          let rest = length-drop max_ids ids in
          let m = archive_one market_id (take max_ids ids) modified in
          let same = ap steps rest in
          let (ms, zeros, ran, count, all) =
            archive_steps-Archived fuel market_id (drop max_ids ids) modified (posted q (m ∷ []))
              (omega (arith, rest)) (omega (arith, rest))
              (omega (arith, more, same, length-append q.msgs (m ∷ []))) in
          let full = length-take max_ids ids (omega arith) in
          (
            m ∷ ms,
            zeros,
            archive_steps-more fuel market_id ids modified q big (omega (arith, more))
                ∙ ran
                ∙ ap (λ xs. complete (record q { msgs = xs })) (append_one q.msgs m ms),
            omega (arith, count, same, more),
            ap (λ t. t ++ ids_in ms)
                  (ap (λ n. take max_ids ids ++ replicate (max_ids - n) 0) full ∙ append_none _)
                ∙ ap (λ t. take max_ids ids ++ t) all
                ∙ sym (append_assoc (take max_ids ids) (drop max_ids ids) (replicate zeros 0))
                ∙ ap (λ t. t ++ replicate zeros 0) (take-drop max_ids ids),
          )
    ]

-- For a queue within its capacity and at least one id, archive_trade either throws, and then the
-- queue lacks the room for its steps, or posts as many messages as there are steps, which hold
-- all the ids in order and then zeros.
pub archive_trades-all :
    (market_id : ℕ) (ids : List ℕ) (modified : ℕ) (q : MsgQueue)
    → Fits q
    → 0 < length ids
    → (archive_trades market_id ids modified q ≡ thrown q)
        × (q.capacity < length q.msgs + steps (length ids))
      ⊎ Archived ids q (archive_trades market_id ids modified q)
unfolding archive_trades reserve
archive_trades-all market_id ids modified q f h =
    elim (Bool-cases (ltb (q.capacity - length q.msgs) (steps (length ids)))) [
      | inl full ↦ inl (rw full, ground arith)
      | inr room ↦
          let (ms, zeros, ran, count, all) =
            archive_steps-Archived (suc (length ids)) market_id ids modified q (omega arith) h
              (ground arith) in
          inr (ms, zeros, ground (arith, ran), count, all)
    ]
