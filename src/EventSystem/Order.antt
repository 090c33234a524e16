-- ===== src/EventSystem/Order.antt =====
-- The two queues of `dispatch` against a single one.
use durak.Base.{
  ℕ, zero, suc, ◌+◌, ◌-◌, ◌≤◌, ◌<◌, ◌≡◌, ◌⊎◌, inl, inr, refl, List, [], ◌∷◌, ◌++◌, length, Outcome,
  ok, fault, runtime_error, ◌>>=◌, arith, ap, sym, ◌∙◌, dec_le,
}
use mathlib.Core.List.{append-nil}
use durak.EventSystem.{
  Handler, Item, Objects, EventSystem, dispatch_queue, dispatch_rounds, dispatch,
}
use durak.EventSystem.Telling.{
  told, refused, Scene, tell, tell_all, tell_all-goes, tell_all-stops, dispatch_queue-Queued,
  tell_all-empty, tell_all-nothing,
}

-- What is left of the two queues, and the scene of the single one.
abbrev pub emptied {ℓ} : {E W : Type ℓ} → Scene E W → EventSystem E × W
emptied c = (record { handlers = c.0; queue = []; next_queue = [] }, c.1)

abbrev pub in_order {ℓ} :
    {E W : Type ℓ} → Objects E W → ℕ → EventSystem E × W → Outcome (EventSystem E × W)
in_order o n st =
    tell_all o (1002 - n) n (st.0.queue ++ st.0.next_queue) (st.0.handlers, st.1) >>= λ c.
    ok (emptied c)

-- One round, where the rounds after it are known.
round_told {ℓ} :
    {E W : Type ℓ} (o : Objects E W) (fuel n n' : ℕ) (s : EventSystem E) (hs : ℕ → List Handler)
    (next : List (Item E)) (w w' : W)
    → n' ≤ 1000
    → dispatch_queue o s.queue n (s, w)
      ≡ ok (n', (record s { handlers = hs; next_queue = next }, w'))
    → (0 < length next
        → dispatch_rounds o fuel n' (record { handlers = hs; queue = next; next_queue = [] }, w')
          ≡ in_order o n' (record { handlers = hs; queue = next; next_queue = [] }, w'))
    → dispatch_rounds o (suc fuel) n (s, w)
      ≡ (tell_all o (1002 - n') n' next (hs, w') >>= λ c. ok (emptied c))
unfolding dispatch_rounds
round_told o fuel n n' s hs [] w w' le d rest = rw (d, tell_all-nothing o n' (hs, w') le)
round_told o fuel n n' s hs (x ∷ xs) w w' le d rest = rw d (
    rest (omega arith)
    ∙ ap (λ ys. tell_all o (1002 - n') n' ys (hs, w') >>= λ c. ok (emptied c))
        (append-nil (x ∷ xs)))

round_refused {ℓ} :
    {E W : Type ℓ} (o : Objects E W) (fuel n : ℕ) (s : EventSystem E) (w : W)
    → dispatch_queue o s.queue n (s, w) ≡ fault runtime_error
    → dispatch_rounds o (suc fuel) n (s, w) ≡ fault runtime_error
unfolding dispatch_rounds
round_refused o fuel n s w d = rw d

-- A round that other rounds may follow.
round_in_order {ℓ} :
    {E W : Type ℓ} (o : Objects E W) (fuel n : ℕ) (s : EventSystem E) (w : W)
    → n ≤ 1000
    → ((n' : ℕ) (hs : ℕ → List Handler) (next : List (Item E)) (w' : W)
        → n' ≡ n + length s.queue
        → n' ≤ 1000
        → 0 < length next
        → dispatch_rounds o fuel n' (record { handlers = hs; queue = next; next_queue = [] }, w')
          ≡ in_order o n' (record { handlers = hs; queue = next; next_queue = [] }, w'))
    → dispatch_rounds o (suc fuel) n (s, w) ≡ in_order o n (s, w)
round_in_order o fuel n s w le rest = elim (dispatch_queue-Queued o s.queue n s w le) [
  | told n' hs next w' e small d t ↦
      round_told o fuel n n' s hs next w w' small d (rest n' hs next w' e small)
      ∙ sym (ap (λ r. r >>= λ c. ok (emptied c)) t)
  | refused d t ↦ round_refused o fuel n s w d ∙ sym (ap (λ r. r >>= λ c. ok (emptied c)) t)
]

rounds_in_order {ℓ} :
    {E W : Type ℓ} (o : Objects E W) (fuel n : ℕ) (s : EventSystem E) (w : W)
    → n ≤ 1000
    → 0 < length s.queue
    → 1001 < n + fuel
    → dispatch_rounds o fuel n (s, w) ≡ in_order o n (s, w)
rounds_in_order o zero n s w le some_queued enough = absurd (omega arith)
rounds_in_order o (suc fuel) n s w le some_queued enough =
    round_in_order o fuel n s w le (λ n' hs next w' e small queued.
      rounds_in_order o fuel n' (record { handlers = hs; queue = next; next_queue = [] }) w' small
        queued (omega arith))

-- The two queues of `dispatch` come to the same as a single one, in which every event that is
-- published meanwhile goes to the back: all events are told, in this order, to those that
-- subscribed to their type and live, and both queues are empty at the end; or, when it comes to the
-- 1001st event, the same exception is thrown.
pub dispatch-in_order {ℓ} :
    {E W : Type ℓ} (o : Objects E W) (st : EventSystem E × W)
    → dispatch o st ≡ (
        tell_all o 1002 0 (st.0.queue ++ st.0.next_queue) (st.0.handlers, st.1) >>= λ c.
        ok (emptied c))
unfolding dispatch
dispatch-in_order o (s, w) =
    round_in_order o 1002 0 s w (omega arith) (λ n' hs next w' e small queued.
      rounds_in_order o 1002 n' (record { handlers = hs; queue = next; next_queue = [] }) w' small
        queued (omega arith))

tell_all-ends {ℓ} :
    {E W : Type ℓ} (o : Objects E W) (n : ℕ) (xs : List (Item E)) (c : Scene E W) (fuel : ℕ)
    → n ≤ 1000
    → 1001 < n + fuel
    → ((c' : Scene E W) × (tell_all o fuel n xs c ≡ ok c'))
      ⊎ (tell_all o fuel n xs c ≡ fault runtime_error)
tell_all-ends o n xs c zero le h = absurd (omega arith)
tell_all-ends o n [] c (suc fuel) le h = inl (c, tell_all-empty o fuel n c)
tell_all-ends o n (x ∷ xs) c (suc fuel) le h = elim (dec_le (suc n) 1000) [
  | yes lt ↦
      let goes = tell_all-goes o fuel n x xs c lt in
      elim (tell_all-ends o (suc n) (xs ++ (tell o x c).1) (tell o x c).0 fuel lt (omega arith)) [
        | inl (c', e) ↦ inl (c', goes ∙ e)
        | inr e ↦ inr (goes ∙ e)
      ]
  | no ge ↦ inr (tell_all-stops o fuel n x xs c (omega (arith, ge)))
]

-- A call of `dispatch` comes to an end, whatever the methods publish: with both queues empty, or
-- with the exception that there are too many events.
pub dispatch_ends {ℓ} :
    {E W : Type ℓ} (o : Objects E W) (st : EventSystem E × W)
    → ((r : EventSystem E × W) × (dispatch o st ≡ ok r) × (r.0.queue ≡ []) × (r.0.next_queue ≡ []))
      ⊎ (dispatch o st ≡ fault runtime_error)
dispatch_ends o st =
    elim (tell_all-ends o 0 (st.0.queue ++ st.0.next_queue) (st.0.handlers, st.1) 1002 (omega arith)
      (omega arith)) [
        | inl (c, e) ↦ inl (
          emptied c,
          dispatch-in_order o st ∙ ap (λ r. r >>= λ c'. ok (emptied c')) e,
          refl,
          refl,
        )
        | inr e ↦ inr (dispatch-in_order o st ∙ ap (λ r. r >>= λ c'. ok (emptied c')) e)
      ]
