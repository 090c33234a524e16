-- ===== src/EventSystem/Telling.antt =====
-- A single queue of events, and the loop of `dispatch` over one of its two queues.
use durak.Base.{
  ℕ, zero, suc, ◌+◌, ◌-◌, ◌≤◌, ◌≡◌, refl, true, false, ltb, List, [], ◌∷◌, ◌++◌, length, Outcome,
  ok, fault, out_of_fuel, runtime_error, arith, ap, sym, Bool-cases, inl, inr, ◌∙◌, dec_le,
}
use mathlib.Core.List.{append_assoc, append-nil}
use durak.EventSystem.{
  Handler, Item, Objects, EventSystem, call_if_alive, call_all, keep_alive, put_handlers,
  dispatch_item, dispatch_queue,
}

-- The subscriptions and the world.
abbrev pub Scene {ℓ} : (E W : Type ℓ) → Type ℓ
Scene E W = (ℕ → List Handler) × W

-- An event to the handlers in their order: to those whose object lives when it is their turn. What they
-- publish is kept in this order.
unfoldable pub tell_each {ℓ} :
    {E W : Type ℓ} → Objects E W → Item E → List Handler → W → W × List (Item E)
tell_each o x [] w = (w, [])
tell_each o x (h ∷ hs) w = elim (o.is_alive h.object w) [
  | true ↦
      let (next, new) = o.call h x w in
      let (last, later) = tell_each o x hs next in (last, new ++ later)
  | false ↦ tell_each o x hs w
]

-- The handlers whose object lives.
unfoldable pub living {ℓ} : {E W : Type ℓ} → Objects E W → W → List Handler → List Handler
living o w [] = []
living o w (h ∷ hs) = elim (o.is_alive h.object w) [
  | true ↦ h ∷ living o w hs
  | false ↦ living o w hs
]

-- One event to all that subscribed to its type, of which those that live then stay.
unfoldable pub tell {ℓ} :
    {E W : Type ℓ} → Objects E W → Item E → Scene E W → Scene E W × List (Item E)
tell o x c =
    let kind = o.kind x.event in
    let r = tell_each o x (c.0 kind) c.1 in
    ((put_handlers kind (living o r.0 (c.0 kind)) c.0, r.0), r.1)

-- One queue: the event in front is told, and what is published goes to the back. The 1001st event ends
-- in an exception, after which nothing is kept.
unfoldable pub tell_all {ℓ} :
    {E W : Type ℓ} → Objects E W → ℕ → ℕ → List (Item E) → Scene E W → Outcome (Scene E W)
unfolding tell
tell_all o zero n xs c = fault out_of_fuel
tell_all o (suc fuel) n [] c = ok c
tell_all o (suc fuel) n (x ∷ xs) c = elim (ltb 1000 (suc n)) [
  | true ↦ fault runtime_error
  | false ↦ let told = tell o x c in tell_all o fuel (suc n) (xs ++ told.1) told.0
]

keep_alive-living {ℓ} :
    {E W : Type ℓ} (o : Objects E W) (w : W) (hs : List Handler) → keep_alive o w hs ≡ living o w hs
unfolding keep_alive living
keep_alive-living o w [] = refl
keep_alive-living o w (h ∷ hs) = ground (arith, keep_alive-living o w hs)

called {ℓ} :
    {E W : Type ℓ} (o : Objects E W) (x : Item E) (h : Handler) (w : W) (old : List (Item E))
    → o.is_alive h.object w ≡ true
    → call_if_alive o x h (w, old) ≡ ((o.call h x w).0, old ++ (o.call h x w).1)
called o x h w old e = ground (arith, e)

passed {ℓ} :
    {E W : Type ℓ} (o : Objects E W) (x : Item E) (h : Handler) (w : W) (old : List (Item E))
    → o.is_alive h.object w ≡ false
    → call_if_alive o x h (w, old) ≡ (w, old)
passed o x h w old e = ground (arith, e)

tell_each-alive {ℓ} :
    {E W : Type ℓ} (o : Objects E W) (x : Item E) (h : Handler) (hs : List Handler) (w : W)
    → o.is_alive h.object w ≡ true
    → let c = o.call h x w in
      let rest = tell_each o x hs c.0 in tell_each o x (h ∷ hs) w ≡ (rest.0, c.1 ++ rest.1)
unfolding tell_each
tell_each-alive o x h hs w e = ground (arith, e)

tell_each-gone {ℓ} :
    {E W : Type ℓ} (o : Objects E W) (x : Item E) (h : Handler) (hs : List Handler) (w : W)
    → o.is_alive h.object w ≡ false
    → tell_each o x (h ∷ hs) w ≡ tell_each o x hs w
unfolding tell_each
tell_each-gone o x h hs w e = ground (arith, e)

-- What is published goes behind what is there.
call_all-tell_each {ℓ} :
    {E W : Type ℓ} (o : Objects E W) (x : Item E) (hs : List Handler) (w : W) (old : List (Item E))
    → call_all o x hs (w, old) ≡ ((tell_each o x hs w).0, old ++ (tell_each o x hs w).1)
unfolding call_all tell_each
call_all-tell_each o x [] w old = ap (λ q. (w, q)) (sym (append-nil old))
call_all-tell_each o x (h ∷ hs) w old = elim (Bool-cases (o.is_alive h.object w)) [
  | inl e ↦
      let c = o.call h x w in
      let rest = tell_each o x hs c.0 in
      ap (call_all o x hs) (called o x h w old e)
      ∙ call_all-tell_each o x hs c.0 (old ++ c.1)
      ∙ ap (λ q. (rest.0, q)) (append_assoc old c.1 rest.1)
      ∙ sym (ap (λ r. (r.0, old ++ r.1)) (tell_each-alive o x h hs w e))
  | inr e ↦
      ap (call_all o x hs) (passed o x h w old e)
      ∙ call_all-tell_each o x hs w old
      ∙ sym (ap (λ r. (r.0, old ++ r.1)) (tell_each-gone o x h hs w e))
]

-- An item of the queue is told to the same, and what is published goes behind the next queue.
dispatch_item-tell {ℓ} :
    {E W : Type ℓ} (o : Objects E W) (x : Item E) (s : EventSystem E) (w : W)
    → let told = tell o x (s.handlers, w) in
      dispatch_item o x (s, w)
      ≡ (record s { handlers = told.0.0; next_queue = s.next_queue ++ told.1 }, told.0.1)
unfolding dispatch_item tell
dispatch_item-tell {E = E} {W = W} o x s w =
    let hs = s.handlers (o.kind x.event) in
    rw (call_all-tell_each o x hs w s.next_queue, keep_alive-living o (tell_each o x hs w).0 hs)
      refl

pub tell_all-goes {ℓ} :
    {E W : Type ℓ} (o : Objects E W) (fuel n : ℕ) (x : Item E) (xs : List (Item E)) (c : Scene E W)
    → suc n ≤ 1000
    → tell_all o (suc fuel) n (x ∷ xs) c
      ≡ tell_all o fuel (suc n) (xs ++ (tell o x c).1) (tell o x c).0
unfolding tell_all
tell_all-goes o fuel n x xs c h = ground (arith, h)

pub tell_all-stops {ℓ} :
    {E W : Type ℓ} (o : Objects E W) (fuel n : ℕ) (x : Item E) (xs : List (Item E)) (c : Scene E W)
    → 1000 ≤ n
    → tell_all o (suc fuel) n (x ∷ xs) c ≡ fault runtime_error
unfolding tell_all
tell_all-stops o fuel n x xs c h = ground (arith, h)

one_less : (n : ℕ) → n ≤ 1000 → 1002 - n ≡ suc (1002 - suc n)
one_less n h = omega (arith, h)

-- What the loop over the queue comes to, and the single queue with it.
pub data Queued {ℓ} {E W : Type ℓ} (o : Objects E W) (xs : List (Item E)) (n : ℕ)
    (s : EventSystem E) (w : W) : Type ℓ where
  told :
      (n' : ℕ) (hs : ℕ → List Handler) (next : List (Item E)) (w' : W)
      → n' ≡ n + length xs
      → n' ≤ 1000
      → dispatch_queue o xs n (s, w) ≡ ok (n', (record s { handlers = hs; next_queue = next }, w'))
      → tell_all o (1002 - n) n (xs ++ s.next_queue) (s.handlers, w)
        ≡ tell_all o (1002 - n') n' next (hs, w')
      → Queued o xs n s w
  refused :
      dispatch_queue o xs n (s, w) ≡ fault runtime_error
      → tell_all o (1002 - n) n (xs ++ s.next_queue) (s.handlers, w) ≡ fault runtime_error
      → Queued o xs n s w

empty-Queued {ℓ} :
    {E W : Type ℓ} (o : Objects E W) (n : ℕ) (s : EventSystem E) (w : W)
    → n ≤ 1000
    → Queued o [] n s w
unfolding dispatch_queue
empty-Queued o n s w le = told n s.handlers s.next_queue w (omega arith) le refl refl

queue_stops {ℓ} :
    {E W : Type ℓ} (o : Objects E W) (x : Item E) (xs : List (Item E)) (n : ℕ) (s : EventSystem E)
    (w : W)
    → 1000 ≤ n
    → dispatch_queue o (x ∷ xs) n (s, w) ≡ fault runtime_error
unfolding dispatch_queue
queue_stops o x xs n s w h = ground (arith, h)

queue_goes {ℓ} :
    {E W : Type ℓ} (o : Objects E W) (x : Item E) (xs : List (Item E)) (n : ℕ) (s : EventSystem E)
    (w : W)
    → suc n ≤ 1000
    → dispatch_queue o (x ∷ xs) n (s, w)
      ≡ dispatch_queue o xs (suc n) (
        record s {
          handlers = (tell o x (s.handlers, w)).0.0;
          next_queue = s.next_queue ++ (tell o x (s.handlers, w)).1;
        },
        (tell o x (s.handlers, w)).0.1,
      )
unfolding dispatch_queue
queue_goes o x xs n s w h = ground (arith, h, dispatch_item-tell o x s w)

front-Queued {ℓ} :
    {E W : Type ℓ} (o : Objects E W) (x : Item E) (xs : List (Item E)) (n : ℕ) (s : EventSystem E)
    (w : W)
    → suc n ≤ 1000
    → Queued o xs
        (suc n)
        (record s {
          handlers = (tell o x (s.handlers, w)).0.0;
          next_queue = s.next_queue ++ (tell o x (s.handlers, w)).1;
        })
        (tell o x (s.handlers, w)).0.1
    → Queued o (x ∷ xs) n s w
front-Queued o x xs n s w lt q =
    let goes = queue_goes o x xs n s w lt in
    let single =
      ap (λ f. tell_all o f n (x ∷ (xs ++ s.next_queue)) (s.handlers, w))
        (one_less n (omega (arith, lt)))
      ∙ tell_all-goes o (1002 - suc n) n x (xs ++ s.next_queue) (s.handlers, w) lt
      ∙ ap (λ ys. tell_all o (1002 - suc n) (suc n) ys (tell o x (s.handlers, w)).0)
          (append_assoc xs s.next_queue (tell o x (s.handlers, w)).1) in
    elim q [
      | told n' hs next w' e small d t ↦
          told n' hs next w' (omega (arith, e)) small (goes ∙ d) (single ∙ t)
      | refused d t ↦ refused (goes ∙ d) (single ∙ t)
    ]

pub dispatch_queue-Queued {ℓ} :
    {E W : Type ℓ} (o : Objects E W) (xs : List (Item E)) (n : ℕ) (s : EventSystem E) (w : W)
    → n ≤ 1000
    → Queued o xs n s w
dispatch_queue-Queued o [] n s w le = empty-Queued o n s w le
dispatch_queue-Queued o (x ∷ xs) n s w le = elim (dec_le (suc n) 1000) [
  | yes lt ↦ front-Queued o x xs n s w lt (
      dispatch_queue-Queued o xs (suc n)
        (record s {
          handlers = (tell o x (s.handlers, w)).0.0;
          next_queue = s.next_queue ++ (tell o x (s.handlers, w)).1;
        })
        (tell o x (s.handlers, w)).0.1 lt)
  | no ge ↦ refused (queue_stops o x xs n s w (omega (arith, ge))) (
      ap (λ f. tell_all o f n (x ∷ (xs ++ s.next_queue)) (s.handlers, w)) (one_less n le)
      ∙ tell_all-stops o (1002 - suc n) n x (xs ++ s.next_queue) (s.handlers, w)
          (omega (arith, ge)))
]

pub tell_all-empty {ℓ} :
    {E W : Type ℓ} (o : Objects E W) (fuel n : ℕ) (c : Scene E W)
    → tell_all o (suc fuel) n [] c ≡ ok c
unfolding tell_all
tell_all-empty o fuel n c = refl

pub tell_all-nothing {ℓ} :
    {E W : Type ℓ} (o : Objects E W) (n : ℕ) (c : Scene E W)
    → n ≤ 1000
    → tell_all o (1002 - n) n [] c ≡ ok c
unfolding tell_all
tell_all-nothing o n c h = ap (λ f. tell_all o f n [] c) (one_less n h)
