-- ===== src/EventSystem.antt =====
-- source/core/EventSystem.h, EventInitiator.h and Trackable.h: the subscriptions by type of event, and
-- the two queues. The objects and their methods are a parameter, Objects: the type of an event, whether
-- an object lives in a world, and what a method does to the world and publishes. A method that
-- subscribes to events while they are dispatched is left out.
pub mod Telling
pub mod Order
pub mod Tests
use durak.Base.{
  ℕ, zero, suc, Bool, true, false, ltb, ◌==◌, if◌then◌else◌, List, [], ◌∷◌, ◌++◌, Option, Outcome,
  ok, fault, out_of_fuel, runtime_error, ◌>>=◌,
}

-- A pointer to an object, and to one of its methods.
pub record Handler : Type 0 where
  pub object : ℕ
  pub method : ℕ

-- An event with its initiator.
pub record Item {ℓ} (E : Type ℓ) : Type ℓ where
  pub event : E
  pub initiator : Option ℕ

pub record Objects {ℓ} (E W : Type ℓ) : Type ℓ where
  pub kind : E → ℕ
  pub is_alive : ℕ → W → Bool
  pub call : Handler → Item E → W → W × List (Item E)

pub record EventSystem {ℓ} (E : Type ℓ) : Type ℓ where
  pub handlers : ℕ → List Handler
  pub queue : List (Item E)
  pub next_queue : List (Item E)

-- `getHandlers`, to write to.
abbrev pub put_handlers : ℕ → List Handler → (ℕ → List Handler) → ℕ → List Handler
put_handlers kind hs handlers k = if k == kind then hs else handlers k

unfoldable pub subscribe {ℓ} : {E : Type ℓ} → ℕ → Handler → EventSystem E → EventSystem E
subscribe kind h s = record s {
  handlers = put_handlers kind (s.handlers kind ++ (h ∷ [])) s.handlers;
}

unfoldable pub publish {ℓ} : {E : Type ℓ} → E → Option ℕ → EventSystem E → EventSystem E
publish event initiator s = record s {
  next_queue = s.next_queue ++ (record { event = event; initiator = initiator } ∷ []);
}

-- One handler gets an event, if its object lives; with what is published.
abbrev pub call_if_alive {ℓ} :
    {E W : Type ℓ} → Objects E W → Item E → Handler → W × List (Item E) → W × List (Item E)
call_if_alive o x h r =
    if o.is_alive h.object r.0
    then (let called = o.call h x r.0 in (called.0, r.1 ++ called.1))
    else r

-- The loop over the handlers.
unfoldable pub call_all {ℓ} :
    {E W : Type ℓ} → Objects E W → Item E → List Handler → W × List (Item E) → W × List (Item E)
call_all o x [] r = r
call_all o x (h ∷ hs) r = call_all o x hs (call_if_alive o x h r)

-- `remove_if`.
unfoldable pub keep_alive {ℓ} : {E W : Type ℓ} → Objects E W → W → List Handler → List Handler
keep_alive o w [] = []
keep_alive o w (h ∷ hs) =
    let rest = keep_alive o w hs in if o.is_alive h.object w then h ∷ rest else rest

-- The `dispatcher` of an item.
unfoldable pub dispatch_item {ℓ} :
    {E W : Type ℓ} → Objects E W → Item E → EventSystem E × W → EventSystem E × W
unfolding call_all keep_alive
dispatch_item o x st =
    let kind = o.kind x.event in
    let r = call_all o x (st.0.handlers kind) (st.1, st.0.next_queue) in
    (
      record st.0 {
        handlers = put_handlers kind (keep_alive o r.0 (st.0.handlers kind)) st.0.handlers;
        next_queue = r.1;
      },
      r.0,
    )

-- The loop over the queue, with the number of the events processed.
unfoldable pub dispatch_queue {ℓ} :
    {E W : Type ℓ}
    → Objects E W
    → List (Item E)
    → ℕ
    → EventSystem E × W
    → Outcome (ℕ × (EventSystem E × W))
unfolding dispatch_item
dispatch_queue o [] n st = ok (n, st)
dispatch_queue o (x ∷ xs) n st = elim (ltb 1000 (suc n)) [
  | true ↦ fault runtime_error
  | false ↦ dispatch_queue o xs (suc n) (dispatch_item o x st)
]

-- The queue is cleared and swapped with the next one.
abbrev pub swap_queues {ℓ} : {E : Type ℓ} → EventSystem E → EventSystem E
swap_queues s = record s { queue = s.next_queue; next_queue = [] }

-- The outer loop, as long as there is something in the queue.
unfoldable pub dispatch_rounds {ℓ} :
    {E W : Type ℓ} → Objects E W → ℕ → ℕ → EventSystem E × W → Outcome (EventSystem E × W)
unfolding dispatch_queue
dispatch_rounds o zero n st = fault out_of_fuel
dispatch_rounds o (suc fuel) n st = dispatch_queue o st.0.queue n st >>= λ r.
    let s = swap_queues r.1.0 in
    elim s.queue [ [] ↦ ok (s, r.1.1) | x ∷ xs ↦ dispatch_rounds o fuel r.0 (s, r.1.1) ]

-- Each round but the first processes an event, and at most 1000 are processed.
unfoldable pub dispatch {ℓ} :
    {E W : Type ℓ} → Objects E W → EventSystem E × W → Outcome (EventSystem E × W)
unfolding dispatch_rounds
dispatch o st = dispatch_rounds o 1003 0 st
