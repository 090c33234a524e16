-- ===== src/EventSystem/Tests.antt =====
-- Two subscribers that count down, one of which is gone after three events.
use durak.Base.{
  ℕ, ◌-◌, ◌≡◌, ◌⊎◌, refl, ltb, ◌==◌, ◌||◌, ◌&&◌, if◌then◌else◌, List, [], ◌∷◌, ◌++◌, length, none,
  ok, fault, runtime_error, ◌>>=◌,
}
use durak.EventSystem.{
  Objects, EventSystem, subscribe, publish, dispatch, dispatch_rounds, dispatch_queue,
  dispatch_item, call_all, keep_alive,
}
use durak.EventSystem.Order.{emptied, dispatch-in_order, dispatch_ends}
use durak.EventSystem.Telling.{tell_all}

-- Every method notes its object and the event, and method 0 publishes the number below.
abbrev counters : Objects ℕ (List (ℕ × ℕ))
counters = record {
  kind = λ e. 0;
  is_alive = λ object w. object == 1 || ltb (length w) 3;
  call = λ h x w. (
    w ++ ((h.object, x.event) ∷ []),
    if h.method == 0 && ltb 0 x.event
        then record { event = x.event - 1; initiator = none } ∷ []
        else [],
  );
}

abbrev start : EventSystem ℕ
start = publish 2 none (
    subscribe 0 (record { object = 2; method = 1 })
      (subscribe 0 (record { object = 1; method = 0 })
        (record { handlers = λ k. []; queue = []; next_queue = [] })))

abbrev ended : EventSystem ℕ
ended = record {
  handlers = λ k. if k == 0 then record { object = 1; method = 0 } ∷ [] else [];
  queue = [];
  next_queue = [];
}

-- What was noted.
counted_down :
    (dispatch counters (start, []) >>= λ r. ok r.1) ≡ ok ((1, 2) ∷ (2, 2) ∷ (1, 1) ∷ (1, 0) ∷ [])
unfolding dispatch dispatch_rounds dispatch_queue dispatch_item call_all keep_alive subscribe
    publish
counted_down = refl

dispatch-in_order_example : dispatch counters (start, []) ≡ (
    tell_all counters 1002 0 (start.queue ++ start.next_queue) (start.handlers, []) >>= λ c.
    ok (emptied c))
dispatch-in_order_example = dispatch-in_order counters (start, [])

dispatch_ends_example :
    ((r : EventSystem ℕ × List (ℕ × ℕ)) × (dispatch counters (start, []) ≡ ok r)
      × (r.0.queue ≡ [])
      × (r.0.next_queue ≡ []))
    ⊎ (dispatch counters (start, []) ≡ fault runtime_error)
dispatch_ends_example = dispatch_ends counters (start, [])
