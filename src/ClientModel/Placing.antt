-- ===== src/ClientModel/Placing.antt =====
-- A lobby that is built from the entries of the server's map of seats seats everybody as the server does.
use durak.Base.{
  ℕ, ◌≡◌, ◌≢◌, refl, true, List, [], ◌∷◌, ◌++◌, some, is_some, ℤ, ℤ_discrete, ℕ_discrete, lookup,
  arith, ok, ap, sym, ◌∙◌, All, Option-cases, inl, inr,
}
use mathlib.Core.List.{append_assoc, append-nil}
use durak.Seats.{Seats, assign_seat, get_player_id_by_seat_position}
use durak.Seats.Views.{seat_of}
use durak.Seats.Consistent.{IsConsistent, assign_seat-IsConsistent, seat_of-assign_seat}
use durak.Lobby.{queue_seat}
use durak.ClientLobby.{
  ClientLobby, assign_player_to_seat_position, take_seat, is_valid_seat_position,
  get_client_player_data_by_id,
}
use durak.ClientModel.Reading.{assign_each, enqueue_all}

-- The seats so far are some of the server's.
pub record IsWithin (s t : Seats) : Type 0 where
  pub consistent : IsConsistent t
  pub sub : (p : ℕ) (k : ℤ) → seat_of t p ≡ some k → seat_of s p ≡ some k

-- One more of them.
pub record Grown (s t u : Seats) (p : ℕ) (k : ℤ) : Type 0 where
  pub within : IsWithin s u
  pub there : seat_of u p ≡ some k
  pub kept : (q : ℕ) (j : ℤ) → seat_of t q ≡ some j → seat_of u q ≡ some j

assign_seat-Grown :
    (s t : Seats) (p : ℕ) (k : ℤ)
    → IsConsistent s
    → IsWithin s t
    → seat_of s p ≡ some k
    → Grown s t (assign_seat p k t).0 p k
assign_seat-Grown s t p k cs w e = record {
  within = record {
    consistent = assign_seat-IsConsistent p k t w.consistent;
    sub = λ q j h. ground (arith, seat_of-assign_seat p k q t w.consistent, w.sub q j, e, h);
  };
  there = ground (arith, seat_of-assign_seat p k p t w.consistent);
  kept = λ q j h. ground (
    arith,
    seat_of-assign_seat p k q t w.consistent,
    w.sub q j h,
    w.sub q k,
    e,
    cs.player_to_seat k p,
    cs.player_to_seat k q,
    w.consistent.seat_to_player k q,
    h,
  );
}

-- An entry of the server's map that the asserts of a client let through.
pub record IsPlaced (s : Seats) (c : ClientLobby) (e : ℤ × ℕ) : Type 0 where
  pub seated : seat_of s e.1 ≡ some e.0
  pub known : is_some (get_client_player_data_by_id c e.1) ≡ true
  pub valid : is_valid_seat_position c e.0 ≡ true
  pub no_queue : e.0 ≢ queue_seat

abbrev with_seats : Seats → ClientLobby → ClientLobby
with_seats t c = record c { seats = t }

-- The lobby after all entries.
pub record Assigned (s : Seats) (m : List (ℤ × ℕ)) (c : ClientLobby) : Type 0 where
  pub seats : Seats
  pub made : assign_each m c ≡ ok (record c { seats = seats })
  pub within : IsWithin s seats
  pub kept : (q : ℕ) (j : ℤ) → seat_of c.seats q ≡ some j → seat_of seats q ≡ some j
  pub all_there : All (λ (e : ℤ × ℕ). seat_of seats e.1 ≡ some e.0) m

pub All-map :
    {P Q : ℤ × ℕ → Type 0} (m : List (ℤ × ℕ)) → ((e : ℤ × ℕ) → P e → Q e) → All P m → All Q m
All-map [] f h = tt
All-map (e ∷ m) f h = (f e h.0, All-map m f h.1)

pub assign_each-Assigned :
    (s : Seats) (m : List (ℤ × ℕ)) (c : ClientLobby)
    → IsConsistent s
    → IsWithin s c.seats
    → All (IsPlaced s c) m
    → Assigned s m c
unfolding assign_each assign_player_to_seat_position take_seat get_client_player_data_by_id
    is_valid_seat_position
assign_each-Assigned s [] c cs w h = record {
  seats = c.seats;
  made = refl;
  within = w;
  kept = λ q j e. e;
  all_there = tt;
}
assign_each-Assigned s ((k, p) ∷ m) c cs w h =
    let g = assign_seat-Grown s c.seats p k cs w h.0.seated in
    let d = with_seats (assign_seat p k c.seats).0 c in
    let r = assign_each-Assigned s m d cs g.within (
      All-map m
        (λ e x. record {
          seated = x.seated;
          known = x.known;
          valid = x.valid;
          no_queue = x.no_queue;
        })
        h.1) in
    record {
      seats = r.seats;
      made = ground (arith, h.0.known, h.0.valid, h.0.no_queue, r.made);
      within = r.within;
      kept = λ q j e. r.kept q j (g.kept q j e);
      all_there = (r.kept p k g.there, r.all_there);
    }

-- Who the map names for a seat is there, if all entries are.
there_by_lookup :
    (t : Seats) (m : List (ℤ × ℕ)) (k : ℤ) (p : ℕ)
    → All (λ (e : ℤ × ℕ). seat_of t e.1 ≡ some e.0) m
    → lookup ℤ_discrete k m ≡ some p
    → seat_of t p ≡ some k
unfolding lookup
there_by_lookup t [] k p h e = cc
there_by_lookup t ((j, q) ∷ m) k p h e = elim (ℤ_discrete j k) [
  | yes y ↦ ground (arith, y, e, h.0)
  | no n ↦ there_by_lookup t m k p h.1 (ground (arith, e, n))
]

-- All entries of the server's map give everybody the server's seat.
pub Assigned-seats :
    (s : Seats) (c : ClientLobby) (p : ℕ)
    → IsConsistent s
    → (r : Assigned s s.player_id_by_seat_position c) → seat_of r.seats p ≡ seat_of s p
unfolding get_player_id_by_seat_position
Assigned-seats s c p cs r = elim (Option-cases (seat_of s p)) [
  | inr (k, e) ↦
      there_by_lookup r.seats s.player_id_by_seat_position k p r.all_there (cs.player_to_seat k p e)
      ∙ sym e
  | inl e ↦ elim (Option-cases (seat_of r.seats p)) [
    | inl f ↦ f ∙ sym e
    | inr (k, f) ↦ ground (arith, e, f, r.within.sub p k f)
  ]
]

-- The queue is written behind the one that is there.
pub enqueue_all-queue :
    (is : List ℕ) (c : ClientLobby)
    → All (λ (i : ℕ). is_some (get_client_player_data_by_id c i) ≡ true) is
    → enqueue_all is c ≡ ok (record c { queue = c.queue ++ is })
unfolding enqueue_all assign_player_to_seat_position take_seat is_valid_seat_position ℤ_discrete
    ℕ_discrete get_client_player_data_by_id
enqueue_all-queue [] c h = ap (λ xs. ok (record c { queue = xs })) (sym (append-nil c.queue))
enqueue_all-queue (i ∷ is) c h =
    let d : ClientLobby = record c { queue = c.queue ++ (i ∷ []) } in
    let rest = enqueue_all-queue is d h.1 in
    let same : d.queue ++ is ≡ c.queue ++ (i ∷ is) = append_assoc c.queue (i ∷ []) is in
    ground (arith, h.0, rest, same)
