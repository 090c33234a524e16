-- ===== src/Server/Broadcast.antt =====
-- Which sessions `broadcast` and a change of one session reach.
use durak.Base.{
  ℕ, ◌≡◌, ◌≢◌, List, [], ◌∷◌, ◌++◌, map, get_elem?, some, arith, ite, ℕ_discrete, suc, zero, ◌⊎◌,
  inl, inr, Option-cases, ap,
}
use durak.Packet.{Packet, serialize}
use durak.Connection as Connection
use durak.Session.{Session, send_packet}
use durak.Server.{Server, broadcast_to, broadcast}
use durak.Server.Informed.{with_packets}
use durak.Server.Handlers.{modify}

pub get_elem?-map :
    (f : Session → Session) (i : ℕ) (xs : List Session) (x : Session)
    → get_elem? xs i ≡ some x
    → get_elem? (map f xs) i ≡ some (f x)
get_elem?-map f i [] x h = cc
get_elem?-map f zero (y ∷ ys) x h = ground (arith, h)
get_elem?-map f (suc i) (y ∷ ys) x h = get_elem?-map f i ys x h

pub get_elem?-modify :
    (f : Session → Session) (i j : ℕ) (xs : List Session) (x : Session)
    → get_elem? xs j ≡ some x
    → get_elem? (modify i f xs) j ≡ some (ite (ℕ_discrete i j) (f x) x)
unfolding modify
get_elem?-modify f i j [] x h = cc
get_elem?-modify f zero zero (y ∷ ys) x h = ground (arith, h)
get_elem?-modify f zero (suc j) (y ∷ ys) x h = ground (arith, h)
get_elem?-modify f (suc i) zero (y ∷ ys) x h = ground (arith, h)
get_elem?-modify f (suc i) (suc j) (y ∷ ys) x h = ground (arith, get_elem?-modify f i j ys x h)

-- A session of the player that is left out stays, and any other has the packet and is else as before.
pub broadcast_sends :
    (packet : Packet) (me j : ℕ) (s : Server) (client : Session)
    → get_elem? s.clients j ≡ some client
    → (client' : Session) × (get_elem? (broadcast packet (some me) s).clients j ≡ some client')
      × (((client.player_profile ≡ some me) × (client' ≡ client))
          ⊎ ((client.player_profile ≢ some me) × (client' ≡ with_packets (packet ∷ []) client)))
unfolding broadcast broadcast_to send_packet Connection.send_packet
broadcast_sends packet me j s client h = (
  broadcast_to packet (some me) client,
  get_elem?-map (broadcast_to packet (some me)) j s.clients client h,
  elim (Option-cases client.player_profile) [
    | inl e ↦ inr (ground (arith, e), ground (arith, e))
    | inr (q, e) ↦ elim (ℕ_discrete q me) [
      | yes same ↦ inl (ground (arith, e, same), ground (arith, e, same))
      | no n ↦ inr (ground (arith, e, n), ground (arith, e, n))
    ]
  ],
)

-- A broadcast puts the packet behind what every session has to send already, except those of the
-- player that is left out, which stay as they are; sessions without a profile get it too.
pub broadcast_reaches :
    (packet : Packet) (player i : ℕ) (s : Server) (client : Session)
    → get_elem? s.clients i ≡ some client
    → (client' : Session) × (get_elem? (broadcast packet (some player) s).clients i ≡ some client')
      × (((client.player_profile ≡ some player) × (client' ≡ client))
          ⊎ ((client.player_profile ≢ some player)
              × (client'.connection.outgoing
                  ≡ client.connection.outgoing
                    ++ (record { bytes = serialize packet; sent = 0 } ∷ []))))
broadcast_reaches packet player i s client h =
    let (client', there, change) = broadcast_sends packet player i s client h in
    (
      client',
      there,
      elim change [
        | inl (own, same) ↦ inl (own, same)
        | inr (n, e) ↦ inr (n, ap (λ (c : Session). c.connection.outgoing) e)
      ],
    )
