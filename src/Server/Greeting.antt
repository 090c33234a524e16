-- ===== src/Server/Greeting.antt =====
-- A player of the lobby says hello again: what the greeting does to the other sessions.
use durak.Base.{
  ℕ, ◌≡◌, ◌≢◌, ℤ, refl, true, List, Option, get_elem?, some, is_some, arith, if◌then◌else◌,
  Bool-cases, inl, inr, ok, ap, ◌∙◌, Option-cases,
}
use durak.Protocol.{Profile, lobby_phase}
use durak.Lobby.{Lobby, has_player, get_seat_position_by_id}
use durak.Lobby.Invariant.{IsWellFormed, member_located, find_profile-count}
use durak.Packet.{Packet, read_hello}
use durak.Packet.Kinds.{packet_code, hello}
use durak.Packet.Factory.{
  make_welcome_packet, make_notify_player_connected_packet,
  make_notify_player_nickname_changed_packet,
}
use durak.Session.{Session, request_disconnect, set_player_profile, send_packet, set_initialized}
use durak.Server.{
  Server, broadcast, broadcast_to, clients_to_disconnect_by_token, get_player_profile_by_token,
  get_player_profile_by_id,
}
use durak.Server.Informing.{send_full_snapshot_update}
use durak.Server.Informed.{send_full_snapshot_update-Informed}
use durak.Server.Broadcast.{get_elem?-map, get_elem?-modify}
use durak.Server.Handlers.{
  at_client, identify, welcome, rename, hello_again, on_hello_packet, same_bytes,
}
use durak.Server.Loops.{dispatch}

-- A session that stands at an index, is asked to disconnect and has a profile.
pub record Marked (j : ℕ) (profile : Option ℕ) (s : Server) : Type 0 where
  pub session : Session
  pub there : get_elem? s.clients j ≡ some session
  pub asked : session.disconnect_requested ≡ true
  pub keeps : session.player_profile ≡ profile

at_client-Marked :
    (i j : ℕ) (profile : Option ℕ) (f : Session → Session) (s : Server)
    → i ≢ j
    → Marked j profile s
    → Marked j profile (at_client i f s)
unfolding at_client
at_client-Marked i j profile f s n m = record {
  session = m.session;
  there = ground (arith, get_elem?-modify f i j s.clients m.session m.there, n);
  asked = m.asked;
  keeps = m.keeps;
}

broadcast-Marked :
    (packet : Packet) (player : Option ℕ) (j : ℕ) (profile : Option ℕ) (s : Server)
    → Marked j profile s
    → Marked j profile (broadcast packet player s)
unfolding broadcast broadcast_to send_packet
broadcast-Marked packet player j profile s m = record {
  session = broadcast_to packet player m.session;
  there = get_elem?-map (broadcast_to packet player) j s.clients m.session m.there;
  asked = ground (arith, m.asked);
  keeps = ground (arith, m.keeps);
}

rename-Marked :
    (p : Profile) (nickname : List ℕ) (j : ℕ) (profile : Option ℕ) (s : Server)
    → Marked j profile s
    → Marked j profile (rename p nickname s)
unfolding rename
rename-Marked p nickname j profile s m = record {
  session = m.session;
  there = m.there;
  asked = m.asked;
  keeps = m.keeps;
}

-- The state in which a greeting by a known player goes on.
abbrev greeted : ℕ → ℕ → Profile → Server → Server
greeted i token p s = at_client i (set_player_profile p.id) (clients_to_disconnect_by_token token s)

greeted-Marked :
    (i j token : ℕ) (p : Profile) (s : Server) (other : Session)
    → get_elem? s.clients j ≡ some other
    → is_some other.player_profile ≡ true
    → i ≢ j
    → Marked j other.player_profile (greeted i token p s)
unfolding clients_to_disconnect_by_token
greeted-Marked i j token p s other there has n =
    at_client-Marked i j other.player_profile (set_player_profile p.id)
      (clients_to_disconnect_by_token token s) n
      (record {
        session = request_disconnect other;
        there =
            get_elem?-map
              (λ (c : Session). if is_some c.player_profile then request_disconnect c else c) j
              s.clients other there
            ∙ ground (arith, has);
        asked = refl;
        keeps = refl;
      })

greeted_own :
    (i token : ℕ) (p : Profile) (s : Server) (client : Session)
    → get_elem? s.clients i ≡ some client
    → (client' : Session) × (get_elem? (greeted i token p s).clients i ≡ some client')
      × (client'.player_profile ≡ some p.id)
unfolding at_client clients_to_disconnect_by_token
greeted_own i token p s client there =
    let c = if is_some client.player_profile then request_disconnect client else client in
    (
      set_player_profile p.id c,
      get_elem?-modify (set_player_profile p.id) i i
            (clients_to_disconnect_by_token token s).clients c
            (get_elem?-map
              (λ (c : Session). if is_some c.player_profile then request_disconnect c else c) i
              s.clients client there)
          ∙ ground arith,
      refl,
    )

-- What the session of the greeting gets ahead of the snapshot.
abbrev welcomed : Profile → List ℕ → Server → Session → Session
welcomed p nickname s client =
    send_packet (make_welcome_packet p.id nickname p.role s.phase) (set_initialized true client)

welcomed_own :
    (i : ℕ) (p : Profile) (nickname : List ℕ) (s : Server) (client : Session)
    → get_elem? s.clients i ≡ some client
    → get_elem? (at_client i (welcomed p nickname s) s).clients i
      ≡ some (welcomed p nickname s client)
unfolding at_client
welcomed_own i p nickname s client there =
    get_elem?-modify (welcomed p nickname s) i i s.clients client there ∙ ground arith

welcome_goes :
    (i : ℕ) (p : Profile) (nickname shown : List ℕ) (s s' : Server) (seat : ℤ)
    → send_full_snapshot_update i (at_client i (welcomed p nickname s) s) ≡ ok s'
    → get_seat_position_by_id s'.lobby p.id ≡ some seat
    → welcome i p nickname shown s
      ≡ ok (broadcast (make_notify_player_connected_packet p.id shown p.role seat) (some p.id) s')
unfolding welcome
welcome_goes i p nickname shown s s' seat sent place = rw (sent, place) refl

placed :
    (l : Lobby) (p : Profile)
    → IsWellFormed l
    → has_player l p ≡ true
    → (seat : ℤ) × (get_seat_position_by_id l p.id ≡ some seat)
unfolding has_player
placed l p w here =
    let located = member_located p.id l w ((find_profile-count p.id l.profiles).0 here) in
    elim (Option-cases (get_seat_position_by_id l p.id)) [
      | inl e ↦ absurd (ground (arith, e, located))
      | inr found ↦ found
    ]

welcome-Marked :
    (i j : ℕ) (p q : Profile) (nickname shown : List ℕ) (s : Server) (client : Session)
    (profile : Option ℕ)
    → get_elem? s.clients i ≡ some client
    → client.player_profile ≡ some p.id
    → get_player_profile_by_id p.id s ≡ some q
    → s.phase ≡ lobby_phase
    → IsWellFormed s.lobby
    → has_player s.lobby p ≡ true
    → i ≢ j
    → Marked j profile s
    → (s' : Server) × (welcome i p nickname shown s ≡ ok s') × Marked j profile s'
unfolding at_client get_player_profile_by_id send_packet
welcome-Marked i j p q nickname shown s client profile there mine known phase w here n m =
    let t = at_client i (welcomed p nickname s) s in
    let (s', sent, informed) =
      send_full_snapshot_update-Informed i t (welcomed p nickname s client) p.id q
        (welcomed_own i p nickname s client there) mine known phase in
    let (seat, place) = placed s.lobby p w here in
    let same : s'.lobby ≡ s.lobby = ap (λ (r : Server). r.lobby) informed.untouched in
    let m' = at_client-Marked i j profile (welcomed p nickname s) s n m in
    let notice = make_notify_player_connected_packet p.id shown p.role seat in
    (
      broadcast notice (some p.id) s',
      welcome_goes i p nickname shown s s' seat sent
          (ap (λ l. get_seat_position_by_id l p.id) same ∙ place),
      broadcast-Marked notice (some p.id) j profile s' (record {
        session = m'.session;
        there = informed.others j n ∙ m'.there;
        asked = m'.asked;
        keeps = m'.keeps;
      }),
    )

hello_again-Marked :
    (i j : ℕ) (p : Profile) (nickname : List ℕ) (s s' : Server) (profile : Option ℕ)
    → welcome i p nickname p.nickname s ≡ ok s'
    → Marked j profile s'
    → (s'' : Server) × (hello_again i p nickname s ≡ ok s'') × Marked j profile s''
unfolding hello_again
hello_again-Marked i j p nickname s s' profile e m =
    let notice = make_notify_player_nickname_changed_packet p.id nickname in
    elim (Bool-cases (same_bytes nickname p.nickname)) [
      | inl same ↦ (s', ground (arith, e, same), m)
      | inr other ↦ (
        broadcast notice (some p.id) (rename p nickname s'),
        ground (arith, e, other),
        broadcast-Marked notice (some p.id) j profile (rename p nickname s')
            (rename-Marked p nickname j profile s' m),
      )
    ]

-- A greeting by a player of the lobby is handled by `hello_again`.
hello_dispatched :
    (i token : ℕ) (nickname : List ℕ) (packet : Packet) (p : Profile) (s : Server)
    → packet.kind ≡ packet_code hello
    → read_hello packet ≡ ok (token, nickname)
    → s.phase ≡ lobby_phase
    → get_player_profile_by_token token s ≡ some p
    → has_player s.lobby p ≡ true
    → dispatch i packet s ≡ hello_again i p nickname (greeted i token p s)
unfolding dispatch on_hello_packet identify at_client clients_to_disconnect_by_token
hello_dispatched i token nickname packet p s kind read phase known here =
    ground (arith, kind, read, phase, known, here)

-- In the lobby's phase, a hello packet with the token of a player that is in the well-formed lobby
-- already, and whose profile the server finds by its id as well, is handled without a fault, and
-- afterwards every other session that has a profile is asked to disconnect, whatever its own token,
-- and keeps its profile.
pub hello_disconnects_all :
    (i j token : ℕ) (nickname : List ℕ) (packet : Packet) (p q : Profile) (s : Server)
    (client other : Session)
    → packet.kind ≡ packet_code hello
    → read_hello packet ≡ ok (token, nickname)
    → s.phase ≡ lobby_phase
    → IsWellFormed s.lobby
    → get_player_profile_by_token token s ≡ some p
    → has_player s.lobby p ≡ true
    → get_player_profile_by_id p.id s ≡ some q
    → get_elem? s.clients i ≡ some client
    → get_elem? s.clients j ≡ some other
    → is_some other.player_profile ≡ true
    → i ≢ j
    → (s' : Server) × (dispatch i packet s ≡ ok s') × Marked j other.player_profile s'
unfolding at_client clients_to_disconnect_by_token get_player_profile_by_id
hello_disconnects_all i j token nickname packet p q s client other kind read phase w known here
      listed own there has n =
    let t = greeted i token p s in
    let (client', own', mine) = greeted_own i token p s client own in
    let (s', e, m) =
      welcome-Marked i j p q nickname p.nickname t client' other.player_profile own' mine listed
        phase w here n (greeted-Marked i j token p s other there has n) in
    let (last, r, marked) = hello_again-Marked i j p nickname t s' other.player_profile e m in
    (last, hello_dispatched i token nickname packet p s kind read phase known here ∙ r, marked)
