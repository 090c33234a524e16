-- ===== src/Server/Tests.antt =====
-- A server with Ann and Bob connected, and what their packets do.
use durak.Base.{
  ◌≡◌, ◌≢◌, refl, true, [], ◌∷◌, ◌++◌, ◌⊎◌, get_elem?, some, none, pos, arith, ok, ◌>>=◌, ◌∙◌,
  ℕ_discrete, ℤ_discrete, lookup, Fault, fault, false,
}
use durak.Protocol.{lobby_phase}
use durak.Packet.{
  Packet, serialize, new_packet, write_uint, write_string, read_hello, read_uint, read_string,
  read_from, to_bytes,
}
use durak.Packet.Kinds.{packet_code, hello, seat_positions_swap_request}
use durak.Packet.Factory.{
  make_hello_packet, make_seat_positions_change_request_packet,
  make_notify_seat_positions_changed_packet,
}
use durak.Seats.{get_player_id_by_seat_position, get_seat_position_by_player_id}
use durak.Lobby.{
  Lobby, has_player, queue_seat, take_seat, leave_seat, is_seat_position_correct,
  is_seat_position_occupied, get_seat_position_by_id, get_player_profile_by_id, find_profile,
  change_player_seat_position, is_queued,
}
use durak.Lobby.Tests.{ann, bob, bob_waits, bob_waits-IsWellFormed}
use durak.LobbyLogic.{apply_seat_positions_change_request, move_for}
use durak.Session.{Session, new_session, set_player_profile}
use durak.Server.{
  Server, broadcast, get_player_profile_by_token, find_profile_by_token, update_server,
  get_player_profile_by_id as get_listed_profile_by_id, find_profile_by_id,
}
use durak.Server.Handlers.{answer}
use durak.Server.Loops.{dispatch}
use durak.Server.Broadcast.{broadcast_reaches}
use durak.Server.Greeting.{Marked, hello_disconnects_all}
use durak.Server.Informed.{Informed}
use durak.Server.Requests.{Notified, change_request_packet_read, change_request_packet_answered}
use durak.Server.Serving.{Serves, started, updated, handled, serves-Sound}
use durak.Server.Handled.{Sound}

abbrev ann_session : Session
ann_session = set_player_profile 0 new_session

abbrev bob_session : Session
bob_session = set_player_profile 1 new_session

abbrev pub two_players : Server
two_players = record {
  phase = lobby_phase;
  lobby = bob_waits;
  game = none;
  clients = ann_session ∷ bob_session ∷ [];
  profiles = ann ∷ bob ∷ [];
  id_counter = 2;
}

abbrev note : Packet
note = record { kind = 9; payload = 1 ∷ []; read_position = 0 }

broadcast_reaches_example :
    (client' : Session) × (get_elem? (broadcast note (some 0) two_players).clients 1 ≡ some client')
    × (((bob_session.player_profile ≡ some 0) × (client' ≡ bob_session))
        ⊎ ((bob_session.player_profile ≢ some 0)
            × (client'.connection.outgoing
                ≡ bob_session.connection.outgoing
                  ++ (record { bytes = serialize note; sent = 0 } ∷ []))))
broadcast_reaches_example = broadcast_reaches note 0 1 two_players bob_session refl

ann_token : get_player_profile_by_token 11 two_players ≡ some ann
unfolding get_player_profile_by_token find_profile_by_token
ann_token = refl

ann_listed : get_listed_profile_by_id 0 two_players ≡ some ann
unfolding get_listed_profile_by_id find_profile_by_id
ann_listed = refl

bob_listed : get_listed_profile_by_id 1 two_players ≡ some bob
unfolding get_listed_profile_by_id find_profile_by_id
bob_listed = refl

ann_in : has_player bob_waits ann ≡ true
unfolding has_player find_profile ℕ_discrete
ann_in = refl

abbrev ann_greets : Packet
ann_greets = make_hello_packet 11 (65 ∷ [])

ann_greets_kind : ann_greets.kind ≡ packet_code hello
unfolding make_hello_packet new_packet write_uint write_string packet_code
ann_greets_kind = refl

ann_greets_read : read_hello ann_greets ≡ ok (11, 65 ∷ [])
unfolding read_hello read_uint read_string read_from make_hello_packet new_packet write_uint
    write_string to_bytes packet_code
ann_greets_read = refl

hello_disconnects_all_example :
    (s' : Server) × (dispatch 0 ann_greets two_players ≡ ok s')
    × Marked 1 bob_session.player_profile s'
hello_disconnects_all_example =
    hello_disconnects_all 0 1 11 (65 ∷ []) ann_greets ann ann two_players ann_session bob_session
      ann_greets_kind ann_greets_read refl bob_waits-IsWellFormed ann_token ann_in ann_listed refl
      refl refl (λ e. omega (arith, e))

change_request_packet_answered_example :
    ((l' : Lobby) × (s' : Server) × (apply_seat_positions_change_request 1 (pos 1) 1 bob_waits
        ≡ ok (true, l'))
      × (dispatch 1 (make_seat_positions_change_request_packet 1 (pos 1)) two_players ≡ ok s')
      × (s'.lobby ≡ l')
      × Notified (make_notify_seat_positions_changed_packet 1 (pos 1)) 1 two_players s')
    ⊎ ((s' : Server) × (apply_seat_positions_change_request 1 (pos 1) 1 bob_waits
          ≡ ok (false, bob_waits))
        × (dispatch 1 (make_seat_positions_change_request_packet 1 (pos 1)) two_players ≡ ok s')
        × Informed 1 bob bob_session two_players s')
    ⊎ ((x : Fault) × (apply_seat_positions_change_request 1 (pos 1) 1 bob_waits ≡ fault x)
        × (dispatch 1 (make_seat_positions_change_request_packet 1 (pos 1)) two_players ≡ fault x))
change_request_packet_answered_example =
    change_request_packet_answered 1 1 1 (pos 1) bob bob_session two_players (omega arith)
      (omega arith) refl refl refl bob_listed

abbrev bob_sat : Server
bob_sat =
    broadcast (make_notify_seat_positions_changed_packet 1 (pos 1)) (some 1)
      (record two_players { lobby = take_seat 1 (pos 1) (leave_seat 1 queue_seat bob_waits) })

bob_answered :
    (apply_seat_positions_change_request 1 (pos 1) 1 bob_waits >>= λ r.
    answer 1 1 (make_notify_seat_positions_changed_packet 1 (pos 1)) r two_players)
    ≡ ok bob_sat
unfolding answer apply_seat_positions_change_request move_for is_seat_position_correct
    is_seat_position_occupied get_seat_position_by_id get_player_profile_by_id find_profile
    change_player_seat_position is_queued get_seat_position_by_player_id
    get_player_id_by_seat_position lookup ℕ_discrete ℤ_discrete
bob_answered = refl

no_swap :
    (make_seat_positions_change_request_packet 1 (pos 1)).kind
    ≢ packet_code seat_positions_swap_request
unfolding make_seat_positions_change_request_packet new_packet write_uint packet_code
no_swap e = omega (arith, e)

bob_served : Serves two_players (update_server true 5 bob_sat)
bob_served = updated bob_sat true 5 (
    handled two_players bob_sat 1 (make_seat_positions_change_request_packet 1 (pos 1)) no_swap
      started
      (change_request_packet_read 1 1 1 (pos 1) two_players (omega arith) (omega arith) refl refl
        ∙ bob_answered))

serves-Sound_example : Sound (update_server true 5 bob_sat)
serves-Sound_example =
    serves-Sound two_players (update_server true 5 bob_sat) bob_waits-IsWellFormed bob_served
