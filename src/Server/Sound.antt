-- ===== src/Server/Sound.antt =====
-- The lobby of the server stays well formed, whatever packets come in, swap requests left aside.
use durak.Base.{
  ℕ, ◌-◌, ◌≤◌, ◌≡◌, refl, Bool, true, false, not, ◌==◌, List, [], ◌∷◌, Option, ℤ, to_int, count,
  length, arith, ok, >>=-eq-ok, Outcome-cases, value_or_fault, bad_optional, Option-cases,
  Bool-cases, inl, inr, subst, sym, ◌∙◌, ap, leb, ==_iff,
}
use durak.Protocol.{Profile, DisconnectReason}
use durak.Lobby.{
  Lobby, ids, get_player_profile_by_id, get_seat_position_by_id, max_players_in_lobby,
  set_lobby_open, set_players_per_game,
}
use durak.Lobby.Invariant.{IsWellFormed}
use durak.Lobby.Moves.{IsInt, Moved-IsWellFormed}
use durak.LobbyLogic.{
  apply_player_connect_request, apply_seat_positions_change_request,
  apply_players_per_game_change_request, apply_lobby_open_state, as_number, vacate,
}
use durak.LobbyLogic.Joining.{connect_request_admitted, connect_request_refused}
use durak.LobbyLogic.Seating.{change_request_MayMove, change_request_refused}
use durak.ClientLobbyLogic.Resized.{resized-IsWellFormed}
use durak.Packet.{Packet}
use durak.Server.{Server, broadcast, get_client}
use durak.Server.Informing.{send_full_snapshot_update, snapshot_to}
use durak.Server.Handlers.{at_client, put_profile, welcome, answer}

pub to_int-IsInt : (n : ℕ) → IsInt (to_int n)
to_int-IsInt n = ground arith

-- Only the ids of the players count.
pub same_ids-IsWellFormed :
    (l : Lobby) (ps : List Profile)
    → IsWellFormed l
    → ids ps ≡ ids l.profiles
    → length ps ≡ length l.profiles
    → IsWellFormed (record l { profiles = ps })
same_ids-IsWellFormed l ps w same long = record {
  roster = record {
    once = λ p. subst (λ (xs : List ℕ). count p xs ≤ 1) (sym same) (w.roster.once p);
    room = omega (arith, w.roster.room, long);
    at_least = w.roster.at_least;
    at_most = w.roster.at_most;
  };
  consistent = w.consistent;
  placed = λ p. w.placed p ∙ ap (count p) (sym same);
  real_seats = w.real_seats;
}

pub ids-put_profile :
    (p : Profile) (ps : List Profile)
    → (ids (put_profile p ps) ≡ ids ps) × (length (put_profile p ps) ≡ length ps)
unfolding put_profile
ids-put_profile p [] = (refl, refl)
ids-put_profile p (q ∷ qs) = ground (arith, ids-put_profile p qs, ==_iff q.id p.id)

pub connect_request-IsWellFormed :
    (p q : Profile) (l l' : Lobby) (reason : Option DisconnectReason)
    → IsWellFormed l
    → apply_player_connect_request p l ≡ ok (reason, q, l')
    → IsWellFormed l'
unfolding apply_player_connect_request
connect_request-IsWellFormed p q l l' reason w h =
    elim (Option-cases (get_player_profile_by_id l p.id)) [
      | inr (r, e) ↦ absurd (ground (arith, e, h))
      | inl e ↦ elim (Bool-cases (leb max_players_in_lobby (length l.profiles))) [
        | inl full ↦
            let same : l ≡ l' =
              cc (connect_request_refused p l e (inl (ground (arith, full))), h) in
            subst IsWellFormed same w
        | inr room ↦ elim (Bool-cases l.is_lobby_open) [
          | inr shut ↦
              let same : l ≡ l' = cc (connect_request_refused p l e (inr shut), h) in
              subst IsWellFormed same w
          | inl open_lobby ↦
              let (l'', r, w', _) =
                connect_request_admitted p l w e (ground (arith, room)) open_lobby in
              let same : l'' ≡ l' = cc (r, h) in subst IsWellFormed same w'
        ]
      ]
    ]

size_request_refused :
    (value initiator : ℕ) (l l' : Lobby)
    → apply_players_per_game_change_request value initiator l ≡ ok (false, l')
    → l ≡ l'
unfolding apply_players_per_game_change_request
size_request_refused value initiator l l' h =
    elim (Outcome-cases (vacate (l.players_per_game - value) value l)) [
      | inr (x, e) ↦ ground (arith, e, h)
      | inl (m, e) ↦ elim (Outcome-cases (set_players_per_game value m)) [
        | inr (x, f) ↦ ground (arith, e, f, h)
        | inl (k, f) ↦ ground (arith, e, f, h)
      ]
    ]

pub size_request-IsWellFormed :
    (value initiator : ℕ) (granted : Bool) (l l' : Lobby)
    → IsWellFormed l
    → apply_players_per_game_change_request value initiator l ≡ ok (granted, l')
    → IsWellFormed l'
size_request-IsWellFormed value initiator true l l' w h =
    resized-IsWellFormed value initiator l l' w h
size_request-IsWellFormed value initiator false l l' w h =
    subst IsWellFormed (size_request_refused value initiator l l' h) w

pub change_request-IsWellFormed :
    (player : ℕ) (seat : ℤ) (initiator : ℕ) (granted : Bool) (l l' : Lobby)
    → IsInt seat
    → IsWellFormed l
    → apply_seat_positions_change_request player seat initiator l ≡ ok (granted, l')
    → IsWellFormed l'
change_request-IsWellFormed player seat initiator true l l' i w h =
    let (current, _, m) = change_request_MayMove player seat initiator l l' h in
    Moved-IsWellFormed player current seat l l' i w m
change_request-IsWellFormed player seat initiator false l l' i w h =
    subst IsWellFormed (sym (change_request_refused player seat initiator l l' h)) w

open-IsWellFormed :
    (value : Bool) (l : Lobby) → IsWellFormed l → IsWellFormed (set_lobby_open value l)
open-IsWellFormed value l w = record {
  roster = w.roster;
  consistent = w.consistent;
  placed = w.placed;
  real_seats = w.real_seats;
}

pub open_request-IsWellFormed :
    (value initiator : ℕ) (granted : Bool) (l l' : Lobby)
    → IsWellFormed l
    → apply_lobby_open_state value initiator l ≡ ok (granted, l')
    → IsWellFormed l'
unfolding apply_lobby_open_state
open_request-IsWellFormed value initiator granted l l' w h =
    let opened = open-IsWellFormed (not (value == 0)) l w in
    elim (Bool-cases (value == as_number l.is_lobby_open)) [
      | inl e ↦ let same : l ≡ l' = ground (arith, e, h) in subst IsWellFormed same w
      | inr e ↦ elim (Option-cases l.host_id) [
        | inl f ↦ absurd (ground (arith, e, f, h))
        | inr (host, f) ↦ elim (Bool-cases (initiator == host)) [
          | inl g ↦
              let same : set_lobby_open (not (value == 0)) l ≡ l' = ground (arith, e, f, g, h) in
              subst IsWellFormed same opened
          | inr g ↦ let same : l ≡ l' = ground (arith, e, f, g, h) in subst IsWellFormed same w
        ]
      ]
    ]

-- A snapshot leaves the lobby alone.
pub snapshot_lobby :
    (i : ℕ) (s s' : Server) → send_full_snapshot_update i s ≡ ok s' → s'.lobby ≡ s.lobby
unfolding send_full_snapshot_update
snapshot_lobby i s s' h =
    let (client, _, rest) = >>=-eq-ok (get_client i s) _ h in
    let (client', _, last) = >>=-eq-ok (snapshot_to s client) _ rest in ground (arith, last)

pub answer-IsWellFormed :
    (i player : ℕ) (notice : Packet) (granted : Bool) (l : Lobby) (s s' : Server)
    → IsWellFormed l
    → answer i player notice (granted, l) s ≡ ok s'
    → IsWellFormed s'.lobby
unfolding answer broadcast
answer-IsWellFormed i player notice true l s s' w h =
    let same : l ≡ s'.lobby = ground (arith, h) in subst IsWellFormed same w
answer-IsWellFormed i player notice false l s s' w h =
    subst IsWellFormed (sym (snapshot_lobby i (record s { lobby = l }) s' h)) w

pub welcome_lobby :
    (i : ℕ) (p : Profile) (nickname shown : List ℕ) (s s' : Server)
    → welcome i p nickname shown s ≡ ok s'
    → s'.lobby ≡ s.lobby
unfolding welcome at_client broadcast
welcome_lobby i p nickname shown s s' h =
    let (t, sent, rest) = >>=-eq-ok (send_full_snapshot_update i _) _ h in
    let (seat, _, last) =
      >>=-eq-ok (value_or_fault (get_seat_position_by_id t.lobby p.id) bad_optional) _ rest in
    let same = snapshot_lobby i _ t sent in ground (arith, last, same)
