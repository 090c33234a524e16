-- ===== src/Server/Handled.antt =====
-- A greeting and a departure leave a well-formed lobby.
use durak.Base.{
  ℕ, ◌≡◌, refl, List, none, some, arith, Outcome-cases, ◌⊎◌, ok, >>=-eq-ok, Option-cases,
  Bool-cases, inl, inr, subst, sym, value_or_fault, logic_error,
}
use durak.Protocol.{Profile, SessionPhase, lobby_phase, game_phase, no_phase}
use durak.Lobby.{has_player, delete_player}
use durak.Lobby.Invariant.{IsWellFormed}
use durak.Lobby.Members.{delete_player-IsWellFormed}
use durak.LobbyLogic.{apply_player_connect_request, apply_player_disconnected}
use durak.Packet.{Packet, read_hello}
use durak.Server.{
  Server, broadcast, get_client, get_player_profile_by_token, clients_to_disconnect_by_token,
}
use durak.Server.Handlers.{
  at_client, identify, welcome, rename, hello_again, hello_new, on_hello_packet, same_bytes,
  on_player_disconnected_packet, add_profile, put_profile,
}
use durak.Server.Sound.{
  same_ids-IsWellFormed, ids-put_profile, connect_request-IsWellFormed, welcome_lobby,
}

-- The lobby of a state is sound.
abbrev pub Sound : Server → Type 0
Sound s = IsWellFormed s.lobby

identify_lobby :
    (i token : ℕ) (nickname : List ℕ) (s : Server) → (identify i token nickname s).1.lobby ≡ s.lobby
unfolding identify at_client clients_to_disconnect_by_token add_profile
identify_lobby i token nickname s = elim (Option-cases (get_player_profile_by_token token s)) [
  | inl e ↦ ground (arith, e)
  | inr (p, e) ↦ ground (arith, e)
]

rename-Sound :
    (p : Profile) (nickname : List ℕ) (s : Server) → Sound s → Sound (rename p nickname s)
unfolding rename
rename-Sound p nickname s w =
    let (same, long) = ids-put_profile (record p { nickname = nickname }) s.lobby.profiles in
    same_ids-IsWellFormed s.lobby _ w same long

hello_again-Sound :
    (i : ℕ) (p : Profile) (nickname : List ℕ) (s s' : Server)
    → Sound s
    → hello_again i p nickname s ≡ ok s'
    → Sound s'
unfolding hello_again broadcast
hello_again-Sound i p nickname s s' w h =
    let (t, met, rest) = >>=-eq-ok (welcome i p nickname p.nickname s) _ h in
    let wt : Sound t = subst IsWellFormed (sym (welcome_lobby i p nickname p.nickname s t met)) w in
    elim (Bool-cases (same_bytes nickname p.nickname)) [
      | inl e ↦
          let same : t.lobby ≡ s'.lobby = ground (arith, e, rest) in subst IsWellFormed same wt
      | inr e ↦
          let same : (rename p nickname t).lobby ≡ s'.lobby = ground (arith, e, rest) in
          subst IsWellFormed same (rename-Sound p nickname t wt)
    ]

hello_new-Sound :
    (i : ℕ) (p : Profile) (nickname : List ℕ) (s s' : Server)
    → Sound s
    → hello_new i p nickname s ≡ ok s'
    → Sound s'
unfolding hello_new at_client
hello_new-Sound i p nickname s s' w h =
    elim (Outcome-cases (apply_player_connect_request p s.lobby)) [
      | inr (x, e) ↦ absurd (ground (arith, e, h))
      | inl ((some reason, q, l), e) ↦
          let w' = connect_request-IsWellFormed p q s.lobby l (some reason) w e in
          let same : l ≡ s'.lobby = ground (arith, e, h) in subst IsWellFormed same w'
      | inl ((none, q, l), e) ↦
          let w' = connect_request-IsWellFormed p q s.lobby l none w e in
          let t : Server = record s { lobby = l; profiles = put_profile q s.profiles } in
          let met : welcome i q nickname nickname t ≡ ok s' = ground (arith, e, h) in
          subst IsWellFormed (sym (welcome_lobby i q nickname nickname t s' met)) w'
    ]

phase_cases :
    (phase : SessionPhase) → (phase ≡ lobby_phase) ⊎ (phase ≡ game_phase) ⊎ (phase ≡ no_phase)
phase_cases lobby_phase = inl refl
phase_cases game_phase = inr (inl refl)
phase_cases no_phase = inr (inr refl)

pub on_hello_packet-Sound :
    (i : ℕ) (packet : Packet) (s s' : Server)
    → Sound s
    → on_hello_packet i packet s ≡ ok s'
    → Sound s'
unfolding on_hello_packet
on_hello_packet-Sound i packet s s' w h =
    let ((token, nickname), e, rest) = >>=-eq-ok (read_hello packet) _ h in
    let (p, t) = identify i token nickname s in
    let wt : Sound t = subst IsWellFormed (sym (identify_lobby i token nickname s)) w in
    elim (phase_cases t.phase) [
      | inl f ↦ elim (Bool-cases (has_player t.lobby p)) [
        | inl here ↦ hello_again-Sound i p nickname t s' wt (ground (arith, f, here, rest))
        | inr new ↦ hello_new-Sound i p nickname t s' wt (ground (arith, f, new, rest))
      ]
      | inr (inl f) ↦
          let same : t.lobby ≡ s'.lobby = ground (arith, f, rest) in subst IsWellFormed same wt
      | inr (inr f) ↦
          let same : t.lobby ≡ s'.lobby = ground (arith, f, rest) in subst IsWellFormed same wt
    ]

pub on_player_disconnected_packet-Sound :
    (i : ℕ) (packet : Packet) (s s' : Server)
    → Sound s
    → on_player_disconnected_packet i packet s ≡ ok s'
    → Sound s'
unfolding on_player_disconnected_packet at_client broadcast apply_player_disconnected
on_player_disconnected_packet-Sound i packet s s' w h =
    let (client, _, rest) = >>=-eq-ok (get_client i s) _ h in
    let (player, _, last) = >>=-eq-ok (value_or_fault client.player_profile logic_error) _ rest in
    elim (phase_cases s.phase) [
      | inl f ↦
          let same : delete_player player s.lobby ≡ s'.lobby = ground (arith, f, last) in
          subst IsWellFormed same (delete_player-IsWellFormed player s.lobby w)
      | inr (inl f) ↦
          let same : s.lobby ≡ s'.lobby = ground (arith, f, last) in subst IsWellFormed same w
      | inr (inr f) ↦
          let same : s.lobby ≡ s'.lobby = ground (arith, f, last) in subst IsWellFormed same w
    ]
