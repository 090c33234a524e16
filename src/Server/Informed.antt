-- ===== src/Server/Informed.antt =====
-- `sendFullSnapshotUpdate` as the sessions see it.
use durak.Base.{
  ℕ, zero, suc, ◌≡◌, ◌≢◌, ◌⊎◌, refl, true, false, List, [], ◌∷◌, ◌++◌, map, get_elem?, set, some,
  arith, ok, inl, inr, ap, sym, ◌∙◌,
}
use mathlib.Core.List.{append_assoc, append-nil}
use durak.Protocol.{Profile, lobby_phase, syncing, SyncState, unsynced, synced}
use durak.Packet.{Packet, serialize}
use durak.Connection.{Pending}
use durak.Connection as Connection
use durak.Session.{Session, start_sync, send_packet}
use durak.Server.{Server, get_player_profile_by_id, send_each, put_client}
use durak.Server.Informing.{
  lobby_snapshot_packets, snapshot_to, send_full_snapshot_update, is_syncing,
}

-- A packet that has not been sent yet.
abbrev pub pending : Packet → Pending
pending p = record { bytes = serialize p; sent = 0 }

-- The session with packets behind what it has to send.
abbrev pub with_packets : List Packet → Session → Session
with_packets ps client = record client {
  connection = record client.connection { outgoing = client.connection.outgoing ++ map pending ps };
}

-- The session has the snapshot behind what it has to send, unless it waits for one already.
pub data Shown (p : Profile) (s : Server) (client client' : Session) : Type 0 where
  waits : client.sync_state ≡ syncing → client' ≡ client → Shown p s client client'
  sent :
      client.sync_state ≢ syncing
      → client' ≡ with_packets (lobby_snapshot_packets p s.lobby) (start_sync client)
      → Shown p s client client'

-- One session is shown the lobby, and nothing else changes.
pub record Informed (i : ℕ) (p : Profile) (client : Session) (s s' : Server) : Type 0 where
  pub client' : Session
  pub own : get_elem? s'.clients i ≡ some client'
  pub shown : Shown p s client client'
  pub others : (j : ℕ) → i ≢ j → get_elem? s'.clients j ≡ get_elem? s.clients j
  pub untouched : record s' { clients = s.clients } ≡ s

send_each-with_packets : (ps : List Packet) (c : Session) → send_each ps c ≡ with_packets ps c
unfolding send_each send_packet Connection.send_packet
send_each-with_packets [] c =
    ap (λ q. record c { connection = record c.connection { outgoing = q } })
      (sym (append-nil c.connection.outgoing))
send_each-with_packets (p ∷ ps) c =
    send_each-with_packets ps (send_packet p c)
    ∙ ap (λ q. record c { connection = record c.connection { outgoing = q } })
        (append_assoc c.connection.outgoing (pending p ∷ []) (map pending ps))

get_elem?-set :
    (i : ℕ) (xs : List Session) (x y : Session)
    → get_elem? xs i ≡ some x
    → get_elem? (set xs i y) i ≡ some y
get_elem?-set i [] x y h = cc
get_elem?-set zero (z ∷ zs) x y h = refl
get_elem?-set (suc i) (z ∷ zs) x y h = get_elem?-set i zs x y h

get_elem?-set_other :
    (i j : ℕ) (xs : List Session) (y : Session) → i ≢ j → get_elem? (set xs i y) j ≡ get_elem? xs j
get_elem?-set_other i j [] y n = refl
get_elem?-set_other zero zero (z ∷ zs) y n = absurd (n refl)
get_elem?-set_other zero (suc j) (z ∷ zs) y n = refl
get_elem?-set_other (suc i) zero (z ∷ zs) y n = refl
get_elem?-set_other (suc i) (suc j) (z ∷ zs) y n = get_elem?-set_other i j zs y (λ e. n (ap suc e))

syncing_cases :
    (state : SyncState)
    → ((state ≡ syncing) × (is_syncing state ≡ true))
      ⊎ ((state ≢ syncing) × (is_syncing state ≡ false))
syncing_cases syncing = inl (refl, refl)
syncing_cases unsynced = inr (λ e. cc, refl)
syncing_cases synced = inr (λ e. cc, refl)

snapshot_to-Shown :
    (s : Server) (c : Session) (me : ℕ) (p : Profile)
    → c.player_profile ≡ some me
    → get_player_profile_by_id me s ≡ some p
    → s.phase ≡ lobby_phase
    → (c' : Session) × (snapshot_to s c ≡ ok c') × Shown p s c c'
unfolding snapshot_to
snapshot_to-Shown s c me p mine known phase = elim (syncing_cases c.sync_state) [
  | inl (e, b) ↦ (c, ground (arith, mine, known, phase, b), waits e refl)
  | inr (n, b) ↦ (
    send_each (lobby_snapshot_packets p s.lobby) (start_sync c),
    ground (arith, mine, known, phase, b),
    sent n (send_each-with_packets (lobby_snapshot_packets p s.lobby) (start_sync c)),
  )
]

pub send_full_snapshot_update-Informed :
    (i : ℕ) (s : Server) (c : Session) (me : ℕ) (p : Profile)
    → get_elem? s.clients i ≡ some c
    → c.player_profile ≡ some me
    → get_player_profile_by_id me s ≡ some p
    → s.phase ≡ lobby_phase
    → (s' : Server) × (send_full_snapshot_update i s ≡ ok s') × Informed i p c s s'
unfolding send_full_snapshot_update
send_full_snapshot_update-Informed i s c me p there mine known phase =
    let (c', e, shown) = snapshot_to-Shown s c me p mine known phase in
    (
      put_client i c' s,
      ground (arith, there, e),
      record {
        client' = c';
        own = get_elem?-set i s.clients c c' there;
        shown = shown;
        others = λ j n. get_elem?-set_other i j s.clients c' n;
        untouched = refl;
      },
    )
