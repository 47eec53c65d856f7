-- ===== src/Signaling/Server/Delivery.antt =====
-- Signals that wait for a device, up to its connection (signaling/server.go: `forwardOrQueue`,
-- `attachConn` and the flush of `handleSessionWS`).
use vibe_deck.Prelude.{
  ℕ, ℤ, ◌≤◌, none, some, List, [], ◌∷◌, ◌++◌, String, map, length, ◌≡◌, refl, ap, ◌∙◌,
}
use vibe_deck.GoMap.{lookup}
use vibe_deck.Protocol.Envelope.{Envelope, Codec}
use vibe_deck.Signaling.Store.{Role}
use vibe_deck.Signaling.Room.{Room, Rooms, max_pending_signals, attach_conn}
use vibe_deck.Signaling.Room.Queue.{
  last_of, append_all-last, conn_of, pending_of, peer_of, send_all, send_all_queues, attach_pending,
}
use vibe_deck.Signaling.Server.{
  Writes, write_each, write_ready, build_signal_ready_envelope, open_session,
}

write_each-map :
    (conn : ℕ) (es : List Envelope) → write_each conn es ≡ map (λ (e : Envelope). (conn, e)) es
write_each-map conn [] = refl
write_each-map conn (e ∷ es) = ap (λ (ws : Writes). (conn, e) ∷ ws) (write_each-map conn es)

-- In a room where the peer has no seat and at most `max_pending_signals` signals wait for it, let a
-- device send signals one after another and the peer connect next, with nothing in between: none of
-- the signals fails, and what is written to the peer's new connection, before anything else is
-- written, are the signals that waited and then the new ones, in their order, or the newest
-- `max_pending_signals` of them if there are more.
pub signals_arrive :
    (codec : Codec) (now : ℤ) (stamp session_id : String) (role : Role) (es : List Envelope)
    (conn : ℕ) (rooms : Rooms) (rm : Room)
    → lookup session_id rooms ≡ some rm
    → conn_of (peer_of role) rm ≡ none
    → length (pending_of (peer_of role) rm) ≤ max_pending_signals
    → (rooms' : Rooms) × (later : Writes) × (send_all session_id role es rooms ≡ some rooms')
      × ((open_session codec now stamp session_id (peer_of role) conn rooms').1
          ≡ map
              (λ (e : Envelope). (conn, e))
              (last_of max_pending_signals (pending_of (peer_of role) rm ++ es))
            ++ later)
unfolding open_session
signals_arrive codec now stamp session_id role es conn rooms rm l c h =
    let (rooms', rm', sent, l', p') = send_all_queues session_id role es rooms rm l c in
    let flushed : (attach_conn session_id (peer_of role) conn rooms').pending
        ≡ last_of max_pending_signals (pending_of (peer_of role) rm ++ es) =
      attach_pending session_id (peer_of role) conn rooms' rm' l'
      ∙ p'
      ∙ append_all-last (pending_of (peer_of role) rm) es h in
    (
      rooms',
      write_ready (build_signal_ready_envelope codec now stamp session_id (peer_of role))
          (attach_conn session_id (peer_of role) conn rooms').ready,
      sent,
      ap
          (λ (ws : Writes).
            ws
            ++ write_ready (build_signal_ready_envelope codec now stamp session_id (peer_of role))
                (attach_conn session_id (peer_of role) conn rooms').ready)
          (write_each-map conn _
            ∙ ap (λ (q : List Envelope). map (λ (e : Envelope). (conn, e)) q) flushed),
    )
