-- ===== src/Relay/Server/Requests.antt =====
-- Which requests the relay accepts (relay/server.go).
use vibe_deck.Prelude.{
  ℤ, pos, false, Option, none, some, List, [], ◌∷◌, String, ◌≡◌, ◌≢◌, sym, ◌∙◌, arith, eq_iff,
  str_eq, leb_ℤ, inl, inr, Bool-cases, ne_of_str_eq,
}
use vibe_deck.Text.{trim_space, trim_slashes, split_slash, has_suffix}
use vibe_deck.Relay.Server.{accept, relay_session, with_peer, relay_ws_request, queue_size_from_env}

relay_session-eq :
    (segments : List String) (id : String)
    → relay_session segments ≡ some id
    → segments ≡ "v1" ∷ "relay" ∷ id ∷ "ws" ∷ []
relay_session-eq (v ∷ r ∷ i ∷ ws ∷ []) id h =
    ground (arith, eq_iff v "v1", eq_iff r "relay", eq_iff ws "ws")
relay_session-eq _ id h = ground arith

with_peer-eq :
    (peer : String) (o : Option String) (id name : String)
    → with_peer peer o ≡ accept id name
    → (o ≡ some id) × (name ≡ peer) × (peer ≢ "")
with_peer-eq peer none id name h = absurd (ground arith)
with_peer-eq peer (some i) id name h = elim (Bool-cases (str_eq peer "")) [
  | inl e ↦ absurd (ground arith)
  | inr e ↦ (ground arith, ground arith, ne_of_str_eq peer "" e)
]

-- A relay connection is accepted only on a path of the form v1/relay/{id}/ws, between slashes, and
-- only under a peer name that is the trimmed query value and is not empty.
pub accept_relay :
    (path peer_query id peer : String)
    → relay_ws_request path peer_query ≡ accept id peer
    → (split_slash (trim_slashes path) ≡ "v1" ∷ "relay" ∷ id ∷ "ws" ∷ [])
      × (peer ≡ trim_space peer_query)
      × (peer ≢ "")
unfolding relay_ws_request
accept_relay path peer_query id peer h = elim (Bool-cases (has_suffix "/ws" path)) [
  | inr e ↦ absurd (ground arith)
  | inl e ↦
      let (o, name, ne) =
        with_peer-eq (trim_space peer_query) (relay_session (split_slash (trim_slashes path))) id
          peer (ground arith) in
      (relay_session-eq _ id o, name, λ p. ne (sym name ∙ p))
]

-- The queue size read from the environment is positive if the fallback is.
pub queue_size_from_env_pos :
    (raw : String) (parsed : Option ℤ) (fallback : ℤ)
    → leb_ℤ fallback (pos 0) ≡ false
    → leb_ℤ (queue_size_from_env raw parsed fallback) (pos 0) ≡ false
unfolding queue_size_from_env
queue_size_from_env_pos raw parsed fallback h = ground arith
