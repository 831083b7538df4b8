-- ===== src/Tests/Links.antt =====
-- Links that come up and go down, requests and announcements at concrete inputs.
use yggdrasil_go.Base.{◌+◌, ◌≡◌, refl, [], ◌∷◌, some, true, arith}
use yggdrasil_go.Crypto.{equal}
use yggdrasil_go.Map.{lookup, get, is_in, bytes_key, number_key}
use yggdrasil_go.Messages.RouterAnnounce.{RouterInfo}
use yggdrasil_go.Router.State.{Router}
use yggdrasil_go.Router.Infos.{info_of}
use yggdrasil_go.Router.Infos.Safety.{SentKnown, sent_in}
use yggdrasil_go.Router.Requests.{own_seq, become_root, answers, same_req, handle_response}
use yggdrasil_go.Router.Requests.Rooting.{become_root_accepted}
use yggdrasil_go.Router.Requests.Responses.{handle_response_once}
use yggdrasil_go.Router.Neighbours.{add_peer, remove_peer}
use yggdrasil_go.Router.Neighbours.Safety.{add_peer_safe}
use yggdrasil_go.Router.Neighbours.Tracking.{Tracked, remove_peer-Tracked}
use yggdrasil_go.Router.Announcing.{send_announces}
use yggdrasil_go.Router.Announcing.Safety.{send_announces_safe}
use yggdrasil_go.Tests.Data.{key_of, sig_of, peer_of, request, response}
use yggdrasil_go.Tests.Tree.{in_tree}

-- The root's announcement was sent to node 2, and node 2 was asked to sign.
abbrev told : Router
told = record in_tree {
  sent = (key_of 2, (key_of 1, tt) ∷ []) ∷ [];
  requests = (key_of 2, request 5) ∷ [];
}

told-SentKnown : SentKnown told
unfolding lookup sent_in is_in equal
told-SentKnown peer key s = ground arith

add_peer_safe_example : (s : Router) × (add_peer (λ n. n) (peer_of 2) told ≡ some s) × SentKnown s
add_peer_safe_example = add_peer_safe (λ n. n) (peer_of 2) told told-SentKnown

-- Node 2 with one more link.
abbrev twice : Router
twice = record told {
  peers = (key_of 2, (2, peer_of 2) ∷ (4, record (peer_of 2) { id = 4; port = 4 }) ∷ []) ∷ [];
}

twice-Tracked : Tracked twice
unfolding lookup is_in
twice-Tracked = record {
  linked = λ k ps found e. ground (arith, found, e);
  noted = λ k. ground arith;
}

remove_peer-Tracked_example :
    (is_in 4 (get [] (key_of 2) (remove_peer 5000 (peer_of 2) twice).peers) ≡ true)
    × Tracked (remove_peer 5000 (peer_of 2) twice)
    × SentKnown (remove_peer 5000 (peer_of 2) twice)
unfolding is_in get lookup equal
remove_peer-Tracked_example =
    remove_peer-Tracked 5000 (peer_of 2) twice (key_of 2) 4 twice-Tracked told-SentKnown

send_announces_safe_example : (s : Router) × (send_announces told ≡ some s) × SentKnown s
unfolding is_in lookup
send_announces_safe_example = send_announces_safe told told-SentKnown (refl, tt)

handle_response_once_example :
    handle_response
      (peer_of 2)
      (response 6 1)
      900
      (handle_response (peer_of 2) (response 5 1) 700 told)
    ≡ handle_response (peer_of 2) (response 5 1) 700 told
unfolding answers same_req get lookup equal
handle_response_once_example =
    handle_response_once (peer_of 2) (response 5 1) (response 6 1) 700 900 told refl

become_root_accepted_example :
    (s : Router) × (info : RouterInfo) × (become_root
        (λ n. n)
        (λ bs. sig_of 3)
        (λ key bs sig. equal sig (sig_of 3))
        told
      ≡ some (true, s))
    × (lookup (key_of 1) s.infos ≡ some info)
    × (info.parent ≡ key_of 1)
    × (info.seq ≡ own_seq told + 1)
unfolding equal own_seq lookup info_of
become_root_accepted_example =
    become_root_accepted (λ n. n) (λ bs. sig_of 3) (λ key bs sig. equal sig (sig_of 3)) told
      (λ bs. refl) (omega arith)
