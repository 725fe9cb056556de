-- ===== src/Engine/Tables/Refines.antt =====
-- src/netengine.cpp: the three tables of the engine, against three functions.
use ebc_node.Base.{
  ℕ, ◌≡◌, refl, ap, ◌∙◌, inl, inr, Option, none, some, List, [], ◌∷◌, if◌then◌else◌, Option-cases,
}
use ebc_node.Base.StdMap.{MapKey, find, find-insert, find-assign, find-erase}
use ebc_node.Node.{Node, NodeId, id_key, sock_key, zero_id}
use ebc_node.Engine.{
  Engine, put_client, put_peer, update_peer_node, del_client_node, del_peer_node,
  del_client_node_id, del_peer_node_id,
}
use ebc_node.Engine.Client.{index_id}

-- The specification: what is known under each key.
pub record Tables : Type 0 where
  pub clients : NodeId → Option Node
  pub peers : NodeId → Option Node
  pub socks : ℕ → Option NodeId

-- What an engine answers.
abbrev pub view : Engine → Tables
view e = record {
  clients = λ k. find k e.client_node;
  peers = λ k. find k e.peer_node;
  socks = λ s. find s e.sock_id_pair;
}

-- A function with one answer changed, with one that is there kept, and with one taken away.
module _ {ℓ κ} {K : Type ℓ} {V : Type κ} ⦃key : MapKey K⦄ where
  abbrev changed : K → V → (K → Option V) → K → Option V
  changed k v f j = if key.eq j k then some v else f j

  abbrev added : K → V → (K → Option V) → K → Option V
  added k v f j = if key.eq j k then (elim (f k) [ none ↦ some v | some w ↦ some w ]) else f j

  abbrev removed : K → (K → Option V) → K → Option V
  removed k f j = if key.eq j k then none else f j

-- The calls that change the tables.
pub data TableCall : Type 0 where
  client peer : NodeId → Node → ℕ → TableCall
  update : NodeId → Node → TableCall
  drop_client drop_peer index : ℕ → TableCall

abbrev forget_client : ℕ → Option NodeId → Tables → Tables
forget_client s none t = t
forget_client s (some id) t = record t { clients = removed id t.clients; socks = removed s t.socks }

abbrev forget_peer : ℕ → Option NodeId → Tables → Tables
forget_peer s none t = t
forget_peer s (some id) t = record t { peers = removed id t.peers; socks = removed s t.socks }

abbrev meaning : TableCall → Tables → Tables
meaning (client id node s) t = record t {
  clients = added id node t.clients;
  socks = changed s id t.socks;
}
meaning (peer id node s) t = record t {
  peers = added id node t.peers;
  socks = changed s id t.socks;
}
meaning (update id node) t = record t { peers = changed id node t.peers }
meaning (drop_client s) t = forget_client s (t.socks s) t
meaning (drop_peer s) t = forget_peer s (t.socks s) t
meaning (index s) t = record t { socks = added s zero_id t.socks }

abbrev perform : TableCall → Engine → Engine
perform (client id node s) e = put_client id node s e
perform (peer id node s) e = put_peer id node s e
perform (update id node) e = update_peer_node id node e
perform (drop_client s) e = del_client_node s e
perform (drop_peer s) e = del_peer_node s e
perform (index s) e = index_id s e

drop_client-refines :
    (s : ℕ) (e : Engine) → view (del_client_node s e) ≡ meaning (drop_client s) (view e)
unfolding del_client_node_id del_client_node find
drop_client-refines s e = elim (Option-cases (find s e.sock_id_pair)) [
  | inl gone ↦ rw (del_client_node, gone)
  | inr (id, there) ↦
      rw (del_client_node, there)
        (λ i. record {
          clients = λ k. find-erase id k e.client_node i;
          peers = λ k. find k e.peer_node;
          socks = λ j. find-erase s j e.sock_id_pair i;
        })
]

drop_peer-refines : (s : ℕ) (e : Engine) → view (del_peer_node s e) ≡ meaning (drop_peer s) (view e)
unfolding del_peer_node_id del_peer_node find
drop_peer-refines s e = elim (Option-cases (find s e.sock_id_pair)) [
  | inl gone ↦ rw (del_peer_node, gone)
  | inr (id, there) ↦
      rw (del_peer_node, there)
        (λ i. record {
          clients = λ k. find k e.client_node;
          peers = λ k. find-erase id k e.peer_node i;
          socks = λ j. find-erase s j e.sock_id_pair i;
        })
]

perform_refines : (c : TableCall) (e : Engine) → view (perform c e) ≡ meaning c (view e)
unfolding put_client put_peer update_peer_node index_id
perform_refines (client id node s) e = λ i. record {
  clients = λ k. find-insert id k node e.client_node i;
  peers = λ k. find k e.peer_node;
  socks = λ j. find-assign s j id e.sock_id_pair i;
}
perform_refines (peer id node s) e = λ i. record {
  clients = λ k. find k e.client_node;
  peers = λ k. find-insert id k node e.peer_node i;
  socks = λ j. find-assign s j id e.sock_id_pair i;
}
perform_refines (update id node) e = λ i. record {
  clients = λ k. find k e.client_node;
  peers = λ k. find-assign id k node e.peer_node i;
  socks = λ j. find j e.sock_id_pair;
}
perform_refines (drop_client s) e = drop_client-refines s e
perform_refines (drop_peer s) e = drop_peer-refines s e
perform_refines (index s) e = λ i. record {
  clients = λ k. find k e.client_node;
  peers = λ k. find k e.peer_node;
  socks = λ j. find-insert s j zero_id e.sock_id_pair i;
}

-- The same calls, on an engine and on its view.
unfoldable pub run : List TableCall → Engine → Engine
run [] e = e
run (c ∷ cs) e = run cs (perform c e)

unfoldable pub replay : List TableCall → Tables → Tables
replay [] t = t
replay (c ∷ cs) t = replay cs (meaning c t)

-- Any sequence of the calls that change the tables leaves an engine that answers as the same calls
-- make three functions answer.
pub run_refines : (cs : List TableCall) (e : Engine) → view (run cs e) ≡ replay cs (view e)
unfolding run replay
run_refines [] e = refl
run_refines (c ∷ cs) e = run_refines cs (perform c e) ∙ ap (replay cs) (perform_refines c e)
