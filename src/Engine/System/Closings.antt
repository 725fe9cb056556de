-- ===== src/Engine/System/Closings.antt =====
-- Which sockets a running engine closes.
use ebc_node.Base.{
  arith, ℕ, ◌≡◌, ◌≢◌, refl, ◌∙◌, inl, inr, false, Option, none, some, List, ◌∷◌, Option-cases,
}
use mathlib.Core.Path.{subst}
use ebc_node.Engine.{
  Engine, put_client, put_peer, del_client_node, del_client_node_id, del_peer_node,
  del_peer_node_id, update_peer_node,
}
use ebc_node.Engine.Message.Keyed.{add_client_node-makes, add_peer_node-puts}
use ebc_node.Base.StdMap.{find}
use ebc_node.Node.{id_key, sock_key}
use ebc_node.Engine.World.{Udt, World, Call, close, epoll_remove}
use ebc_node.Engine.Closed.{Handled}
use ebc_node.Engine.System.Orderly.{IsOrderly, Inv, Inv-quiet, start_punch-Inv}
use ebc_node.Wire.{Wire}
use ebc_node.Engine.Client.{is_boot}
use ebc_node.Engine.System.{Reach}
use ebc_node.Engine.System.Kept.{AllRunning, AllRunning-keeps}
use ebc_node.Engine.Kept.{OnMessages, OnServer, OnClient, OnStart}

module _ (udt : Udt) (boot : ℕ) where
  adds : Handled (λ e. e.boot_sock ≡ some boot)
  unfolding put_client put_peer
  adds = record {
    adds_client = λ memory id addr nat sock e e' b put.
        let (nid, node, size, made, done) =
          add_client_node-makes memory id addr nat sock e e' put in
        subst (λ (e : Engine). e.boot_sock ≡ some boot) done b;
    adds_peer = λ memory id ip port_nat sock e e' b put.
        let (nid, node, own, done) = add_peer_node-puts memory id ip port_nat sock e e' put in
        subst (λ (e : Engine). e.boot_sock ≡ some boot) done b;
  }

  Inv-OnMessages : OnMessages udt (Inv udt boot)
  Inv-OnMessages = record {
    calls = Inv-quiet udt boot;
    punches = start_punch-Inv udt boot;
    adds_client = λ memory id addr nat sock s e (b, o) put.
        (adds.adds_client memory id addr nat sock s.engine e b put, o);
    adds_peer = λ memory id ip port_nat sock s e (b, o) put.
        (adds.adds_peer memory id ip port_nat sock s.engine e b put, o);
  }

  drop-IsOrderly :
      (sock : ℕ) (before : List Call)
      → sock ≢ boot
      → IsOrderly udt boot before
      → IsOrderly udt boot (close sock ∷ epoll_remove sock ∷ before)
  drop-IsOrderly sock before other o = (inl (refl, other), o)

  del_client_node-boot_sock :
      (sock : ℕ) (e : Engine) → (del_client_node sock e).boot_sock ≡ e.boot_sock
  unfolding del_client_node del_client_node_id
  del_client_node-boot_sock sock e = elim (Option-cases (find sock e.sock_id_pair)) [
    | inl lacks ↦ rw (lacks, del_client_node) refl
    | inr (id, has) ↦ rw (has, del_client_node) refl
  ]

  del_peer_node-boot_sock : (sock : ℕ) (e : Engine) → (del_peer_node sock e).boot_sock ≡ e.boot_sock
  unfolding del_peer_node del_peer_node_id
  del_peer_node-boot_sock sock e = elim (Option-cases (find sock e.sock_id_pair)) [
    | inl lacks ↦ rw (lacks, del_peer_node) refl
    | inr (id, has) ↦ rw (has, del_peer_node) refl
  ]

  is_boot-ne : (sock : ℕ) (o : Option ℕ) → o ≡ some boot → is_boot sock o ≡ false → sock ≢ boot
  is_boot-ne sock none b other same = cc
  is_boot-ne sock (some x) b other same =
      let same_boot : x ≡ boot = cc in ground (arith, same, same_boot, other)

  Inv-OnServer : OnServer udt (λ sock. sock ≢ boot) (Inv udt boot)
  Inv-OnServer = record {
    handled = Inv-OnMessages;
    drops_client = λ sock s other (b, o).
        (del_client_node-boot_sock sock s.engine ∙ b, drop-IsOrderly sock s.calls other o);
  }

  Inv-OnClient : OnClient udt (Inv udt boot)
  unfolding update_peer_node
  Inv-OnClient = record {
    handled = Inv-OnMessages;
    drops_peer = λ sock s other (b, o). (
      del_peer_node-boot_sock sock s.engine ∙ b,
      drop-IsOrderly sock s.calls (is_boot-ne sock s.engine.boot_sock b other) o,
    );
    updates_peer = λ id node s i. i;
    indexes = λ m s i. i;
  }

  Inv-OnStart : OnStart (Inv udt boot)
  Inv-OnStart = record { calls = Inv-quiet udt boot; serves = λ b c s i. i }

-- While the engine runs, whatever UDT answers and whatever order its threads run in, as long as
-- nothing undefined happens, and where the server's thread is not told of the socket to the server
-- that the client's thread has: that socket stays the one, and each socket that is closed is another
-- one, which the call just before took out of the epoll set, or one that UDT just made for a punch
-- and that was only set up since. This holds from any state in which it held so far, until
-- `startClient` or the destructor is called.
pub Reach-IsOrderly :
    (w : Wire) (udt : Udt) (boot : ℕ) (s t : World) (r : Reach w udt s t)
    → AllRunning (λ sock. sock ≢ boot) r
    → s.engine.boot_sock ≡ some boot
    → IsOrderly udt boot s.calls
    → (t.engine.boot_sock ≡ some boot) × IsOrderly udt boot t.calls
Reach-IsOrderly w udt boot s t r on b o =
    AllRunning-keeps (λ sock. sock ≢ boot) (Inv udt boot) w udt (Inv-OnServer udt boot)
      (Inv-OnClient udt boot) (Inv-OnStart udt boot) r on (b, o)
