-- ===== src/Engine/Message/Keeps.antt =====
-- What `handleMsg` keeps, whatever it receives: every property that adding a client, adding a peer,
-- `startPunch` and the calls that close nothing keep.
use ebc_node.Base.{ℕ, List, [], ◌∷◌, ◌==◌, if◌then◌else◌, length}
use ebc_node.Engine.World.{
  Udt, World, getpeername, recv, send, M, return, defined, ask, get, fresh, send_buffer,
}
use ebc_node.Utils.{par_port, par_nat}
use ebc_node.Node.{Node, NodeId, id_key, sock_key}
use ebc_node.Engine.Punch.{start_punch}
use ebc_node.Wire.{Wire, Result, ok, failed, stuck}
use ebc_node.Proto.Enums.{type_get_node, type_rep, type_punch, sub_node}
use ebc_node.Proto.Node.{EbcNode}
use ebc_node.Proto.Nodes.{EbcNodes, new_nodes, ebcnodes_at, add_ebcnodes}
use ebc_node.Proto.Msg.{EbcMsg, nodes}
use ebc_node.MsgPack.{MsgPack, Packed, new_pack, unpack}
use ebc_node.Engine.Kept.{OnMessages}
use ebc_node.Engine.World.Rules.{
  Keeps, >>=-Keeps, >>-Keeps, return-Keeps, fault-Keeps, defined-Keeps, ask-Keeps, look-Keeps,
  get-Keeps, update-Keeps, if-Keeps, if_some-Keeps, send_buffer-Keeps,
}
use ebc_node.Engine.Message.{
  buffer_size, punch_node, punch_notice, node_reply, received_into, meet, meet_all, notify_all,
  listed, introduce, on_get_node, dispatch, when_ok, handle_msg,
}

module _ (P : World → Type 0) (udt : Udt) (h : OnMessages udt P) where
  meet-Keeps : (node : EbcNode) → Keeps P (meet udt node)
  unfolding meet
  meet-Keeps node =
      >>=-Keeps P (start_punch udt node.ip (par_port node.port_nat)) _
        (h.punches node.ip (par_port node.port_nat))
        (λ got.
          if_some-Keeps P got _ _
            (λ sock.
              >>=-Keeps P (fresh udt) _ (look-Keeps P udt.memory) (λ memory.
                update-Keeps P _ (h.adds_peer memory node.id node.ip node.port_nat sock)))
            (return-Keeps P tt))

  meet_all-Keeps : (ns : List EbcNode) → Keeps P (meet_all udt ns)
  unfolding meet_all
  meet_all-Keeps [] = return-Keeps P tt
  meet_all-Keeps (n ∷ ns) =
      >>-Keeps P (meet udt n) (meet_all udt ns) (meet-Keeps n) (meet_all-Keeps ns)

  notify_all-Keeps :
      (clients : List (NodeId × Node)) (notice : List ℕ) (n : ℕ) (reply : EbcNodes)
      → Keeps P (notify_all clients notice n reply)
  unfolding notify_all
  notify_all-Keeps [] notice n reply = return-Keeps P reply
  notify_all-Keeps ((id, node) ∷ clients) notice n reply =
      >>=-Keeps P (defined (listed node)) _ (defined-Keeps P (listed node)) (λ entry.
        >>=-Keeps P (defined node.sock) _ (defined-Keeps P node.sock) (λ sock.
          >>-Keeps P (send_buffer sock notice n) _
            (send_buffer-Keeps P sock notice n (λ bytes. h.calls (send sock bytes) tt))
            (notify_all-Keeps clients notice n (add_ebcnodes reply entry))))

  introduce-Keeps : (w : Wire) (sock : ℕ) (msg : EbcMsg) → Keeps P (introduce w udt sock msg)
  unfolding introduce
  introduce-Keeps w sock msg =
      >>=-Keeps P (defined (ebcnodes_at (nodes msg) 0)) _ (defined-Keeps P _) (λ first.
        >>=-Keeps P (ask (getpeername sock) udt.a_name) _
          (ask-Keeps P (getpeername sock) udt.a_name (h.calls (getpeername sock) tt))
          (λ info. >>=-Keeps P get _ (get-Keeps P) (λ engine.
            >>=-Keeps P
              (defined (
                punch_notice w engine.self.id
                  (punch_node info (par_nat first.port_nat) msg.src_id)))
              _ (defined-Keeps P _)
              (λ (notice : Packed).
                >>=-Keeps P (defined notice.buffer) _ (defined-Keeps P _) (λ bytes.
                  >>=-Keeps P (notify_all engine.client_node bytes notice.ret new_nodes) _
                    (notify_all-Keeps engine.client_node bytes notice.ret new_nodes)
                    (λ reply. >>=-Keeps P (fresh udt) _ (look-Keeps P udt.memory) (λ memory.
                      >>-Keeps P _ (return reply)
                        (update-Keeps P _
                          (h.adds_client memory msg.src_id info (par_nat first.port_nat) sock))
                        (return-Keeps P reply))))))))

  on_get_node-Keeps : (w : Wire) (sock : ℕ) (p : MsgPack) → Keeps P (on_get_node w udt sock p)
  unfolding on_get_node
  on_get_node-Keeps w sock p = >>=-Keeps P get _ (get-Keeps P) (λ engine.
      >>=-Keeps P (if engine.is_server then introduce w udt sock p.ebc_msg else return new_nodes) _
        (if-Keeps P engine.is_server _ _ (introduce-Keeps w sock p.ebc_msg)
          (return-Keeps P new_nodes))
        (λ reply.
          >>=-Keeps P (defined (node_reply w p reply)) _ (defined-Keeps P _) (λ (answer : Packed).
            >>=-Keeps P (defined answer.buffer) _ (defined-Keeps P _) (λ bytes.
              send_buffer-Keeps P sock bytes answer.ret (λ bytes. h.calls (send sock bytes) tt)))))

  dispatch-Keeps : (w : Wire) (sock : ℕ) (p : MsgPack) → Keeps P (dispatch w udt sock p)
  unfolding dispatch
  dispatch-Keeps w sock p =
      let m = p.ebc_msg in
      if-Keeps P (m.type == type_get_node) (on_get_node w udt sock p) _ (on_get_node-Keeps w sock p)
        (if-Keeps P (m.type == type_rep) _ _
          (if-Keeps P (m.sub_type == sub_node) _ _ (meet_all-Keeps (nodes m).ebcnodes)
            (return-Keeps P tt))
          (if-Keeps P (m.type == type_punch) _ _
            (>>=-Keeps P (defined (ebcnodes_at (nodes m) 0)) _ (defined-Keeps P _) (meet-Keeps))
            (return-Keeps P tt)))

  when_ok-Keeps :
      (r : Result MsgPack) (f : MsgPack → M (Unit {0}))
      → ((p : MsgPack) → Keeps P (f p))
      → Keeps P (when_ok r f)
  when_ok-Keeps (ok p) f h = h p
  when_ok-Keeps failed f h = return-Keeps P tt
  when_ok-Keeps stuck f h = fault-Keeps P

  pub handle_msg-Keeps : (w : Wire) (sock : ℕ) → Keeps P (handle_msg w udt sock)
  unfolding handle_msg
  handle_msg-Keeps w sock =
      >>=-Keeps P (ask (recv sock buffer_size) udt.received) _
        (ask-Keeps P (recv sock buffer_size) udt.received (h.calls (recv sock buffer_size) tt))
        (λ got. >>=-Keeps P get _ (get-Keeps P) (λ engine.
          if_some-Keeps P got _ _
            (λ bytes.
              when_ok-Keeps
                (unpack w (new_pack engine.self.id) (received_into buffer_size bytes)
                  (length bytes))
                (dispatch w udt sock) (dispatch-Keeps w sock))
            (return-Keeps P tt)))
