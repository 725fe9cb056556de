-- ===== src/Tests/Engines.antt =====
-- A UDT that answers, and the witnesses for the engine.
use ebc_node.Base.{
  ℕ, arith, length, ◌≤◌, ◌≡◌, refl, ◌⊎◌, inl, true, Option, none, some, List, [], ◌∷◌, ◌==◌,
  if◌then◌else◌, replicate,
}
use ebc_node.Base.StdMap.{find, erase}
use ebc_node.Utils.{com_port_nat}
use ebc_node.SockAddr.{
  SockAddr, get_ipv4, raw_port, first_u16, first_u32, new_addr, set_family, write_at,
}
use ebc_node.Node.{id_key, sock_key}
use ebc_node.Proto.Enums.{type_punch}
use ebc_node.Proto.Node.{EbcNode}
use ebc_node.Proto.Msg.{new_msg}
use ebc_node.Engine.{del_client_node, del_client_node_id}
use ebc_node.Engine.World.{
  Udt, World, UdtStatus, connected, broken, nothing, Call, socket, getsockopt, udt_state, recv,
  epoll_remove, close, ◌>>◌,
}
use ebc_node.Engine.Punch.{start_punch}
use ebc_node.Engine.Punch.Sockets.{start_punch_settles, IsSettled}
use ebc_node.Engine.Message.{listed, buffer_size, received_into, handle_msg}
use ebc_node.Engine.Message.Nodeless.{handle_msg-no_nodes}
use ebc_node.Wire.{ok}
use ebc_node.Proto.Msg
use ebc_node.Proto.Msg.{EbcMsg, serialize, nodes, msg, has_nodes}
use ebc_node.Proto.Msg.Laws.{IsMsg}
use ebc_node.Proto.Fields.{bytes_field_size, enum_field_size, raw_unknown, uint32_field_size}
use ebc_node.MsgPack.{msg_head, new_pack, unpack}
use ebc_node.MsgPack.Unpack.{IsAccepted}
use ebc_node.Engine.Client.{destroy, mark_connected, hello_round, each}
use ebc_node.Engine.Client.Closing.{destroy-closes, closes, stopped}
use ebc_node.Engine.Client.Phantom.{hello_round-mark_connected}
use ebc_node.Engine.Server.{server_round, on_error, on_readable, drop_client}
use ebc_node.Tests.SimpleWire.{simple, simple-WireLaws}
use ebc_node.Tests.Tables.{id_of, node_of, idle, with_client}

-- Socket 5 is broken, and nothing is received.
abbrev states : List Call → UdtStatus
states [] = connected
states (getsockopt s udt_state ∷ cs) = if s == 5 then broken else connected
states (c ∷ cs) = connected

abbrev pub a_udt : Udt
a_udt = record {
  a_socket = λ cs. some 9;
  succeeds = λ cs. true;
  a_name = λ cs. record { sin_addr = 0; sin_port = 0 };
  a_state = states;
  a_count = λ cs. none;
  waited = λ cs. record { ret = nothing; readfds = []; writefds = []; errfds = [] };
  received = λ cs. none;
  memory = λ cs. replicate 16 0;
}

abbrev pub before : World
before = record { engine = with_client; calls = [] }

abbrev after : World
after = record {
  engine = idle;
  calls =
      recv 6 6144 ∷ getsockopt 6 udt_state ∷ close 5 ∷ epoll_remove 5 ∷ getsockopt 5 udt_state ∷ [];
}

-- A round of the server in which the socket of its client is broken.
round_runs : server_round simple a_udt 0 (5 ∷ []) (6 ∷ []) before ≡ some (tt, after)
unfolding server_round each on_error on_readable drop_client handle_msg del_client_node
    del_client_node_id find erase
round_runs = refl

start_punch_settles_example :
    (r : Option ℕ) × (s' : World) × (start_punch a_udt 16777343 9088 before ≡ some (r, s'))
    × (s'.engine ≡ before.engine)
    × (((a_udt.a_socket (socket ∷ []) ≡ none) × (r ≡ none) × (s'.calls ≡ socket ∷ []))
        ⊎ ((sock : ℕ) × (a_udt.a_socket (socket ∷ []) ≡ some sock) × IsSettled a_udt sock r s'))
start_punch_settles_example = start_punch_settles a_udt 16777343 9088 before

abbrev pub entry : EbcNode
entry = record { id = id_of 2; ip = 16777343; port_nat = com_port_nat 640 3; unknown = [] }

pub client_listed : listed (node_of 2 5) ≡ some entry
unfolding listed get_ipv4 raw_port first_u16 first_u32
client_listed = refl

-- A message of the type PUNCH with its head and nothing else.
abbrev empty_punch : EbcMsg
empty_punch = record new_msg { head = msg_head; type = type_punch }

abbrev empty_punch-IsMsg : IsMsg simple empty_punch
empty_punch-IsMsg = record {
  version_fits = omega arith;
  src_id_fits = omega arith;
  dst_id_fits = omega arith;
  head_fits = omega arith;
  ttl_fits = omega arith;
  id_fits = omega arith;
  type_fits = omega arith;
  sub_type_fits = omega arith;
  length_fits = omega arith;
  body_fits = tt;
}

empty_punch-IsAccepted : IsAccepted simple empty_punch
unfolding has_nodes msg
empty_punch-IsAccepted = record { magic = refl; typed = omega arith; measured = refl }

abbrev punched : Udt
punched = record a_udt { received = λ cs. some (serialize simple empty_punch) }

no_node : (nodes empty_punch).ebcnodes ≡ []
unfolding nodes
no_node = refl

empty_punch-small : Msg.byte_size simple empty_punch ≤ buffer_size
unfolding Msg.byte_size raw_unknown bytes_field_size uint32_field_size enum_field_size
empty_punch-small = omega arith

handle_msg-no_nodes_example :
    (unpack simple
        (new_pack (id_of 1))
        (received_into buffer_size (serialize simple empty_punch))
        (length (serialize simple empty_punch))
      ≡ ok (record { self_id = id_of 1; ebc_msg = empty_punch }))
    × (handle_msg simple punched 6 before ≡ none)
handle_msg-no_nodes_example =
    handle_msg-no_nodes simple-WireLaws punched 6 empty_punch before empty_punch-IsMsg refl refl
      empty_punch-IsAccepted empty_punch-small no_node (inl refl) refl

abbrev fresh_addr : SockAddr
fresh_addr = record { len = 16; addr = some (2 ∷ 0 ∷ replicate 14 0) }

fresh_made : new_addr (replicate 16 0) ≡ some fresh_addr
unfolding new_addr set_family write_at
fresh_made = refl

hello_round-mark_connected_example :
    (mark_connected a_udt 6 >> hello_round simple (72 ∷ [])) before ≡ none
unfolding find
hello_round-mark_connected_example =
    hello_round-mark_connected simple a_udt 6 (72 ∷ []) before fresh_addr refl refl fresh_made

destroy-closes_example :
    destroy (record before { engine = record with_client { boot_sock = some 4 } })
    ≡ some (
      tt,
      record before {
        engine = stopped (record with_client { boot_sock = some 4 });
        calls = closes (5 ∷ []) (closes [] (close 4 ∷ []));
      },
    )
destroy-closes_example =
    destroy-closes (record before { engine = record with_client { boot_sock = some 4 } }) 4 []
      (5 ∷ []) refl tt (refl, tt)
