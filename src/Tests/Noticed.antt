-- ===== src/Tests/Noticed.antt =====
-- Witnesses for the thread of a client that is told of its server, of a new peer and of an error.
use mathlib.Core.Path.{subst}
use ebc_node.Base.{inr, ℕ, ◌≡◌, refl, sym, ◌∙◌, false, true, some, List, [], ◌∷◌, arith, length}
use ebc_node.Wire.{ok}
use ebc_node.Node.{zero_id}
use ebc_node.Proto.Enums.{type_punch, sub_empty}
use ebc_node.Proto.Msg.{serialize}
use ebc_node.MsgPack.{MsgPack, a_node, new_pack, unpack}
use ebc_node.MsgPack.Bounds.{node-IsPackable, described_node-le}
use ebc_node.Engine.Message.Reads.{unpack-received}
use ebc_node.Tests.Protocol.{entry-IsSmall}
use ebc_node.MsgPack.Described.{described}
use ebc_node.Engine.World.{Udt, World, Call, recv, events, Ended}
use ebc_node.Base.{◌↔◌}
use ebc_node.Engine.Message.Exact.{handle_msg_iff}
use ebc_node.Engine.Message.{buffer_size, received_into, handle_msg}
use ebc_node.Engine.Message.Survives.{IsHarmless, punches}
use ebc_node.Engine.Client.Thread.{client_thread}
use ebc_node.Engine.Client.Lasting.{client_thread_lasts}
use ebc_node.Tests.SimpleWire.{simple, simple-WireLaws}
use ebc_node.Tests.Tables.{id_of, idle}
use ebc_node.Tests.Engines.{a_udt, entry}

-- A notice that arrives on every socket that is read, and what `unpack` makes of it.
abbrev notice : List ℕ
notice = serialize simple (described simple (id_of 1) type_punch (a_node entry) sub_empty zero_id)

abbrev noticed : Udt
noticed = record a_udt {
  received = λ cs. some notice;
  waited =
      λ cs. record { ret = events; readfds = 4 ∷ 7 ∷ []; writefds = 4 ∷ 7 ∷ []; errfds = 5 ∷ [] };
}

abbrev listener : World
listener = record {
  engine = record idle { is_server = false; boot_sock = some 4; boot_thread_flag = true };
  calls = [];
}

notice-accepted :
    unpack simple (new_pack (id_of 1)) (received_into buffer_size notice) (length notice)
    ≡ ok (record {
      self_id = id_of 1;
      ebc_msg = described simple (id_of 1) type_punch (a_node entry) sub_empty zero_id;
    })
notice-accepted =
    unpack-received simple-WireLaws noticed 4 (id_of 1) zero_id (omega arith) (omega arith)
      (id_of 1) type_punch sub_empty (a_node entry)
      (node-IsPackable simple-WireLaws type_punch sub_empty entry (inr refl) entry-IsSmall)
      (omega (
        arith,
        described_node-le simple-WireLaws (id_of 1) zero_id (omega arith) (omega arith) type_punch
            sub_empty entry (inr refl) entry-IsSmall,
      ))

notice-IsHarmless :
    (from : ℕ) (calls : List Call) (bytes : List ℕ) (p : MsgPack)
    → noticed.received (recv from buffer_size ∷ calls) ≡ some bytes
    → unpack simple (new_pack (id_of 1)) (received_into buffer_size bytes) (length bytes) ≡ ok p
    → IsHarmless simple (id_of 1) p.ebc_msg
notice-IsHarmless from calls bytes p got accepted =
    subst (λ (q : MsgPack). IsHarmless simple (id_of 1) q.ebc_msg) same
      (punches entry [] refl refl (omega arith))
  where
    here_too :
        unpack simple (new_pack (id_of 1)) (received_into buffer_size notice) (length notice) ≡ ok p
    here_too =
        subst
          (λ (b : List ℕ).
            unpack simple (new_pack (id_of 1)) (received_into buffer_size b) (length b) ≡ ok p)
          (sym (some_eq got)) accepted
      where
        some_eq : {x y : List ℕ} → some x ≡ some y → x ≡ y
        some_eq e = cc

    same :
        record {
          self_id = id_of 1;
          ebc_msg = described simple (id_of 1) type_punch (a_node entry) sub_empty zero_id;
        }
        ≡ p
    same = ok_eq (sym notice-accepted ∙ here_too)
      where
        ok_eq : {x y : MsgPack} → ok x ≡ ok y → x ≡ y
        ok_eq e = cc

client_thread_lasts_example :
    (r : Ended) × (s' : World) × (client_thread simple noticed
        (record { sin_addr = 0; sin_port = 0 })
        4
        3
        listener
      ≡ some (r, s'))
    × (s'.engine.is_server ≡ false)
    × (s'.engine.self ≡ listener.engine.self)
client_thread_lasts_example =
    client_thread_lasts simple-WireLaws noticed (record { sin_addr = 0; sin_port = 0 }) 4 3 listener
      refl refl (λ calls. omega arith) notice-IsHarmless

handle_msg_iff_example :
    ((s' : World) × (handle_msg simple noticed 7 listener ≡ some (tt, s')))
    ↔ IsHarmless simple
        (id_of 1)
        (described simple (id_of 1) type_punch (a_node entry) sub_empty zero_id)
handle_msg_iff_example =
    handle_msg_iff simple-WireLaws noticed 7 notice
      (record {
        self_id = id_of 1;
        ebc_msg = described simple (id_of 1) type_punch (a_node entry) sub_empty zero_id;
      })
      listener (λ calls. omega arith) (λ calls. (9, refl)) (λ calls. refl) refl refl refl
      notice-accepted (omega arith) (omega arith)
