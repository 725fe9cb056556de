-- ===== src/Tests/Outputs.antt =====
-- Witnesses for the commands, for the addresses of a host and for what is printed of a message.
use ebc_node.Base.{
  ℕ, zero, suc, ◌+◌, ◌≡◌, refl, ◌↔◌, All, inr, true, none, some, List, [], ◌∷◌, map, arith,
}
use ebc_node.Console.{Out}
use ebc_node.SockAddr.Names.{AddrInfo, NameInfo, resolve}
use ebc_node.SockAddr.Resolve.{entry_addr, resolve-AreEntries}
use ebc_node.Proto.Enums.{type_punch, sub_empty}
use ebc_node.Proto.Node.{EbcNode}
use ebc_node.Proto.Msg.{EbcMsg, nodes}
use ebc_node.MsgPack.{a_node}
use ebc_node.MsgPack.Described.{described}
use ebc_node.MsgPack.Print.{msg_print}
use ebc_node.MsgPack.Printing.{IsLong, msg_print_iff}
use ebc_node.Main.{Key, command_thread}
use ebc_node.Main.Commands.{command_thread-ends}
use ebc_node.Tests.SimpleWire.{simple}
use ebc_node.Tests.Tables.{id_of, with_client}

abbrev no_names : NameInfo
no_names bytes = none

-- `0`, and then `q`.
abbrev keys : ℕ → Key
keys zero = some b'0'
keys (suc n) = some b'q'

command_thread-ends_example :
    (all : List Out) × (command_thread no_names (λ n. with_client) keys (suc (1 + 2))
      ≡ some (true, all))
command_thread-ends_example =
    command_thread-ends no_names (λ n. with_client) keys (λ n. (tt, ((_, refl, omega arith), tt))) 1
      2 refl

-- Two addresses of four bytes.
abbrev answer : List (List ℕ × ℕ)
answer = (2 ∷ 0 ∷ 1 ∷ 187 ∷ [], 4) ∷ (10 ∷ 0 ∷ 1 ∷ 187 ∷ [], 4) ∷ []

abbrev a_resolver : AddrInfo
a_resolver host service = some answer

resolve-AreEntries_example :
    resolve a_resolver (104 ∷ []) [] ≡ (inr (some (map entry_addr answer)), [])
resolve-AreEntries_example =
    resolve-AreEntries a_resolver 104 [] [] answer refl
      (omega arith, omega arith, omega arith, (omega arith, omega arith, omega arith, tt))

abbrev an_entry : EbcNode
an_entry = record { id = id_of 2; ip = 16777343; port_nat = 41943040; unknown = [] }

abbrev a_punch : EbcMsg
a_punch = described simple (id_of 1) type_punch (a_node an_entry) sub_empty (id_of 2)

msg_print_iff_example : ((out : List Out) × (msg_print a_punch ≡ some out)) ↔ (
    IsLong a_punch.src_id
    × IsLong a_punch.dst_id
    × All (λ (n : EbcNode). IsLong n.id) (nodes a_punch).ebcnodes)
msg_print_iff_example = msg_print_iff a_punch
