-- ===== src/Main.antt =====
-- src/main.cpp: the program, with its command loop. What `getchar` returns, and the bytes of the
-- crypto library, are parameters.
pub mod Commands
use ebc_node.Base.{
  ℕ, zero, suc, ◌+◌, ◌-◌, ◌*◌, ◌/◌, ◌%◌, ◌^◌, ◌≤◌, ◌<◌, ◌≡◌, refl, sym, ap, ◌∙◌, ◌≢◌, ◌↔◌, ◌⊎◌, inl,
  inr, Bool, true, false, not, ◌&&◌, ◌||◌, Option, none, some, List, [], ◌∷◌, ◌++◌, map, arith,
  dec_lt, ℕ_discrete, ltb, leb, ◌==◌, if◌then◌else◌, ltb→lt, ==_iff, Bool-cases, Option-cases,
  length, get_elem?, take, drop, replicate, All, length-append, length-take, length-drop,
  take-append, drop-append, take_all,
}
use ebc_node.Console.{Out, say, endl}
use ebc_node.SockAddr.Names.{NameInfo}
use ebc_node.Node.{NodeId}
use ebc_node.Node.Print.{print_node_id}
use ebc_node.Engine.{Engine, new_engine}
use ebc_node.Engine.World.{Udt, World}
use ebc_node.Engine.Client.{start_client}
use ebc_node.Engine.Print.{print_nodes_info}

-- A character of the input; `none` is `EOF`, which `char c` holds as -1.
abbrev pub Key : Type 0
Key = Option ℕ

abbrev pub is_quit : Key → Bool
is_quit none = false
is_quit (some c) = c == b'q'

abbrev unknown_command : List Out
unknown_command = say "Unkown cmd!" ∷ endl ∷ []

-- The switch of the loop.
unfoldable pub command : NameInfo → Engine → Key → Option (List Out)
command names e none = some unknown_command
command names e (some c) =
    if c == b'0'
    then print_nodes_info names 0 e
    else if c == b'1'
    then print_nodes_info names 1 e
    else if c == b'\n'
    then some []
    else some unknown_command

-- The loop, over a number of turns: whether it has ended, and what it has printed. The other
-- threads change the engine between the turns: `engines n` is the engine at turn `n`.
unfoldable pub command_loop : NameInfo → (ℕ → Engine) → (ℕ → Key) → ℕ → ℕ → Option (Bool × List Out)
command_loop names engines keys zero n = some (false, [])
command_loop names engines keys (suc turns) n =
    let rest = command_loop names engines keys turns (suc n) in
    if is_quit (keys n) then some (true, []) else elim (command names (engines n) (keys n)) [
      | none ↦ none
      | some shown ↦ elim rest [
        | none ↦ none
        | some (ended, others) ↦ some (ended, shown ++ others)
      ]
    ]

abbrev usage : List Out
usage =
    say "Usege: " ∷ endl ∷ say "0: Print all node info" ∷ endl ∷ say "q: quit the app" ∷ endl ∷ []

-- The thread that reads the commands, with the usage that it prints first.
unfoldable pub command_thread : NameInfo → (ℕ → Engine) → (ℕ → Key) → ℕ → Option (Bool × List Out)
command_thread names engines keys turns = elim (command_loop names engines keys turns 0) [
  | none ↦ none
  | some (ended, shown) ↦ some (ended, usage ++ shown)
]

-- `net.startClient()` on the engine that is made of the id.
unfoldable main_start : Udt → Bool → Bool → NodeId → Option (Bool × World)
unfolding new_engine
main_start udt boot_flag server_flag id =
    start_client udt (record { engine = new_engine boot_flag server_flag id false; calls = [] })

-- `main`, for the 20 random bytes `id`: the engine that it starts, whether it has come to its end
-- after a number of turns, and what it prints itself. It waits for the thread of the commands;
-- `sendHello` only starts a thread.
unfoldable main :
    Udt
    → NameInfo
    → Bool
    → Bool
    → NodeId
    → (ℕ → Engine)
    → (ℕ → Key)
    → ℕ
    → Option (World × Bool × List Out)
unfolding main_start command_thread
main udt names boot_flag server_flag id engines keys turns =
    let commands = command_thread names engines keys turns in
    elim (main_start udt boot_flag server_flag id) [
      | none ↦ none
      | some (started, world) ↦ elim commands [
        | none ↦ none
        | some (ended, shown) ↦ some (world, ended, print_node_id id ++ shown)
      ]
    ]
