-- ===== src/Console.antt =====
-- What is written to the console: the operands of `std::cout <<`, in their order.
use ebc_node.Base.{ℕ, List}
use Prim.Native.String.{String}

-- A string literal, the bytes of a `std::string` or of `printf`, a number, and `std::endl`.
pub data Out : Type 0 where
  say : String → Out
  raw : List ℕ → Out
  number : ℕ → Out
  endl : Out
