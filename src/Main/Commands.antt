-- ===== src/Main/Commands.antt =====
-- src/main.cpp: when the command loop ends.
use ebc_node.Base.{
  ℕ, zero, suc, ◌+◌, ◌≡◌, refl, ◌∙◌, inl, inr, Bool, true, false, none, some, List, [], ◌++◌, arith,
  ◌==◌, Bool-cases,
}
use ebc_node.Console.{Out}
use ebc_node.SockAddr.Names.{NameInfo}
use ebc_node.Engine.{Engine}
use ebc_node.Engine.Print.Defined.{IsDefined, IsShown, print_nodes_info-IsDefined}
use native.Mathlib.Numerals.{unary_clauses}
use ebc_node.Main.{Key, is_quit, command, command_loop, command_thread, unknown_command, usage}

command-IsDefined :
    (names : NameInfo) (e : Engine) (key : Key) → IsShown e → IsDefined (command names e key)
unfolding command
command-IsDefined names e none h = (_, refl)
command-IsDefined names e (some c) h =
    let all = print_nodes_info-IsDefined names 0 e h in
    let ids = print_nodes_info-IsDefined names 1 e h in
    elim (Bool-cases (c == b'0')) [
      | inl t ↦ (all.0, (rw t) ∙ all.1)
      | inr t ↦ elim (Bool-cases (c == b'1')) [
        | inl t' ↦ (ids.0, (rw (t, t')) ∙ ids.1)
        | inr t' ↦ elim (Bool-cases (c == b'\n')) [
          | inl u ↦ ([], rw (t, t', u))
          | inr u ↦ (unknown_command, rw (t, t', u))
        ]
      ]
    ]

module _ (names : NameInfo) (engines : ℕ → Engine) (keys : ℕ → Key)
    (shown : (n : ℕ) → IsShown (engines n)) where
  -- One turn without `q`.
  command_loop-step :
      (turns n : ℕ) {ended : Bool} {others : List Out}
      → is_quit (keys n) ≡ false
      → command_loop names engines keys turns (suc n) ≡ some (ended, others)
      → (all : List Out) × (command_loop names engines keys (suc turns) n ≡ some (ended, all))
  unfolding command_loop
  command_loop-step turns n {ended} {others} q e =
      let first = command-IsDefined names (engines n) (keys n) (shown n) in
      (first.0 ++ others, rw (q, first.1, e))

  command_loop-ends :
      (k extra start : ℕ)
      → is_quit (keys (start + k)) ≡ true
      → (all : List Out) × (command_loop names engines keys (suc (k + extra)) start
          ≡ some (true, all))
  unfolding command_loop
  command_loop-ends zero extra start q =
      let quit : is_quit (keys start) ≡ true = simp unary_clauses at q in ([], rw quit)
  command_loop-ends (suc k) extra start q = elim (Bool-cases (is_quit (keys start))) [
    | inl quit ↦ ([], rw quit)
    | inr more ↦
        let same : start + suc k ≡ suc start + k = omega arith in
        let ends = command_loop-ends k extra (suc start) (cc) in
        let same_turns : suc (suc (k + extra)) ≡ suc (suc k + extra) = omega arith in
        let all = command_loop-step (suc (k + extra)) start more ends.1 in (all.0, cc)
  ]

  -- Where at every turn each node in the tables has an address of 16 bytes at least, and `q` is the key
  -- of turn k: the thread of the commands has ended after k + 1 turns, and nothing undefined happens.
  pub command_thread-ends :
      (k extra : ℕ)
      → is_quit (keys k) ≡ true
      → (all : List Out) × (command_thread names engines keys (suc (k + extra)) ≡ some (true, all))
  unfolding command_thread
  command_thread-ends k extra q =
      let same : 0 + k ≡ k = omega arith in
      let ends = command_loop-ends k extra 0 cc in (usage ++ ends.0, rw (command_thread, ends.1))
