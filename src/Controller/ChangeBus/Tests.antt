-- ===== src/Controller/ChangeBus/Tests.antt =====
-- Overlapping control streams of one node.
use asterferry.Base.{◌≡◌, refl, List, [], ◌∷◌, string_keyed, arith}
use asterferry.Controller.ChangeBus.{new_change_bus, register, node_capabilities}
use asterferry.Controller.ChangeBus.Registration.{
  Call, takes, clears, run, node_capabilities-register,
}

abbrev rest : List Call
rest = clears "node-1 " 1 ∷ takes ∷ []

-- The stream with token 1 ends after the stream with token 2 has registered.
node_capabilities-register_example :
    node_capabilities (run (register new_change_bus "node-1" 2 ("update" ∷ [])) rest) "node-1"
    ≡ "update" ∷ []
unfolding new_change_bus
node_capabilities-register_example =
    node_capabilities-register "node-1" 2 ("update" ∷ []) new_change_bus rest refl
      ((λ same. omega arith), (tt, tt))
