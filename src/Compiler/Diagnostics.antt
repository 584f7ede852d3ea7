-- ===== src/Compiler/Diagnostics.antt =====
-- compiler.py: the ids of the nodes of a program, and `CompilationDiagnostic`. An id is the text
-- `retrieve:…`, `derive:…:…`, `judge:…`, `invoke:…` or `complete:…`; a parameter's name has no
-- colon, so that ids that differ here are different texts. A diagnostic's message is left out.
use jev_frame.Prelude.{
  String, Bool, true, false, ◌&&◌, Option, ◌≡◌, ◌↔◌, arith, Eq, ◌==◌, ==_iff, string_eq,
}

pub data NodeId : Type 0 where
  retrieve : (provider_id : String) → NodeId
  derive : (tool_id parameter : String) → NodeId
  judge : (judgment_id : String) → NodeId
  invoke : (tool_id : String) → NodeId
  complete : (definition_id : String) → NodeId

abbrev pub same_node : NodeId → NodeId → Bool
same_node (retrieve p) (retrieve q) = p == q
same_node (derive t p) (derive u q) = t == u && p == q
same_node (judge j) (judge k) = j == k
same_node (invoke t) (invoke u) = t == u
same_node (complete d) (complete e) = d == e
same_node _ _ = false

pub same_node_iff : (i j : NodeId) → (same_node i j ≡ true) ↔ (i ≡ j)
same_node_iff (retrieve p) (retrieve q) = ground (arith, ==_iff p q)
same_node_iff (derive t p) (derive u q) = ground (arith, ==_iff t u, ==_iff p q)
same_node_iff (judge j) (judge k) = ground (arith, ==_iff j k)
same_node_iff (invoke t) (invoke u) = ground (arith, ==_iff t u)
same_node_iff (complete d) (complete e) = ground (arith, ==_iff d e)
same_node_iff _ _ = ground arith

instance abbrev pub node_eq : Eq NodeId
node_eq = record { equal = same_node; equal_iff = same_node_iff }

pub record Diagnostic : Type 0 where
  pub code : String
  pub definition_id : String
  pub node_id : Option NodeId
  pub subject : Option String
  pub binding : Option String
  pub reference : Option String
