-- ===== src/Ir/Verify/Transfer.antt =====
-- crates/syllog-ir/src/verify.rs: what a block does to the set of locals that hold a value
-- (`transfer_block`) and to the set of locals that were given one (`definite_initialization`), and
-- the two analyses.
use syllog.Prelude.{List, [], ◌∷◌, Option, none, some, true, false}
use syllog.Ir.Syntax.{
  Operand, constant, copy, move, Place, Rvalue, borrow, use_operand, binary, discriminant,
  Statement, assign, drop, Terminator, goto, switch_int, BasicBlock, MirFunction,
}
use syllog.Ir.Verify.LocalSet.{LocalSet, insert, remove}
use syllog.Ir.Verify.Control.{place_local}
use syllog.Ir.Verify.Dataflow.{Incoming, parameters, analyze}

unfoldable pub consume_operand : Operand → LocalSet → LocalSet
consume_operand (move l) state = remove state l
consume_operand (copy l) state = state
consume_operand (constant c) state = state

unfoldable pub consume_operands : List Operand → LocalSet → LocalSet
consume_operands [] state = state
consume_operands (o ∷ os) state = consume_operands os (consume_operand o state)

unfoldable pub consume_rvalue : Rvalue → LocalSet → LocalSet
consume_rvalue (borrow mutable place) state = state
consume_rvalue (use_operand o) state = consume_operand o state
consume_rvalue (discriminant o) state = consume_operand o state
consume_rvalue (Rvalue.aggregate ty tag fields) state = consume_operands fields state
consume_rvalue (binary op left right) state = consume_operand right (consume_operand left state)

-- `if let Place::Local(local) = destination { state.insert(*local); }`
unfoldable pub define_place : Place → LocalSet → LocalSet
define_place (Place.local l) state = insert state l
define_place (Place.field base index) state = state

unfoldable pub consume_terminator : Terminator → LocalSet → LocalSet
consume_terminator (switch_int value targets otherwise) state = consume_operand value state
consume_terminator (Terminator.call function args destination next) state =
    define_place destination (consume_operands args state)
consume_terminator Terminator.return state = state
consume_terminator (goto target) state = state

unfoldable pub transfer_statement : Statement → LocalSet → LocalSet
transfer_statement (assign destination value) state =
    define_place destination (consume_rvalue value state)
transfer_statement (drop place) state = remove state (place_local place)

unfoldable pub transfer_statements : List Statement → LocalSet → LocalSet
transfer_statements [] state = state
transfer_statements (s ∷ rest) state = transfer_statements rest (transfer_statement s state)

-- `if let Some(terminator) = &block.terminator { consume_terminator(terminator, state); }`
unfoldable pub consume_end : Option Terminator → LocalSet → LocalSet
consume_end none state = state
consume_end (some t) state = consume_terminator t state

unfoldable pub transfer_block : BasicBlock → LocalSet → LocalSet
transfer_block block state =
    consume_end block.terminator (transfer_statements block.statements state)

-- The locals that a statement or a terminator gives a value.
unfoldable pub initialize_statement : Statement → LocalSet → LocalSet
initialize_statement (assign destination value) state = define_place destination state
initialize_statement (drop place) state = state

unfoldable pub initialize_statements : List Statement → LocalSet → LocalSet
initialize_statements [] state = state
initialize_statements (s ∷ rest) state = initialize_statements rest (initialize_statement s state)

unfoldable pub initialize_end : Option Terminator → LocalSet → LocalSet
initialize_end (some (Terminator.call function args destination next)) state =
    define_place destination state
initialize_end _ state = state

unfoldable pub initialize_block : BasicBlock → LocalSet → LocalSet
initialize_block block state =
    initialize_end block.terminator (initialize_statements block.statements state)

unfoldable pub initialize_blocks : List BasicBlock → LocalSet → LocalSet
initialize_blocks [] state = state
initialize_blocks (b ∷ blocks) state = initialize_blocks blocks (initialize_block b state)

-- The locals that any block gives a value, reachable or not, and the parameters.
unfoldable pub ever_initialized : MirFunction → LocalSet
unfolding initialize_blocks
ever_initialized f = initialize_blocks f.blocks (parameters f)

unfoldable pub definite_initialization : MirFunction → Incoming
definite_initialization f = analyze true initialize_block f

-- The loop of `verify_affine_ownership`.
unfoldable pub available_locals : MirFunction → Incoming
available_locals f = analyze false transfer_block f
