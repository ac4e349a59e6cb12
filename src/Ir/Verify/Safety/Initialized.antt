-- ===== src/Ir/Verify/Safety/Initialized.antt =====
-- `ever_initialized` and the transfer function of `definite_initialization` in
-- crates/syllog-ir/src/verify.rs.
use syllog.Prelude.{
  ℕ, zero, suc, ◌≡◌, refl, ◌⊎◌, inl, inr, true, List, [], ◌∷◌, Option, none, some, arith, get_elem?,
  ◌==◌, ◌∙◌, sym, Bool-cases,
}
use syllog.Ir.Syntax.{
  Place, Statement, assign, drop, Terminator, goto, switch_int, BasicBlock, MirFunction,
}
use syllog.Ir.Verify.LocalSet.{LocalSet, contains, contains-insert}
use syllog.Ir.Verify.Dataflow.{parameters}
use syllog.Ir.Verify.Dataflow.Fixpoint.{Subset}
use syllog.Ir.Verify.Transfer.{
  define_place, initialize_statement, initialize_statements, initialize_end, initialize_block,
  initialize_blocks, ever_initialized,
}

-- A function on sets that adds the same elements to every set.
abbrev pub Adds : (LocalSet → LocalSet) → Type 0
Adds g =
    (l : ℕ)
    → ((s : LocalSet) → contains (g s) l ≡ contains s l)
      ⊎ ((s : LocalSet) → contains (g s) l ≡ true)

Adds-comp : (g h : LocalSet → LocalSet) → Adds g → Adds h → Adds (λ s. h (g s))
Adds-comp g h p q l = elim (q l) [
  | inr always ↦ inr (λ s. always (g s))
  | inl same ↦ elim (p l) [
    | inl same' ↦ inl (λ s. same (g s) ∙ same' s)
    | inr always' ↦ inr (λ s. same (g s) ∙ always' s)
  ]
]

Adds-define : (p : Place) → Adds (define_place p)
unfolding define_place
Adds-define (Place.field base index) l = inl (λ s. refl)
Adds-define (Place.local k) l = elim (Bool-cases (k == l)) [
  | inl same ↦ inr (λ s. ground (arith, contains-insert s k l))
  | inr other ↦ inl (λ s. ground (arith, contains-insert s k l))
]

pub Adds-statement : (x : Statement) → Adds (initialize_statement x)
unfolding initialize_statement
Adds-statement (assign destination value) l = Adds-define destination l
Adds-statement (drop place) l = inl (λ s. refl)

pub Adds-statements : (xs : List Statement) → Adds (initialize_statements xs)
unfolding initialize_statements
Adds-statements [] l = inl (λ s. refl)
Adds-statements (x ∷ xs) l =
    Adds-comp (initialize_statement x) (initialize_statements xs) (Adds-statement x)
      (Adds-statements xs) l

pub Adds-end : (t : Option Terminator) → Adds (initialize_end t)
unfolding initialize_end
Adds-end none l = inl (λ s. refl)
Adds-end (some Terminator.return) l = inl (λ s. refl)
Adds-end (some (goto target)) l = inl (λ s. refl)
Adds-end (some (switch_int value targets otherwise)) l = inl (λ s. refl)
Adds-end (some (Terminator.call callee args destination next)) l = Adds-define destination l

pub Adds-block : (b : BasicBlock) → Adds (initialize_block b)
unfolding initialize_block
Adds-block b =
    Adds-comp (initialize_statements b.statements) (initialize_end b.terminator)
      (Adds-statements b.statements) (Adds-end b.terminator)

Adds-blocks : (bs : List BasicBlock) → Adds (initialize_blocks bs)
unfolding initialize_blocks
Adds-blocks [] l = inl (λ s. refl)
Adds-blocks (b ∷ bs) l =
    Adds-comp (initialize_block b) (initialize_blocks bs) (Adds-block b) (Adds-blocks bs) l

-- What it is given stays.
pub Subset_of_Adds : (g : LocalSet → LocalSet) → Adds g → (s : LocalSet) → Subset s (g s)
Subset_of_Adds g p s l h = elim (p l) [ inl same ↦ same s ∙ h | inr always ↦ always s ]

-- A block of the list adds nothing that the whole list does not add.
initialize_blocks-block :
    (bs : List BasicBlock) (k : ℕ) (b : BasicBlock) (s t : LocalSet)
    → get_elem? bs k ≡ some b
    → Subset t (initialize_blocks bs s)
    → Subset (initialize_block b t) (initialize_blocks bs s)
unfolding initialize_blocks
initialize_blocks-block [] k b s t e sub l h = absurd (cc)
initialize_blocks-block (x ∷ bs) (suc k) b s t e sub l h =
    initialize_blocks-block bs k b (initialize_block x s) t e sub l h
initialize_blocks-block (x ∷ bs) zero b s t e sub l h =
    let same : x ≡ b = cc e in
    elim (Adds-block b l) [
      | inl kept ↦ sub l (sym (kept t) ∙ h)
      | inr always ↦
          Subset_of_Adds (initialize_blocks bs) (Adds-blocks bs) (initialize_block x s) l
            (rw same (always s))
    ]

pub ever_initialized-block :
    (f : MirFunction) (k : ℕ) (b : BasicBlock) (t : LocalSet)
    → get_elem? f.blocks k ≡ some b
    → Subset t (ever_initialized f)
    → Subset (initialize_block b t) (ever_initialized f)
unfolding ever_initialized
ever_initialized-block f k b t = initialize_blocks-block f.blocks k b (parameters f) t

pub parameters-Subset : (f : MirFunction) → Subset (parameters f) (ever_initialized f)
unfolding ever_initialized
parameters-Subset f =
    Subset_of_Adds (initialize_blocks f.blocks) (Adds-blocks f.blocks) (parameters f)
