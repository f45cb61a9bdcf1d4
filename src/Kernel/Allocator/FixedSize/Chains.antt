-- ===== src/Kernel/Allocator/FixedSize/Chains.antt =====
-- kernel/src/allocator/fixed_size_block.rs: the free lists in memory.
use yacuri.Base.{
  ℕ, suc, ◌≤◌, ◌<◌, ◌≡◌, ◌≢◌, refl, ap, sym, subst, ◌∙◌, arith, Option, none, some, List, [], ◌∷◌,
  length, Bool-cases, inl, inr, leb, ◌==◌, ==_iff, get_or, set, get_or-set,
}
use yacuri.Kernel.Allocator.FixedSize.{position, next_index, put}
use yacuri.Kernel.Allocator.FixedSize.Owners.{Owner, free_list}

next_index-some :
    (o : Option ℕ) (i : ℕ) → next_index o ≡ some i → (j : ℕ) × (o ≡ some j) × (i ≡ suc j)
next_index-some none i h = absurd (ground (arith, h))
next_index-some (some j) i h = (j, refl, ground (arith, h))

-- An index that is found is in range, and its size is enough.
pub position-fits :
    (sizes : List ℕ) (required i : ℕ)
    → position sizes required ≡ some i
    → (i < length sizes) × (required ≤ get_or sizes i 0)
position-fits [] required i h = absurd (ground (arith, h))
position-fits (size ∷ sizes) required i h = elim (Bool-cases (leb required size)) [
  | inl fits ↦
      let at_zero : i ≡ 0 = ground (arith, h, fits) in
      rw at_zero (omega arith, ground (arith, fits))
  | inr short ↦
      let (j, found, next) =
        next_index-some (position sizes required) i (ground (arith, h, short)) in
      let (in_range, enough) = position-fits sizes required j found in rw next (omega arith, enough)
]

abbrev pub Avoids : ℕ → List ℕ → Type 0
Avoids p [] = Unit
Avoids p (a ∷ blocks) = (p ≢ a) × Avoids p blocks

-- From the head, the nodes lead through these blocks, no block twice, all of this free list.
abbrev pub Chain : (ℕ → Option ℕ) → (ℕ → Owner) → ℕ → Option ℕ → List ℕ → Type 0
Chain nodes owner index head [] = head ≡ none
Chain nodes owner index head (a ∷ blocks) =
    (head ≡ some a)
    × (owner a ≡ free_list index)
    × Avoids a blocks
    × Chain nodes owner index (nodes a) blocks

-- Where nothing changes but at a block outside the list, the list stays.
pub Chain-frame :
    (p : ℕ) (nodes nodes' : ℕ → Option ℕ) (owner owner' : ℕ → Owner)
    → ((a : ℕ) → p ≢ a → nodes' a ≡ nodes a)
    → ((a : ℕ) → p ≢ a → owner' a ≡ owner a)
    → (index : ℕ) (head : Option ℕ) (blocks : List ℕ) → Avoids p blocks
    → Chain nodes owner index head blocks
    → Chain nodes' owner' index head blocks
Chain-frame p nodes nodes' owner owner' same_nodes same_owner index head [] avoids chain = chain
Chain-frame p nodes nodes' owner owner' same_nodes same_owner index head (a ∷ blocks)
      (other, avoids) (at_a, owned, fresh, chain) =
    (
      at_a,
      same_owner a other ∙ owned,
      fresh,
      Chain-frame p nodes nodes' owner owner' same_nodes same_owner index (nodes' a) blocks avoids
          (subst (λ head. Chain nodes owner index head blocks) (sym (same_nodes a other)) chain),
    )

-- A block of another owner is not in the list.
pub Chain-Avoids :
    (p : ℕ) (nodes : ℕ → Option ℕ) (owner : ℕ → Owner) (index : ℕ) (head : Option ℕ)
    (blocks : List ℕ)
    → owner p ≢ free_list index
    → Chain nodes owner index head blocks
    → Avoids p blocks
Chain-Avoids p nodes owner index head [] other chain = tt
Chain-Avoids p nodes owner index head (a ∷ blocks) other (at_a, owned, fresh, chain) = (
  λ same. other (ap owner same ∙ owned),
  Chain-Avoids p nodes owner index (nodes a) blocks other chain,
)

pub put_self : {A : Type 0} (p : ℕ) (x : A) (f : ℕ → A) → put p x f p ≡ x
put_self p x f = ground arith

pub put-other : {A : Type 0} (p : ℕ) (x : A) (f : ℕ → A) (a : ℕ) → p ≢ a → put p x f a ≡ f a
put-other p x f a h = ground arith

some-injective : (a b : ℕ) → some a ≡ some b → a ≡ b
some-injective a b e = ground (arith, e)

-- The first block of a list, and the list behind it.
pub Chain-head :
    (nodes : ℕ → Option ℕ) (owner : ℕ → Owner) (index p : ℕ) (blocks : List ℕ)
    → Chain nodes owner index (some p) blocks
    → (rest : List ℕ) × (owner p ≡ free_list index)
      × Avoids p rest
      × Chain nodes owner index (nodes p) rest
Chain-head nodes owner index p [] chain = absurd (ground (arith, chain))
Chain-head nodes owner index p (a ∷ rest) (at_a, owned, fresh, chain) =
    subst
      (λ b.
        (rest' : List ℕ) × (owner b ≡ free_list index)
        × Avoids b rest'
        × Chain nodes owner index (nodes b) rest')
      (sym (some-injective p a at_a)) (rest, owned, fresh, chain)

-- A list is given a new head by a change at one block that is in no other list.
pub Chain-set :
    (p : ℕ) (nodes nodes' : ℕ → Option ℕ) (owner owner' : ℕ → Owner)
    → ((a : ℕ) → p ≢ a → nodes' a ≡ nodes a)
    → ((a : ℕ) → p ≢ a → owner' a ≡ owner a)
    → (heads : List (Option ℕ)) (index : ℕ) (head : Option ℕ) (blocks : List ℕ)
    → index < length heads
    → ((i : ℕ) → index ≢ i → owner p ≢ free_list i)
    → Chain nodes' owner' index head blocks
    → ((i : ℕ) → (blocks' : List ℕ) × Chain nodes owner i (get_or heads i none) blocks')
    → (i : ℕ)
    → (blocks' : List ℕ) × Chain nodes' owner' i (get_or (set heads index head) i none) blocks'
Chain-set p nodes nodes' owner owner' same_nodes same_owner heads index head blocks in_range
      elsewhere chain chains i =
    let now = get_or-set heads index head i none in_range in
    elim (Bool-cases (index == i)) [
      | inl here ↦
          let at_head : get_or (set heads index head) i none ≡ head = now ∙ rw here refl in
          (
            blocks,
            subst (λ h. Chain nodes' owner' i h blocks) (sym at_head)
                (subst (λ j. Chain nodes' owner' j head blocks) ((==_iff index i).0 here) chain),
          )
      | inr there ↦
          let at_old : get_or (set heads index head) i none ≡ get_or heads i none =
            now ∙ rw there refl in
          let apart : index ≢ i = λ e. ground (arith, there, e) in
          let (kept, old) = chains i in
          (
            kept,
            subst (λ h. Chain nodes' owner' i h kept) (sym at_old)
                (Chain-frame p nodes nodes' owner owner' same_nodes same_owner i
                  (get_or heads i none) kept
                  (Chain-Avoids p nodes owner i (get_or heads i none) kept (elsewhere i apart) old)
                  old),
          )
    ]
