-- ===== src/Kernel/Allocator/FixedSize/Growing.antt =====
-- A heap that only grows, so that the theorems on the allocator can be applied.
use native.Mathlib.Nat.{div-add-mod', mod-lt}
use yacuri.Base.{
  ℕ, ◌+◌, ◌*◌, ◌/◌, ◌≤◌, ◌<◌, ◌≡◌, ◌≢◌, refl, ap, sym, subst, ◌∙◌, arith, Option, none, some,
  Bool-cases, Option-cases, inl, inr, ◌⊎◌, if◌then◌else◌, ◌==◌, ==_iff, true, false,
}
use yacuri.Kernel.Allocator.Layout.{Layout, IsAligned}
use yacuri.Kernel.Allocator.FixedSize.{Heap, put}
use yacuri.Kernel.Allocator.FixedSize.Owners.{HeapLaws}

abbrev pub allocate : Layout → ℕ → Option ℕ × ℕ
allocate layout next =
    let p = (next / layout.align + 1) * layout.align in
    if layout.align == 0 then (none, next) else (some p, p + layout.size)

abbrev pub growing : Heap
growing = record {
  State = ℕ;
  empty = 0;
  init = λ start size next. start;
  allocate_first_fit = allocate;
  deallocate = λ p layout next. next;
}

abbrev pub Gave : ℕ → (ℕ → Option Layout) → Type 0
Gave next gave =
    ((p : ℕ) (layout : Layout)
      → gave p ≡ some layout
      → (0 < p) × (p + layout.size ≤ next) × IsAligned layout.align p)
    × ((p q : ℕ) (layout other : Layout)
        → gave p ≡ some layout
        → gave q ≡ some other
        → p ≢ q
        → (p + layout.size ≤ q) ⊎ (q + other.size ≤ p))

-- Where the heap places a block.
record Placed (layout : Layout) (next p next' : ℕ) : Type 0 where
  above : next < p
  ends : next' ≡ p + layout.size
  multiple : IsAligned layout.align p

some-injective : {A : Type 0} (a b : A) → some a ≡ some b → a ≡ b
some-injective a b e = ap (λ o. elim o [ none ↦ a | some x ↦ x ]) e

next-multiple : (a n : ℕ) → 0 < a → n < (n / a + 1) * a
next-multiple a n positive = grind (arith, div-add-mod' n a, mod-lt n positive)

some-pair : (a a' b b' : ℕ) → ◌≡◌ {A = Option ℕ × ℕ} (some a, b) (some a', b') → (a ≡ a') × (b ≡ b')
some-pair a a' b b' e = (ap (λ (o, x). elim o [ none ↦ a | some y ↦ y ]) e, ap (λ (o, x). x) e)

refused :
    (layout : Layout) (next : ℕ) → (layout.align == 0) ≡ true → allocate layout next ≡ (none, next)
refused layout next h = rw h refl

given :
    (layout : Layout) (next : ℕ)
    → (layout.align == 0) ≡ false
    → allocate layout next ≡ (
      some ((next / layout.align + 1) * layout.align),
      (next / layout.align + 1) * layout.align + layout.size,
    )
given layout next h = rw h refl

allocate-Placed :
    (layout : Layout) (next p next' : ℕ)
    → allocate layout next ≡ (some p, next')
    → Placed layout next p next'
allocate-Placed layout next p next' e = elim (Bool-cases (layout.align == 0)) [
  | inl zero_align ↦
      absurd (ground (arith, ap (λ (o, x). o) (sym (refused layout next zero_align) ∙ e)))
  | inr some_align ↦
      let q = (next / layout.align + 1) * layout.align in
      let (at, ends) =
        some-pair q p (q + layout.size) next' (sym (given layout next some_align) ∙ e) in
      subst (λ p. Placed layout next p next') at
        record {
          above = next-multiple layout.align next (ground (arith, some_align));
          ends = sym ends;
          multiple = (next / layout.align + 1, refl);
        }
]

put-cases :
    (p a : ℕ) (x : Option Layout) (gave : ℕ → Option Layout) (layout : Layout)
    → put p x gave a ≡ some layout
    → ((a ≡ p) × (x ≡ some layout)) ⊎ ((a ≢ p) × (gave a ≡ some layout))
put-cases p a x gave layout h = elim (Bool-cases (a == p)) [
  | inl here ↦ inl ((==_iff a p).0 here, sym (ap (λ t. if t then x else gave a) here) ∙ h)
  | inr there ↦
      inr ((λ e. ground (arith, there, e)), sym (ap (λ t. if t then x else gave a) there) ∙ h)
]

pub no_blocks : (next : ℕ) → Gave next (λ a. none)
no_blocks next =
    ((λ p layout e. absurd (ground (arith, e))), λ p q layout other e. absurd (ground (arith, e)))

pub not_zero : (p : ℕ) → 0 < p → p ≢ 0
not_zero p h = omega arith

pub gives-Gave :
    (layout : Layout) (s s' : ℕ) (gave : ℕ → Option Layout) (p : ℕ)
    → allocate layout s ≡ (some p, s')
    → Gave s gave
    → (gave p ≡ none) × Gave s' (put p (some layout) gave)
gives-Gave layout s s' gave p e (bounds, apart) =
    let placed = allocate-Placed layout s p s' e in
    let old_end : (a : ℕ) (l : Layout) → gave a ≡ some l → a + l.size ≤ s =
      λ a l h. (bounds a l h).1 in
    (
      elim (Option-cases (gave p)) [
        | inl nobody ↦ nobody
        | inr (l, taken) ↦ absurd (omega (arith, old_end p l taken, placed.above))
      ],
      (
        (λ a l h. elim (put-cases p a (some layout) gave l h) [
          | inl (at, same) ↦
              subst (λ l. (0 < a) × (a + l.size ≤ s') × IsAligned l.align a)
                (some-injective layout l same)
                (
                  omega (arith, at, placed.above),
                  omega (arith, at, placed.ends),
                  subst (IsAligned layout.align) (sym at) placed.multiple,
                )
          | inr (other, old) ↦
              let (positive, ends, multiple) = bounds a l old in
              (positive, omega (arith, placed.above, placed.ends), multiple)
        ]),
        λ a b l m h k differ. elim (put-cases p a (some layout) gave l h) [
          | inl (at, same) ↦ elim (put-cases p b (some layout) gave m k) [
            | inl (at', same') ↦ absurd (differ (at ∙ sym at'))
            | inr (other, old) ↦ inr (omega (arith, old_end b m old, placed.above, at))
          ]
          | inr (other, old) ↦ elim (put-cases p b (some layout) gave m k) [
            | inl (at', same') ↦ inl (omega (arith, old_end a l old, placed.above, at'))
            | inr (other', old') ↦ apart a b l m old old' differ
          ]
        ],
      ),
    )

pub refuses-Gave :
    (layout : Layout) (s s' : ℕ) (gave : ℕ → Option Layout)
    → allocate layout s ≡ (none, s')
    → Gave s gave
    → Gave s' gave
refuses-Gave layout s s' gave e g = elim (Bool-cases (layout.align == 0)) [
  | inl zero_align ↦
      subst (λ n. Gave n gave) (ap (λ (o, x). x) (sym (refused layout s zero_align) ∙ e)) g
  | inr some_align ↦ absurd (ground (arith, ap (λ (o, x). o) (sym (given layout s some_align) ∙ e)))
]

pub takes-Gave : (s : ℕ) (gave : ℕ → Option Layout) (p : ℕ) → Gave s gave → Gave s (put p none gave)
takes-Gave s gave p (bounds, apart) =
    let old : (a : ℕ) (l : Layout) → put p none gave a ≡ some l → gave a ≡ some l = λ a l h.
      elim (put-cases p a none gave l h) [
        | inl (at, same) ↦ absurd (ground (arith, same))
        | inr (other, old) ↦ old
      ] in
    (
      (λ a l h. bounds a l (old a l h)),
      λ a b l m h k differ. apart a b l m (old a l h) (old b m k) differ,
    )

abbrev pub growing_laws : HeapLaws growing
growing_laws = record {
  Gave = Gave;
  begins = λ start size. no_blocks start;
  gives = gives-Gave;
  refuses = refuses-Gave;
  takes = λ layout s gave p e g. takes-Gave s gave p g;
  not_null = λ s gave p layout g e. not_zero p (g.0 p layout e).0;
  aligned = λ s gave p layout g e. (g.0 p layout e).2;
  apart = λ s gave p q layout other g e e'. g.1 p q layout other e e';
}
