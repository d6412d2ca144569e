-- ===== src/SkipList/Tests.antt =====
-- The skip list operations on a list of two nodes with a removed one between them.
use crossbeam.Prelude.{
  ℕ, ◌<◌, ◌≡◌, ◌≢◌, inl, refl, ap, subst, suc, length, ◌≤◌, true, false, none, some, List, [], ◌∷◌,
  ◌==◌, arith, ne→==, if◌then◌else◌,
}
use crossbeam.SkipList.Chain.{All, Mem, here, there, Linked, Pairwise, Apart}
use crossbeam.SkipList.Compare.{nat_comparator, excluded, above_lower_bound, below_upper_bound}
use crossbeam.SkipList.Defs.{NodeRef, Link, SkipList, put, null}
use crossbeam.SkipList.Next.{front-first, entry_next-first_above}
use crossbeam.SkipList.InstallKey.{Enters, install-enter}
use crossbeam.SkipList.Iterate.{entry_next}
use crossbeam.SkipList.Search.{front, lower_bound, upper_bound, get}
use crossbeam.SkipList.Remove.{remove, entry_remove}
use crossbeam.SkipList.Invariant.{IsNode, Before, IsSkipList}
use crossbeam.SkipList.Unlink.{put-each}
use crossbeam.SkipList.Queries.{Answers, lower_bound-first_above, upper_bound-below, get-lookup}
use crossbeam.SkipList.Erase.{HasRoom}
use crossbeam.SkipList.Removed.{Erases, entry_remove-erase}
use crossbeam.SkipList.RemoveKey.{remove-erase}

abbrev three : NodeRef ℕ ℕ
three = record { address = 1; key = 3; value = 30; height = 1 }

abbrev five : NodeRef ℕ ℕ
five = record { address = 2; key = 5; value = 50; height = 1 }

abbrev seven : NodeRef ℕ ℕ
seven = record { address = 3; key = 7; value = 70; height = 1 }

abbrev lowest : ℕ → Link ℕ ℕ
lowest a =
    if a == 0
    then record { ptr = some three; tag = false }
    else if a == 1
    then record { ptr = some five; tag = false }
    else if a == 2
    then record { ptr = some seven; tag = true }
    else null

abbrev few : SkipList ℕ ℕ
few = record {
  links = λ a. put (λ i. null) 0 (lowest a);
  refs = λ a. 1;
  allocated = 3;
  deferred = [];
  len = 2;
  max_height = 1;
}

abbrev few_chain : ℕ → List (NodeRef ℕ ℕ)
few_chain = put (λ i. []) 0 (three ∷ five ∷ seven ∷ [])

higher-null : (a j : ℕ) → j ≢ 0 → few.links a j ≡ null
higher-null a j ne = rw (ne→== j 0 ne)

one_node :
    (x y : NodeRef ℕ ℕ)
    → Mem x (three ∷ five ∷ seven ∷ [])
    → Mem y (three ∷ five ∷ seven ∷ [])
    → x.address ≡ y.address
    → x ≡ y
one_node x y here here e = refl
one_node x y here (there here) e = absurd (omega (arith, e))
one_node x y here (there (there here)) e = absurd (omega (arith, e))
one_node x y (there here) here e = absurd (omega (arith, e))
one_node x y (there here) (there here) e = refl
one_node x y (there here) (there (there here)) e = absurd (omega (arith, e))
one_node x y (there (there here)) here e = absurd (omega (arith, e))
one_node x y (there (there here)) (there here) e = absurd (omega (arith, e))
one_node x y (there (there here)) (there (there here)) e = refl
one_node _ y here (there (there (there m))) e = elim m [ ]
one_node _ y (there here) (there (there (there m))) e = elim m [ ]
one_node _ y (there (there here)) (there (there (there m))) e = elim m [ ]
one_node x y (there (there (there m))) _ e = elim m [ ]

higher-empty : (j : ℕ) → j ≢ 0 → few_chain j ≡ []
higher-empty j ne = rw (ne→== j 0 ne)

lowest-Mem : (j : ℕ) (x : NodeRef ℕ ℕ) → Mem x (few_chain j) → Mem x (three ∷ five ∷ seven ∷ [])
lowest-Mem j x =
    put-each (λ i l. Mem x l → Mem x (three ∷ five ∷ seven ∷ [])) (λ i. []) 0
      (three ∷ five ∷ seven ∷ []) (λ m. m) (λ i ne m. elim m [ ]) j

few-Apart : Apart 0 (three ∷ five ∷ seven ∷ [])
few-Apart = (
  ((λ e. omega (arith, e)), ((λ e. omega (arith, e)), ((λ e. omega (arith, e)), tt))),
  (((λ e. omega (arith, e)), ((λ e. omega (arith, e)), tt)), (((λ e. omega (arith, e)), tt), tt)),
)

node : (x : NodeRef ℕ ℕ) → x.address ≤ 3 → x.height ≡ 1 → 0 < x.address → IsNode few 0 x
node x low e pos = record {
  made = low;
  tall = omega (arith, e);
  limit = omega (arith, e);
  marked = refl;
  held = λ f. omega arith;
}

few-IsSkipList : IsSkipList few few_chain
unfolding nat_comparator
few-IsSkipList = record {
  linked =
      put-each (λ i l. Linked few i 0 l) (λ i. []) 0 (three ∷ five ∷ seven ∷ [])
        (refl, (refl, (refl, refl))) (λ j ne. ap (λ m. m.ptr) (higher-null 0 j ne));
  apart =
      put-each (λ i l. Apart 0 l) (λ i. []) 0 (three ∷ five ∷ seven ∷ []) few-Apart (λ j ne. tt);
  sorted =
      put-each (λ i l. Pairwise (Before few) l) (λ i. []) 0 (three ∷ five ∷ seven ∷ [])
        ((inl refl, (inl refl, tt)), ((inl refl, tt), (tt, tt))) (λ j ne. tt);
  nodes =
      put-each (λ i l. All (IsNode few i) l) (λ i. []) 0 (three ∷ five ∷ seven ∷ [])
        (
          node three (omega arith) refl (omega arith),
          (
            node five (omega arith) refl (omega arith),
            (node seven (omega arith) refl (omega arith), tt),
          ),
        )
        (λ j ne. tt);
  nested = λ i x m. elim (subst (Mem x) (higher-empty (suc i) (omega arith)) m) [ ];
  one = λ i j x y m n. one_node x y (lowest-Mem i x m) (lowest-Mem j y n);
  short =
      put-each (λ i l. length l ≤ 3) (λ i. []) 0 (three ∷ five ∷ seven ∷ []) (omega arith)
        (λ j ne. omega arith);
  clean = put-each (λ i l. l.tag ≡ false) (λ i. null) 0 (lowest 0) refl (λ j ne. refl);
  low = λ i h. higher-empty i (omega (arith, h));
  counted = omega arith;
}

few-HasRoom : HasRoom few
few-HasRoom a = omega arith

lower_bound-first_above_example :
    Answers few few_chain (lower_bound 4 (excluded 3) few) (some seven)
unfolding nat_comparator above_lower_bound
lower_bound-first_above_example =
    lower_bound-first_above 4 (excluded 3) few few_chain few-IsSkipList (omega arith)

upper_bound-below_example : Answers few few_chain (upper_bound 4 (excluded 7) few) (some three)
unfolding nat_comparator below_upper_bound
upper_bound-below_example =
    upper_bound-below 4 (excluded 7) few few_chain few-IsSkipList (omega arith)

get-lookup_example : Answers few few_chain (get 4 5 few) none
unfolding nat_comparator
get-lookup_example = get-lookup 4 5 few few_chain few-IsSkipList (omega arith)

entry_remove-erase_example : Erases 3 few few_chain (entry_remove 4 three few) true
unfolding nat_comparator
entry_remove-erase_example =
    entry_remove-erase 4 three few few_chain few-IsSkipList (omega arith) here refl

remove-erase_example : Erases 7 few few_chain (remove 1 4 7 few) (some seven)
unfolding nat_comparator
remove-erase_example =
    remove-erase 1 4 7 few few_chain few-IsSkipList few-HasRoom (omega arith) (omega arith)

front-first_example : Answers few few_chain (front 4 few) (some three)
unfolding nat_comparator
front-first_example = front-first 4 few few_chain few-IsSkipList (omega arith)

entry_next-first_above_example : Answers few few_chain (entry_next 4 three few) (some seven)
unfolding nat_comparator above_lower_bound
entry_next-first_above_example =
    entry_next-first_above 4 three few few_chain few-IsSkipList (omega arith) (λ e. here)

install-enter_example : Enters 4 1 5 51 1 (λ v. true) few few_chain
unfolding nat_comparator
install-enter_example =
    install-enter 1 4 5 51 1 (λ v. true) few few_chain few-IsSkipList (omega arith) (omega arith)
      (omega arith) (omega arith) (omega arith)
