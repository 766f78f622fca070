-- ===== src/Mem/Seg.antt =====
-- Chains of nodes, what they stand for, and what they do not touch.
use mathlib.Core.Bool.{or_assoc}
use client_shared_lib.Base.{
  ◌≡◌, refl, ◌∙◌, sym, ap, Bool, true, false, ◌||◌, Option, none, some, List, [], ◌∷◌, ◌++◌, arith,
  ◌==◌,
}
use client_shared_lib.Mem.{Ptr, null, Node, node, Heap, Store, write}
use client_shared_lib.Mem.Points.{Points, Points-write_self}

-- what a queue stands for: address and item of each node, in order
abbrev pub Cells : Type 0 → Type 0
Cells A = List (Ptr × A)

abbrev pub has : {A : Type 0} → Ptr → Cells A → Bool
has p [] = false
has p ((q, _) ∷ xs) = (p == q) || has p xs

pub has-append :
    {A : Type 0} (p : Ptr) (xs ys : Cells A) → has p (xs ++ ys) ≡ (has p xs || has p ys)
has-append p [] ys = refl
has-append p (x ∷ xs) ys = rw (has-append p xs ys, or_assoc)

pub not-has-snoc :
    {A : Type 0} (p q : Ptr) (a : A) (xs : Cells A)
    → has p xs ≡ false
    → (q == p) ≡ false
    → has p (xs ++ (q, a) ∷ []) ≡ false
not-has-snoc p q a xs out ne = rw (has-append p xs ((q, a) ∷ []), out) (ground arith)

-- From `p` the `next` pointers lead through the distinct nodes `xs` to `stop`. `L b c` is what is
-- known of the `prev` pointer `c` of a node that follows the node `b`.
pub data Chain {A : Type 0} (L : Ptr → Ptr → Type 0) (h : Heap A) (stop : Ptr)
    : Ptr → Ptr → Cells A → Type 0 where
  nil : {b : Ptr} → Chain L h stop b stop []
  cons :
      {b p c q : Ptr} {a : A} {xs : Cells A}
      → Points h p (node a c q)
      → L b c
      → has p xs ≡ false
      → Chain L h stop p q xs
      → Chain L h stop b p ((p, a) ∷ xs)

-- `prev` leads back to the node before.
abbrev pub Exact : Ptr → Ptr → Type 0
Exact b c = c ≡ b

-- Nothing is known of `prev`.
abbrev pub Loose : Ptr → Ptr → Type 0
Loose b c = Unit

abbrev pub IsQueue : {A : Type 0} → (Ptr → Ptr → Type 0) → Store A → Cells A → Type 0
IsQueue L s xs = Chain L s.heap null null s.head xs

pub IsQueue-of_eq :
    {A : Type 0} {L : Ptr → Ptr → Type 0} {s t : Store A} {xs : Cells A}
    → t ≡ s
    → IsQueue L s xs
    → IsQueue L t xs
IsQueue-of_eq e q = rw e q

module _ {A : Type 0} {L : Ptr → Ptr → Type 0} {h : Heap A} {stop : Ptr} where
  pub eq_of_nil : {b p : Ptr} → Chain L h stop b p [] → p ≡ stop
  eq_of_nil nil = refl

  -- a chain survives any change that spares its own addresses
  pub frame :
      {g : Heap A} {b p : Ptr} {xs : Cells A}
      → Chain L h stop b p xs
      → ((a : Ptr) → has a xs ≡ true → g a ≡ h a)
      → Chain L g stop b p xs
  frame nil same = nil
  frame (cons {p} e l out s) same =
      cons (record { not_null = e.not_null; holds = same p (ground arith) ∙ e.holds }) l out
        (frame s λ a i. same a (ground arith))

  pub frame-write :
      {b p : Ptr} {xs : Cells A} (a : Ptr) (c : Option (Node A))
      → Chain L h stop b p xs
      → has a xs ≡ false
      → Chain L (write h a c) stop b p xs
  unfolding write
  frame-write a c s out = frame s (ground arith)

  pub not-has_of_none :
      {b p : Ptr} {xs : Cells A} (a : Ptr) → Chain L h stop b p xs → h a ≡ none → has a xs ≡ false
  not-has_of_none a nil unused = refl
  not-has_of_none a (cons e l out s) unused = ground (arith, e.holds, not-has_of_none a s unused)

-- every address outside `xs` holds what it held
abbrev pub SameOutside : {A : Type 0} → Cells A → Heap A → Heap A → Type 0
SameOutside xs h g = (a : Ptr) → has a xs ≡ false → g a ≡ h a

module _ {A : Type 0} {h g : Heap A} where
  pub SameOutside-cons :
      (p : Ptr) (a : A) (xs : Cells A) → SameOutside xs h g → SameOutside ((p, a) ∷ xs) h g
  SameOutside-cons p a xs same x i = same x (ground arith)

module _ {A : Type 0} {L : Ptr → Ptr → Type 0} {h g : Heap A} {stop : Ptr} where
  -- the first node is left alone while the rest of its chain changes
  pub cons-SameOutside :
      (xs : Cells A) {b p c q : Ptr} {a : A} {ys : Cells A}
      → Points h p (node a c q)
      → L b c
      → has p xs ≡ false
      → has p ys ≡ false
      → SameOutside xs h g
      → Chain L g stop p q ys
      → Chain L g stop b p ((p, a) ∷ ys)
  cons-SameOutside xs {p} e l out out' same ch =
      cons (record { not_null = e.not_null; holds = same p out ∙ e.holds }) l out' ch

module _ {A : Type 0} (h : Heap A) where
  pub SameOutside-write :
      (p : Ptr) (a : A) (c : Option (Node A)) (xs : Cells A)
      → SameOutside ((p, a) ∷ xs) h (write h p c)
  unfolding write
  SameOutside-write p a c xs x i = ground arith

module _ {A : Type 0} {L : Ptr → Ptr → Type 0} {h : Heap A} {stop : Ptr} where
  -- the first node gets another item
  pub cons-write :
      {b p c q : Ptr} {a : A} {xs : Cells A} (a' : A)
      → Points h p (node a c q)
      → L b c
      → has p xs ≡ false
      → Chain L h stop p q xs
      → Chain L (write h p (some (node a' c q))) stop b p ((p, a') ∷ xs)
  cons-write {p} {c} {q} a' e l out ch =
      cons (Points-write_self e (node a' c q)) l out (frame-write p _ ch out)

module _ {A : Type 0} {L : Ptr → Ptr → Type 0} {h : Heap A} {stop : Ptr} (r : Ptr) (a : A)
    (post : Cells A) where
  -- the part of a chain in front of one of its nodes
  pub prefix :
      {b p : Ptr} (pre : Cells A)
      → Chain L h stop b p (pre ++ (r, a) ∷ post)
      → Chain L h r b p pre × (has r pre ≡ false) × ((r == null) ≡ false)
  prefix [] (cons e l out ch) = (nil, refl, e.not_null)
  prefix ((p, x) ∷ pre) (cons e l out ch) =
      let (front, away, ne) = prefix pre ch in
      (
        cons e l (ground (arith, has-append p pre ((r, a) ∷ post))) front,
        ground (arith, has-append p pre ((r, a) ∷ post)),
        ne,
      )

  -- no node stands twice in a chain
  pub not-has-behind :
      {b p : Ptr} (pre : Cells A) → Chain L h stop b p (pre ++ (r, a) ∷ post) → has r post ≡ false
  not-has-behind [] (cons e l out ch) = out
  not-has-behind ((p, x) ∷ pre) (cons e l out ch) = not-has-behind pre ch

module _ {A : Type 0} {L : Ptr → Ptr → Type 0} {h : Heap A} where
  -- the addresses lead through one list of cells only
  Chain-unique :
      {b d p : Ptr} {xs ys : Cells A} → Chain L h null b p xs → Chain L h null d p ys → xs ≡ ys
  Chain-unique nil nil = refl
  Chain-unique nil (cons e l out ch) = let bad = e.not_null in cc
  Chain-unique (cons e l out ch) nil = let bad = e.not_null in cc
  Chain-unique (cons {p} {c} {q} {a} {xs} e l out ch)
        (cons {c = c'} {q = q'} {a = a'} {xs = ys} e' l' out' ch') =
      let both : some (node a c q) ≡ some (node a' c' q') = sym e.holds ∙ e'.holds in
      let same : node a c q ≡ node a' c' q' = cc in
      let rest : xs ≡ ys = Chain-unique {d = p} ch (rw (ap (λ n. n.next) same) ch') in
      rw (ap (λ n. n.item) same, rest)

pub IsQueue-unique :
    {A : Type 0} {L : Ptr → Ptr → Type 0} (s : Store A) {xs ys : Cells A}
    → IsQueue L s xs
    → IsQueue L s ys
    → xs ≡ ys
IsQueue-unique s one two = Chain-unique one two
